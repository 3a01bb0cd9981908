-- ===== src/Encoding/Base64/RoundTrip.antt =====
-- Base64 of packages/core/src/utils/encoding.js is read back as it was written.
use reticulum_js.Common.{
  ℕ, zero, suc, ◌+◌, ◌-◌, ◌*◌, ◌/◌, ◌%◌, ◌^◌, ◌<◌, ◌≡◌, refl, ap, sym, ◌∙◌, arith, false, none,
  some, List, [], ◌∷◌, ◌++◌, append-nil, ◌==◌, length, replicate, map, All, IsByte,
}
use reticulum_js.Encoding.Base64.{
  sextet_char, bytes_to_base_64, base_64_dec, replace_char, strip_padding, low_six, join_sextets,
  byte_if, decode_quads, base_64_to_bytes, bytes_to_base_64_url, base_64_url_to_bytes,
}

-- The URL-safe character of a sextet.
abbrev url_char : ℕ → ℕ
url_char n = replace_char b'/' b'_' (replace_char b'+' b'-' (sextet_char n))

-- What is read back of a sextet's URL-safe character, and that it is no padding.
url_facts :
    (n : ℕ)
    → n < 64
    → (replace_char b'_' b'/' (replace_char b'-' b'+' (url_char n)) ≡ sextet_char n)
      × (base_64_dec (sextet_char n) ≡ some n)
      × ((sextet_char n == b'=') ≡ false)
      × ((url_char n == b'=') ≡ false)
unfolding replace_char sextet_char base_64_dec
url_facts n h = ground (arith, h)

-- The sextets of the bytes, without padding.
sextets : List ℕ → List ℕ
sextets [] = []
sextets (a ∷ []) = let n : ℕ = a * 2 ^ 16 in n / 2 ^ 18 % 64 ∷ n / 2 ^ 12 % 64 ∷ []
sextets (a ∷ b ∷ []) =
    let n : ℕ = a * 2 ^ 16 + b * 2 ^ 8 in n / 2 ^ 18 % 64 ∷ n / 2 ^ 12 % 64 ∷ n / 2 ^ 6 % 64 ∷ []
sextets (a ∷ b ∷ c ∷ bytes) =
    let n : ℕ = a * 2 ^ 16 + b * 2 ^ 8 + c in
    n / 2 ^ 18 % 64 ∷ n / 2 ^ 12 % 64 ∷ n / 2 ^ 6 % 64 ∷ n % 64 ∷ sextets bytes

sextets-small : (bytes : List ℕ) → All (λ n. n < 64) (sextets bytes)
unfolding sextets
sextets-small [] = tt
sextets-small (a ∷ []) = (omega arith, (omega arith, tt))
sextets-small (a ∷ b ∷ []) = (omega arith, (omega arith, (omega arith, tt)))
sextets-small (a ∷ b ∷ c ∷ bytes) =
    (omega arith, (omega arith, (omega arith, (omega arith, sextets-small bytes))))

padding : List ℕ → ℕ
padding [] = 0
padding (a ∷ []) = 2
padding (a ∷ b ∷ []) = 1
padding (a ∷ b ∷ c ∷ bytes) = padding bytes

abbrev url_text : List ℕ → List ℕ
url_text text = map (replace_char b'/' b'_') (map (replace_char b'+' b'-') text)

url_text-encode :
    (bytes : List ℕ)
    → url_text (bytes_to_base_64 bytes)
      ≡ map url_char (sextets bytes) ++ replicate (padding bytes) b'='
unfolding bytes_to_base_64 sextets padding replace_char
url_text-encode [] = refl
url_text-encode (a ∷ []) = refl
url_text-encode (a ∷ b ∷ []) = refl
url_text-encode (a ∷ b ∷ c ∷ bytes) =
    let n : ℕ = a * 2 ^ 16 + b * 2 ^ 8 + c in
    ap
      (λ r.
        url_char (n / 2 ^ 18 % 64)
        ∷ url_char (n / 2 ^ 12 % 64)
        ∷ url_char (n / 2 ^ 6 % 64)
        ∷ url_char (n % 64)
        ∷ r)
      (url_text-encode bytes)

strip-padding_only : (k : ℕ) → strip_padding (replicate k b'=') ≡ []
unfolding strip_padding
strip-padding_only zero = refl
strip-padding_only (suc k) = rw (strip-padding_only k) refl

strip_padding-cons :
    (c : ℕ) (text kept : List ℕ)
    → (c == b'=') ≡ false
    → strip_padding text ≡ kept
    → strip_padding (c ∷ text) ≡ c ∷ kept
unfolding strip_padding
strip_padding-cons c text [] h e = rw (strip_padding, e, h) refl
strip_padding-cons c text (d ∷ kept) h e = rw (strip_padding, e) refl

-- Padding behind characters that are none is stripped, and no more.
strip_padding-append :
    (text : List ℕ) (k : ℕ)
    → All (λ c. (c == b'=') ≡ false) text
    → strip_padding (text ++ replicate k b'=') ≡ text
strip_padding-append [] k h = strip-padding_only k
strip_padding-append (c ∷ text) k (h, hs) =
    strip_padding-cons c (text ++ replicate k b'=') text h (strip_padding-append text k hs)

url_chars_plain :
    (xs : List ℕ) → All (λ n. n < 64) xs → All (λ c. (c == b'=') ≡ false) (map url_char xs)
url_chars_plain [] h = tt
url_chars_plain (n ∷ xs) (h, hs) = ((url_facts n h).3, url_chars_plain xs hs)

chars_plain :
    (xs : List ℕ) → All (λ n. n < 64) xs → All (λ c. (c == b'=') ≡ false) (map sextet_char xs)
chars_plain [] h = tt
chars_plain (n ∷ xs) (h, hs) = ((url_facts n h).2, chars_plain xs hs)

plain_text :
    (xs : List ℕ)
    → All (λ n. n < 64) xs
    → map (replace_char b'_' b'/') (map (replace_char b'-' b'+') (map url_char xs))
      ≡ map sextet_char xs
plain_text [] h = refl
plain_text (n ∷ xs) (h, hs) = rw ((url_facts n h).0, plain_text xs hs) refl

quad :
    (p q r s : ℕ) (text : List ℕ)
    → p < 64
    → q < 64
    → r < 64
    → s < 64
    → let n : ℕ = p * 2 ^ 18 + q * 2 ^ 12 + r * 2 ^ 6 + s in
      decode_quads (sextet_char p ∷ sextet_char q ∷ sextet_char r ∷ sextet_char s ∷ text)
      ≡ n / 2 ^ 16 % 256 ∷ n / 2 ^ 8 % 256 ∷ n % 256 ∷ decode_quads text
unfolding decode_quads join_sextets low_six byte_if
quad p q r s text hp hq hr hs =
    rw ((url_facts p hp).1, (url_facts q hq).1, (url_facts r hr).1, (url_facts s hs).1) refl

quad_one :
    (p q r : ℕ)
    → p < 64
    → q < 64
    → r < 64
    → let n : ℕ = p * 2 ^ 18 + q * 2 ^ 12 + r * 2 ^ 6 + 63 in
      decode_quads (sextet_char p ∷ sextet_char q ∷ sextet_char r ∷ b'=' ∷ [])
      ≡ n / 2 ^ 16 % 256 ∷ n / 2 ^ 8 % 256 ∷ []
unfolding decode_quads join_sextets low_six byte_if
quad_one p q r hp hq hr =
    let pad : base_64_dec b'=' ≡ none = unfold base_64_dec in refl in
    rw ((url_facts p hp).1, (url_facts q hq).1, (url_facts r hr).1, pad) refl

quad_two :
    (p q : ℕ)
    → p < 64
    → q < 64
    → let n : ℕ = p * 2 ^ 18 + q * 2 ^ 12 + 63 * 2 ^ 6 + 63 in
      decode_quads (sextet_char p ∷ sextet_char q ∷ b'=' ∷ b'=' ∷ []) ≡ n / 2 ^ 16 % 256 ∷ []
unfolding decode_quads join_sextets low_six byte_if
quad_two p q hp hq =
    let pad : base_64_dec b'=' ≡ none = unfold base_64_dec in refl in
    rw ((url_facts p hp).1, (url_facts q hq).1, pad) refl

-- The sextets of 24 bits put together again.
regroup :
    (n : ℕ)
    → n < 2 ^ 24
    → n / 2 ^ 18 % 64 * 2 ^ 18 + n / 2 ^ 12 % 64 * 2 ^ 12 + n / 2 ^ 6 % 64 * 2 ^ 6 + n % 64 ≡ n
regroup n h = omega (arith, h)

decode_sextets :
    (bytes : List ℕ)
    → All IsByte bytes
    → decode_quads (
        map sextet_char (sextets bytes)
        ++ replicate ((4 - length (map sextet_char (sextets bytes)) % 4) % 4) b'=')
      ≡ bytes
unfolding sextets
decode_sextets [] h = unfold decode_quads in refl
decode_sextets (a ∷ []) (ha, h) =
    let n : ℕ = a * 2 ^ 16 in
    quad_two (n / 2 ^ 18 % 64) (n / 2 ^ 12 % 64) (omega arith) (omega arith)
    ∙ ap (λ x. x ∷ []) (omega (arith, ha))
decode_sextets (a ∷ b ∷ []) (ha, (hb, h)) =
    let n : ℕ = a * 2 ^ 16 + b * 2 ^ 8 in
    let m : ℕ = n / 2 ^ 18 % 64 * 2 ^ 18 + n / 2 ^ 12 % 64 * 2 ^ 12 + n / 2 ^ 6 % 64 * 2 ^ 6 + 63 in
    let all : m ≡ n + 63 = omega (arith, ha, hb) in
    let first : m / 2 ^ 16 % 256 ≡ a = omega (arith, ha, hb, all) in
    let second : m / 2 ^ 8 % 256 ≡ b = omega (arith, ha, hb, all) in
    quad_one (n / 2 ^ 18 % 64) (n / 2 ^ 12 % 64) (n / 2 ^ 6 % 64) (omega arith) (omega arith)
      (omega arith)
    ∙ ap (λ x. x ∷ m / 2 ^ 8 % 256 ∷ []) first
    ∙ ap (λ x. a ∷ x ∷ []) second
decode_sextets (a ∷ b ∷ c ∷ bytes) (ha, (hb, (hc, h))) =
    let n : ℕ = a * 2 ^ 16 + b * 2 ^ 8 + c in
    let m : ℕ =
      n / 2 ^ 18 % 64 * 2 ^ 18 + n / 2 ^ 12 % 64 * 2 ^ 12 + n / 2 ^ 6 % 64 * 2 ^ 6 + n % 64 in
    let all : m ≡ n = regroup n (omega (arith, ha, hb, hc)) in
    let first : m / 2 ^ 16 % 256 ≡ a = omega (arith, ha, hb, hc, all) in
    let second : m / 2 ^ 8 % 256 ≡ b = omega (arith, ha, hb, hc, all) in
    let third : m % 256 ≡ c = omega (arith, ha, hb, hc, all) in
    let l : ℕ = length (map sextet_char (sextets bytes)) in
    let same_pad : (4 - suc (suc (suc (suc l))) % 4) % 4 ≡ (4 - l % 4) % 4 = omega arith in
    let text : ℕ → List ℕ = λ k. map sextet_char (sextets bytes) ++ replicate k b'=' in
    quad (n / 2 ^ 18 % 64) (n / 2 ^ 12 % 64) (n / 2 ^ 6 % 64) (n % 64)
      (text ((4 - suc (suc (suc (suc l))) % 4) % 4)) (omega arith) (omega arith) (omega arith)
      (omega arith)
    ∙ ap
        (λ x.
          x
          ∷ m / 2 ^ 8 % 256
          ∷ m % 256
          ∷ decode_quads (text ((4 - suc (suc (suc (suc l))) % 4) % 4)))
        first
    ∙ ap (λ x. a ∷ x ∷ m % 256 ∷ decode_quads (text ((4 - suc (suc (suc (suc l))) % 4) % 4))) second
    ∙ ap (λ x. a ∷ b ∷ x ∷ decode_quads (text ((4 - suc (suc (suc (suc l))) % 4) % 4))) third
    ∙ ap (λ k. a ∷ b ∷ c ∷ decode_quads (text k)) same_pad
    ∙ ap (λ r. a ∷ b ∷ c ∷ r) (decode_sextets bytes h)

-- The URL-safe text of the bytes is the characters of their sextets.
encode_sextets : (bytes : List ℕ) → bytes_to_base_64_url bytes ≡ map url_char (sextets bytes)
unfolding bytes_to_base_64_url
encode_sextets bytes =
    ap strip_padding (url_text-encode bytes)
    ∙ strip_padding-append (map url_char (sextets bytes)) (padding bytes)
        (url_chars_plain (sextets bytes) (sextets-small bytes))

std_char :
    (n : ℕ)
    → n < 64
    → replace_char b'_' b'/' (replace_char b'-' b'+' (sextet_char n)) ≡ sextet_char n
unfolding replace_char sextet_char
std_char n h = ground (arith, h)

abbrev std_text : List ℕ → List ℕ
std_text text = map (replace_char b'_' b'/') (map (replace_char b'-' b'+') text)

-- The decoder's first two replacements do nothing to standard base64.
std_text-encode :
    (bytes : List ℕ)
    → std_text (bytes_to_base_64 bytes)
      ≡ map sextet_char (sextets bytes) ++ replicate (padding bytes) b'='
unfolding bytes_to_base_64 sextets padding
std_text-encode [] = refl
std_text-encode (a ∷ []) =
    let n : ℕ = a * 2 ^ 16 in
    rw (std_char (n / 2 ^ 18 % 64) (omega arith), std_char (n / 2 ^ 12 % 64) (omega arith))
      (unfold replace_char in refl)
std_text-encode (a ∷ b ∷ []) =
    let n : ℕ = a * 2 ^ 16 + b * 2 ^ 8 in
    rw
      (
        std_char (n / 2 ^ 18 % 64) (omega arith),
        std_char (n / 2 ^ 12 % 64) (omega arith),
        std_char (n / 2 ^ 6 % 64) (omega arith),
      )
      (unfold replace_char in refl)
std_text-encode (a ∷ b ∷ c ∷ bytes) =
    let n : ℕ = a * 2 ^ 16 + b * 2 ^ 8 + c in
    rw
      (
        std_char (n / 2 ^ 18 % 64) (omega arith),
        std_char (n / 2 ^ 12 % 64) (omega arith),
        std_char (n / 2 ^ 6 % 64) (omega arith),
        std_char (n % 64) (omega arith),
        std_text-encode bytes,
      )
      refl

-- On byte arrays `base64ToBytes` reads back what `bytesToBase64` wrote, with padding, and
-- `base64UrlToBytes` what `bytesToBase64Url` wrote, without.
pub base_64_round_trips :
    (bytes : List ℕ)
    → All IsByte bytes
    → (base_64_to_bytes (bytes_to_base_64 bytes) ≡ bytes)
      × (base_64_url_to_bytes (bytes_to_base_64_url bytes) ≡ bytes)
unfolding base_64_to_bytes
base_64_round_trips bytes h =
    let xs = sextets bytes in
    let small = sextets-small bytes in
    let back = plain_text xs small in
    let bare : strip_padding (map sextet_char xs) ≡ map sextet_char xs =
      ap strip_padding (sym (append-nil (map sextet_char xs)))
      ∙ strip_padding-append (map sextet_char xs) 0 (chars_plain xs small) in
    let padded : strip_padding (map sextet_char xs ++ replicate (padding bytes) b'=')
        ≡ map sextet_char xs =
      strip_padding-append (map sextet_char xs) (padding bytes) (chars_plain xs small) in
    (
      rw (std_text-encode bytes, padded) (decode_sextets bytes h),
      rw (encode_sextets bytes, back, bare) (decode_sextets bytes h),
    )
