-- ===== src/Encoding/Hex.antt =====
-- `toHex` and `fromHex` of packages/core/src/utils/encoding.js.
use reticulum_js.Common.{
  ℕ, ◌*◌, ◌/◌, ◌%◌, ◌<◌, ◌≡◌, refl, ap, sym, ◌∙◌, arith, false, some, List, [], ◌∷◌, length, All,
  IsByte, ok,
}
use reticulum_js.Encoding.{
  hex_digit, to_hex, is_stripped, strip, hex_value, parse_pair, pairs, from_hex,
}

pub digit_facts :
    (d : ℕ) → d < 16 → (hex_value (hex_digit d) ≡ some d) × (is_stripped (hex_digit d) ≡ false)
unfolding hex_value hex_digit is_stripped
digit_facts d h = ground arith

strip-cons : (c : ℕ) (text : List ℕ) → is_stripped c ≡ false → strip (c ∷ text) ≡ c ∷ strip text
unfolding strip
strip-cons c text e = rw e

strip-to_hex : (bytes : List ℕ) → All IsByte bytes → strip (to_hex bytes) ≡ to_hex bytes
unfolding to_hex
strip-to_hex [] h = unfold strip in refl
strip-to_hex (b ∷ bytes) h =
    rw
      (
        strip-cons (hex_digit (b / 16)) (hex_digit (b % 16) ∷ to_hex bytes)
            (digit_facts (b / 16) (omega arith)).1,
        strip-cons (hex_digit (b % 16)) (to_hex bytes) (digit_facts (b % 16) (omega arith)).1,
      )
      (ap (λ text. hex_digit (b / 16) ∷ hex_digit (b % 16) ∷ text) (strip-to_hex bytes h.1))

parse_pair-hex_digit : (b : ℕ) → IsByte b → parse_pair (hex_digit (b / 16)) (hex_digit (b % 16)) ≡ b
unfolding parse_pair
parse_pair-hex_digit b h =
    ground (arith, (digit_facts (b / 16) (omega arith)).0, (digit_facts (b % 16) (omega arith)).0)

pairs-to_hex : (bytes : List ℕ) → All IsByte bytes → pairs (to_hex bytes) ≡ bytes
unfolding to_hex pairs
pairs-to_hex [] h = refl
pairs-to_hex (b ∷ bytes) h =
    rw (parse_pair-hex_digit b h.0) (ap (λ xs. b ∷ xs) (pairs-to_hex bytes h.1))

length-to_hex : (bytes : List ℕ) → length (to_hex bytes) ≡ 2 * length bytes
unfolding to_hex
length-to_hex [] = omega arith
length-to_hex (b ∷ bytes) = omega (arith, length-to_hex bytes)

-- `fromHex` reads back the bytes that `toHex` wrote.
pub from_hex-to_hex : (bytes : List ℕ) → All IsByte bytes → from_hex (to_hex bytes) ≡ ok bytes
unfolding from_hex
from_hex-to_hex bytes h =
    rw (strip-to_hex bytes h, pairs-to_hex bytes h) (ground (arith, length-to_hex bytes))

-- So two byte arrays with one text are equal: the text serves as a key.
pub to_hex_injective : (a b : List ℕ) → All IsByte a → All IsByte b → to_hex a ≡ to_hex b → a ≡ b
to_hex_injective a b ha hb e = sym (pairs-to_hex a ha) ∙ ap pairs e ∙ pairs-to_hex b hb
