-- ===== src/PktLine/RoundTrip.antt =====
-- `decodePktLines` of packages/rngit/src/pktline.js against `encodePktLine`.
use reticulum_js.Common.{
  ℕ, zero, suc, ◌+◌, ◌-◌, ◌/◌, ◌%◌, ◌^◌, ◌≤◌, ◌<◌, ◌≡◌, refl, ap, ◌∙◌, arith, Option, none, some,
  List, [], ◌∷◌, ◌++◌, append-nil, append_assoc, length, length-append, take, drop, take-append,
  drop-append, All, Result, ok, err,
}
use reticulum_js.PktLine.{
  PktError, flush, hex_digit, hex_value, header_value, encode_pkt_line, decode_loop,
  decode_pkt_lines,
}

hex_value-hex_digit : (d : ℕ) → d < 16 → hex_value (hex_digit d) ≡ some d
unfolding hex_value hex_digit
hex_value-hex_digit d h = ground arith

abbrev header_of : ℕ → List ℕ → List ℕ
header_of n body =
    hex_digit (n / 2 ^ 12 % 16)
    ∷ hex_digit (n / 2 ^ 8 % 16)
    ∷ hex_digit (n / 2 ^ 4 % 16)
    ∷ hex_digit (n % 16)
    ∷ body

header_value-header_of :
    (n : ℕ)
    → n < 2 ^ 16
    → header_value
        (hex_digit (n / 2 ^ 12 % 16))
        (hex_digit (n / 2 ^ 8 % 16))
        (hex_digit (n / 2 ^ 4 % 16))
        (hex_digit (n % 16))
      ≡ some n
unfolding header_value
header_value-header_of n h =
    rw
      (
        hex_value-hex_digit (n / 2 ^ 12 % 16) (omega arith),
        hex_value-hex_digit (n / 2 ^ 8 % 16) (omega arith),
        hex_value-hex_digit (n / 2 ^ 4 % 16) (omega arith),
        hex_value-hex_digit (n % 16) (omega arith),
      )
      (ap some (omega arith))

-- One entry of the stream.
unfoldable pub encode_entry : Option (List ℕ) → Result PktError (List ℕ)
encode_entry none = ok flush
encode_entry (some body) = encode_pkt_line body

abbrev pub Fits : Option (List ℕ) → Type 0
Fits none = Unit {0}
Fits (some body) = length body + 4 ≤ 0xffff

abbrev pub entry_size : Option (List ℕ) → ℕ
entry_size none = 4
entry_size (some body) = length body + 4

decode_line :
    (a b c d : ℕ) (rest : List ℕ) (fuel offset n : ℕ) (lines : List (Option (List ℕ)))
    → header_value a b c d ≡ some n
    → 4 ≤ n
    → n ≤ length rest + 4
    → decode_loop (suc fuel) (a ∷ b ∷ c ∷ d ∷ rest) offset lines
      ≡ decode_loop fuel (drop (n - 4) rest) (offset + n) (lines ++ some (take (n - 4) rest) ∷ [])
unfolding decode_loop
decode_line a b c d rest fuel offset n lines e lo hi = rw (e, decode_loop) (ground arith)

-- What one entry puts on the stream, and that one round of the loop takes it off.
entry_lem :
    (e : Option (List ℕ))
    → Fits e
    → (bytes : List ℕ) × (encode_entry e ≡ ok bytes)
      × (4 ≤ length bytes)
      × ((fuel offset : ℕ) (rest : List ℕ) (lines : List (Option (List ℕ)))
          → decode_loop (suc fuel) (bytes ++ rest) offset lines
            ≡ decode_loop fuel rest (offset + entry_size e) (lines ++ e ∷ []))
entry_lem none fits = (
  flush,
  unfold encode_entry in refl,
  omega arith,
  λ fuel offset rest lines. unfold decode_loop header_value hex_value in refl,
)
entry_lem (some body) fits = (
  header_of (length body + 4) body,
  unfold encode_entry encode_pkt_line in ground arith,
  omega arith,
  λ fuel offset rest lines. round fuel offset rest lines,
)
  where
    round :
        (fuel offset : ℕ) (rest : List ℕ) (lines : List (Option (List ℕ)))
        → decode_loop (suc fuel) (header_of (length body + 4) (body ++ rest)) offset lines
          ≡ decode_loop fuel rest (offset + (length body + 4)) (lines ++ some body ∷ [])
    round fuel offset rest lines =
        let size : length body + 4 - 4 ≡ length body = omega arith in
        decode_line _ _ _ _ (body ++ rest) fuel offset (length body + 4) lines
          (header_value-header_of (length body + 4) (omega arith)) (omega arith)
          (omega (arith, length-append body rest))
        ∙ rw (
          size,
          take-append (length body) body rest refl,
          drop-append (length body) body rest refl,
        )

-- A whole stream.
unfoldable pub encode_all : List (Option (List ℕ)) → Result PktError (List ℕ)
encode_all [] = ok []
encode_all (e ∷ entries) = elim (encode_entry e) [
  | err x ↦ err x
  | ok bytes ↦ elim (encode_all entries) [ err x ↦ err x | ok rest ↦ ok (bytes ++ rest) ]
]

encode_all-cons :
    (e : Option (List ℕ)) (entries : List (Option (List ℕ))) (bytes rest : List ℕ)
    → encode_entry e ≡ ok bytes
    → encode_all entries ≡ ok rest
    → encode_all (e ∷ entries) ≡ ok (bytes ++ rest)
unfolding encode_all
encode_all-cons e entries bytes rest h h' = ground arith

stream_lem :
    (entries : List (Option (List ℕ)))
    → All Fits entries
    → (bytes : List ℕ) × (encode_all entries ≡ ok bytes)
      × (length entries ≤ length bytes)
      × ((fuel offset : ℕ) (lines : List (Option (List ℕ)))
          → length entries < fuel
          → decode_loop fuel bytes offset lines ≡ ok (lines ++ entries))
stream_lem [] fits = ([], unfold encode_all in refl, omega arith, done)
  where
    done :
        (fuel offset : ℕ) (lines : List (Option (List ℕ)))
        → 0 < fuel
        → decode_loop fuel [] offset lines ≡ ok (lines ++ [])
    done zero offset lines h = absurd (omega arith)
    done (suc fuel) offset lines h = unfold decode_loop in rw append-nil
stream_lem (e ∷ entries) fits =
    let (bytes, encoded, some_bytes, round) = entry_lem e fits.0 in
    let (rest, encoded', enough, back) = stream_lem entries fits.1 in
    (
      bytes ++ rest,
      encode_all-cons e entries bytes rest encoded encoded',
      omega (arith, length-append bytes rest),
      decode bytes rest round back,
    )
  where
    decode :
        (bytes rest : List ℕ)
        → ((fuel offset : ℕ) (rest : List ℕ) (lines : List (Option (List ℕ)))
            → decode_loop (suc fuel) (bytes ++ rest) offset lines
              ≡ decode_loop fuel rest (offset + entry_size e) (lines ++ e ∷ []))
        → ((fuel offset : ℕ) (lines : List (Option (List ℕ)))
            → length entries < fuel
            → decode_loop fuel rest offset lines ≡ ok (lines ++ entries))
        → (fuel offset : ℕ) (lines : List (Option (List ℕ))) → length (e ∷ entries) < fuel
        → decode_loop fuel (bytes ++ rest) offset lines ≡ ok (lines ++ e ∷ entries)
    decode bytes rest round back zero offset lines h = absurd (omega arith)
    decode bytes rest round back (suc fuel) offset lines h =
        round fuel offset rest lines
        ∙ back fuel (offset + entry_size e) (lines ++ e ∷ []) (omega arith)
        ∙ ap ok (append_assoc lines (e ∷ []) entries)

-- Flush packets and payloads of at most 65531 bytes can all be encoded, and decoding the stream gives
-- them back in order, a flush packet as `null`.
pub decode-encode_all :
    (entries : List (Option (List ℕ)))
    → All Fits entries
    → (bytes : List ℕ) × (encode_all entries ≡ ok bytes) × (decode_pkt_lines bytes ≡ ok entries)
unfolding decode_pkt_lines
decode-encode_all entries fits =
    let (bytes, encoded, enough, back) = stream_lem entries fits in
    (bytes, encoded, back (suc (length bytes)) 0 [] (omega arith))
