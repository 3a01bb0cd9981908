-- ===== src/Encoding.antt =====
-- packages/core/src/utils/encoding.js: hexadecimal text, comparison and concatenation of bytes.
-- A string is the list of its character codes.
pub mod Base64
pub mod Hex
pub mod Compare
mod Tests
use reticulum_js.Common.{
  ℕ, zero, suc, ◌+◌, ◌-◌, ◌*◌, ◌/◌, ◌%◌, Bool, true, false, not, ◌&&◌, ◌||◌, Option, none, some,
  List, [], ◌∷◌, ◌++◌, bit_or, bit_xor, ltb, leb, ◌==◌, if◌then◌else◌, length, Result, ok, err,
}

-- A digit of `toString(16)`.
unfoldable pub hex_digit : ℕ → ℕ
hex_digit n = if ltb n 10 then b'0' + n else b'a' + (n - 10)

-- `bytes[i].toString(16).padStart(2, "0")`, joined.
unfoldable pub to_hex : List ℕ → List ℕ
to_hex [] = []
to_hex (b ∷ bytes) = hex_digit (b / 16) ∷ hex_digit (b % 16) ∷ to_hex bytes

-- A character of the class `[\s-]`.
unfoldable pub is_stripped : ℕ → Bool
is_stripped c =
    c == b'-'
    || (leb 0x09 c && leb c 0x0d)
    || c == 0x20
    || c == 0xa0
    || c == 0x1680
    || (leb 0x2000 c && leb c 0x200a)
    || c == 0x2028
    || c == 0x2029
    || c == 0x202f
    || c == 0x205f
    || c == 0x3000
    || c == 0xfeff

unfoldable pub strip : List ℕ → List ℕ
strip [] = []
strip (c ∷ text) = let rest = strip text in if is_stripped c then rest else c ∷ rest

unfoldable pub hex_value : ℕ → Option ℕ
hex_value c =
    if leb b'0' c && leb c b'9'
    then some (c - b'0')
    else if leb b'a' c && leb c b'f'
    then some (c - b'a' + 10)
    else if leb b'A' c && leb c b'F'
    then some (c - b'A' + 10)
    else none

-- `parseInt` of two characters, base 16, stored into a byte: the digits up to the first character
-- that is none, behind an optional `+` (a `0x` counts as its 0); NaN is stored as 0.
unfoldable pub parse_pair : ℕ → ℕ → ℕ
parse_pair a b = elim (hex_value a) [
  | some h ↦ elim (hex_value b) [ some l ↦ h * 16 + l | none ↦ h ]
  | none ↦ if a == b'+' then (elim (hex_value b) [ some l ↦ l | none ↦ 0 ]) else 0
]

pub data HexError : Type 0 where
  odd_length : HexError

unfoldable pub pairs : List ℕ → List ℕ
pairs (a ∷ b ∷ text) = parse_pair a b ∷ pairs text
pairs _ = []

unfoldable pub from_hex : List ℕ → Result HexError (List ℕ)
from_hex text =
    let clean = strip text in
    if not (length clean % 2 == 0) then err odd_length else ok (pairs clean)

-- `diff |= a[i] ^ b[i]`, over lists of one length.
unfoldable pub difference : ℕ → List ℕ → List ℕ → ℕ
difference diff (a ∷ as') (b ∷ bs) = difference (bit_or diff (bit_xor a b)) as' bs
difference diff _ _ = diff

unfoldable pub bytes_equal : List ℕ → List ℕ → Bool
unfolding difference
bytes_equal a b = if not (length a == length b) then false else difference 0 a b == 0

unfoldable pub concat_bytes : List (List ℕ) → List ℕ
concat_bytes [] = []
concat_bytes (a ∷ arrays) = a ++ concat_bytes arrays
