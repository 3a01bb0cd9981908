-- ===== src/MsgPack/Floats.antt =====
-- What packages/core/src/utils/msgpack.js uses of `DataView`: integers in bytes, the highest first, and
-- the IEEE 754 format of a Number.
use reticulum_js.Common.{
  ℕ, zero, suc, ◌+◌, ◌-◌, ◌*◌, ◌/◌, ◌%◌, ◌^◌, Bool, ◌&&◌, Option, none, some, List, [], ◌∷◌, ltb,
  leb, ◌==◌, if◌then◌else◌,
}
use reticulum_js.Common.Int.{ℤ, pos, negsuc}

unfoldable pub be : ℕ → ℕ → List ℕ
be zero n = []
be (suc w) n = n / 256 ^ w % 256 ∷ be w n

unfoldable pub from_be : ℕ → List ℕ → ℕ
from_be acc [] = acc
from_be acc (b ∷ bs) = from_be (acc * 256 + b) bs

-- The first of the powers of two `2 ^ 52 ≤ m / 2 ^ k`, by halving: the mantissa of a double, and its
-- exponent.
unfoldable pub halve : ℕ → ℕ → ℕ → ℕ × ℕ
halve zero m e = (m, e)
halve (suc fuel) m e = if ltb m (2 ^ 53) then (m, e) else halve fuel (m / 2) (e + 1)

-- By doubling, where `m` is below `2 ^ 52`.
unfoldable pub double : ℕ → ℕ → ℕ → ℕ × ℕ
double zero m e = (m, e)
double (suc fuel) m e = if leb (2 ^ 52) m then (m, e) else double fuel (m * 2) (e - 1)

unfoldable pub magnitude_bits : ℕ → ℕ
magnitude_bits m =
    if m == 0
    then 0
    else let (q, e) = (if ltb m (2 ^ 52) then double 52 m 1075 else halve 1024 m 1075) in
      e * 2 ^ 52 + (q - 2 ^ 52)

-- `DataView.setFloat64` of an integer Number. Every such Number is exact in the format.
unfoldable pub float_bits : ℤ → List ℕ
float_bits (pos n) = be 8 (magnitude_bits n)
float_bits (negsuc k) = be 8 (2 ^ 63 + magnitude_bits (suc k))

unfoldable pub is_minus_zero : List ℕ → Bool
is_minus_zero bits = from_be 0 bits == 2 ^ 63

-- The magnitude of the integer that a double is, from its exponent and its fraction.
unfoldable pub integer_magnitude : ℕ → ℕ → Option ℕ
integer_magnitude e f =
    if e == 2047
    then none
    else if leb 1075 e
    then some ((2 ^ 52 + f) * 2 ^ (e - 1075))
    else if leb 1023 e && ((2 ^ 52 + f) % 2 ^ (1075 - e) == 0)
    then some ((2 ^ 52 + f) / 2 ^ (1075 - e))
    else none

-- `Number.isInteger` of a double, and the integer; `none` for -0 too.
unfoldable pub integer_of : List ℕ → Option ℤ
integer_of bits =
    let n : ℕ = from_be 0 bits in
    let e : ℕ = n / 2 ^ 52 % 2048 in
    let f : ℕ = n % 2 ^ 52 in
    if n == 0 then some (pos 0) else elim (integer_magnitude e f) [
      | none ↦ none
      | some m ↦ some (if n / 2 ^ 63 == 0 then pos m else negsuc (m - 1))
    ]
