-- ===== src/MsgPack/Decoder/Numbers.antt =====
-- The numbers of packages/core/src/utils/msgpack.js are read as they were written.
use reticulum_js.Common.{
  ℕ, zero, suc, ◌-◌, ◌^◌, ◌≤◌, ◌<◌, ◌≡◌, refl, ap, arith, false, Option, none, List, [], ◌∷◌, ◌++◌,
  length, length-append, take-append, drop-append, ok, Result,
}
use reticulum_js.Common.Bits.{bit_or_e0}
use reticulum_js.MsgPack.Floats.{be, from_be, integer_of, is_minus_zero}
use reticulum_js.MsgPack.{
  Value, int, big, float, MsgPackError, encode_number, encode_float, encode_float_64, max_safe,
}
use reticulum_js.Common.Int.{pos, negsuc}
use reticulum_js.MsgPack.Decoder.Objects.{PropertyKey}
use reticulum_js.MsgPack.Decoder.{
  Reader, read_uint, read_number, read_int, signed, is_safe, read_uint_64, read_int_64,
  read_float_64, decode_case, decode_number, decode_sized, decode_first, decode_step,
}

abbrev pub rd : List ℕ → List ℕ → Reader
rd rest beyond = record { rest = rest; beyond = beyond }

pub length-be : (w n : ℕ) → length (be w n) ≡ w
unfolding be
length-be zero n = refl
length-be (suc w) n = ap suc (length-be w n)

from_be_2 : (n : ℕ) → n < 65536 → from_be 0 (be 2 n) ≡ n
unfolding be from_be
from_be_2 n h = omega arith

from_be_4 : (n : ℕ) → n < 4294967296 → from_be 0 (be 4 n) ≡ n
unfolding be from_be
from_be_4 n h = omega arith

from_be_8 : (n : ℕ) → n < 18446744073709551616 → from_be 0 (be 8 n) ≡ n
unfolding be from_be
from_be_8 n h = omega arith

read_uint_lem :
    (w n : ℕ) (bs rest beyond : List ℕ)
    → length bs ≡ w
    → from_be 0 bs ≡ n
    → read_uint w (rd (bs ++ rest) beyond) ≡ ok (n, rd rest beyond)
unfolding read_uint
read_uint_lem w n bs rest beyond len is =
    ground (arith, length-append bs rest, take-append w bs rest len, drop-append w bs rest len)

module _ (n : ℕ) (rest beyond : List ℕ) where
  pub read_1 : read_uint 1 (rd (n ∷ rest) beyond) ≡ ok (n, rd rest beyond)
  read_1 = read_uint_lem 1 n (n ∷ []) rest beyond refl (unfold from_be in omega arith)

  pub read_2 : n < 65536 → read_uint 2 (rd (be 2 n ++ rest) beyond) ≡ ok (n, rd rest beyond)
  read_2 h = read_uint_lem 2 n (be 2 n) rest beyond (length-be 2 n) (from_be_2 n h)

  pub read_4 : n < 4294967296 → read_uint 4 (rd (be 4 n ++ rest) beyond) ≡ ok (n, rd rest beyond)
  read_4 h = read_uint_lem 4 n (be 4 n) rest beyond (length-be 4 n) (from_be_4 n h)

  pub read_8 :
      n < 18446744073709551616 → read_uint 8 (rd (be 8 n ++ rest) beyond) ≡ ok (n, rd rest beyond)
  read_8 h = read_uint_lem 8 n (be 8 n) rest beyond (length-be 8 n) (from_be_8 n h)

module _ (text : List ℕ → List ℕ) (key : PropertyKey)
    (nested : Option (Reader → Result MsgPackError (Value × Reader))) (rest beyond : List ℕ) where
  pub step_number_pos :
      (n : ℕ)
      → n ≤ max_safe
      → decode_step text key nested (rd (encode_number (pos n) ++ rest) beyond)
        ≡ ok (int (pos n), rd rest beyond)
  unfolding encode_number decode_step decode_first decode_case decode_number decode_sized
      read_number read_uint_64
  step_number_pos n h = ground (
    arith,
    read_1 n rest beyond,
    read_2 n rest beyond,
    read_4 n rest beyond,
    read_8 n rest beyond,
  )

  pub step_number_neg :
      (k : ℕ)
      → k < max_safe
      → decode_step text key nested (rd (encode_number (negsuc k) ++ rest) beyond)
        ≡ ok (int (negsuc k), rd rest beyond)
  unfolding encode_number decode_step decode_first decode_case decode_number decode_sized read_int
      read_int_64 signed is_safe
  step_number_neg k h = ground (
    arith,
    bit_or_e0 (0x20 - suc k),
    read_1 (0x100 - suc k) rest beyond,
    read_2 (2 ^ 16 - suc k) rest beyond,
    read_4 (2 ^ 32 - suc k) rest beyond,
    read_8 (2 ^ 64 - suc k) rest beyond,
  )

  pub step_float :
      (bits : List ℕ)
      → length bits ≡ 8
      → integer_of bits ≡ none
      → is_minus_zero bits ≡ false
      → decode_step text key nested (rd (encode_float bits ++ rest) beyond)
        ≡ ok (float bits, rd rest beyond)
  unfolding encode_float encode_float_64 decode_step decode_first decode_case decode_number
      decode_sized read_float_64
  step_float bits len fraction no_zero = ground (
    arith,
    length-append bits rest,
    take-append 8 bits rest len,
    drop-append 8 bits rest len,
    fraction,
  )

  pub step_big_pos :
      (n : ℕ)
      → max_safe < n
      → n < 18446744073709551616
      → decode_step text key nested (rd (0xcf ∷ (be 8 n ++ rest)) beyond)
        ≡ ok (big (pos n), rd rest beyond)
  unfolding decode_step decode_first decode_case decode_number decode_sized read_uint_64
  step_big_pos n h h' = ground (arith, read_8 n rest beyond)

  pub step_big_neg :
      (k : ℕ)
      → max_safe ≤ k
      → k < 9223372036854775808
      → decode_step text key nested (rd (0xd3 ∷ (be 8 (2 ^ 64 - suc k) ++ rest)) beyond)
        ≡ ok (big (negsuc k), rd rest beyond)
  unfolding decode_step decode_first decode_case decode_number decode_sized read_int_64 signed
      is_safe
  step_big_neg k h h' = ground (arith, read_8 (2 ^ 64 - suc k) rest beyond)
