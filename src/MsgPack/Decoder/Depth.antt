-- ===== src/MsgPack/Decoder/Depth.antt =====
-- `MAX_DEPTH` of packages/core/src/utils/msgpack.js: whatever the bytes, what is decoded is not nested
-- deeper.
use reticulum_js.Common.{
  ℕ, zero, suc, ◌≤◌, ◌≡◌, sym, arith, Option, none, some, List, [], ◌∷◌, ok, err, Result, ◌>>=◌,
  bit_and,
}
use reticulum_js.MsgPack.{Value, MsgPackError}
use reticulum_js.MsgPack.Decoder.Objects.{PropertyKey}
use reticulum_js.MsgPack.Decoder.{
  Reader, read_uint, decode_string, decode_binary, decode_array, decode_map, decode_case,
  decode_number, decode_sized, decode_first, decode_step, decode_value, decode,
}
use reticulum_js.MsgPack.Decoder.Canonical.{depth}
use reticulum_js.MsgPack.Decoder.Shallow.{
  IsShallow, bind_lem, NestedShallow, array_lem, map_lem, number_lem, int_lem, uint_64_lem,
  int_64_lem, float_lem, string_lem, binary_lem,
}

module _ (text : List ℕ → List ℕ) (key : PropertyKey) (n : ℕ)
    (nested : Option (Reader → Result MsgPackError (Value × Reader)))
    (h : NestedShallow text key n nested) where
  sized_binary :
      (w : ℕ) (r : Reader) → IsShallow n (read_uint w r >>= λ (k, r'). decode_binary k r')
  sized_binary w r = bind_lem n (read_uint w r) _ (λ k r'. binary_lem n k r')

  sized_string :
      (w : ℕ) (r : Reader) → IsShallow n (read_uint w r >>= λ (k, r'). decode_string text k r')
  sized_string w r = bind_lem n (read_uint w r) _ (λ k r'. string_lem n text k r')

  sized_array :
      (w : ℕ) (r : Reader)
      → IsShallow n (read_uint w r >>= λ (k, r'). decode_array text key nested k r')
  sized_array w r = bind_lem n (read_uint w r) _ (λ k r'. array_lem text key n nested h k r')

  sized_map :
      (w : ℕ) (r : Reader)
      → IsShallow n (read_uint w r >>= λ (k, r'). decode_map text key nested k r')
  sized_map w r = bind_lem n (read_uint w r) _ (λ k r'. map_lem text key n nested h k r')

  sized_lem : (byte : ℕ) (r : Reader) → IsShallow n (decode_sized text key nested byte r)
  unfolding decode_sized
  sized_lem byte r = ground (
    arith,
    sized_string 1 r,
    sized_string 2 r,
    sized_string 4 r,
    sized_array 2 r,
    sized_array 4 r,
    sized_map 2 r,
    sized_map 4 r,
  )

  numbers_lem : (byte : ℕ) (r : Reader) → IsShallow n (decode_number text key nested byte r)
  unfolding decode_number
  numbers_lem byte r = ground (
    arith,
    number_lem n 1 r,
    number_lem n 2 r,
    number_lem n 4 r,
    uint_64_lem n r,
    float_lem n r,
    int_lem n 1 r,
    int_lem n 2 r,
    int_lem n 4 r,
    int_64_lem n r,
    sized_lem byte r,
  )

  case_lem : (byte : ℕ) (r : Reader) → IsShallow n (decode_case text key nested byte r)
  unfolding decode_case depth
  case_lem byte r =
      ground (arith, sized_binary 1 r, sized_binary 2 r, sized_binary 4 r, numbers_lem byte r)

  first_lem : (byte : ℕ) (r : Reader) → IsShallow n (decode_first text key nested byte r)
  unfolding decode_first depth
  first_lem byte r = ground (
    arith,
    map_lem text key n nested h (bit_and byte 0x0f) r,
    array_lem text key n nested h (bit_and byte 0x0f) r,
    string_lem n text (bit_and byte 0x1f) r,
    case_lem byte r,
  )

  step_lem :
      (bytes beyond : List ℕ)
      → IsShallow n (decode_step text key nested (record { rest = bytes; beyond = beyond }))
  unfolding decode_step
  step_lem [] beyond = tt
  step_lem (byte ∷ rest) beyond = first_lem byte (record { rest = rest; beyond = beyond })

value_lem :
    (text : List ℕ → List ℕ) (key : PropertyKey) (n : ℕ) (r : Reader)
    → IsShallow n (decode_value text key n r)
unfolding decode_value
value_lem text key zero r = step_lem text key 0 none tt r.rest r.beyond
value_lem text key (suc n) r =
    step_lem text key (suc n) (some (decode_value text key n)) (value_lem text key n) r.rest
      r.beyond

-- Whatever the bytes, a value that `decode` returns is nested at most 128 deep.
pub decode-depth :
    (text : List ℕ → List ℕ) (key : PropertyKey) (bytes beyond : List ℕ) (v : Value)
    → decode text key bytes beyond ≡ ok v
    → depth v ≤ 128
unfolding decode
decode-depth text key bytes beyond v e =
    read (decode_value text key 128 (record { rest = bytes; beyond = beyond }))
      (value_lem text key 128 (record { rest = bytes; beyond = beyond })) e
  where
    read :
        (m : Result MsgPackError (Value × Reader))
        → IsShallow 128 m
        → (m >>= λ (w, r). ok w) ≡ ok v
        → depth v ≤ 128
    read (ok (w, r)) h is = let same : w ≡ v = cc in rw (sym same) h
    read (err er) h is = cc
