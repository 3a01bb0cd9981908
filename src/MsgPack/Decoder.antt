-- ===== src/MsgPack/Decoder.antt =====
-- The decoder of packages/core/src/utils/msgpack.js.
pub mod Objects
pub mod Numbers
pub mod Heads
pub mod Canonical
pub mod RoundTrip
pub mod Faults
pub mod Shallow
pub mod Depth
use reticulum_js.Common.{
  ℕ, zero, suc, ◌+◌, ◌-◌, ◌*◌, ◌/◌, ◌%◌, ◌^◌, Bool, true, false, ◌&&◌, ◌||◌, Option, none, some,
  List, [], ◌∷◌, ◌++◌, bit_and, ltb, leb, ◌==◌, if◌then◌else◌, length, take, drop, Result, ok, err,
  ◌>>=◌,
}
use reticulum_js.Common.Int.{ℤ, pos, negsuc}
use reticulum_js.MsgPack.{
  Value, null, bool, int, float, big, str, bin, arr, obj, Items, end, item, MsgPackError,
  unexpected_end, out_of_range, binary_length, nesting_depth, unimplemented, max_safe, Entries,
  done, Proto, default_proto,
}
use reticulum_js.MsgPack.Floats.{from_be, integer_of}
use reticulum_js.MsgPack.Decoder.Objects.{PropertyKey, put_entry}

-- `state`: the bytes of the view from the offset on, and the bytes of the underlying buffer that follow
-- the view.
pub record Reader : Type 0 where
  pub rest : List ℕ
  pub beyond : List ℕ

-- A `DataView` getter of `w` bytes, which throws past the end of the view.
unfoldable pub read_uint : ℕ → Reader → Result MsgPackError (ℕ × Reader)
read_uint w r =
    if ltb (length r.rest) w
    then err out_of_range
    else ok (from_be 0 (take w r.rest), record r { rest = drop w r.rest })

-- The two's complement of `w` bytes.
unfoldable pub signed : ℕ → ℕ → ℤ
signed w n = if ltb n (2 ^ (8 * w - 1)) then pos n else negsuc (2 ^ (8 * w) - n - 1)

unfoldable pub read_number : ℕ → Reader → Result MsgPackError (Value × Reader)
read_number w r = read_uint w r >>= λ (n, r'). ok (int (pos n), r')

unfoldable pub read_int : ℕ → Reader → Result MsgPackError (Value × Reader)
read_int w r = read_uint w r >>= λ (n, r'). ok (int (signed w n), r')

unfoldable pub read_uint_64 : Reader → Result MsgPackError (Value × Reader)
read_uint_64 r =
    read_uint 8 r >>= λ (n, r'). ok ((if leb n max_safe then int (pos n) else big (pos n)), r')

unfoldable pub is_safe : ℤ → Bool
is_safe (pos n) = leb n max_safe
is_safe (negsuc k) = ltb k max_safe

unfoldable pub read_int_64 : Reader → Result MsgPackError (Value × Reader)
read_int_64 r = read_uint 8 r >>= λ (n, r').
    ok ((if is_safe (signed 8 n) then int (signed 8 n) else big (signed 8 n)), r')

-- A double that is an integer is that integer.
unfoldable pub read_float_64 : Reader → Result MsgPackError (Value × Reader)
read_float_64 r =
    if ltb (length r.rest) 8
    then err out_of_range
    else let bits : List ℕ = take 8 r.rest in
      ok (
        elim (integer_of bits) [ none ↦ float bits | some z ↦ int z ],
        record r { rest = drop 8 r.rest },
      )

-- The typed array is checked against the underlying buffer, not the view. Past the view the offset is
-- at no byte any more.
unfoldable pub decode_string : (List ℕ → List ℕ) → ℕ → Reader → Result MsgPackError (Value × Reader)
decode_string text n r =
    if leb n (length r.rest)
    then ok (str (text (take n r.rest)), record r { rest = drop n r.rest })
    else if leb n (length (r.rest ++ r.beyond))
    then ok (str (text (take n (r.rest ++ r.beyond))), record r { rest = [] })
    else err out_of_range

unfoldable pub decode_binary : ℕ → Reader → Result MsgPackError (Value × Reader)
decode_binary n r =
    if ltb (length r.rest) n
    then err binary_length
    else ok (bin (take n r.rest), record r { rest = drop n r.rest })

-- `text` is `TextDecoder.decode`, and `key` turns a value into a property key.
module _ (text : List ℕ → List ℕ) (key : PropertyKey) where
  -- The loops of `_decodeArray` and `_decodeMap`, over the decoder of one element.
  unfoldable pub decode_items :
      (Reader → Result MsgPackError (Value × Reader))
      → ℕ
      → Reader
      → Result MsgPackError (Items × Reader)
  decode_items decode zero r = ok (end, r)
  decode_items decode (suc n) r =
      decode r >>= λ (v, r'). decode_items decode n r' >>= λ (vs, r''). ok (item v vs, r'')

  unfoldable pub decode_entries :
      (Reader → Result MsgPackError (Value × Reader))
      → ℕ
      → Proto
      → Entries
      → Reader
      → Result MsgPackError (Value × Reader)
  decode_entries decode zero p es r = ok (obj p es, r)
  decode_entries decode (suc n) p es r = decode r >>= λ (k, r'). decode r' >>= λ (v, r'').
      let (p', es') = put_entry key k v p es in decode_entries decode n p' es' r''

  -- `nested` decodes one level deeper; `none` where the depth would exceed `MAX_DEPTH`.
  unfoldable pub decode_array :
      Option (Reader → Result MsgPackError (Value × Reader))
      → ℕ
      → Reader
      → Result MsgPackError (Value × Reader)
  decode_array none n r = err nesting_depth
  decode_array (some decode) n r = decode_items decode n r >>= λ (vs, r'). ok (arr vs, r')

  unfoldable pub decode_map :
      Option (Reader → Result MsgPackError (Value × Reader))
      → ℕ
      → Reader
      → Result MsgPackError (Value × Reader)
  decode_map none n r = err nesting_depth
  decode_map (some decode) n r = decode_entries decode n default_proto done r

  -- The `switch` of `_decodeValue`, in three parts: from `str 8` on, the numbers, and what is before.
  unfoldable pub decode_sized :
      Option (Reader → Result MsgPackError (Value × Reader))
      → ℕ
      → Reader
      → Result MsgPackError (Value × Reader)
  decode_sized nested byte r =
      if byte == 0xd9
      then (read_uint 1 r >>= λ (n, r'). decode_string text n r')
      else if byte == 0xda
      then (read_uint 2 r >>= λ (n, r'). decode_string text n r')
      else if byte == 0xdb
      then (read_uint 4 r >>= λ (n, r'). decode_string text n r')
      else if byte == 0xdc
      then (read_uint 2 r >>= λ (n, r'). decode_array nested n r')
      else if byte == 0xdd
      then (read_uint 4 r >>= λ (n, r'). decode_array nested n r')
      else if byte == 0xde
      then (read_uint 2 r >>= λ (n, r'). decode_map nested n r')
      else if byte == 0xdf
      then (read_uint 4 r >>= λ (n, r'). decode_map nested n r')
      else err unimplemented

  unfoldable pub decode_number :
      Option (Reader → Result MsgPackError (Value × Reader))
      → ℕ
      → Reader
      → Result MsgPackError (Value × Reader)
  decode_number nested byte r =
      if byte == 0xcc
      then read_number 1 r
      else if byte == 0xcd
      then read_number 2 r
      else if byte == 0xce
      then read_number 4 r
      else if byte == 0xcf
      then read_uint_64 r
      else if byte == 0xcb
      then read_float_64 r
      else if byte == 0xd0
      then read_int 1 r
      else if byte == 0xd1
      then read_int 2 r
      else if byte == 0xd2
      then read_int 4 r
      else if byte == 0xd3
      then read_int_64 r
      else decode_sized nested byte r

  unfoldable pub decode_case :
      Option (Reader → Result MsgPackError (Value × Reader))
      → ℕ
      → Reader
      → Result MsgPackError (Value × Reader)
  decode_case nested byte r =
      if byte == 0xc0
      then ok (null, r)
      else if byte == 0xc2
      then ok (bool false, r)
      else if byte == 0xc3
      then ok (bool true, r)
      else if byte == 0xc4
      then (read_uint 1 r >>= λ (n, r'). decode_binary n r')
      else if byte == 0xc5
      then (read_uint 2 r >>= λ (n, r'). decode_binary n r')
      else if byte == 0xc6
      then (read_uint 4 r >>= λ (n, r'). decode_binary n r')
      else decode_number nested byte r

  unfoldable pub decode_first :
      Option (Reader → Result MsgPackError (Value × Reader))
      → ℕ
      → Reader
      → Result MsgPackError (Value × Reader)
  decode_first nested byte r =
      if leb byte 0x7f
      then ok (int (pos byte), r)
      else if leb 0x80 byte && leb byte 0x8f
      then decode_map nested (bit_and byte 0x0f) r
      else if leb 0x90 byte && leb byte 0x9f
      then decode_array nested (bit_and byte 0x0f) r
      else if leb 0xa0 byte && leb byte 0xbf
      then decode_string text (bit_and byte 0x1f) r
      else if leb 0xe0 byte
      then ok (int (negsuc (0x100 - byte - 1)), r)
      else decode_case nested byte r

  unfoldable pub decode_step :
      Option (Reader → Result MsgPackError (Value × Reader))
      → Reader
      → Result MsgPackError (Value × Reader)
  decode_step nested r = elim r.rest [
    | [] ↦ err unexpected_end
    | byte ∷ rest ↦ decode_first nested byte (record r { rest = rest })
  ]

  -- `_decodeValue`, with so many levels still to go.
  unfoldable pub decode_value : ℕ → Reader → Result MsgPackError (Value × Reader)
  decode_value zero r = decode_step none r
  decode_value (suc levels) r = decode_step (some (decode_value levels)) r

  -- `MicroMsgPack.decode` of the view `bytes`, with `beyond` after it in the buffer.
  unfoldable pub decode : List ℕ → List ℕ → Result MsgPackError Value
  decode bytes beyond =
      decode_value 128 (record { rest = bytes; beyond = beyond }) >>= λ (v, r). ok v
