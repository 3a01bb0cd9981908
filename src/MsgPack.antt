-- ===== src/MsgPack.antt =====
-- The values of packages/core/src/utils/msgpack.js, and its encoder.
pub mod Floats
pub mod Decoder
pub mod Tests
use reticulum_js.Common.{
  ℕ, zero, suc, ◌+◌, ◌-◌, ◌*◌, ◌/◌, ◌%◌, ◌^◌, Bool, true, false, ◌&&◌, ◌||◌, List, [], ◌∷◌, ◌++◌,
  bit_or, ltb, leb, ◌==◌, if◌then◌else◌, length, take, drop, Result, ok, err, ◌>>=◌,
}
use reticulum_js.Common.Int.{ℤ, pos, negsuc}
use reticulum_js.MsgPack.Floats.{be, float_bits, is_minus_zero}

-- The values of JavaScript that the encoder tells apart. A string is the list of its UTF-16 units. A
-- Number is an integer, `int`, or any other, `float`, by the eight bytes of its IEEE 754 format: a
-- fraction, an infinity, NaN or -0. `map` is a `Map`; `obj` is another object, by its prototype and
-- its own properties in the order of `Object.entries`, with strings for keys; `other` is a function or
-- a symbol.
mutual
  pub data Value : Type 0 where
    null : Value
    undefined : Value
    bool : Bool → Value
    int : ℤ → Value
    float : List ℕ → Value
    big : ℤ → Value
    str : List ℕ → Value
    bin : List ℕ → Value
    arr : Items → Value
    map : Entries → Value
    obj : Proto → Entries → Value
    other : Value

  pub data Items : Type 0 where
    end : Items
    item : Value → Items → Items

  pub data Entries : Type 0 where
    done : Entries
    entry : Value → Value → Entries → Entries

  -- `Object.prototype`, no prototype, or a value that was set.
  pub data Proto : Type 0 where
    default_proto : Proto
    no_proto : Proto
    proto : Value → Proto

pub data MsgPackError : Type 0 where
  unsupported : MsgPackError
  big_range : MsgPackError
  unexpected_end : MsgPackError
  out_of_range : MsgPackError
  binary_length : MsgPackError
  nesting_depth : MsgPackError
  unimplemented : MsgPackError

abbrev pub max_safe : ℕ
max_safe = 9007199254740991

unfoldable pub count_items : Items → ℕ
count_items end = 0
count_items (item v vs) = suc (count_items vs)

unfoldable pub count_entries : Entries → ℕ
count_entries done = 0
count_entries (entry k v es) = suc (count_entries es)

-- Each encoder returns the bytes that it pushes. `be w n` is `n` in `w` bytes, the highest first.
unfoldable pub encode_float_64 : List ℕ → List ℕ
encode_float_64 bits = 0xcb ∷ bits

-- A negative integer `m` below zero is written as its two's complement.
unfoldable pub encode_number : ℤ → List ℕ
encode_number (pos n) =
    if leb n 0x7f
    then n ∷ []
    else if leb n 0xff
    then 0xcc ∷ n ∷ []
    else if leb n 0xffff
    then 0xcd ∷ be 2 n
    else if leb n 0xffffffff
    then 0xce ∷ be 4 n
    else if leb n max_safe
    then 0xcf ∷ be 8 n
    else encode_float_64 (float_bits (pos n))
encode_number (negsuc k) =
    let m : ℕ = suc k in
    if leb m 0x20
    then bit_or 0xe0 (0x20 - m) ∷ []
    else if leb m 0x80
    then 0xd0 ∷ (0x100 - m) ∷ []
    else if leb m 0x8000
    then 0xd1 ∷ be 2 (2 ^ 16 - m)
    else if leb m 0x80000000
    then 0xd2 ∷ be 4 (2 ^ 32 - m)
    else if leb m max_safe
    then 0xd3 ∷ be 8 (2 ^ 64 - m)
    else encode_float_64 (float_bits (negsuc k))

-- `_encodeNumber` of a Number that is no safe integer: -0 is an integer, and is pushed as the byte 0.
unfoldable pub encode_float : List ℕ → List ℕ
encode_float bits = if is_minus_zero bits then 0 ∷ [] else encode_float_64 bits

unfoldable pub encode_big_int : ℤ → Result MsgPackError (List ℕ)
encode_big_int (pos n) = if ltb 0xffffffffffffffff n then err big_range else ok (0xcf ∷ be 8 n)
encode_big_int (negsuc k) =
    let m : ℕ = suc k in
    if ltb 0x8000000000000000 m then err big_range else ok (0xd3 ∷ be 8 (2 ^ 64 - m))

-- `pushChunked`, by fuel: a turn pushes at most 8192 bytes.
unfoldable pub push_chunked : ℕ → List ℕ → List ℕ
push_chunked zero value = []
push_chunked (suc fuel) [] = []
push_chunked (suc fuel) (b ∷ bs) = take 8192 (b ∷ bs) ++ push_chunked fuel (drop 8192 (b ∷ bs))

-- The head of a string, given the length of its UTF-8 bytes.
unfoldable pub string_head : ℕ → List ℕ
string_head len =
    if leb len 31
    then bit_or 0xa0 len ∷ []
    else if leb len 255
    then 0xd9 ∷ len ∷ []
    else if leb len 65535
    then 0xda ∷ be 2 len
    else 0xdb ∷ be 4 len

unfoldable pub binary_head : ℕ → List ℕ
binary_head len =
    if leb len 255
    then 0xc4 ∷ len ∷ []
    else if leb len 65535
    then 0xc5 ∷ be 2 len
    else 0xc6 ∷ be 4 len

unfoldable pub array_head : ℕ → List ℕ
array_head len =
    if leb len 15
    then bit_or 0x90 len ∷ []
    else if leb len 65535
    then 0xdc ∷ be 2 len
    else 0xdd ∷ be 4 len

unfoldable pub map_head : ℕ → List ℕ
map_head len =
    if leb len 15
    then bit_or 0x80 len ∷ []
    else if leb len 65535
    then 0xde ∷ be 2 len
    else 0xdf ∷ be 4 len

unfoldable pub encode_binary : List ℕ → List ℕ
encode_binary value = binary_head (length value) ++ push_chunked (length value) value

-- `utf8` is `TextEncoder.encode`.
module _ (utf8 : List ℕ → List ℕ) where
  unfoldable pub encode_string : List ℕ → List ℕ
  encode_string value =
      string_head (length (utf8 value)) ++ push_chunked (length (utf8 value)) (utf8 value)

  unfoldable mutual
    pub encode_value : Value → Result MsgPackError (List ℕ)
    encode_value null = ok (0xc0 ∷ [])
    encode_value undefined = ok (0xc0 ∷ [])
    encode_value (bool b) = ok ((if b then 0xc3 else 0xc2) ∷ [])
    encode_value (int z) = ok (encode_number z)
    encode_value (float bits) = ok (encode_float bits)
    encode_value (big z) = encode_big_int z
    encode_value (str s) = ok (encode_string s)
    encode_value (bin b) = ok (encode_binary b)
    encode_value (arr vs) = encode_items vs >>= λ bs. ok (array_head (count_items vs) ++ bs)
    encode_value (map es) = encode_entries es >>= λ bs. ok (map_head (count_entries es) ++ bs)
    encode_value (obj p es) = encode_entries es >>= λ bs. ok (map_head (count_entries es) ++ bs)
    encode_value other = err unsupported

    pub encode_items : Items → Result MsgPackError (List ℕ)
    encode_items end = ok []
    encode_items (item v vs) = encode_value v >>= λ bs. encode_items vs >>= λ rest. ok (bs ++ rest)

    pub encode_entries : Entries → Result MsgPackError (List ℕ)
    encode_entries done = ok []
    encode_entries (entry k v es) = encode_value k >>= λ ks.
        encode_value v >>= λ vs. encode_entries es >>= λ rest. ok (ks ++ (vs ++ rest))
