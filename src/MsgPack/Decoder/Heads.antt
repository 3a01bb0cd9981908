-- ===== src/MsgPack/Decoder/Heads.antt =====
-- The heads of strings, byte arrays, arrays and maps of packages/core/src/utils/msgpack.js are read as
-- they were written.
use reticulum_js.Common.{
  ℕ, zero, suc, ◌+◌, ◌≤◌, ◌<◌, ◌≡◌, refl, ap, ◌∙◌, arith, Option, List, [], ◌∷◌, ◌++◌, length, take,
  drop, length-append, length-drop, take-append, drop-append, take-append-drop, append_assoc, ok,
  Result,
}
use reticulum_js.Common.Bits.{bit_or_a0, bit_or_90, bit_or_high, bit_and_1f, bit_and_nibble}
use reticulum_js.MsgPack.{
  Value, MsgPackError, str, bin, string_head, binary_head, array_head, map_head, push_chunked,
  encode_string, encode_binary,
}
use reticulum_js.MsgPack.Decoder.Objects.{PropertyKey}
use reticulum_js.MsgPack.Decoder.{
  Reader, decode_string, decode_binary, decode_array, decode_map, decode_case, decode_number,
  decode_sized, decode_first, decode_step,
}
use reticulum_js.MsgPack.Decoder.Numbers.{rd, read_1, read_2, read_4}

-- The chunks are the whole.
pub push_chunked_lem :
    (fuel : ℕ) (value : List ℕ) → length value ≤ fuel → push_chunked fuel value ≡ value
unfolding push_chunked
push_chunked_lem zero [] h = refl
push_chunked_lem zero (b ∷ bs) h = absurd (omega arith)
push_chunked_lem (suc fuel) [] h = refl
push_chunked_lem (suc fuel) (b ∷ bs) h =
    ap (λ (t : List ℕ). take 8192 (b ∷ bs) ++ t)
      (push_chunked_lem fuel (drop 8192 (b ∷ bs)) (omega (arith, length-drop 8192 (b ∷ bs))))
    ∙ take-append-drop 8192 (b ∷ bs)

module _ (text : List ℕ → List ℕ) (key : PropertyKey)
    (nested : Option (Reader → Result MsgPackError (Value × Reader))) (n : ℕ) (rest beyond : List ℕ)
    (fits : n < 4294967296) where
  pub step_string_head :
      decode_step text key nested (rd (string_head n ++ rest) beyond)
      ≡ decode_string text n (rd rest beyond)
  unfolding string_head decode_step decode_first decode_case decode_number decode_sized
  step_string_head = ground (
    arith,
    bit_or_a0 n,
    bit_and_1f (0xa0 + n),
    read_1 n rest beyond,
    read_2 n rest beyond,
    read_4 n rest beyond,
  )

  pub step_binary_head :
      decode_step text key nested (rd (binary_head n ++ rest) beyond)
      ≡ decode_binary n (rd rest beyond)
  unfolding binary_head decode_step decode_first decode_case decode_number decode_sized
  step_binary_head =
      ground (arith, read_1 n rest beyond, read_2 n rest beyond, read_4 n rest beyond)

  pub step_array_head :
      decode_step text key nested (rd (array_head n ++ rest) beyond)
      ≡ decode_array text key nested n (rd rest beyond)
  unfolding array_head decode_step decode_first decode_case decode_number decode_sized
  step_array_head =
      ground
        (arith, bit_or_90 n, bit_and_nibble (0x90 + n), read_2 n rest beyond, read_4 n rest beyond)

  pub step_map_head :
      decode_step text key nested (rd (map_head n ++ rest) beyond)
      ≡ decode_map text key nested n (rd rest beyond)
  unfolding map_head decode_step decode_first decode_case decode_number decode_sized
  step_map_head =
      ground (
        arith,
        bit_or_high n,
        bit_and_nibble (0x80 + n),
        read_2 n rest beyond,
        read_4 n rest beyond,
      )

decode_string_lem :
    (text : List ℕ → List ℕ) (s rest beyond : List ℕ)
    → decode_string text (length s) (rd (s ++ rest) beyond) ≡ ok (str (text s), rd rest beyond)
unfolding decode_string
decode_string_lem text s rest beyond = ground (
  arith,
  length-append s rest,
  take-append (length s) s rest refl,
  drop-append (length s) s rest refl,
)

decode_binary_lem :
    (s rest beyond : List ℕ)
    → decode_binary (length s) (rd (s ++ rest) beyond) ≡ ok (bin s, rd rest beyond)
unfolding decode_binary
decode_binary_lem s rest beyond = ground (
  arith,
  length-append s rest,
  take-append (length s) s rest refl,
  drop-append (length s) s rest refl,
)

module _ (text : List ℕ → List ℕ) (key : PropertyKey)
    (nested : Option (Reader → Result MsgPackError (Value × Reader))) (rest beyond : List ℕ) where
  pub step_string :
      (utf8 : List ℕ → List ℕ) (s : List ℕ)
      → text (utf8 s) ≡ s
      → length (utf8 s) < 4294967296
      → decode_step text key nested (rd (encode_string utf8 s ++ rest) beyond)
        ≡ ok (str s, rd rest beyond)
  step_string utf8 s back fits =
      unfold encode_string in
      rw
        (
          push_chunked_lem (length (utf8 s)) (utf8 s) (omega arith),
          append_assoc (string_head (length (utf8 s))) (utf8 s) rest,
          step_string_head text key nested (length (utf8 s)) (utf8 s ++ rest) beyond fits,
          decode_string_lem text (utf8 s) rest beyond,
          back,
        )
        refl

  pub step_binary :
      (b : List ℕ)
      → length b < 4294967296
      → decode_step text key nested (rd (encode_binary b ++ rest) beyond)
        ≡ ok (bin b, rd rest beyond)
  step_binary b fits =
      unfold encode_binary in
      rw
        (
          push_chunked_lem (length b) b (omega arith),
          append_assoc (binary_head (length b)) b rest,
          step_binary_head text key nested (length b) (b ++ rest) beyond fits,
          decode_binary_lem b rest beyond,
        )
        refl
