-- ===== src/MsgPack/Tests.antt =====
-- Runs of the encoder and the decoder on ASCII strings, and the witnesses.
use reticulum_js.Common.{ℕ, ◌≤◌, ◌≡◌, refl, arith, some, none, List, [], ◌∷◌, ◌++◌, ok, err}
use reticulum_js.Common.Int.{pos, negsuc}
use reticulum_js.Common.Dict.{str_eq}
use reticulum_js.MsgPack.{
  Value, null, int, big, str, bin, arr, map, obj, end, item, done, entry, default_proto, proto,
  binary_length, encode_value, count_items, count_entries,
}
use reticulum_js.MsgPack.Floats.{
  be, from_be, float_bits, magnitude_bits, halve, double, integer_of, integer_magnitude,
}
use reticulum_js.MsgPack.Decoder.Objects.{
  PropertyKey, proto_name, set_property, has_own, key_is, key_after, goes_before, index_of,
  digits_from,
}
use reticulum_js.MsgPack.Decoder.{
  read_uint, read_int, signed, decode_string, decode_items, decode_array, decode_case,
  decode_number, decode_first, decode_step, decode_value, decode,
}
use reticulum_js.MsgPack.Decoder.Canonical.{depth, IsCanonical, FreshKeys, snoc}
use reticulum_js.MsgPack.Decoder.RoundTrip.{decode-encode}
use reticulum_js.MsgPack.Decoder.Depth.{decode-depth}
use reticulum_js.MsgPack.Decoder.Faults.{proto_array, string_reads_past, array_key_sets_proto}

abbrev ascii : List ℕ → List ℕ
ascii s = s

abbrev key_text : PropertyKey
key_text (arr (item (str s) end)) = s
key_text v = []

-- { "a": [7, -1, 2^53, 300], "b": 0x01ff, "__proto__": null }
abbrev sample : Value
sample = obj default_proto (
    entry (str (97 ∷ []))
      (arr (
        item (int (pos 7))
          (item (int (negsuc 0)) (item (big (pos 9007199254740992)) (item (int (pos 300)) end)))))
      (entry (str (98 ∷ [])) (bin (1 ∷ 255 ∷ [])) (entry (str proto_name) null done)))

-- 1.0 is an integer, 0.5 is none, and 2^53 is written as a double.
one_is_integer : integer_of (0x3f ∷ 0xf0 ∷ 0 ∷ 0 ∷ 0 ∷ 0 ∷ 0 ∷ 0 ∷ []) ≡ some (pos 1)
unfolding integer_of integer_magnitude from_be
one_is_integer = refl

half_is_none : integer_of (0x3f ∷ 0xe0 ∷ 0 ∷ 0 ∷ 0 ∷ 0 ∷ 0 ∷ 0 ∷ []) ≡ none
unfolding integer_of integer_magnitude from_be
half_is_none = refl

big_double : float_bits (pos 9007199254740992) ≡ 0x43 ∷ 0x40 ∷ 0 ∷ 0 ∷ 0 ∷ 0 ∷ 0 ∷ 0 ∷ []
unfolding float_bits magnitude_bits halve double be
big_double = refl

three_double : float_bits (negsuc 2) ≡ 0xc0 ∷ 0x08 ∷ 0 ∷ 0 ∷ 0 ∷ 0 ∷ 0 ∷ 0 ∷ []
unfolding float_bits magnitude_bits halve double be
three_double = refl

-- Array indices come first.
index_first :
    set_property (57 ∷ []) null (entry (str (97 ∷ [])) null done)
    ≡ entry (str (57 ∷ [])) null (entry (str (97 ∷ [])) null done)
unfolding set_property key_is key_after goes_before index_of digits_from str_eq
index_first = refl

decode_run :
    decode ascii key_text (0x92 ∷ 0xa1 ∷ 98 ∷ 0xd0 ∷ 0x80 ∷ []) []
    ≡ ok (arr (item (str (98 ∷ [])) (item (int (negsuc 127)) end)))
unfolding decode decode_value decode_step decode_first decode_case decode_number decode_array
    decode_items decode_string read_int read_uint from_be signed
decode_run = refl

decode-encode_example :
    (bytes : List ℕ) × (encode_value ascii sample ≡ ok bytes)
    × ((rest beyond : List ℕ) → decode ascii key_text (bytes ++ rest) beyond ≡ ok sample)
unfolding IsCanonical FreshKeys has_own key_is index_of digits_from str_eq snoc count_items
    count_entries depth
decode-encode_example =
    decode-encode ascii ascii key_text sample
      (
        refl,
        omega arith,
        (refl, refl, (refl, refl, (refl, refl, tt))),
        (
          (refl, omega arith),
          (
            omega arith,
            (omega arith, (omega arith, ((omega arith, omega arith), (omega arith, tt)))),
          ),
          ((refl, omega arith), omega arith, ((refl, omega arith), tt, tt)),
        ),
      )
      (omega arith)

decode-depth_example : depth (arr (item null end)) ≤ 128
unfolding decode decode_value decode_step decode_first decode_case decode_array decode_items
decode-depth_example = decode-depth ascii key_text (0x91 ∷ 0xc0 ∷ []) [] (arr (item null end)) refl

string_reads_past_example :
    ((head : List ℕ) × (encode_value ascii (str (97 ∷ 98 ∷ 99 ∷ []))
        ≡ ok (head ++ ((97 ∷ []) ++ (98 ∷ 99 ∷ []))))
      × (decode ascii key_text (head ++ 97 ∷ []) ((98 ∷ 99 ∷ []) ++ 100 ∷ [])
          ≡ ok (str (97 ∷ 98 ∷ 99 ∷ []))))
    × ((head : List ℕ) × (encode_value ascii (bin ((1 ∷ []) ++ (2 ∷ 3 ∷ [])))
          ≡ ok (head ++ ((1 ∷ []) ++ (2 ∷ 3 ∷ []))))
        × (decode ascii key_text (head ++ 1 ∷ []) (2 ∷ 3 ∷ 4 ∷ []) ≡ err binary_length))
string_reads_past_example =
    string_reads_past ascii ascii key_text (97 ∷ 98 ∷ 99 ∷ []) (97 ∷ []) (98 ∷ 99 ∷ []) (100 ∷ [])
      (1 ∷ []) (2 ∷ 3 ∷ []) (2 ∷ 3 ∷ 4 ∷ []) refl refl (omega arith) (omega arith) (omega arith)
      (omega arith)

array_key_sets_proto_example :
    (bytes : List ℕ) × (encode_value ascii
        (map (entry proto_array (obj default_proto (entry (str (97 ∷ [])) null done)) done))
      ≡ ok bytes)
    × (decode ascii key_text bytes []
        ≡ ok (obj (proto (obj default_proto (entry (str (97 ∷ [])) null done))) done))
unfolding IsCanonical FreshKeys has_own key_is index_of digits_from str_eq snoc count_entries depth
array_key_sets_proto_example =
    array_key_sets_proto ascii ascii key_text (entry (str (97 ∷ [])) null done) refl
      (refl, omega arith) (refl, omega arith, (refl, refl, tt), ((refl, omega arith), tt, tt))
      (omega arith)
