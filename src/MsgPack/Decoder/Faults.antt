-- ===== src/MsgPack/Decoder/Faults.antt =====
-- Where the decoder of packages/core/src/utils/msgpack.js takes in what it means to refuse.
use reticulum_js.Common.{
  ℕ, ◌≤◌, ◌<◌, ◌≡◌, refl, sym, arith, List, [], ◌++◌, length, length-append, take-append,
  append_assoc, ok, err,
}
use reticulum_js.Common.Dict.{str_eq}
use reticulum_js.MsgPack.{
  Value, str, bin, arr, encode_string, encode_binary, string_head, binary_head, map, obj, end, item,
  Entries, done, entry, Proto, default_proto, proto, binary_length, encode_value, map_head,
  count_entries, count_items,
}
use reticulum_js.MsgPack.Decoder.Objects.{
  PropertyKey, proto_name, put_entry, assign, set_proto, has_own, meets_setter,
}
use reticulum_js.MsgPack.Decoder.{decode_string, decode_binary, decode_map, decode_entries, decode}
use reticulum_js.MsgPack.Decoder.Numbers.{rd}
use reticulum_js.MsgPack.Decoder.Heads.{
  step_map_head, step_string_head, step_binary_head, push_chunked_lem,
}
use reticulum_js.MsgPack.Decoder.Canonical.{IsCanonical, depth}
use reticulum_js.MsgPack.Decoder.RoundTrip.{written, decode_value_lem, nested_of, IsRead}

decode_string_cut :
    (text : List ℕ → List ℕ) (body cut more : List ℕ)
    → 0 < length cut
    → decode_string text (length (body ++ cut)) (rd body (cut ++ more))
      ≡ ok (str (text (body ++ cut)), rd [] (cut ++ more))
unfolding decode_string
decode_string_cut text body cut more some_cut = ground (
  arith,
  length-append body cut,
  append_assoc body cut more,
  length-append (body ++ cut) more,
  take-append (length (body ++ cut)) (body ++ cut) more refl,
)

decode_binary_cut :
    (body cut beyond : List ℕ)
    → 0 < length cut
    → decode_binary (length (body ++ cut)) (rd body beyond) ≡ err binary_length
unfolding decode_binary
decode_binary_cut body cut beyond some_cut = ground (arith, length-append body cut)

-- An encoded string, of which a part is cut off after its head, is decoded to the whole string where the
-- bytes that were cut off follow the view in its buffer, if the text coders keep the string and it has
-- fewer than 2 ^ 32 bytes; an encoded byte array of fewer than 2 ^ 32 bytes that is cut off after its
-- head is refused, whatever follows.
pub string_reads_past :
    (utf8 text : List ℕ → List ℕ) (key : PropertyKey) (s body cut more kept lost beyond : List ℕ)
    → utf8 s ≡ body ++ cut
    → text (utf8 s) ≡ s
    → 0 < length cut
    → length (body ++ cut) < 4294967296
    → 0 < length lost
    → length (kept ++ lost) < 4294967296
    → ((head : List ℕ) × (encode_value utf8 (str s) ≡ ok (head ++ (body ++ cut)))
        × (decode text key (head ++ body) (cut ++ more) ≡ ok (str s)))
      × ((head : List ℕ) × (encode_value utf8 (bin (kept ++ lost)) ≡ ok (head ++ (kept ++ lost)))
          × (decode text key (head ++ kept) beyond ≡ err binary_length))
unfolding decode encode_value encode_string encode_binary
string_reads_past utf8 text key s body cut more kept lost beyond bytes back some_cut fits some_lost
      fits' =
    (
      (
        string_head (length (body ++ cut)),
        rw (bytes, push_chunked_lem (length (body ++ cut)) (body ++ cut) (omega arith)) refl,
        rw
            (
              decode_value_lem utf8 text key 128
                  (rd (string_head (length (body ++ cut)) ++ body) (cut ++ more)),
              step_string_head text key (nested_of utf8 text key 128) (length (body ++ cut)) body
                  (cut ++ more) fits,
              decode_string_cut text body cut more some_cut,
              sym bytes,
              back,
            )
            refl,
      ),
      (
        binary_head (length (kept ++ lost)),
        rw (push_chunked_lem (length (kept ++ lost)) (kept ++ lost) (omega arith)) refl,
        rw
            (
              decode_value_lem utf8 text key 128
                  (rd (binary_head (length (kept ++ lost)) ++ kept) beyond),
              step_binary_head text key (nested_of utf8 text key 128) (length (kept ++ lost)) kept
                  beyond fits',
              decode_binary_cut kept lost beyond some_lost,
            )
            refl,
      ),
    )

-- The key of the array that holds one string.
abbrev pub proto_array : Value
proto_array = arr (item (str proto_name) end)

module _ (utf8 text : List ℕ → List ℕ) (key : PropertyKey) (k w : Value) (ks bs : List ℕ) where
  pair_written :
      encode_value utf8 k ≡ ok ks
      → encode_value utf8 w ≡ ok bs
      → encode_value utf8 (map (entry k w done)) ≡ ok (map_head 1 ++ (ks ++ (bs ++ [])))
  pair_written ke e = unfold encode_value count_entries in rw (ke, e) refl

  pair_read :
      (p : Proto) (fs : Entries)
      → IsRead utf8 text key 127 k ks
      → IsRead utf8 text key 127 w bs
      → put_entry key k w default_proto done ≡ (p, fs)
      → decode text key (map_head 1 ++ (ks ++ (bs ++ []))) [] ≡ ok (obj p fs)
  unfolding decode decode_map decode_entries
  pair_read p fs kf f put =
      rw
        (
          decode_value_lem utf8 text key 128 (rd (map_head 1 ++ (ks ++ (bs ++ []))) []),
          step_map_head text key (nested_of utf8 text key 128) 1 (ks ++ (bs ++ [])) []
              (omega arith),
          kf (bs ++ []) [],
          f [] [],
          put,
        )
        refl

put_proto :
    (key : PropertyKey) (es : Entries)
    → key proto_array ≡ proto_name
    → put_entry key proto_array (obj default_proto es) default_proto done
      ≡ (proto (obj default_proto es), done)
unfolding put_entry assign set_proto has_own meets_setter str_eq
put_proto key es is = rw is refl

proto_array-IsCanonical :
    (utf8 text : List ℕ → List ℕ)
    → IsCanonical utf8 text (str proto_name)
    → IsCanonical utf8 text proto_array × (depth proto_array ≤ 127)
unfolding IsCanonical depth count_items
proto_array-IsCanonical utf8 text name = ((omega arith, (name, tt)), omega arith)

-- Where the language makes "__proto__" of the array that holds this string, as it does, and the text
-- coders keep it: the `Map` from that array to a canonical object, nested at most 127 deep, is encoded,
-- and decoded to an object without properties whose prototype is the given object.
pub array_key_sets_proto :
    (utf8 text : List ℕ → List ℕ) (key : PropertyKey) (es : Entries)
    → key proto_array ≡ proto_name
    → IsCanonical utf8 text (str proto_name)
    → IsCanonical utf8 text (obj default_proto es)
    → depth (obj default_proto es) ≤ 127
    → (bytes : List ℕ) × (encode_value utf8 (map (entry proto_array (obj default_proto es) done))
        ≡ ok bytes)
      × (decode text key bytes [] ≡ ok (obj (proto (obj default_proto es)) done))
array_key_sets_proto utf8 text key es is name c deep =
    let (c', shallow) = proto_array-IsCanonical utf8 text name in
    let w : Value = obj default_proto es in
    let (ks, ke, kf) = written utf8 text key proto_array 127 c' shallow in
    let (bs, e, f) = written utf8 text key w 127 c deep in
    (
      map_head 1 ++ (ks ++ (bs ++ [])),
      pair_written utf8 text key proto_array w ks bs ke e,
      pair_read utf8 text key proto_array w ks bs (proto w) done kf f (put_proto key es is),
    )
