-- ===== src/MsgPack/Decoder/RoundTrip.antt =====
-- `MicroMsgPack.decode` of packages/core/src/utils/msgpack.js undoes `MicroMsgPack.encode`.
use reticulum_js.Common.{
  ℕ, zero, suc, ◌-◌, ◌^◌, ◌≤◌, ◌<◌, ◌≡◌, refl, ◌∙◌, arith, true, false, Option, none, some, List,
  [], ◌∷◌, ◌++◌, ok, Result, append_assoc,
}
use reticulum_js.Common.Int.{pos, negsuc}
use reticulum_js.MsgPack.{
  Value, null, undefined, bool, int, float, big, str, bin, arr, map, obj, other, Items, end, item,
  MsgPackError, Entries, done, entry, default_proto, count_items, count_entries, encode_value,
  encode_items, encode_entries, encode_number, encode_float, encode_big_int, encode_string,
  encode_binary, array_head, map_head,
}
use reticulum_js.MsgPack.Floats.{be}
use reticulum_js.MsgPack.Decoder.Objects.{PropertyKey}
use reticulum_js.MsgPack.Decoder.{
  Reader, decode_items, decode_entries, decode_array, decode_map, decode_case, decode_number,
  decode_sized, decode_first, decode_step, decode_value, decode,
}
use reticulum_js.MsgPack.Decoder.Numbers.{
  rd, step_number_pos, step_number_neg, step_float, step_big_pos, step_big_neg,
}
use reticulum_js.MsgPack.Decoder.Heads.{step_array_head, step_map_head, step_string, step_binary}
use reticulum_js.MsgPack.Decoder.Canonical.{
  depth, depth_items, depth_entries, snoc, append_entries, FreshKeys, IsCanonical, AreCanonical,
  HoldCanonical, append_entries-snoc, append_entries-done, put_entry_lem,
}

module _ (utf8 text : List ℕ → List ℕ) (key : PropertyKey) where
  abbrev pub nested_of : ℕ → Option (Reader → Result MsgPackError (Value × Reader))
  nested_of zero = none
  nested_of (suc levels) = some (decode_value text key levels)

  pub decode_value_lem :
      (levels : ℕ) (r : Reader)
      → decode_value text key levels r ≡ decode_step text key (nested_of levels) r
  unfolding decode_value
  decode_value_lem zero r = refl
  decode_value_lem (suc levels) r = refl

  -- `bs` is what `v` is written as, and `v` is read from it.
  abbrev pub IsRead : ℕ → Value → List ℕ → Type 0
  IsRead levels v bs =
      (rest beyond : List ℕ)
      → decode_value text key levels (rd (bs ++ rest) beyond) ≡ ok (v, rd rest beyond)

  abbrev pub Written : ℕ → Value → Type 0
  Written levels v = (bs : List ℕ) × (encode_value utf8 v ≡ ok bs) × IsRead levels v bs

  abbrev ItemsWritten : ℕ → Items → Type 0
  ItemsWritten levels vs =
      (bs : List ℕ) × (encode_items utf8 vs ≡ ok bs)
      × ((rest beyond : List ℕ)
          → decode_items text key (decode_value text key levels) (count_items vs)
              (rd (bs ++ rest) beyond)
            ≡ ok (vs, rd rest beyond))

  abbrev EntriesWritten : ℕ → Entries → Entries → Type 0
  EntriesWritten levels before es =
      (bs : List ℕ) × (encode_entries utf8 es ≡ ok bs)
      × ((rest beyond : List ℕ)
          → decode_entries text key (decode_value text key levels) (count_entries es) default_proto
              before (rd (bs ++ rest) beyond)
            ≡ ok (obj default_proto (append_entries before es), rd rest beyond))

  -- A value that is read whatever the depth.
  leaf :
      (levels : ℕ) (v : Value) (bs : List ℕ)
      → encode_value utf8 v ≡ ok bs
      → ((rest beyond : List ℕ)
          → decode_step text key (nested_of levels) (rd (bs ++ rest) beyond)
            ≡ ok (v, rd rest beyond))
      → Written levels v
  leaf levels v bs e f =
      (bs, e, λ rest beyond. decode_value_lem levels (rd (bs ++ rest) beyond) ∙ f rest beyond)

  items_cons :
      (levels : ℕ) (v : Value) (vs : Items)
      → Written levels v
      → ItemsWritten levels vs
      → ItemsWritten levels (item v vs)
  items_cons levels v vs (b, e, f) (bs, es, fs) = (
    b ++ bs,
    unfold encode_value in rw (e, es) refl,
    λ rest beyond.
        unfold decode_items count_items in
        rw (append_assoc b bs rest, f (bs ++ rest) beyond, fs rest beyond) refl,
  )

  entries_cons :
      (levels : ℕ) (before : Entries) (k : List ℕ) (v : Value) (es : Entries)
      → FreshKeys before (entry (str k) v es)
      → Written levels (str k)
      → Written levels v
      → EntriesWritten levels (snoc before k v) es
      → EntriesWritten levels before (entry (str k) v es)
  unfolding FreshKeys
  entries_cons levels before k v es fresh (kb, ke, kf) (b, e, f) (bs, ee, fs) = (
    kb ++ (b ++ bs),
    unfold encode_value in ground (arith, ke, e, ee),
    λ rest beyond.
        unfold decode_entries count_entries in
        rw
          (
            append_assoc kb (b ++ bs) rest,
            append_assoc b bs rest,
            kf (b ++ (bs ++ rest)) beyond,
            f (bs ++ rest) beyond,
            put_entry_lem key k v before fresh.0 fresh.1,
            fs rest beyond,
            append_entries-snoc before k v es,
          )
          refl,
  )

  array_lem :
      (levels : ℕ) (vs : Items)
      → count_items vs < 4294967296
      → ItemsWritten levels vs
      → Written (suc levels) (arr vs)
  array_lem levels vs fits (bs, e, f) =
      leaf (suc levels) (arr vs) (array_head (count_items vs) ++ bs)
        (unfold encode_value in rw e refl)
        (λ rest beyond.
          rw
            (
              append_assoc (array_head (count_items vs)) bs rest,
              step_array_head text key (nested_of (suc levels)) (count_items vs) (bs ++ rest) beyond
                  fits,
            )
            (unfold decode_array in rw (f rest beyond) refl))

  map_lem :
      (levels : ℕ) (es : Entries)
      → count_entries es < 4294967296
      → EntriesWritten levels done es
      → Written (suc levels) (obj default_proto es)
  map_lem levels es fits (bs, e, f) =
      leaf (suc levels) (obj default_proto es) (map_head (count_entries es) ++ bs)
        (unfold encode_value in rw e refl)
        (λ rest beyond.
          rw
            (
              append_assoc (map_head (count_entries es)) bs rest,
              step_map_head text key (nested_of (suc levels)) (count_entries es) (bs ++ rest) beyond
                  fits,
            )
            (unfold decode_map append_entries in f rest beyond))

  mutual
    unfolding IsCanonical depth FreshKeys encode_big_int encode_value decode_items count_items
        decode_entries count_entries append_entries decode_step decode_first decode_case
        decode_number decode_sized

    pub written :
        (v : Value) (levels : ℕ) → IsCanonical utf8 text v → depth v ≤ levels → Written levels v
    written null levels c h = leaf levels null (0xc0 ∷ []) refl (λ rest beyond. refl)
    written undefined levels c h = absurd c
    written (bool true) levels c h = leaf levels (bool true) (0xc3 ∷ []) refl (λ rest beyond. refl)
    written (bool false) levels c h =
        leaf levels (bool false) (0xc2 ∷ []) refl (λ rest beyond. refl)
    written (int (pos n)) levels c h =
        leaf levels (int (pos n)) (encode_number (pos n)) refl
          (λ rest beyond. step_number_pos text key (nested_of levels) rest beyond n c)
    written (int (negsuc k)) levels c h =
        leaf levels (int (negsuc k)) (encode_number (negsuc k)) refl
          (λ rest beyond. step_number_neg text key (nested_of levels) rest beyond k c)
    written (float bits) levels (len, fraction, no_zero) h =
        leaf levels (float bits) (encode_float bits) refl (λ rest beyond.
          step_float text key (nested_of levels) rest beyond bits len fraction no_zero)
    written (big (pos n)) levels (low, high) h =
        leaf levels (big (pos n)) (0xcf ∷ be 8 n) (ground arith)
          (λ rest beyond. step_big_pos text key (nested_of levels) rest beyond n low high)
    written (big (negsuc k)) levels (low, high) h =
        leaf levels (big (negsuc k)) (0xd3 ∷ be 8 (2 ^ 64 - suc k)) (ground arith)
          (λ rest beyond. step_big_neg text key (nested_of levels) rest beyond k low high)
    written (str s) levels (back, fits) h =
        leaf levels (str s) (encode_string utf8 s) refl
          (λ rest beyond. step_string text key (nested_of levels) rest beyond utf8 s back fits)
    written (bin b) levels c h =
        leaf levels (bin b) (encode_binary b) refl
          (λ rest beyond. step_binary text key (nested_of levels) rest beyond b c)
    written (arr vs) zero c h = absurd (omega arith)
    written (arr vs) (suc levels) (fits, c) h =
        array_lem levels vs fits (items_written vs levels c (omega arith))
    written (map es) levels c h = absurd c
    written (obj p es) zero c h = absurd (omega arith)
    written (obj p es) (suc levels) (is, fits, fresh, c) h =
        rw is (map_lem levels es fits (entries_written es levels done fresh c (omega arith)))
    written other levels c h = absurd c

    items_written :
        (vs : Items) (levels : ℕ)
        → AreCanonical utf8 text vs
        → depth_items vs ≤ levels
        → ItemsWritten levels vs
    items_written end levels c h = ([], refl, λ rest beyond. refl)
    items_written (item v vs) levels (c, cs) h =
        items_cons levels v vs (written v levels c (omega arith))
          (items_written vs levels cs (omega arith))

    entries_written :
        (es : Entries) (levels : ℕ) (before : Entries)
        → FreshKeys before es
        → HoldCanonical utf8 text es
        → depth_entries es ≤ levels
        → EntriesWritten levels before es
    entries_written done levels before fresh c h =
        ([], refl, λ rest beyond. rw (append_entries-done before) refl)
    entries_written (entry (str k) v es) levels before fresh (kc, c, cs) h =
        entries_cons levels before k v es fresh (written (str k) levels kc (omega arith))
          (written v levels c (omega arith))
          (entries_written es levels (snoc before k v) fresh.2 cs (omega arith))
    entries_written (entry q v es) levels before fresh c h = absurd fresh

-- For strings that the text encoder and decoder keep: each canonical value nested at most 128 deep is
-- encoded, and decoding the bytes, whatever follows them in the view or after it in the buffer, gives
-- the value back.
pub decode-encode :
    (utf8 text : List ℕ → List ℕ) (key : PropertyKey) (v : Value)
    → IsCanonical utf8 text v
    → depth v ≤ 128
    → (bytes : List ℕ) × (encode_value utf8 v ≡ ok bytes)
      × ((rest beyond : List ℕ) → decode text key (bytes ++ rest) beyond ≡ ok v)
decode-encode utf8 text key v c h =
    let (bytes, made, read) = written utf8 text key v 128 c h in
    (bytes, made, λ rest beyond. unfold decode in rw (read rest beyond) refl)
