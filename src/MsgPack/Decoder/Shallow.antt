-- ===== src/MsgPack/Decoder/Shallow.antt =====
-- What the parts of the decoder of packages/core/src/utils/msgpack.js return is not nested deeper than a
-- level allows.
use reticulum_js.Common.{
  ℕ, zero, suc, ◌≤◌, ◌≡◌, refl, arith, Bool, true, false, Option, none, some, List, max, ok, err,
  Result, ◌>>=◌, if◌then◌else◌,
}
use reticulum_js.Common.Int.{ℤ}
use reticulum_js.MsgPack.{
  Value, str, int, big, arr, Items, item, Entries, done, entry, Proto, default_proto, MsgPackError,
}
use reticulum_js.MsgPack.Decoder.Objects.{
  PropertyKey, key_is, key_after, set_property, assign, put_entry,
}
use reticulum_js.MsgPack.Decoder.{
  Reader, read_uint, read_number, read_int, read_uint_64, read_int_64, read_float_64, decode_string,
  decode_binary, decode_items, decode_entries, decode_array, decode_map,
}
use reticulum_js.MsgPack.Decoder.Canonical.{depth, depth_items, depth_entries}

abbrev pub IsShallow : ℕ → Result MsgPackError (Value × Reader) → Type 0
IsShallow n (ok (v, r)) = depth v ≤ n
IsShallow n (err e) = Unit {0}

pub if_lem :
    (n : ℕ) (b : Bool) (x y : Result MsgPackError (Value × Reader))
    → IsShallow n x
    → IsShallow n y
    → IsShallow n (if b then x else y)
if_lem n true x y h h' = h
if_lem n false x y h h' = h'

pub bind_lem :
    (n : ℕ) (m : Result MsgPackError (ℕ × Reader))
    (f : ℕ × Reader → Result MsgPackError (Value × Reader))
    → ((k : ℕ) (r : Reader) → IsShallow n (f (k, r)))
    → IsShallow n (m >>= f)
bind_lem n (ok (k, r)) f h = h k r
bind_lem n (err e) f h = tt

pub depth_str : (k : List ℕ) (n : ℕ) → depth (str k) ≤ n
unfolding depth
depth_str k n = omega arith

pub depth_entries_lem :
    (q w : Value) (es : Entries)
    → depth_entries (entry q w es) ≡ max (max (depth q) (depth w)) (depth_entries es)
unfolding depth
depth_entries_lem q w es = refl

pub depth_entry :
    (q w : Value) (es : Entries) (n : ℕ)
    → depth q ≤ n
    → depth w ≤ n
    → depth_entries es ≤ n
    → depth_entries (entry q w es) ≤ n
depth_entry q w es n hq hw he = rw depth_entries_lem (omega arith)

pub depth_parts :
    (q w : Value) (es : Entries) (n : ℕ)
    → depth_entries (entry q w es) ≤ n
    → (depth q ≤ n) × (depth w ≤ n) × (depth_entries es ≤ n)
depth_parts q w es n h = let e = depth_entries_lem q w es in (omega arith, omega arith, omega arith)

pub if_entries :
    (n : ℕ) (b : Bool) (x y : Entries)
    → depth_entries x ≤ n
    → depth_entries y ≤ n
    → depth_entries (if b then x else y) ≤ n
if_entries n true x y h h' = h
if_entries n false x y h h' = h'

pub depth-set_property :
    (k : List ℕ) (v : Value) (es : Entries) (n : ℕ)
    → depth v ≤ n
    → depth_entries es ≤ n
    → depth_entries (set_property k v es) ≤ n
unfolding set_property
depth-set_property k v done n h h' = depth_entry (str k) v done n (depth_str k n) h h'
depth-set_property k v (entry q w es) n h h' =
    let (hq, hw, he) = depth_parts q w es n h' in
    if_entries n (key_is q k) (entry q v es) _ (depth_entry q v es n hq h he) (
      if_entries n (key_after q k) (entry (str k) v (entry q w es)) _
        (depth_entry (str k) v (entry q w es) n (depth_str k n) h h')
        (depth_entry q w (set_property k v es) n hq hw (depth-set_property k v es n h he)))

pub depth-assign :
    (k : List ℕ) (v : Value) (p : Proto) (es : Entries) (n : ℕ)
    → depth v ≤ n
    → depth_entries es ≤ n
    → depth_entries (assign k v p es).1 ≤ n
unfolding assign
depth-assign k v p es n h h' = ground (arith, depth-set_property k v es n h h')

pub depth-put_entry :
    (key : PropertyKey) (k v : Value) (p : Proto) (es : Entries) (n : ℕ)
    → depth v ≤ n
    → depth_entries es ≤ n
    → depth_entries (put_entry key k v p es).1 ≤ n
unfolding put_entry
depth-put_entry key (str s) v p es n h h' =
    ground (arith, depth-set_property s v es n h h', depth-assign s v p es n h h')
depth-put_entry key k v p es n h h' = depth-assign (key k) v p es n h h'

pub bind_value :
    (n k : ℕ) (m : Result MsgPackError (Value × Reader))
    (f : Value × Reader → Result MsgPackError (Value × Reader))
    → IsShallow n m
    → ((v : Value) (r : Reader) → depth v ≤ n → IsShallow k (f (v, r)))
    → IsShallow k (m >>= f)
bind_value n k (ok (v, r)) f h g = g v r h
bind_value n k (err e) f h g = tt

abbrev pub AreShallow : ℕ → Result MsgPackError (Items × Reader) → Type 0
AreShallow n (ok (vs, r)) = depth_items vs ≤ n
AreShallow n (err e) = Unit {0}

pub item_lem :
    (n : ℕ) (v : Value) (m : Result MsgPackError (Items × Reader))
    → depth v ≤ n
    → AreShallow n m
    → AreShallow n (m >>= λ (vs, r). ok (item v vs, r))
unfolding depth
item_lem n v (ok (vs, r)) h hs = omega arith
item_lem n v (err e) h hs = tt

pub items_bind :
    (n : ℕ) (m : Result MsgPackError (Value × Reader))
    (f : Value × Reader → Result MsgPackError (Items × Reader))
    → IsShallow n m
    → ((v : Value) (r : Reader) → depth v ≤ n → AreShallow n (f (v, r)))
    → AreShallow n (m >>= f)
items_bind n (ok (v, r)) f h g = g v r h
items_bind n (err e) f h g = tt

pub array_bind :
    (n : ℕ) (m : Result MsgPackError (Items × Reader))
    → AreShallow n m
    → IsShallow (suc n) (m >>= λ (vs, r). ok (arr vs, r))
unfolding depth
array_bind n (ok (vs, r)) h = omega arith
array_bind n (err e) h = tt

module _ (text : List ℕ → List ℕ) (key : PropertyKey) where
  module _ (n : ℕ) (decode_one : Reader → Result MsgPackError (Value × Reader))
      (h : (r : Reader) → IsShallow n (decode_one r)) where
    pub items_lem : (k : ℕ) (r : Reader) → AreShallow n (decode_items text key decode_one k r)
    unfolding decode_items depth
    items_lem zero r = omega arith
    items_lem (suc k) r =
        items_bind n (decode_one r) _ (h r)
          (λ v r' d. item_lem n v (decode_items text key decode_one k r') d (items_lem k r'))

    pub entries_lem :
        (k : ℕ) (p : Proto) (es : Entries) (r : Reader)
        → depth_entries es ≤ n
        → IsShallow (suc n) (decode_entries text key decode_one k p es r)
    unfolding decode_entries
    entries_lem zero p es r d = unfold depth in omega arith
    entries_lem (suc k) p es r d = bind_value n (suc n) (decode_one r) _ (h r) (λ q r' dq.
        bind_value n (suc n) (decode_one r') _ (h r') (λ v r'' dv.
          entries_lem k (put_entry key q v p es).0 (put_entry key q v p es).1 r''
            (depth-put_entry key q v p es n dv d)))

  -- The depth of what the nested decoder returns, which is not there at the last level.
  abbrev pub NestedShallow : ℕ → Option (Reader → Result MsgPackError (Value × Reader)) → Type 0
  NestedShallow n none = Unit {0}
  NestedShallow zero (some decode_one) = ⊥
  NestedShallow (suc n) (some decode_one) = (r : Reader) → IsShallow n (decode_one r)

  pub array_lem :
      (n : ℕ) (nested : Option (Reader → Result MsgPackError (Value × Reader)))
      → NestedShallow n nested
      → (k : ℕ) (r : Reader) → IsShallow n (decode_array text key nested k r)
  unfolding decode_array
  array_lem n none h k r = tt
  array_lem zero (some decode_one) h k r = absurd h
  array_lem (suc n) (some decode_one) h k r =
      array_bind n (decode_items text key decode_one k r) (items_lem n decode_one h k r)

  pub map_lem :
      (n : ℕ) (nested : Option (Reader → Result MsgPackError (Value × Reader)))
      → NestedShallow n nested
      → (k : ℕ) (r : Reader) → IsShallow n (decode_map text key nested k r)
  unfolding decode_map
  map_lem n none h k r = tt
  map_lem zero (some decode_one) h k r = absurd h
  map_lem (suc n) (some decode_one) h k r =
      entries_lem n decode_one h k default_proto done r (unfold depth in omega arith)

module _ (n : ℕ) where
  pub number_lem : (w : ℕ) (r : Reader) → IsShallow n (read_number w r)
  unfolding read_number depth
  number_lem w r = bind_lem n (read_uint w r) _ (λ k r'. omega arith)

  pub int_lem : (w : ℕ) (r : Reader) → IsShallow n (read_int w r)
  unfolding read_int depth
  int_lem w r = bind_lem n (read_uint w r) _ (λ k r'. omega arith)

  pub flat : (b : Bool) (z : ℤ) → depth (if b then int z else big z) ≤ n
  unfolding depth
  flat true z = omega arith
  flat false z = omega arith

  pub uint_64_lem : (r : Reader) → IsShallow n (read_uint_64 r)
  unfolding read_uint_64
  uint_64_lem r = bind_lem n (read_uint 8 r) _ (λ k r'. flat _ _)

  pub int_64_lem : (r : Reader) → IsShallow n (read_int_64 r)
  unfolding read_int_64
  int_64_lem r = bind_lem n (read_uint 8 r) _ (λ k r'. flat _ _)

  pub float_lem : (r : Reader) → IsShallow n (read_float_64 r)
  unfolding read_float_64 depth
  float_lem r = ground arith

  pub string_lem :
      (text : List ℕ → List ℕ) (k : ℕ) (r : Reader) → IsShallow n (decode_string text k r)
  unfolding decode_string depth
  string_lem text k r = ground arith

  pub binary_lem : (k : ℕ) (r : Reader) → IsShallow n (decode_binary k r)
  unfolding decode_binary depth
  binary_lem k r = ground arith
