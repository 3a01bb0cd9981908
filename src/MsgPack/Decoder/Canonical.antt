-- ===== src/MsgPack/Decoder/Canonical.antt =====
-- The values that packages/core/src/utils/msgpack.js reads as it wrote them, and how an object of such
-- values is filled.
use reticulum_js.Common.{ℕ, suc, ◌≤◌, ◌<◌, ◌≡◌, refl, ap, arith, false, none, List, length, max}
use reticulum_js.Common.Int.{pos, negsuc}
use reticulum_js.MsgPack.{
  Value, null, undefined, bool, int, float, big, str, bin, arr, map, obj, other, Items, end, item,
  Entries, done, entry, default_proto, count_items, count_entries, max_safe,
}
use reticulum_js.MsgPack.Floats.{integer_of, is_minus_zero}
use reticulum_js.MsgPack.Decoder.Objects.{
  PropertyKey, index_of, goes_before, key_after, set_property, has_own, assign, is_guarded,
  put_entry,
}

unfoldable mutual
  pub depth : Value → ℕ
  depth (arr vs) = suc (depth_items vs)
  depth (map es) = suc (depth_entries es)
  depth (obj p es) = suc (depth_entries es)
  depth v = 0

  pub depth_items : Items → ℕ
  depth_items end = 0
  depth_items (item v vs) = max (depth v) (depth_items vs)

  pub depth_entries : Entries → ℕ
  depth_entries done = 0
  depth_entries (entry k v es) = max (max (depth k) (depth v)) (depth_entries es)

unfoldable pub snoc : Entries → List ℕ → Value → Entries
snoc done k v = entry (str k) v done
snoc (entry q w es) k v = entry q w (snoc es k v)

unfoldable pub append_entries : Entries → Entries → Entries
append_entries done fs = fs
append_entries (entry q w es) fs = entry q w (append_entries es fs)

-- Strings for keys, none an array index, each other than those before it.
unfoldable pub FreshKeys : Entries → Entries → Type 0
FreshKeys before done = Unit {0}
FreshKeys before (entry (str k) v es) =
    (has_own k before ≡ false) × (index_of k ≡ none) × FreshKeys (snoc before k v) es
FreshKeys before (entry q v es) = ⊥

-- Safe integers, other Numbers that are no integers, BigInts of 64 bits that are not safe integers,
-- strings that TextEncoder and TextDecoder keep, and arrays and plain objects of these with fewer than
-- `2 ^ 32` elements, the objects without prototype of their own and without array indices for keys.
module _ (utf8 text : List ℕ → List ℕ) where
  unfoldable mutual
    pub IsCanonical : Value → Type 0
    IsCanonical null = Unit {0}
    IsCanonical undefined = ⊥
    IsCanonical (bool b) = Unit {0}
    IsCanonical (int (pos n)) = n ≤ max_safe
    IsCanonical (int (negsuc k)) = k < max_safe
    IsCanonical (float bits) =
        (length bits ≡ 8) × (integer_of bits ≡ none) × (is_minus_zero bits ≡ false)
    IsCanonical (big (pos n)) = (max_safe < n) × (n < 18446744073709551616)
    IsCanonical (big (negsuc k)) = (max_safe ≤ k) × (k < 9223372036854775808)
    IsCanonical (str s) = (text (utf8 s) ≡ s) × (length (utf8 s) < 4294967296)
    IsCanonical (bin b) = length b < 4294967296
    IsCanonical (arr vs) = (count_items vs < 4294967296) × AreCanonical vs
    IsCanonical (map es) = ⊥
    IsCanonical (obj p es) =
        (p ≡ default_proto) × (count_entries es < 4294967296) × FreshKeys done es × HoldCanonical es
    IsCanonical other = ⊥

    pub AreCanonical : Items → Type 0
    AreCanonical end = Unit {0}
    AreCanonical (item v vs) = IsCanonical v × AreCanonical vs

    pub HoldCanonical : Entries → Type 0
    HoldCanonical done = Unit {0}
    HoldCanonical (entry k v es) = IsCanonical k × IsCanonical v × HoldCanonical es

not_after : (q : Value) (k : List ℕ) → index_of k ≡ none → key_after q k ≡ false
unfolding key_after goes_before
not_after (str j) k i = ground (arith, i)
not_after q k i = refl

-- A new key that is no index goes to the end.
set_property_lem :
    (k : List ℕ) (v : Value) (es : Entries)
    → has_own k es ≡ false
    → index_of k ≡ none
    → set_property k v es ≡ snoc es k v
unfolding set_property has_own snoc
set_property_lem k v done h i = refl
set_property_lem k v (entry q w es) h i =
    ground (arith, not_after q k i, set_property_lem k v es (ground (arith, h)) i)

pub append_entries-done : (es : Entries) → append_entries es done ≡ es
unfolding append_entries
append_entries-done done = refl
append_entries-done (entry q w es) = ap (λ (t : Entries). entry q w t) (append_entries-done es)

pub append_entries-snoc :
    (es : Entries) (k : List ℕ) (v : Value) (fs : Entries)
    → append_entries (snoc es k v) fs ≡ append_entries es (entry (str k) v fs)
unfolding append_entries snoc
append_entries-snoc done k v fs = refl
append_entries-snoc (entry q w es) k v fs =
    ap (λ (t : Entries). entry q w t) (append_entries-snoc es k v fs)

-- A string is put as a property, "__proto__" too.
pub put_entry_lem :
    (key : PropertyKey) (k : List ℕ) (v : Value) (es : Entries)
    → has_own k es ≡ false
    → index_of k ≡ none
    → put_entry key (str k) v default_proto es ≡ (default_proto, snoc es k v)
unfolding put_entry assign is_guarded
put_entry_lem key k v es h i = ground (arith, set_property_lem k v es h i)
