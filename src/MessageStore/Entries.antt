-- ===== src/MessageStore/Entries.antt =====
-- The form of a message store of packages/lxmf/src/message_store.js between two calls.
use reticulum_js.Common.{
  ℕ, ◌+◌, ◌≡◌, refl, sym, ap, arith, true, false, Option, none, some, ◌∷◌, Bool-cases, inl, inr,
}
use reticulum_js.Common.Dict
use reticulum_js.Common.Dict.{Key, Dict, str_eq, str_eq_iff, str_eq_refl}
use reticulum_js.Common.KeySet
use reticulum_js.Common.Sized.{
  Distinct, Distinct-delete, Distinct-set, sum_of, sum-delete, sum-set_new,
}
use reticulum_js.Encoding.{to_hex}
use reticulum_js.MessageStore.{PropagationEntry, MessageStore, drop_entry, store_entry}

-- No peer is among both sets of the entry.
abbrev pub Apart : PropagationEntry → Type 0
Apart e =
    (peer : Key)
    → KeySet.has peer e.handled_peers ≡ true
    → KeySet.has peer e.unhandled_peers ≡ false

-- What each entry has.
abbrev pub Fits : Key → PropagationEntry → Type 0
Fits k e = (k ≡ to_hex e.transient_id) × Apart e

abbrev size_of : PropagationEntry → ℕ
size_of e = e.size

pub record IsWellFormed (s : MessageStore) : Type 0 where
  pub all_fit : (k : Key) (e : PropagationEntry) → Dict.get k s.entries ≡ some e → Fits k e
  pub distinct : Distinct s.entries
  pub total : s.total_bytes ≡ sum_of size_of s.entries

-- The entries of one map are those of another, under the same keys.
abbrev pub Within : Dict PropagationEntry → Dict PropagationEntry → Type 0
Within d d' = (k : Key) (e : PropagationEntry) → Dict.get k d ≡ some e → Dict.get k d' ≡ some e

pub Within-drop_entry :
    (k : Key) (e : PropagationEntry) (s : MessageStore)
    → Within (drop_entry k e s).entries s.entries
unfolding drop_entry
Within-drop_entry k e s j x h = ground (arith, h, Dict.get-delete k j s.entries)

pub drop_entry-IsWellFormed :
    (k : Key) (e : PropagationEntry) (s : MessageStore)
    → Dict.get k s.entries ≡ some e
    → IsWellFormed s
    → IsWellFormed (drop_entry k e s)
unfolding drop_entry
drop_entry-IsWellFormed k e s at w = record {
  all_fit = λ j x h. w.all_fit j x (ground (arith, h, Dict.get-delete k j s.entries));
  distinct = Distinct-delete k s.entries w.distinct;
  total = omega (arith, w.total, sum-delete size_of k e s.entries w.distinct at);
}

pub store_entry-IsWellFormed :
    (e : PropagationEntry) (s : MessageStore)
    → Dict.get (to_hex e.transient_id) s.entries ≡ none
    → Apart e
    → IsWellFormed s
    → IsWellFormed (store_entry e s)
unfolding store_entry
store_entry-IsWellFormed e s new apart w = record {
  all_fit = λ j x h. elim (Bool-cases (str_eq (to_hex e.transient_id) j)) [
    | inl is ↦
        let same : x ≡ e =
          ground (arith, h, is, Dict.get-set (to_hex e.transient_id) j e s.entries) in
        rw same (sym ((str_eq_iff (to_hex e.transient_id) j).0 is), apart)
    | inr isnt ↦
        w.all_fit j x (ground (arith, h, isnt, Dict.get-set (to_hex e.transient_id) j e s.entries))
  ];
  distinct = Distinct-set (to_hex e.transient_id) e s.entries w.distinct;
  total =
      rw (sum-set_new size_of (to_hex e.transient_id) e s.entries new)
        (ap (λ (n : ℕ). n + e.size) w.total);
}

-- The rest of a list of entries that are all stored, once the first one is dropped.
pub rest_stored :
    (k : Key) (e : PropagationEntry) (d : Dict PropagationEntry) (s : MessageStore)
    → Distinct ((k, e) ∷ d)
    → Within ((k, e) ∷ d) s.entries
    → Within d s.entries × Within d (drop_entry k e s).entries
unfolding drop_entry
rest_stored k e d s h w = (
  stays,
  λ j x at.
      ground (
        arith,
        stays j x at,
        Dict.get-delete k j s.entries,
        str_eq_iff k j,
        h.0,
        at,
        differs j x at,
      ),
)
  where
    clash : (o : Option PropagationEntry) (x : PropagationEntry) → o ≡ none → o ≡ some x → ⊥
    clash o x a b = cc

    differs : (j : Key) (x : PropagationEntry) → Dict.get j d ≡ some x → str_eq k j ≡ false
    differs j x at = elim (Bool-cases (str_eq k j)) [
      | inl is ↦ absurd (clash (Dict.get j d) x (rw (sym ((str_eq_iff k j).0 is)) h.0) at)
      | inr isnt ↦ isnt
    ]

    stays : Within d s.entries
    stays j x at = w j x (unfold Dict.get in rw (differs j x at) at)

pub first_stored :
    (k : Key) (e : PropagationEntry) (d d' : Dict PropagationEntry)
    → Within ((k, e) ∷ d) d'
    → Dict.get k d' ≡ some e
unfolding Dict.get
first_stored k e d d' w = w k e (rw (str_eq_refl k) refl)
