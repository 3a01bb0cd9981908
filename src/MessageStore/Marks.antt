-- ===== src/MessageStore/Marks.antt =====
-- The marks of packages/lxmf/src/message_store.js, case by case, and the form of the store after them.
use reticulum_js.Common.{
  ℕ, ◌≡◌, refl, sym, ap, ◌∙◌, arith, true, false, Option, none, some, List, [], ◌∷◌, if◌then◌else◌,
  Bool-cases, Option-cases, inl, inr,
}
use reticulum_js.Common.Dict
use reticulum_js.Common.Dict.{Key, Dict, str_eq, str_eq_iff}
use reticulum_js.Common.KeySet
use reticulum_js.Common.KeySet.{has-add, has-remove}
use reticulum_js.Common.Sized.{Distinct, Distinct-set, sum_of, sum-set_same}
use reticulum_js.Encoding.{to_hex}
use reticulum_js.MessageStore.{PropagationEntry, MessageStore, get_message}
use reticulum_js.MessageStore.Sync.{
  unhandled, handled, mark_unhandled_for_peer, mark_handled_for_peer, mark_entries,
  mark_all_unhandled_for_peer,
}
use reticulum_js.MessageStore.Entries.{Fits}
use reticulum_js.MessageStore.Sound.{IsSound}

unhandled-Fits : (k peer : Key) (e : PropagationEntry) → Fits k e → Fits k (unhandled peer e)
unfolding unhandled
unhandled-Fits k peer e (key, apart) = (
  key,
  λ p h.
      ground
        (arith, h, apart p, has-add p peer e.unhandled_peers, has-remove p peer e.handled_peers),
)

handled-Fits : (k peer : Key) (e : PropagationEntry) → Fits k e → Fits k (handled peer e)
unfolding handled
handled-Fits k peer e (key, apart) = (
  key,
  λ p h.
      ground
        (arith, h, apart p, has-add p peer e.handled_peers, has-remove p peer e.unhandled_peers),
)

size-marked :
    (peer : Key) (e : PropagationEntry)
    → ((unhandled peer e).size ≡ e.size) × ((handled peer e).size ≡ e.size)
unfolding unhandled handled
size-marked peer e = (refl, refl)

-- An entry of the same size in the place of another.
replace-IsSound :
    (limit : Option ℕ) (k : Key) (e e' : PropagationEntry) (s : MessageStore)
    → Dict.get k s.entries ≡ some e
    → Fits k e'
    → e'.size ≡ e.size
    → IsSound limit s
    → IsSound limit (record s { entries = Dict.set k e' s.entries })
replace-IsSound limit k e e' s at fits size w = record {
  well_formed = record {
    all_fit = λ j x h. elim (Bool-cases (str_eq k j)) [
      | inl is ↦
          let same : x ≡ e' = ground (arith, h, is, Dict.get-set k j e' s.entries) in
          rw (same, sym ((str_eq_iff k j).0 is)) fits
      | inr isnt ↦
          w.well_formed.all_fit j x (ground (arith, h, isnt, Dict.get-set k j e' s.entries))
    ];
    distinct = Distinct-set k e' s.entries w.well_formed.distinct;
    total =
        w.well_formed.total
        ∙ sym (sum-set_same (λ (x : PropagationEntry). x.size) k e' e s.entries at size);
  };
  limit_kept = w.limit_kept;
  limited = w.limited;
}

pub mark_unhandled_missing :
    (id peer : List ℕ) (s : MessageStore)
    → get_message id s ≡ none
    → (mark_unhandled_for_peer id peer s).0 ≡ s
unfolding mark_unhandled_for_peer
mark_unhandled_missing id peer s e = ground (arith, e)

pub mark_unhandled_found :
    (id peer : List ℕ) (x : PropagationEntry) (s : MessageStore)
    → get_message id s ≡ some x
    → (mark_unhandled_for_peer id peer s).0
      ≡ record s { entries = Dict.set (to_hex id) (unhandled (to_hex peer) x) s.entries }
unfolding mark_unhandled_for_peer
mark_unhandled_found id peer x s e = ground (arith, e)

pub mark_handled_missing :
    (id peer : List ℕ) (s : MessageStore)
    → get_message id s ≡ none
    → (mark_handled_for_peer id peer s).0 ≡ s
unfolding mark_handled_for_peer
mark_handled_missing id peer s e = ground (arith, e)

pub mark_handled_found :
    (id peer : List ℕ) (x : PropagationEntry) (s : MessageStore)
    → get_message id s ≡ some x
    → (mark_handled_for_peer id peer s).0
      ≡ record s { entries = Dict.set (to_hex id) (handled (to_hex peer) x) s.entries }
unfolding mark_handled_for_peer
mark_handled_found id peer x s e = ground (arith, e)

-- The marks of one message.
pub mark_unhandled-IsSound :
    (limit : Option ℕ) (id peer : List ℕ) (s : MessageStore)
    → IsSound limit s
    → IsSound limit (mark_unhandled_for_peer id peer s).0
mark_unhandled-IsSound limit id peer s w = elim (Option-cases (get_message id s)) [
  | inl e ↦ rw (mark_unhandled_missing id peer s e) w
  | inr (x, e) ↦
      let at : Dict.get (to_hex id) s.entries ≡ some x = unfold get_message in e in
      rw (mark_unhandled_found id peer x s e) (
        replace-IsSound limit (to_hex id) x (unhandled (to_hex peer) x) s at
          (unhandled-Fits (to_hex id) (to_hex peer) x (w.well_formed.all_fit (to_hex id) x at))
          (size-marked (to_hex peer) x).0 w)
]

pub mark_handled-IsSound :
    (limit : Option ℕ) (id peer : List ℕ) (s : MessageStore)
    → IsSound limit s
    → IsSound limit (mark_handled_for_peer id peer s).0
mark_handled-IsSound limit id peer s w = elim (Option-cases (get_message id s)) [
  | inl e ↦ rw (mark_handled_missing id peer s e) w
  | inr (x, e) ↦
      let at : Dict.get (to_hex id) s.entries ≡ some x = unfold get_message in e in
      rw (mark_handled_found id peer x s e) (
        replace-IsSound limit (to_hex id) x (handled (to_hex peer) x) s at
          (handled-Fits (to_hex id) (to_hex peer) x (w.well_formed.all_fit (to_hex id) x at))
          (size-marked (to_hex peer) x).1 w)
]

-- The mark of every message.
unfoldable pub marked : Key → PropagationEntry → PropagationEntry
marked peer e = if KeySet.has peer e.unhandled_peers then e else unhandled peer e

mark_entries_cons :
    (peer k : Key) (e : PropagationEntry) (d : Dict PropagationEntry)
    → (mark_entries peer ((k, e) ∷ d)).0 ≡ (k, marked peer e) ∷ (mark_entries peer d).0
unfolding mark_entries marked
mark_entries_cons peer k e d = ground arith

pub get-mark_entries :
    (peer k : Key) (x : PropagationEntry) (d : Dict PropagationEntry)
    → Dict.get k (mark_entries peer d).0 ≡ some x
    → (e : PropagationEntry) × (Dict.get k d ≡ some e) × (x ≡ marked peer e)
unfolding Dict.get
get-mark_entries peer k x [] h = absurd (no (unfold mark_entries in h))
  where
    no : ◌≡◌ {A = Option PropagationEntry} none (some x) → ⊥
    no a = cc
get-mark_entries peer k x ((j, y) ∷ d) h = elim (Bool-cases (str_eq j k)) [
  | inl is ↦ (y, rw is refl, first is)
  | inr isnt ↦ let (e, at, same) = get-mark_entries peer k x d (rest isnt) in (e, rw isnt at, same)
]
  where
    at_cons : Dict.get k ((j, marked peer y) ∷ (mark_entries peer d).0) ≡ some x
    at_cons = ap (Dict.get k) (sym (mark_entries_cons peer j y d)) ∙ h

    first : str_eq j k ≡ true → x ≡ marked peer y
    first is = ground (arith, is, at_cons)

    rest : str_eq j k ≡ false → Dict.get k (mark_entries peer d).0 ≡ some x
    rest isnt = ground (arith, isnt, at_cons)

absent-mark_entries :
    (peer k : Key) (d : Dict PropagationEntry)
    → Dict.get k d ≡ none
    → Dict.get k (mark_entries peer d).0 ≡ none
absent-mark_entries peer k d h = elim (Option-cases (Dict.get k (mark_entries peer d).0)) [
  | inl e ↦ e
  | inr (x, e) ↦
      let (y, at, same) = get-mark_entries peer k x d e in absurd (clash (Dict.get k d) y h at)
]
  where
    clash : (o : Option PropagationEntry) (y : PropagationEntry) → o ≡ none → o ≡ some y → ⊥
    clash o y a b = cc

mark_entries-Distinct :
    (peer : Key) (d : Dict PropagationEntry) → Distinct d → Distinct (mark_entries peer d).0
mark_entries-Distinct peer [] h = unfold mark_entries in tt
mark_entries-Distinct peer ((k, e) ∷ d) h =
    rw (mark_entries_cons peer k e d)
      (absent-mark_entries peer k d h.0, mark_entries-Distinct peer d h.1)

abbrev size_of : PropagationEntry → ℕ
size_of e = e.size

size_of-marked : (peer : Key) (e : PropagationEntry) → (marked peer e).size ≡ e.size
unfolding marked
size_of-marked peer e = ground (arith, (size-marked peer e).0)

sum-mark_entries :
    (peer : Key) (d : Dict PropagationEntry)
    → sum_of size_of (mark_entries peer d).0 ≡ sum_of size_of d
unfolding sum_of
sum-mark_entries peer [] = unfold mark_entries in refl
sum-mark_entries peer ((k, e) ∷ d) =
    ap (sum_of size_of) (mark_entries_cons peer k e d)
    ∙ omega (arith, size_of-marked peer e, sum-mark_entries peer d)

marked-Fits : (k peer : Key) (e : PropagationEntry) → Fits k e → Fits k (marked peer e)
unfolding marked
marked-Fits k peer e f = elim (Bool-cases (KeySet.has peer e.unhandled_peers)) [
  | inl is ↦ rw is f
  | inr isnt ↦ rw isnt (unhandled-Fits k peer e f)
]

pub mark_all-IsSound :
    (limit : Option ℕ) (peer : List ℕ) (s : MessageStore)
    → IsSound limit s
    → IsSound limit (mark_all_unhandled_for_peer peer s).0
unfolding mark_all_unhandled_for_peer
mark_all-IsSound limit peer s w = record {
  well_formed = record {
    all_fit = λ k x at.
        let (e, at', same) = get-mark_entries (to_hex peer) k x s.entries at in
        rw same (marked-Fits k (to_hex peer) e (w.well_formed.all_fit k e at'));
    distinct = mark_entries-Distinct (to_hex peer) s.entries w.well_formed.distinct;
    total = w.well_formed.total ∙ sym (sum-mark_entries (to_hex peer) s.entries);
  };
  limit_kept = w.limit_kept;
  limited = w.limited;
}
