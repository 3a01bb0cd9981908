-- ===== src/MessageStore/Offers.antt =====
-- The sorted lists of packages/lxmf/src/message_store.js: what is offered to a peer, and what is listed
-- for a recipient.
use reticulum_js.Common.{
  ℕ, ◌≡◌, ◌↔◌, refl, sym, ap, ◌∙◌, arith, Bool, true, false, Option, none, some, List, [], ◌∷◌,
  if◌then◌else◌, Bool-cases, inl, inr,
}
use reticulum_js.Common.Dict
use reticulum_js.Common.Dict.{Key, Dict, str_eq, str_eq_iff, str_eq_refl}
use reticulum_js.Common.Sized.{Distinct}
use reticulum_js.Encoding.{to_hex}
use reticulum_js.MessageStore.{
  PropagationEntry, MessageStore, weight_of, get_message, is_owner, serve_data_for_destination,
}
use reticulum_js.MessageStore.Sync.{
  sort_by, is_offered, entries_where, unhandled_entries_for_peer, transient_ids_for_destination,
}
use reticulum_js.MessageStore.Sorted.{
  Among, IsAscending, sort_by-IsAscending, sort_by-Among, Among-map, map-Among,
}
use reticulum_js.MessageStore.Entries.{IsWellFormed}

-- An entry is stored, and the test holds of it.
abbrev pub Stored : (PropagationEntry → Bool) → Dict PropagationEntry → PropagationEntry → Type 0
Stored p d e = (k : Key) × (Dict.get k d ≡ some e) × (p e ≡ true)

where_skips :
    (p : PropagationEntry → Bool) (k : Key) (x : PropagationEntry) (d : Dict PropagationEntry)
    → p x ≡ false
    → entries_where p ((k, x) ∷ d) ≡ entries_where p d
unfolding entries_where
where_skips p k x d e = ground (arith, e)

where_takes :
    (p : PropagationEntry → Bool) (k : Key) (x : PropagationEntry) (d : Dict PropagationEntry)
    → p x ≡ true
    → entries_where p ((k, x) ∷ d) ≡ x ∷ entries_where p d
unfolding entries_where
where_takes p k x d e = ground (arith, e)

first-Stored :
    (p : PropagationEntry → Bool) (k : Key) (e x : PropagationEntry) (d : Dict PropagationEntry)
    → e ≡ x
    → p x ≡ true
    → Stored p ((k, x) ∷ d) e
unfolding Dict.get
first-Stored p k e x d same h = rw same (k, rw (str_eq_refl k) refl, h)

later-Stored :
    (p : PropagationEntry → Bool) (k : Key) (e x : PropagationEntry) (d : Dict PropagationEntry)
    → Dict.get k d ≡ none
    → Stored p d e
    → Stored p ((k, x) ∷ d) e
unfolding Dict.get
later-Stored p k e x d absent (j, at, h) = (j, ground (arith, at, absent, str_eq_iff k j), h)

same-Among :
    (e : PropagationEntry) (xs ys : List PropagationEntry) → xs ≡ ys → Among e xs → Among e ys
same-Among e xs ys same a = rw (sym same) a

where_sound :
    (p : PropagationEntry → Bool) (e : PropagationEntry) (d : Dict PropagationEntry)
    → Distinct d
    → Among e (entries_where p d)
    → Stored p d e
where_sound p e [] h a = absurd (unfold entries_where in a)
where_sound p e ((k, x) ∷ d) h a = elim (Bool-cases (p x)) [
  | inl is ↦ go is (where_sound p e d h.1) (same-Among e _ _ (where_takes p k x d is) a)
  | inr isnt ↦
      later-Stored p k e x d h.0
        (where_sound p e d h.1 (same-Among e _ _ (where_skips p k x d isnt) a))
]
  where
    go :
        p x ≡ true
        → (Among e (entries_where p d) → Stored p d e)
        → Among e (x ∷ entries_where p d)
        → Stored p ((k, x) ∷ d) e
    go is ih (inl same) = first-Stored p k e x d same is
    go is ih (inr later) = later-Stored p k e x d h.0 (ih later)

where_complete :
    (p : PropagationEntry → Bool) (e : PropagationEntry) (d : Dict PropagationEntry)
    → Stored p d e
    → Among e (entries_where p d)
unfolding Dict.get
where_complete p e [] (k, at, h) = absurd (no at)
  where
    no : ◌≡◌ {A = Option PropagationEntry} none (some e) → ⊥
    no a = cc
where_complete p e ((j, x) ∷ d) (k, at, h) = elim (Bool-cases (str_eq j k)) [
  | inl is ↦
      let same : e ≡ x = ground (arith, is, at) in
      rw (where_takes p j x d (ap p (sym same) ∙ h)) (inl same)
  | inr isnt ↦
      let later = where_complete p e d (k, ground (arith, isnt, at), h) in
      elim (Bool-cases (p x)) [
        | inl is ↦ rw (where_takes p j x d is) (inr later)
        | inr isnt' ↦ rw (where_skips p j x d isnt') later
      ]
]

where_iff :
    (f : PropagationEntry → ℕ) (p : PropagationEntry → Bool) (e : PropagationEntry)
    (d : Dict PropagationEntry)
    → Distinct d
    → Among e (sort_by f (entries_where p d)) ↔ Stored p d e
where_iff f p e d h = (
  λ a. where_sound p e d h ((sort_by-Among f e (entries_where p d)).0 a),
  λ a. (sort_by-Among f e (entries_where p d)).1 (where_complete p e d a),
)

-- In a well-formed store, what is offered to a peer is in ascending order of weight, and an entry is
-- among it if and only if it is stored, the peer is in its unhandled set and its stamp is worth the
-- accepted cost.
pub unhandled_entries_lem :
    (now cost : ℕ) (peer : List ℕ) (s : MessageStore)
    → IsWellFormed s
    → IsAscending (weight_of now) (unhandled_entries_for_peer now peer cost s)
      × ((e : PropagationEntry)
          → Among e (unhandled_entries_for_peer now peer cost s)
            ↔ Stored (is_offered (to_hex peer) cost) s.entries e)
unfolding unhandled_entries_for_peer
unhandled_entries_lem now cost peer s w = (
  sort_by-IsAscending (weight_of now) (entries_where (is_offered (to_hex peer) cost) s.entries),
  λ e. where_iff (weight_of now) (is_offered (to_hex peer) cost) e s.entries w.distinct,
)

serve_owned :
    (id owner : List ℕ) (e : PropagationEntry) (s : MessageStore)
    → Dict.get (to_hex id) s.entries ≡ some e
    → serve_data_for_destination id owner s ≡ (if is_owner owner e then some e.lxmf_data else none)
unfolding serve_data_for_destination get_message
serve_owned id owner e s at = ground (arith, at)

owner_served :
    (id owner : List ℕ) (e : PropagationEntry) (s : MessageStore)
    → Dict.get (to_hex id) s.entries ≡ some e
    → serve_data_for_destination id owner s ≡ some e.lxmf_data
    → is_owner owner e ≡ true
owner_served id owner e s at h = elim (Bool-cases (is_owner owner e)) [
  | inl is ↦ is
  | inr isnt ↦ absurd (no (sym (ground (arith, serve_owned id owner e s at, isnt)) ∙ h))
]
  where
    no : ◌≡◌ {A = Option (List ℕ)} none (some e.lxmf_data) → ⊥
    no a = cc

listed_forth :
    (owner : List ℕ) (s : MessageStore)
    → IsWellFormed s
    → (id : List ℕ) → Among id (transient_ids_for_destination owner s)
    → (e : PropagationEntry) × (get_message id s ≡ some e)
      × (serve_data_for_destination id owner s ≡ some e.lxmf_data)
unfolding transient_ids_for_destination get_message
listed_forth owner s w id a =
    let (e, among, same) =
      Among-map (λ (e : PropagationEntry). e.transient_id) id
        (sort_by (λ (e : PropagationEntry). e.size) (entries_where (is_owner owner) s.entries)) a in
    let (k, at, mine) =
      (where_iff (λ (e : PropagationEntry). e.size) (is_owner owner) e s.entries w.distinct).0
        among in
    let key : k ≡ to_hex id = (w.all_fit k e at).0 ∙ ap to_hex (sym same) in
    let at' : Dict.get (to_hex id) s.entries ≡ some e = rw (sym key) at in
    (e, at', ground (arith, serve_owned id owner e s at', mine))

-- In a well-formed store, whatever is listed for an owner is the id of a stored message whose data is
-- served to that owner, and a stored message whose data is served to an owner is listed for it.
pub listed_is_served :
    (owner : List ℕ) (s : MessageStore)
    → IsWellFormed s
    → ((id : List ℕ)
        → Among id (transient_ids_for_destination owner s)
        → (e : PropagationEntry) × (get_message id s ≡ some e)
          × (serve_data_for_destination id owner s ≡ some e.lxmf_data))
      × ((e : PropagationEntry)
          → get_message e.transient_id s ≡ some e
          → serve_data_for_destination e.transient_id owner s ≡ some e.lxmf_data
          → Among e.transient_id (transient_ids_for_destination owner s))
unfolding transient_ids_for_destination get_message
listed_is_served owner s w = (listed_forth owner s w, back)
  where
    back :
        (e : PropagationEntry)
        → get_message e.transient_id s ≡ some e
        → serve_data_for_destination e.transient_id owner s ≡ some e.lxmf_data
        → Among e.transient_id (transient_ids_for_destination owner s)
    back e at h =
        map-Among (λ (x : PropagationEntry). x.transient_id) e
          (sort_by (λ (x : PropagationEntry). x.size) (entries_where (is_owner owner) s.entries))
          ((where_iff (λ (x : PropagationEntry). x.size) (is_owner owner) e s.entries w.distinct).1
            (to_hex e.transient_id, at, owner_served e.transient_id owner e s at h))
