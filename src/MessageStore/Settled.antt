-- ===== src/MessageStore/Settled.antt =====
-- A message that a peer has, and the later operations of packages/lxmf/src/message_store.js.
use reticulum_js.Common.{
  none, ℕ, ◌-◌, ◌≡◌, ◌≢◌, ◌⊎◌, sym, ◌∙◌, arith, false, Option, some, List, [], ◌∷◌, Bool-cases,
  Option-cases, inl, inr, All,
}
use reticulum_js.Common.Dict
use reticulum_js.Common.Dict.{Key, Dict, str_eq, str_eq_iff}
use reticulum_js.Common.KeySet
use reticulum_js.Common.KeySet.{has-add, has-remove}
use reticulum_js.Common.Sized.{Distinct, Distinct-set}
use reticulum_js.Encoding.{to_hex}
use reticulum_js.MessageStore.{
  PropagationEntry, MessageStore, get_message, drop_entry, store_entry, add_message, has_message,
  remove_message, remove_for_destination, prune_aged, prune,
}
use reticulum_js.MessageStore.Sync.{
  unhandled, handled, mark_unhandled_for_peer, mark_handled_for_peer, mark_all_unhandled_for_peer,
}
use reticulum_js.MessageStore.Entries.{Within-drop_entry}
use reticulum_js.MessageStore.Keeps.{prune_aged_keeps}
use reticulum_js.MessageStore.Heaviest.{enforce_capacity_keeps}
use reticulum_js.MessageStore.Sound.{
  IsSound, drop_entry-IsSound, remove_missing, remove_found, purge_cases, prune_untimed,
  prune_timed,
}
use reticulum_js.MessageStore.Marks.{
  mark_unhandled_missing, mark_unhandled_found, mark_handled_missing, mark_handled_found, marked,
  get-mark_entries,
}
use reticulum_js.MessageStore.Records.{import_records}
use reticulum_js.MessageStore.Imports.{import_records-absent}
use reticulum_js.MessageStore.Calls.{
  Call, adds, removes, purges, prunes, imports, marks_unhandled, marks_handled, marks_all_unhandled,
  call, calls, IsAdmissible, call-IsSound,
}

-- A call that does not add or import the message under the key `k`, nor marks it unhandled for `p`.
abbrev pub LeavesAlone : Key → Key → Call → Type 0
LeavesAlone k p (adds now e) = to_hex e.transient_id ≢ k
LeavesAlone k p (removes id) = Unit {0}
LeavesAlone k p (purges id owner) = Unit {0}
LeavesAlone k p (prunes now) = Unit {0}
LeavesAlone k p (imports records) =
    All (λ (r : PropagationEntry). to_hex r.transient_id ≢ k) records
LeavesAlone k p (marks_unhandled id peer) = (to_hex id ≢ k) ⊎ (to_hex peer ≢ p)
LeavesAlone k p (marks_handled id peer) = Unit {0}
LeavesAlone k p (marks_all_unhandled peer) = to_hex peer ≢ p

-- The message under the key `k`, if it is stored, does not wait for `p`.
abbrev pub Settled : Key → Key → MessageStore → Type 0
Settled k p s =
    (e : PropagationEntry) → Dict.get k s.entries ≡ some e → KeySet.has p e.unhandled_peers ≡ false

module _ (k p : Key) where
  absent_is : (e : PropagationEntry) (o : Option PropagationEntry) → o ≡ none → o ≡ some e → ⊥
  absent_is e o x y = cc

  drop_entry-Settled :
      (j : Key) (x : PropagationEntry) (s : MessageStore)
      → Dict.get j s.entries ≡ some x
      → Settled k p s
      → Settled k p (drop_entry j x s)
  drop_entry-Settled j x s at h e there = h e (Within-drop_entry j x s k e there)

  add_message-Settled :
      (now : ℕ) (e : PropagationEntry) (s : MessageStore)
      → Distinct s.entries
      → to_hex e.transient_id ≢ k
      → Settled k p s
      → Settled k p (add_message now e s).0
  unfolding add_message
  add_message-Settled now e s d other h = elim (Bool-cases (has_message e.transient_id s)) [
    | inl is ↦ rw is h
    | inr isnt ↦ rw isnt (
        enforce_capacity_keeps (Settled k p) drop_entry-Settled now (store_entry e s)
          (unfold store_entry in Distinct-set (to_hex e.transient_id) e s.entries d) (put h))
  ]
    where
      put : Settled k p s → Settled k p (store_entry e s)
      put h x there = h x (
          unfold store_entry in
          sym (Dict.get-set_other (to_hex e.transient_id) k e s.entries other) ∙ there)

  remove_message-Settled :
      (id : List ℕ) (s : MessageStore) → Settled k p s → Settled k p (remove_message id s).0
  remove_message-Settled id s h = elim (Option-cases (Dict.get (to_hex id) s.entries)) [
    | inl e ↦ rw (remove_missing id s e) h
    | inr (x, e) ↦ rw (remove_found id x s e) (drop_entry-Settled (to_hex id) x s e h)
  ]

  purge-Settled :
      (id owner : List ℕ) (s : MessageStore)
      → Settled k p s
      → Settled k p (remove_for_destination id owner s).0
  purge-Settled id owner s h = elim (purge_cases id owner s) [
    | inl e ↦ rw e h
    | inr e ↦ rw e (remove_message-Settled id s h)
  ]

  prune-Settled :
      (limit : Option ℕ) (now : ℕ) (s : MessageStore)
      → IsSound limit s
      → Settled k p s
      → Settled k p (prune now s).0
  prune-Settled limit now s w h = elim (Option-cases s.message_ttl) [
    | inl e ↦
        rw (prune_untimed now s e)
          (enforce_capacity_keeps (Settled k p) drop_entry-Settled now s w.well_formed.distinct h)
    | inr (ttl, e) ↦
        let w' =
          prune_aged_keeps (IsSound limit) (drop_entry-IsSound limit) (now - ttl) s.entries s
            w.well_formed.distinct (λ j x at. at) w in
        rw (prune_timed now ttl s e) (
          enforce_capacity_keeps (Settled k p) drop_entry-Settled now
            (prune_aged (now - ttl) s.entries s).0 w'.well_formed.distinct
            (prune_aged_keeps (Settled k p) drop_entry-Settled (now - ttl) s.entries s
              w.well_formed.distinct (λ j x at. at) h))
  ]

  -- Writing an entry that does not wait for `p`, if it is under `k`.
  pub set-Settled :
      (j : Key) (x : PropagationEntry) (s : MessageStore)
      → (j ≡ k → KeySet.has p x.unhandled_peers ≡ false)
      → Settled k p s
      → Settled k p (record s { entries = Dict.set j x s.entries })
  set-Settled j x s new h e there = elim (Bool-cases (str_eq j k)) [
    | inl is ↦
        let same : e ≡ x = ground (arith, there, is, Dict.get-set j k x s.entries) in
        rw same (new ((str_eq_iff j k).0 is))
    | inr isnt ↦ h e (ground (arith, there, isnt, Dict.get-set j k x s.entries))
  ]

  unhandled-other :
      (peer : Key) (x : PropagationEntry)
      → peer ≢ p
      → KeySet.has p x.unhandled_peers ≡ false
      → KeySet.has p (unhandled peer x).unhandled_peers ≡ false
  unfolding unhandled
  unhandled-other peer x other h =
      ground (arith, h, has-add p peer x.unhandled_peers, str_eq_iff peer p, other)

  pub handled-any :
      (peer : Key) (x : PropagationEntry)
      → KeySet.has p x.unhandled_peers ≡ false ⊎ (peer ≡ p)
      → KeySet.has p (handled peer x).unhandled_peers ≡ false
  unfolding handled
  handled-any peer x (inl h) = ground (arith, h, has-remove p peer x.unhandled_peers)
  handled-any peer x (inr same) =
      ground (arith, has-remove p peer x.unhandled_peers, str_eq_iff peer p, same)

  mark_unhandled-Settled :
      (id peer : List ℕ) (s : MessageStore)
      → (to_hex id ≢ k) ⊎ (to_hex peer ≢ p)
      → Settled k p s
      → Settled k p (mark_unhandled_for_peer id peer s).0
  mark_unhandled-Settled id peer s other h = elim (Option-cases (get_message id s)) [
    | inl e ↦ rw (mark_unhandled_missing id peer s e) h
    | inr (x, e) ↦
        let at : Dict.get (to_hex id) s.entries ≡ some x = unfold get_message in e in
        rw (mark_unhandled_found id peer x s e) (
          set-Settled (to_hex id) (unhandled (to_hex peer) x) s
            (λ same. elim other [
              | inl apart ↦ absurd (apart same)
              | inr apart ↦ unhandled-other (to_hex peer) x apart (h x (rw (sym same) at))
            ])
            h)
  ]

  mark_handled-Settled :
      (id peer : List ℕ) (s : MessageStore)
      → Settled k p s
      → Settled k p (mark_handled_for_peer id peer s).0
  mark_handled-Settled id peer s h = elim (Option-cases (get_message id s)) [
    | inl e ↦ rw (mark_handled_missing id peer s e) h
    | inr (x, e) ↦
        let at : Dict.get (to_hex id) s.entries ≡ some x = unfold get_message in e in
        rw (mark_handled_found id peer x s e) (
          set-Settled (to_hex id) (handled (to_hex peer) x) s
            (λ same. handled-any (to_hex peer) x (inl (h x (rw (sym same) at)))) h)
  ]

  marked-other :
      (peer : Key) (x : PropagationEntry)
      → peer ≢ p
      → KeySet.has p x.unhandled_peers ≡ false
      → KeySet.has p (marked peer x).unhandled_peers ≡ false
  unfolding marked
  marked-other peer x other h = elim (Bool-cases (KeySet.has peer x.unhandled_peers)) [
    | inl is ↦ rw is h
    | inr isnt ↦ rw isnt (unhandled-other peer x other h)
  ]

  mark_all-Settled :
      (peer : List ℕ) (s : MessageStore)
      → to_hex peer ≢ p
      → Settled k p s
      → Settled k p (mark_all_unhandled_for_peer peer s).0
  unfolding mark_all_unhandled_for_peer
  mark_all-Settled peer s other h e there =
      let (x, at, same) = get-mark_entries (to_hex peer) k e s.entries there in
      rw same (marked-other (to_hex peer) x other (h x at))

  call-Settled :
      (limit : Option ℕ) (c : Call) (s : MessageStore)
      → IsSound limit s
      → LeavesAlone k p c
      → Settled k p s
      → Settled k p (call c s)
  unfolding call
  call-Settled limit (adds now e) s w a h = add_message-Settled now e s w.well_formed.distinct a h
  call-Settled limit (removes id) s w a h = remove_message-Settled id s h
  call-Settled limit (purges id owner) s w a h = purge-Settled id owner s h
  call-Settled limit (prunes now) s w a h = prune-Settled limit now s w h
  call-Settled limit (imports records) s w a h = λ e there. absurd (
      absent_is e (Dict.get k (import_records records s).entries)
        (import_records-absent k records s a) there)
  call-Settled limit (marks_unhandled id peer) s w a h = mark_unhandled-Settled id peer s a h
  call-Settled limit (marks_handled id peer) s w a h = mark_handled-Settled id peer s h
  call-Settled limit (marks_all_unhandled peer) s w a h = mark_all-Settled peer s a h

  pub calls-Settled :
      (limit : Option ℕ) (cs : List Call) (s : MessageStore)
      → IsSound limit s
      → All (IsAdmissible limit) cs
      → All (LeavesAlone k p) cs
      → Settled k p s
      → IsSound limit (calls cs s) × Settled k p (calls cs s)
  unfolding calls
  calls-Settled limit [] s w a l h = (w, h)
  calls-Settled limit (c ∷ cs) s w a l h =
      calls-Settled limit cs (call c s) (call-IsSound limit c s a.0 w) a.1 l.1
        (call-Settled limit c s w l.0 h)
