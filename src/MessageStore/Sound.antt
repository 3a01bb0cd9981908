-- ===== src/MessageStore/Sound.antt =====
-- Additions, removals and pruning of packages/lxmf/src/message_store.js, case by case, and the form of
-- the store after them.
use reticulum_js.Common.{
  ℕ, ◌-◌, ◌≤◌, ◌≡◌, ◌⊎◌, sym, arith, false, Option, none, some, List, Bool-cases, Option-cases, inl,
  inr,
}
use reticulum_js.Common.Dict
use reticulum_js.Common.Dict.{Key, Dict, str_eq, str_eq_iff}
use reticulum_js.Encoding.{to_hex}
use reticulum_js.MessageStore.{
  PropagationEntry, MessageStore, has_message, get_message, drop_entry, store_entry, add_message,
  remove_message, is_owner, remove_for_destination, prune_aged, prune, enforce_capacity,
}
use reticulum_js.MessageStore.Entries.{
  Apart, IsWellFormed, drop_entry-IsWellFormed, store_entry-IsWellFormed,
}
use reticulum_js.MessageStore.Keeps.{prune_aged_keeps}
use reticulum_js.MessageStore.Heaviest.{enforce_capacity_keeps, Limited, enforce_capacity-Limited}

-- What is kept: the store is well formed, and within the limit.
pub record IsSound (limit : Option ℕ) (s : MessageStore) : Type 0 where
  pub well_formed : IsWellFormed s
  pub limit_kept : s.storage_limit_bytes ≡ limit
  pub limited : Limited limit s.total_bytes

less-Limited : (limit : Option ℕ) (m n : ℕ) → m ≤ n → Limited limit n → Limited limit m
less-Limited none m n le h = tt
less-Limited (some l) m n le h = omega (arith, le, h)

same-Limited : (o limit : Option ℕ) (n : ℕ) → o ≡ limit → Limited o n → Limited limit n
same-Limited o limit n e h = rw (sym e) h

pub drop_entry-IsSound :
    (limit : Option ℕ) (k : Key) (e : PropagationEntry) (s : MessageStore)
    → Dict.get k s.entries ≡ some e
    → IsSound limit s
    → IsSound limit (drop_entry k e s)
drop_entry-IsSound limit k e s at w = record {
  well_formed = drop_entry-IsWellFormed k e s at w.well_formed;
  limit_kept = unfold drop_entry in w.limit_kept;
  limited =
      unfold drop_entry in
      less-Limited limit (s.total_bytes - e.size) s.total_bytes (omega arith) w.limited;
}

-- Eviction makes a well-formed store sound.
enforce_capacity-IsSound :
    (limit : Option ℕ) (now : ℕ) (s : MessageStore)
    → IsWellFormed s
    → s.storage_limit_bytes ≡ limit
    → IsSound limit (enforce_capacity now s)
enforce_capacity-IsSound limit now s w e = record {
  well_formed = enforce_capacity_keeps IsWellFormed drop_entry-IsWellFormed now s w.distinct w;
  limit_kept =
      enforce_capacity_keeps (λ (t : MessageStore). t.storage_limit_bytes ≡ limit)
        (λ k x t at h. unfold drop_entry in h) now s w.distinct e;
  limited =
      same-Limited s.storage_limit_bytes limit (enforce_capacity now s).total_bytes e
        (enforce_capacity-Limited now s w);
}

has_lem :
    (id : List ℕ) (s : MessageStore)
    → has_message id s ≡ false
    → Dict.get (to_hex id) s.entries ≡ none
unfolding has_message
has_lem id s e = elim (Option-cases (Dict.get (to_hex id) s.entries)) [
  | inl is ↦ is
  | inr (x, is) ↦ ground (arith, e, is)
]

pub add_message-IsSound :
    (limit : Option ℕ) (now : ℕ) (e : PropagationEntry) (s : MessageStore)
    → Apart e
    → IsSound limit s
    → IsSound limit (add_message now e s).0
unfolding add_message
add_message-IsSound limit now e s apart w = elim (Bool-cases (has_message e.transient_id s)) [
  | inl is ↦ rw is w
  | inr isnt ↦ rw isnt (
      enforce_capacity-IsSound limit now (store_entry e s)
        (store_entry-IsWellFormed e s (has_lem e.transient_id s isnt) apart w.well_formed)
        (unfold store_entry in w.limit_kept))
]

-- The operations, case by case.
pub remove_missing :
    (id : List ℕ) (s : MessageStore)
    → Dict.get (to_hex id) s.entries ≡ none
    → (remove_message id s).0 ≡ s
unfolding remove_message
remove_missing id s e = ground (arith, e)

pub remove_found :
    (id : List ℕ) (x : PropagationEntry) (s : MessageStore)
    → Dict.get (to_hex id) s.entries ≡ some x
    → (remove_message id s).0 ≡ drop_entry (to_hex id) x s
unfolding remove_message
remove_found id x s e = ground (arith, e)

pub remove_message-IsSound :
    (limit : Option ℕ) (id : List ℕ) (s : MessageStore)
    → IsSound limit s
    → IsSound limit (remove_message id s).0
remove_message-IsSound limit id s w = elim (Option-cases (Dict.get (to_hex id) s.entries)) [
  | inl e ↦ rw (remove_missing id s e) w
  | inr (x, e) ↦ rw (remove_found id x s e) (drop_entry-IsSound limit (to_hex id) x s e w)
]

pub purge_cases :
    (id owner : List ℕ) (s : MessageStore)
    → ((remove_for_destination id owner s).0 ≡ s)
      ⊎ ((remove_for_destination id owner s).0 ≡ (remove_message id s).0)
unfolding remove_for_destination
purge_cases id owner s = elim (Option-cases (get_message id s)) [
  | inl e ↦ inl (ground (arith, e))
  | inr (x, e) ↦ elim (Bool-cases (is_owner owner x)) [
    | inl is ↦ inr (ground (arith, e, is))
    | inr isnt ↦ inl (ground (arith, e, isnt))
  ]
]

pub purge-IsSound :
    (limit : Option ℕ) (id owner : List ℕ) (s : MessageStore)
    → IsSound limit s
    → IsSound limit (remove_for_destination id owner s).0
purge-IsSound limit id owner s w = elim (purge_cases id owner s) [
  | inl e ↦ rw e w
  | inr e ↦ rw e (remove_message-IsSound limit id s w)
]

pub prune_untimed :
    (now : ℕ) (s : MessageStore) → s.message_ttl ≡ none → (prune now s).0 ≡ enforce_capacity now s
unfolding prune
prune_untimed now s e = ground (arith, e)

pub prune_timed :
    (now ttl : ℕ) (s : MessageStore)
    → s.message_ttl ≡ some ttl
    → (prune now s).0 ≡ enforce_capacity now (prune_aged (now - ttl) s.entries s).0
unfolding prune
prune_timed now ttl s e = ground (arith, e)

pub prune-IsSound :
    (limit : Option ℕ) (now : ℕ) (s : MessageStore)
    → IsSound limit s
    → IsSound limit (prune now s).0
prune-IsSound limit now s w = elim (Option-cases s.message_ttl) [
  | inl e ↦
      rw (prune_untimed now s e) (enforce_capacity-IsSound limit now s w.well_formed w.limit_kept)
  | inr (ttl, e) ↦
      let w' =
        prune_aged_keeps (IsSound limit) (drop_entry-IsSound limit) (now - ttl) s.entries s
          w.well_formed.distinct (λ k x at. at) w in
      rw (prune_timed now ttl s e) (
        enforce_capacity-IsSound limit now (prune_aged (now - ttl) s.entries s).0 w'.well_formed
          w'.limit_kept)
]
