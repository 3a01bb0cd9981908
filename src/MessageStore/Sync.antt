-- ===== src/MessageStore/Sync.antt =====
-- The sync state of the peers in packages/lxmf/src/message_store.js: the marks, and what is offered.
use reticulum_js.Common.{
  ℕ, ◌+◌, Bool, true, false, not, ◌&&◌, none, some, List, [], ◌∷◌, ltb, leb, if◌then◌else◌, map,
}
use reticulum_js.Common.Dict
use reticulum_js.Common.Dict.{Key, Dict, str_eq}
use reticulum_js.Common.KeySet
use reticulum_js.Encoding.{to_hex}
use reticulum_js.MessageStore.{PropagationEntry, MessageStore, weight_of, get_message, is_owner}

unfoldable pub unhandled : Key → PropagationEntry → PropagationEntry
unhandled peer e = record e {
  unhandled_peers = KeySet.add peer e.unhandled_peers;
  handled_peers = KeySet.remove peer e.handled_peers;
}

unfoldable pub handled : Key → PropagationEntry → PropagationEntry
handled peer e = record e {
  handled_peers = KeySet.add peer e.handled_peers;
  unhandled_peers = KeySet.remove peer e.unhandled_peers;
}

unfoldable pub mark_unhandled_for_peer : List ℕ → List ℕ → MessageStore → MessageStore × Bool
mark_unhandled_for_peer transient_id peer_hash s = elim (get_message transient_id s) [
  | none ↦ (s, false)
  | some e ↦ (
    record s {
      entries = Dict.set (to_hex transient_id) (unhandled (to_hex peer_hash) e) s.entries;
    },
    true,
  )
]

unfoldable pub mark_handled_for_peer : List ℕ → List ℕ → MessageStore → MessageStore × Bool
mark_handled_for_peer transient_id peer_hash s = elim (get_message transient_id s) [
  | none ↦ (s, false)
  | some e ↦ (
    record s { entries = Dict.set (to_hex transient_id) (handled (to_hex peer_hash) e) s.entries },
    true,
  )
]

-- The loop of `markAllUnhandledForPeer`, with the count.
unfoldable pub mark_entries : Key → Dict PropagationEntry → Dict PropagationEntry × ℕ
mark_entries peer [] = ([], 0)
mark_entries peer ((k, e) ∷ d) =
    let (d', count) = mark_entries peer d in
    if KeySet.has peer e.unhandled_peers
    then ((k, e) ∷ d', count)
    else ((k, unhandled peer e) ∷ d', count + 1)

unfoldable pub mark_all_unhandled_for_peer : List ℕ → MessageStore → MessageStore × ℕ
mark_all_unhandled_for_peer peer_hash s =
    let (d, count) = mark_entries (to_hex peer_hash) s.entries in (record s { entries = d }, count)

-- A stable sort by an ascending key.
unfoldable pub insert_by :
    (PropagationEntry → ℕ) → PropagationEntry → List PropagationEntry → List PropagationEntry
insert_by f x [] = x ∷ []
insert_by f x (y ∷ ys) =
    let rest = insert_by f x ys in if leb (f x) (f y) then x ∷ y ∷ ys else y ∷ rest

unfoldable pub sort_by : (PropagationEntry → ℕ) → List PropagationEntry → List PropagationEntry
sort_by f [] = []
sort_by f (x ∷ xs) = insert_by f x (sort_by f xs)

unfoldable pub is_offered : Key → ℕ → PropagationEntry → Bool
is_offered peer min_accepted_cost e =
    KeySet.has peer e.unhandled_peers && not (ltb e.stamp_value min_accepted_cost)

unfoldable pub entries_where :
    (PropagationEntry → Bool) → Dict PropagationEntry → List PropagationEntry
entries_where p [] = []
entries_where p ((k, e) ∷ d) = let rest = entries_where p d in if p e then e ∷ rest else rest

-- An offer is its entry, which has the other fields.
unfoldable pub unhandled_entries_for_peer : ℕ → List ℕ → ℕ → MessageStore → List PropagationEntry
unhandled_entries_for_peer now peer_hash min_accepted_cost s =
    sort_by (weight_of now)
      (entries_where (is_offered (to_hex peer_hash) min_accepted_cost) s.entries)

unfoldable pub transient_ids_for_destination : List ℕ → MessageStore → List (List ℕ)
transient_ids_for_destination destination_hash s =
    map (λ (e : PropagationEntry). e.transient_id)
      (sort_by (λ (e : PropagationEntry). e.size)
        (entries_where (is_owner destination_hash) s.entries))
