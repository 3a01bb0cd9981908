-- ===== src/MessageStore/Tests.antt =====
-- Runs of the store, and the witnesses.
use reticulum_js.Common.{
  ℕ, ◌*◌, ◌≤◌, ◌≡◌, ◌≢◌, ◌↔◌, refl, sym, arith, true, false, none, some, List, [], ◌∷◌, inl,
}
use reticulum_js.Common.Dict
use reticulum_js.Common.Dict.{Key, Dict, str_eq, str_eq_iff}
use reticulum_js.Common.KeySet
use reticulum_js.Common.Sized.{sum_of}
use reticulum_js.Encoding.{to_hex, hex_digit}
use reticulum_js.MessageStore.{
  PropagationEntry, MessageStore, new_message_store, weight_of, has_message, get_message,
  insert_ranked, rank, drop_entry, evict_ranked, enforce_capacity, store_entry, add_message,
  is_owner, remove_for_destination, serve_data_for_destination,
}
use reticulum_js.MessageStore.Sync.{
  unhandled, handled, mark_unhandled_for_peer, mark_handled_for_peer, mark_entries,
  mark_all_unhandled_for_peer, is_offered, entries_where, insert_by, sort_by,
  unhandled_entries_for_peer, transient_ids_for_destination,
}
use reticulum_js.MessageStore.Entries.{IsWellFormed, Apart}
use reticulum_js.MessageStore.Heaviest.{enforce_capacity_heaviest}
use reticulum_js.MessageStore.Sound.{IsSound}
use reticulum_js.MessageStore.Records.{entry_of, set_of}
use reticulum_js.MessageStore.Imports.{Importable, sizes_of}
use reticulum_js.MessageStore.Calls.{
  imports, Call, adds, marks_unhandled, marks_handled, marks_all_unhandled, call, calls,
  calls-IsSound,
}
use reticulum_js.MessageStore.Sorted.{Among, IsAscending}
use reticulum_js.MessageStore.Offers.{Stored, unhandled_entries_lem, listed_is_served}
use reticulum_js.MessageStore.Handled.{handled_stays}

abbrev day : ℕ
day = 24 * 3600 * 1000

abbrev entry : List ℕ → List ℕ → ℕ → ℕ → PropagationEntry
entry id dest received size = record {
  transient_id = id;
  destination_hash = dest;
  lxmf_data = id;
  stamp_data = [];
  received = received;
  stamp_value = 8;
  size = size;
  handled_peers = [];
  unhandled_peers = [];
}

abbrev large : PropagationEntry
large = entry (1 ∷ []) (7 ∷ []) (40 * day) 6

abbrev small : PropagationEntry
small = entry (2 ∷ []) (7 ∷ []) (40 * day) 3

abbrev other_small : PropagationEntry
other_small = entry (3 ∷ []) (8 ∷ []) (41 * day) 2

abbrev two : MessageStore
two = record {
  entries = ((48 ∷ 50 ∷ []), small) ∷ ((48 ∷ 51 ∷ []), other_small) ∷ [];
  storage_limit_bytes = some 10;
  message_ttl = none;
  total_bytes = 5;
}

abbrev additions : List Call
additions = adds (41 * day) large ∷ adds (41 * day) small ∷ adds (41 * day) other_small ∷ []

-- The store of ten bytes drops the largest message of the same age.
additions_run : calls additions (new_message_store (some 10) none) ≡ two
unfolding calls call add_message has_message store_entry enforce_capacity evict_ranked rank
    insert_ranked weight_of drop_entry Dict.get Dict.set Dict.delete str_eq to_hex hex_digit
additions_run = refl

no_entry : (k : Key) (e : PropagationEntry) → Dict.get k [] ≡ some e → ⊥
unfolding Dict.get
no_entry k e h = cc

new_store-IsSound : IsSound (some 10) (new_message_store (some 10) none)
unfolding sum_of
new_store-IsSound = record {
  well_formed = record { all_fit = λ k e h. absurd (no_entry k e h); distinct = tt; total = refl };
  limit_kept = refl;
  limited = omega arith;
}

no_peers-Apart : (id dest : List ℕ) (received size : ℕ) → Apart (entry id dest received size)
unfolding KeySet.has
no_peers-Apart id dest received size peer h = refl

small-Importable : Importable (some 10) (small ∷ [])
unfolding entry_of set_of KeySet.has sizes_of
small-Importable = (((λ peer h. refl), tt), (tt, tt), omega arith)

calls-IsSound_example :
    IsSound (some 10) (calls (imports (small ∷ []) ∷ additions) (new_message_store (some 10) none))
calls-IsSound_example =
    calls-IsSound (some 10) (imports (small ∷ []) ∷ additions) (new_message_store (some 10) none)
      (
        small-Importable,
        (
          no_peers-Apart (1 ∷ []) (7 ∷ []) (40 * day) 6,
          (
            no_peers-Apart (2 ∷ []) (7 ∷ []) (40 * day) 3,
            (no_peers-Apart (3 ∷ []) (8 ∷ []) (41 * day) 2, tt),
          ),
        ),
      )
      new_store-IsSound

two-IsSound : IsSound (some 10) two
two-IsSound = rw (sym additions_run) (
    calls-IsSound (some 10) additions (new_message_store (some 10) none)
      (
        no_peers-Apart (1 ∷ []) (7 ∷ []) (40 * day) 6,
        (
          no_peers-Apart (2 ∷ []) (7 ∷ []) (40 * day) 3,
          (no_peers-Apart (3 ∷ []) (8 ∷ []) (41 * day) 2, tt),
        ),
      )
      new_store-IsSound)

abbrev over : MessageStore
over = record two { storage_limit_bytes = some 4 }

over-IsWellFormed : IsWellFormed over
over-IsWellFormed = record {
  all_fit = two-IsSound.well_formed.all_fit;
  distinct = two-IsSound.well_formed.distinct;
  total = two-IsSound.well_formed.total;
}

enforce_capacity_heaviest_example : weight_of (41 * day) other_small ≤ weight_of (41 * day) small
unfolding enforce_capacity evict_ranked rank insert_ranked weight_of drop_entry Dict.get Dict.delete
    str_eq
enforce_capacity_heaviest_example =
    enforce_capacity_heaviest (41 * day) over (48 ∷ 50 ∷ []) (48 ∷ 51 ∷ []) small other_small
      over-IsWellFormed refl refl refl

unhandled_entries_lem_example :
    IsAscending (weight_of (41 * day)) (unhandled_entries_for_peer (41 * day) (9 ∷ []) 8 two)
    × ((e : PropagationEntry)
        → Among e (unhandled_entries_for_peer (41 * day) (9 ∷ []) 8 two)
          ↔ Stored (is_offered (to_hex (9 ∷ [])) 8) two.entries e)
unhandled_entries_lem_example =
    unhandled_entries_lem (41 * day) 8 (9 ∷ []) two two-IsSound.well_formed

listed_is_served_example :
    ((id : List ℕ)
      → Among id (transient_ids_for_destination (7 ∷ []) two)
      → (e : PropagationEntry) × (get_message id two ≡ some e)
        × (serve_data_for_destination id (7 ∷ []) two ≡ some e.lxmf_data))
    × ((e : PropagationEntry)
        → get_message e.transient_id two ≡ some e
        → serve_data_for_destination e.transient_id (7 ∷ []) two ≡ some e.lxmf_data
        → Among e.transient_id (transient_ids_for_destination (7 ∷ []) two))
listed_is_served_example = listed_is_served (7 ∷ []) two two-IsSound.well_formed

-- Two messages wait for a peer; it takes one.
offers_run :
    (unhandled_entries_for_peer
        (41 * day)
        (9 ∷ [])
        8
        (calls (marks_all_unhandled (9 ∷ []) ∷ marks_handled (2 ∷ []) (9 ∷ []) ∷ []) two)
      ≡ record other_small { unhandled_peers = (48 ∷ 57 ∷ []) ∷ [] } ∷ [])
    × (transient_ids_for_destination (7 ∷ []) two ≡ (2 ∷ []) ∷ [])
    × (remove_for_destination (2 ∷ []) (8 ∷ []) two ≡ (two, false))
unfolding unhandled_entries_for_peer calls call mark_all_unhandled_for_peer mark_entries unhandled
    mark_handled_for_peer handled get_message is_offered entries_where insert_by sort_by weight_of
    Dict.get Dict.set str_eq to_hex hex_digit KeySet.has KeySet.add KeySet.remove
    transient_ids_for_destination is_owner remove_for_destination
offers_run = (refl, refl, refl)

abbrev offered : PropagationEntry
offered = record other_small { unhandled_peers = (48 ∷ 57 ∷ []) ∷ [] }

apart : to_hex (3 ∷ []) ≢ to_hex (2 ∷ [])
unfolding str_eq to_hex hex_digit
apart h = false_is_not ((str_eq_iff (to_hex (3 ∷ [])) (to_hex (2 ∷ []))).1 h)
  where
    false_is_not : false ≡ true → ⊥
    false_is_not e = cc

handled_stays_example : to_hex offered.transient_id ≢ to_hex (2 ∷ [])
unfolding unhandled_entries_for_peer calls call mark_unhandled_for_peer unhandled
    mark_handled_for_peer handled get_message is_offered entries_where insert_by sort_by weight_of
    Dict.get Dict.set str_eq to_hex hex_digit KeySet.has KeySet.add KeySet.remove
handled_stays_example =
    handled_stays (some 10) (2 ∷ []) (9 ∷ []) (marks_unhandled (3 ∷ []) (9 ∷ []) ∷ []) two
      two-IsSound (tt, tt) (inl apart, tt) (41 * day) 8 offered (inl refl)
