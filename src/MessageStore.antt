-- ===== src/MessageStore.antt =====
-- `MessageStore` of packages/lxmf/src/message_store.js. Times are in milliseconds, so that `Date.now()`
-- is an argument, and a weight is the source's times the unit, in exact numbers where the source has
-- floating-point ones. An entry that comes without the sets of its peers has empty ones. An array that
-- is copied is the array itself.
pub mod Sync
pub mod Entries
pub mod Keeps
pub mod Ranked
pub mod Heaviest
pub mod Sound
pub mod Marks
pub mod Imports
pub mod Calls
pub mod Sorted
pub mod Offers
pub mod Settled
pub mod Handled
pub mod Records
pub mod Tests
use reticulum_js.Common.{
  ℕ, ◌+◌, ◌-◌, ◌*◌, Bool, true, false, not, ◌&&◌, ◌||◌, Option, none, some, List, [], ◌∷◌, ltb, leb,
  if◌then◌else◌, max, length,
}
use reticulum_js.Common.Dict
use reticulum_js.Common.Dict.{Key, Dict, str_eq}
use reticulum_js.Common.KeySet
use reticulum_js.Encoding.{to_hex}

abbrev pub age_weight_unit : ℕ
age_weight_unit = 60 * 60 * 24 * 4 * 1000

pub record PropagationEntry : Type 0 where
  pub transient_id : List ℕ
  pub destination_hash : List ℕ
  pub lxmf_data : List ℕ
  pub stamp_data : List ℕ
  pub received : ℕ
  pub stamp_value : ℕ
  pub size : ℕ
  pub handled_peers : List Key
  pub unhandled_peers : List Key

pub record MessageStore : Type 0 where
  pub entries : Dict PropagationEntry
  pub storage_limit_bytes : Option ℕ
  pub message_ttl : Option ℕ
  pub total_bytes : ℕ

abbrev pub new_message_store : Option ℕ → Option ℕ → MessageStore
new_message_store limit ttl = record {
  entries = [];
  storage_limit_bytes = limit;
  message_ttl = ttl;
  total_bytes = 0;
}

unfoldable pub weight_of : ℕ → PropagationEntry → ℕ
weight_of now e = max age_weight_unit (now - e.received) * e.size

unfoldable pub has_message : List ℕ → MessageStore → Bool
has_message transient_id s = elim (Dict.get (to_hex transient_id) s.entries) [
  | none ↦ false
  | some e ↦ true
]

unfoldable pub get_message : List ℕ → MessageStore → Option PropagationEntry
get_message transient_id s = Dict.get (to_hex transient_id) s.entries

-- A stable sort by descending weight, of the entries with their keys.
unfoldable pub insert_ranked :
    ℕ → Key × PropagationEntry → Dict PropagationEntry → Dict PropagationEntry
insert_ranked now x [] = x ∷ []
insert_ranked now x (y ∷ ys) =
    let rest = insert_ranked now x ys in
    if leb (weight_of now y.1) (weight_of now x.1) then x ∷ y ∷ ys else y ∷ rest

unfoldable pub rank : ℕ → Dict PropagationEntry → Dict PropagationEntry
rank now [] = []
rank now (x ∷ xs) = insert_ranked now x (rank now xs)

unfoldable pub drop_entry : Key → PropagationEntry → MessageStore → MessageStore
drop_entry k e s = record s {
  entries = Dict.delete k s.entries;
  total_bytes = s.total_bytes - e.size;
}

-- The loop of `_enforceCapacity`.
unfoldable pub evict_ranked : ℕ → Dict PropagationEntry → MessageStore → MessageStore
evict_ranked limit [] s = s
evict_ranked limit ((k, e) ∷ ranked) s = elim (leb s.total_bytes limit) [
  | true ↦ s
  | false ↦ evict_ranked limit ranked (drop_entry k e s)
]

unfoldable pub enforce_capacity : ℕ → MessageStore → MessageStore
enforce_capacity now s = elim s.storage_limit_bytes [
  | none ↦ s
  | some limit ↦ if leb s.total_bytes limit then s else evict_ranked limit (rank now s.entries) s
]

unfoldable pub store_entry : PropagationEntry → MessageStore → MessageStore
store_entry e s = record s {
  entries = Dict.set (to_hex e.transient_id) e s.entries;
  total_bytes = s.total_bytes + e.size;
}

unfoldable pub add_message : ℕ → PropagationEntry → MessageStore → MessageStore × Bool
add_message now e s =
    if has_message e.transient_id s
    then (s, false)
    else (enforce_capacity now (store_entry e s), true)

unfoldable pub remove_message : List ℕ → MessageStore → MessageStore × Bool
remove_message transient_id s = elim (Dict.get (to_hex transient_id) s.entries) [
  | none ↦ (s, false)
  | some e ↦ (drop_entry (to_hex transient_id) e s, true)
]

unfoldable pub is_owner : List ℕ → PropagationEntry → Bool
is_owner owner_hash e = str_eq (to_hex e.destination_hash) (to_hex owner_hash)

unfoldable pub remove_for_destination : List ℕ → List ℕ → MessageStore → MessageStore × Bool
remove_for_destination transient_id owner_hash s = elim (get_message transient_id s) [
  | none ↦ (s, false)
  | some e ↦ if is_owner owner_hash e then remove_message transient_id s else (s, false)
]

unfoldable pub serve_data_for_destination : List ℕ → List ℕ → MessageStore → Option (List ℕ)
serve_data_for_destination transient_id owner_hash s = elim (get_message transient_id s) [
  | none ↦ none
  | some e ↦ if is_owner owner_hash e then some e.lxmf_data else none
]

-- The loop of `prune` over the entries that there were at first; with the count.
unfoldable pub prune_aged : ℕ → Dict PropagationEntry → MessageStore → MessageStore × ℕ
prune_aged cutoff [] s = (s, 0)
prune_aged cutoff ((k, e) ∷ d) s = elim (ltb e.received cutoff) [
  | true ↦ let (s', aged) = prune_aged cutoff d (drop_entry k e s) in (s', aged + 1)
  | false ↦ prune_aged cutoff d s
]

unfoldable pub prune : ℕ → MessageStore → MessageStore × ℕ
prune now s = elim s.message_ttl [
  | none ↦ (enforce_capacity now s, 0)
  | some ttl ↦
      let (s', aged) = prune_aged (now - ttl) s.entries s in (enforce_capacity now s', aged)
]
