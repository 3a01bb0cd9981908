-- ===== src/BlobStore.antt =====
-- `BlobStore` of packages/rfed/src/blob_store.js. Times are in milliseconds: `Date.now()` is an
-- argument. An array that is copied is the array itself.
pub mod Pairs
pub mod Invariant
pub mod Fit
pub mod Oldest
pub mod Spec
pub mod Limit
pub mod Records
pub mod Tests
use reticulum_js.Common.{
  ℕ, zero, suc, ◌+◌, ◌-◌, ◌*◌, ◌≤◌, ◌<◌, Bool, true, false, ◌&&◌, Option, none, some, List, [], ◌∷◌,
  ltb, leb, ◌==◌, if◌then◌else◌, length, Result, ok, err,
}
use reticulum_js.Common.Dict
use reticulum_js.Common.Dict.{Key, Dict, str_eq}
use reticulum_js.Encoding.{to_hex}

abbrev pub blob_ttl : ℕ
blob_ttl = 30 * 24 * 3600 * 1000

abbrev pub evict_check_interval : ℕ
evict_check_interval = 3600 * 1000

abbrev pub default_storage_limit_bytes : ℕ
default_storage_limit_bytes = 2 * 1024 * 1024 * 1024

pub record BlobMeta : Type 0 where
  pub message_id : List ℕ
  pub destination_hash : List ℕ
  pub received : ℕ
  pub size : ℕ

pub record BlobStore : Type 0 where
  pub blobs : Dict (List ℕ)
  pub meta : Dict BlobMeta
  pub storage_limit_bytes : ℕ
  pub used_bytes : ℕ
  pub last_eviction : ℕ

pub data StoreError : Type 0 where
  collision : StoreError

abbrev pub new_store : ℕ → BlobStore
new_store limit = record {
  blobs = [];
  meta = [];
  storage_limit_bytes = limit;
  used_bytes = 0;
  last_eviction = 0;
}

-- `Array.from(this._meta.values())`
unfoldable pub metas : Dict BlobMeta → List BlobMeta
metas [] = []
metas ((k, m) ∷ d) = m ∷ metas d

unfoldable pub delete : List ℕ → BlobStore → BlobStore × Bool
delete message_id s =
    let key = to_hex message_id in
    elim (Dict.get key s.meta) [
      | none ↦ (s, false)
      | some m ↦ (
        record s {
          meta = Dict.delete key s.meta;
          blobs = Dict.delete key s.blobs;
          used_bytes = s.used_bytes - m.size;
        },
        true,
      )
    ]

-- The loop of `_evictOlderThan` over a copy of the metadata; with the count.
unfoldable pub evict_old : ℕ → List BlobMeta → BlobStore → BlobStore × ℕ
evict_old cutoff [] s = (s, 0)
evict_old cutoff (m ∷ ms) s = elim (ltb 0 m.received && ltb m.received cutoff) [
  | true ↦ let (s', count) = evict_old cutoff ms (delete m.message_id s).0 in (s', suc count)
  | false ↦ evict_old cutoff ms s
]

unfoldable pub evict_older_than : ℕ → BlobStore → BlobStore × ℕ
evict_older_than cutoff s = evict_old cutoff (metas s.meta) s

unfoldable pub prune_older_than : ℕ → ℕ → BlobStore → BlobStore × ℕ
prune_older_than now max_age s = evict_older_than (now - max_age) s

-- A stable sort by `received`.
unfoldable pub insert_by_age : BlobMeta → List BlobMeta → List BlobMeta
insert_by_age m [] = m ∷ []
insert_by_age m (x ∷ xs) =
    let rest = insert_by_age m xs in if leb m.received x.received then m ∷ x ∷ xs else x ∷ rest

unfoldable pub sort_by_age : List BlobMeta → List BlobMeta
sort_by_age [] = []
sort_by_age (m ∷ ms) = insert_by_age m (sort_by_age ms)

unfoldable pub fits : ℕ → BlobStore → Bool
fits needed s = leb (s.used_bytes + needed) s.storage_limit_bytes

unfoldable pub evict_ordered : ℕ → List BlobMeta → BlobStore → BlobStore
evict_ordered needed [] s = s
evict_ordered needed (m ∷ ms) s = elim (fits needed s) [
  | true ↦ s
  | false ↦ evict_ordered needed ms (delete m.message_id s).0
]

unfoldable pub evict_to_fit : ℕ → BlobStore → BlobStore
evict_to_fit needed s =
    if fits needed s then s else evict_ordered needed (sort_by_age (metas s.meta)) s

-- The sweep of `storeWithId`.
unfoldable pub sweep : ℕ → BlobStore → BlobStore
sweep now s =
    if ltb evict_check_interval (now - s.last_eviction)
    then record (evict_older_than (now - blob_ttl) s).0 { last_eviction = now }
    else s

unfoldable pub insert_blob : ℕ → List ℕ → List ℕ → List ℕ → BlobStore → BlobStore
insert_blob now destination_hash message_id blob s = record s {
  blobs = Dict.set (to_hex message_id) blob s.blobs;
  meta =
      Dict.set (to_hex message_id)
        (record {
          message_id = message_id;
          destination_hash = destination_hash;
          received = now;
          size = length blob;
        })
        s.meta;
  used_bytes = s.used_bytes + length blob;
}

-- With the id that is returned.
unfoldable pub store_with_id :
    ℕ → List ℕ → List ℕ → List ℕ → BlobStore → Result StoreError (BlobStore × List ℕ)
store_with_id now destination_hash message_id blob s = elim (Dict.get (to_hex message_id) s.meta) [
  | some existing ↦
      if str_eq (to_hex existing.destination_hash) (to_hex destination_hash)
      then ok (s, existing.message_id)
      else err collision
  | none ↦ ok (
    insert_blob now destination_hash message_id blob (evict_to_fit (length blob) (sweep now s)),
    message_id,
  )
]

unfoldable pub get : List ℕ → BlobStore → Option (List ℕ)
get message_id s = Dict.get (to_hex message_id) s.blobs

unfoldable pub ids_of : List BlobMeta → List (List ℕ)
ids_of [] = []
ids_of (m ∷ ms) = m.message_id ∷ ids_of ms

unfoldable pub all_message_ids : BlobStore → List (List ℕ)
all_message_ids s = ids_of (metas s.meta)

unfoldable pub pairs_of : List BlobMeta → List (List ℕ × List ℕ)
pairs_of [] = []
pairs_of (m ∷ ms) = (m.destination_hash, m.message_id) ∷ pairs_of ms

unfoldable pub manifest : BlobStore → List (List ℕ × List ℕ)
manifest s = pairs_of (metas s.meta)

unfoldable pub meta_for : List ℕ → BlobStore → Option (List ℕ × List ℕ)
meta_for message_id s = elim (Dict.get (to_hex message_id) s.meta) [
  | none ↦ none
  | some m ↦ some (m.destination_hash, m.message_id)
]

unfoldable pub ids_in : List ℕ → List BlobMeta → List (List ℕ)
ids_in want [] = []
ids_in want (m ∷ ms) =
    let rest = ids_in want ms in
    if str_eq (to_hex m.destination_hash) want then m.message_id ∷ rest else rest

unfoldable pub message_ids_for_channel : List ℕ → BlobStore → List (List ℕ)
message_ids_for_channel channel_hash s = ids_in (to_hex channel_hash) (metas s.meta)
