-- ===== src/BlobStore/Tests.antt =====
-- Runs of the store, and the witnesses.
use reticulum_js.Common.{ℕ, ◌*◌, ◌≤◌, ◌≡◌, refl, arith, some, List, [], ◌∷◌, err}
use reticulum_js.Common.Dict
use reticulum_js.Common.Dict.{Key, Dict, str_eq}
use reticulum_js.Common.Sized.{sum_of}
use reticulum_js.Encoding.{to_hex, hex_digit}
use reticulum_js.BlobStore.{
  BlobStore, new_store, delete, evict_to_fit, evict_ordered, sort_by_age, insert_by_age, metas,
  fits, sweep, insert_blob, store_with_id, evict_older_than, evict_old, get, all_message_ids,
  ids_of, manifest, pairs_of, meta_for, message_ids_for_channel, ids_in, collision,
}
use reticulum_js.BlobStore.Pairs.{IsWellFormed}
use reticulum_js.BlobStore.Oldest.{evict_to_fit_oldest}
use reticulum_js.BlobStore.Spec.{Call, store, call, calls, view, Steps, calls-Steps}
use reticulum_js.BlobStore.Limit.{
  Change, calling, importing, changes, bytes_of, changes-within_limit,
}

abbrev day : ℕ
day = 24 * 3600 * 1000

-- Three blobs for a store of ten bytes: the third makes the first go.
abbrev three : List Call
three =
    store (40 * day) (7 ∷ []) (1 ∷ []) (1 ∷ 2 ∷ 3 ∷ 4 ∷ [])
    ∷ store (41 * day) (7 ∷ []) (2 ∷ []) (5 ∷ 6 ∷ 7 ∷ 8 ∷ [])
    ∷ store (42 * day) (8 ∷ []) (3 ∷ []) (9 ∷ 9 ∷ 9 ∷ [])
    ∷ []

abbrev two_blobs : BlobStore
two_blobs = record {
  blobs = ((48 ∷ 50 ∷ []), (5 ∷ 6 ∷ 7 ∷ 8 ∷ [])) ∷ ((48 ∷ 51 ∷ []), (9 ∷ 9 ∷ 9 ∷ [])) ∷ [];
  meta =
      (
        (48 ∷ 50 ∷ []),
        record { message_id = 2 ∷ []; destination_hash = 7 ∷ []; received = 41 * day; size = 4 },
      )
      ∷ (
        (48 ∷ 51 ∷ []),
        record { message_id = 3 ∷ []; destination_hash = 8 ∷ []; received = 42 * day; size = 3 },
      )
      ∷ [];
  storage_limit_bytes = 10;
  used_bytes = 7;
  last_eviction = 42 * day;
}

three_run : calls three (new_store 10) ≡ two_blobs
unfolding calls call store_with_id insert_blob evict_to_fit evict_ordered sort_by_age insert_by_age
    metas fits sweep evict_older_than evict_old delete Dict.get Dict.set Dict.delete str_eq to_hex
    hex_digit
three_run = refl

-- After a month the sweep takes them.
month_run : (calls (store (80 * day) [] (4 ∷ []) [] ∷ []) two_blobs).used_bytes ≡ 0
unfolding calls call store_with_id insert_blob evict_to_fit evict_ordered sort_by_age insert_by_age
    metas fits sweep evict_older_than evict_old delete Dict.get Dict.set Dict.delete str_eq to_hex
    hex_digit
month_run = refl

reads :
    (get (3 ∷ []) two_blobs ≡ some (9 ∷ 9 ∷ 9 ∷ []))
    × (all_message_ids two_blobs ≡ (2 ∷ []) ∷ (3 ∷ []) ∷ [])
    × (manifest two_blobs ≡ ((7 ∷ []), (2 ∷ [])) ∷ ((8 ∷ []), (3 ∷ [])) ∷ [])
    × (meta_for (2 ∷ []) two_blobs ≡ some ((7 ∷ []), (2 ∷ [])))
    × (message_ids_for_channel (8 ∷ []) two_blobs ≡ (3 ∷ []) ∷ [])
unfolding get all_message_ids ids_of manifest pairs_of meta_for message_ids_for_channel ids_in metas
    Dict.get str_eq to_hex hex_digit
reads = (refl, refl, refl, refl, refl)

other_channel : store_with_id 0 (9 ∷ []) (3 ∷ []) (1 ∷ []) two_blobs ≡ err collision
unfolding store_with_id Dict.get str_eq to_hex hex_digit
other_channel = refl

two_blobs-IsWellFormed : IsWellFormed two_blobs
unfolding Dict.get str_eq to_hex hex_digit sum_of
two_blobs-IsWellFormed = record {
  paired = (refl, refl, refl, (refl, refl, refl, tt));
  distinct = (refl, (refl, tt));
  used = refl;
}

calls-Steps_example :
    IsWellFormed (calls (three) two_blobs)
    × Steps (view two_blobs) three (view (calls three two_blobs))
calls-Steps_example = calls-Steps three two_blobs two_blobs-IsWellFormed

abbrev loaded : List Change
loaded =
    importing (
      record { channel_hash = 7 ∷ []; message_id = 1 ∷ []; blob = 1 ∷ 2 ∷ []; received = day } ∷ [])
    ∷ calling (store (42 * day) (8 ∷ []) (3 ∷ []) (9 ∷ 9 ∷ 9 ∷ []))
    ∷ []

changes-within_limit_example : (changes loaded two_blobs).used_bytes ≤ 10
unfolding bytes_of
changes-within_limit_example =
    changes-within_limit loaded two_blobs two_blobs-IsWellFormed
      (((tt, tt), omega arith), (omega arith, tt)) (omega arith)

evict_to_fit_oldest_example : 41 * day ≤ 42 * day
unfolding evict_to_fit evict_ordered sort_by_age insert_by_age metas fits delete Dict.get Dict.set
    Dict.delete str_eq to_hex hex_digit
evict_to_fit_oldest_example =
    evict_to_fit_oldest 5 two_blobs (48 ∷ 50 ∷ []) (48 ∷ 51 ∷ [])
      (record { message_id = 2 ∷ []; destination_hash = 7 ∷ []; received = 41 * day; size = 4 })
      (record { message_id = 3 ∷ []; destination_hash = 8 ∷ []; received = 42 * day; size = 3 })
      two_blobs-IsWellFormed refl refl refl
