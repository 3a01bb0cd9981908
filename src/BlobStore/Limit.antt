-- ===== src/BlobStore/Limit.antt =====
-- The storage limit of packages/rfed/src/blob_store.js.
use reticulum_js.Common.{
  ℕ, ◌+◌, ◌-◌, ◌≤◌, ◌≡◌, ◌≢◌, refl, none, ◌∙◌, arith, List, [], ◌∷◌, length, Option-cases, inl, inr,
  All,
}
use reticulum_js.Common.Dict
use reticulum_js.Common.Dict.{get-set_other}
use reticulum_js.Common.Sized.{sum_of}
use reticulum_js.Encoding.{to_hex}
use reticulum_js.BlobStore.{
  BlobStore, delete, evict_to_fit, sweep, insert_blob, prune_older_than, evict_older_than, metas,
}
use reticulum_js.BlobStore.Pairs.{IsWellFormed}
use reticulum_js.BlobStore.Records.{BlobRecord, import_record, import_loop, import_records}
use reticulum_js.BlobStore.Invariant.{
  insert_blob-IsWellFormed, sweep-IsWellFormed, sweep_keeps, evict_old_keeps,
}
use reticulum_js.BlobStore.Fit.{evict_to_fit_lem, limit-evict_to_fit}
use reticulum_js.BlobStore.Spec.{
  Call, store, remove, prune, call, call-IsWellFormed, call_taken, call_stored,
}

-- The limit, and what is used stays within it.
record Within (limit : ℕ) (s : BlobStore) : Type 0 where
  same : s.storage_limit_bytes ≡ limit
  within : s.used_bytes ≤ limit

delete-Within :
    (limit : ℕ) (id : List ℕ) (s : BlobStore) → Within limit s → Within limit (delete id s).0
unfolding delete
delete-Within limit id s w = ground (arith, w.same, w.within)

sweep-Within : (limit now : ℕ) (s : BlobStore) → Within limit s → Within limit (sweep now s)
sweep-Within limit =
    sweep_keeps (Within limit) (delete-Within limit)
      (λ now s w. record { same = w.same; within = w.within })

-- A blob that a call stores is no larger than the limit.
abbrev pub StoresWithin : ℕ → Call → Type 0
StoresWithin limit (store now dest id blob) = length blob ≤ limit
StoresWithin limit (remove id) = Unit {0}
StoresWithin limit (prune now age) = Unit {0}

insert_blob-Within :
    (limit now : ℕ) (dest id blob : List ℕ) (s : BlobStore)
    → s.storage_limit_bytes ≡ limit
    → s.used_bytes + length blob ≤ limit
    → Within limit (insert_blob now dest id blob s)
unfolding insert_blob
insert_blob-Within limit now dest id blob s e le = record { same = e; within = le }

call-Within :
    (limit : ℕ) (c : Call) (s : BlobStore)
    → IsWellFormed s
    → StoresWithin limit c
    → Within limit s
    → Within limit (call c s)
call-Within limit (store now dest id blob) s w small h =
    elim (Option-cases (Dict.get (to_hex id) s.meta)) [
      | inr (m, e) ↦ rw (call_taken now dest id blob m s e) h
      | inl e ↦
          let swept : BlobStore = sweep now s in
          let h' = sweep-Within limit now s h in
          let same : swept.storage_limit_bytes ≡ limit = h'.same in
          rw (call_stored now dest id blob s e) (
            insert_blob-Within limit now dest id blob (evict_to_fit (length blob) swept)
              (limit-evict_to_fit (length blob) swept ∙ same)
              (omega (
                arith,
                evict_to_fit_lem (length blob) swept (sweep-IsWellFormed now s w) (omega arith),
                same,
              )))
    ]
call-Within limit (remove id) s w small h = unfold call in delete-Within limit id s h
call-Within limit (prune now age) s w small h =
    unfold call prune_older_than evict_older_than in
    evict_old_keeps (Within limit) (delete-Within limit) (now - age) (metas s.meta) s h

-- The records of an import have different ids.
abbrev pub NoTwice : List BlobRecord → Type 0
NoTwice [] = Unit {0}
NoTwice (r ∷ records) =
    All (λ (x : BlobRecord). to_hex r.message_id ≢ to_hex x.message_id) records × NoTwice records

unfoldable pub bytes_of : List BlobRecord → ℕ
bytes_of [] = 0
bytes_of (r ∷ records) = length r.blob + bytes_of records

-- A call, or `importRecords`.
pub data Change : Type 0 where
  calling : Call → Change
  importing : List BlobRecord → Change

unfoldable pub change : Change → BlobStore → BlobStore
change (calling c) s = call c s
change (importing records) s = import_records records s

unfoldable pub changes : List Change → BlobStore → BlobStore
changes [] s = s
changes (c ∷ cs) s = changes cs (change c s)

-- What is stored is no larger than the limit, and so are the blobs of an import together.
abbrev pub IsSmall : ℕ → Change → Type 0
IsSmall limit (calling c) = StoresWithin limit c
IsSmall limit (importing records) = NoTwice records × (bytes_of records ≤ limit)

abbrev Unseen : List BlobRecord → BlobStore → Type 0
Unseen records s = All (λ (r : BlobRecord). Dict.get (to_hex r.message_id) s.meta ≡ none) records

import_record-eq :
    (r : BlobRecord) (s : BlobStore)
    → import_record r s ≡ insert_blob r.received r.channel_hash r.message_id r.blob s
unfolding import_record insert_blob
import_record-eq r s = refl

import_record-Unseen :
    (r : BlobRecord) (records : List BlobRecord) (s : BlobStore)
    → All (λ (x : BlobRecord). to_hex r.message_id ≢ to_hex x.message_id) records
    → Unseen records s
    → Unseen records (import_record r s)
import_record-Unseen r [] s other h = tt
import_record-Unseen r (x ∷ records) s other h = (
  unfold import_record in
      (get-set_other (to_hex r.message_id) (to_hex x.message_id) _ s.meta other.0 ∙ h.0),
  import_record-Unseen r records s other.1 h.1,
)

import_loop-IsWellFormed :
    (records : List BlobRecord) (s : BlobStore)
    → NoTwice records
    → Unseen records s
    → IsWellFormed s
    → IsWellFormed (import_loop records s)
      × ((import_loop records s).used_bytes ≡ s.used_bytes + bytes_of records)
      × ((import_loop records s).storage_limit_bytes ≡ s.storage_limit_bytes)
unfolding import_loop bytes_of
import_loop-IsWellFormed [] s n u w = (w, omega arith, refl)
import_loop-IsWellFormed (r ∷ records) s n u w =
    let next : IsWellFormed (import_record r s) =
      rw (import_record-eq r s)
        (insert_blob-IsWellFormed r.received r.channel_hash r.message_id r.blob s w u.0) in
    let (w', used, limit) =
      import_loop-IsWellFormed records (import_record r s) n.1
        (import_record-Unseen r records s n.0 u.1) next in
    (w', used ∙ counted r s (bytes_of records), limit ∙ unfold import_record in refl)
  where
    counted :
        (r : BlobRecord) (s : BlobStore) (n : ℕ)
        → (import_record r s).used_bytes + n ≡ s.used_bytes + (length r.blob + n)
    counted r s n = unfold import_record in omega arith

all-Unseen :
    (records : List BlobRecord) (s : BlobStore)
    → Unseen records (record s { blobs = []; meta = []; used_bytes = 0 })
unfolding Dict.get
all-Unseen [] s = tt
all-Unseen (r ∷ records) s = (refl, all-Unseen records s)

cleared-IsWellFormed :
    (s : BlobStore) → IsWellFormed (record s { blobs = []; meta = []; used_bytes = 0 })
unfolding sum_of
cleared-IsWellFormed s = record { paired = tt; distinct = tt; used = refl }

change-Within :
    (limit : ℕ) (c : Change) (s : BlobStore)
    → IsWellFormed s
    → IsSmall limit c
    → Within limit s
    → IsWellFormed (change c s) × Within limit (change c s)
unfolding change import_records
change-Within limit (calling c) s w small h =
    (call-IsWellFormed c s w, call-Within limit c s w small h)
change-Within limit (importing records) s w (differ, fits) h =
    let (w', used, kept) =
      import_loop-IsWellFormed records (record s { blobs = []; meta = []; used_bytes = 0 }) differ
        (all-Unseen records s) (cleared-IsWellFormed s) in
    (w', record { same = kept ∙ h.same; within = omega (arith, used, fits) })

changes-Within :
    (limit : ℕ) (cs : List Change) (s : BlobStore)
    → IsWellFormed s
    → All (IsSmall limit) cs
    → Within limit s
    → Within limit (changes cs s)
unfolding changes
changes-Within limit [] s w small h = h
changes-Within limit (c ∷ cs) s w small h =
    let (w', h') = change-Within limit c s w small.0 h in
    changes-Within limit cs (change c s) w' small.1 h'

-- From a well-formed store within its limit, after every sequence of calls that store, remove, prune and
-- import, where no blob to be stored is larger than the limit, and the records of each import have
-- different ids and blobs that are no larger than the limit together, the store is within the limit
-- still.
pub changes-within_limit :
    (cs : List Change) (s : BlobStore)
    → IsWellFormed s
    → All (IsSmall s.storage_limit_bytes) cs
    → s.used_bytes ≤ s.storage_limit_bytes
    → (changes cs s).used_bytes ≤ s.storage_limit_bytes
changes-within_limit cs s w small le =
    (changes-Within s.storage_limit_bytes cs s w small (record { same = refl; within = le })).within
