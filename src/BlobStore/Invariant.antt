-- ===== src/BlobStore/Invariant.antt =====
-- The operations of packages/rfed/src/blob_store.js that remove and insert, case by case, and that they
-- keep the invariant of the store.
use reticulum_js.Common.{
  ℕ, ◌+◌, ◌-◌, ◌≡◌, refl, ap, arith, Bool, true, false, none, some, List, [], ◌∷◌, ltb,
  if◌then◌else◌, length, ◌&&◌, Bool-cases, Option-cases, inl, inr,
}
use reticulum_js.Common.Dict
use reticulum_js.Common.Dict.{Key, Dict, str_eq, str_eq_iff, str_eq_refl}
use reticulum_js.Common.Sized.{Distinct-delete, Distinct-set, sum-delete, sum-set_new}
use reticulum_js.Encoding.{to_hex}
use reticulum_js.BlobStore.{
  BlobMeta, BlobStore, delete, evict_old, evict_older_than, prune_older_than, fits, evict_ordered,
  evict_to_fit, sweep, insert_blob, metas, sort_by_age, evict_check_interval, blob_ttl,
}
use reticulum_js.BlobStore.Pairs.{IsWellFormed, blob_size, delete-Paired, set-Paired}

-- The operations, case by case.
pub delete_missing :
    (id : List ℕ) (s : BlobStore) → Dict.get (to_hex id) s.meta ≡ none → delete id s ≡ (s, false)
unfolding delete
delete_missing id s e = ground (arith, e)

pub delete_found :
    (id : List ℕ) (m : BlobMeta) (s : BlobStore)
    → Dict.get (to_hex id) s.meta ≡ some m
    → delete id s ≡ (
      record s {
        meta = Dict.delete (to_hex id) s.meta;
        blobs = Dict.delete (to_hex id) s.blobs;
        used_bytes = s.used_bytes - m.size;
      },
      true,
    )
unfolding delete
delete_found id m s e = ground (arith, e)

pub evict_ordered_stop :
    (needed : ℕ) (ms : List BlobMeta) (s : BlobStore)
    → fits needed s ≡ true
    → evict_ordered needed ms s ≡ s
unfolding evict_ordered
evict_ordered_stop needed [] s e = refl
evict_ordered_stop needed (m ∷ ms) s e = ground (arith, e)

pub evict_ordered_go :
    (needed : ℕ) (m : BlobMeta) (ms : List BlobMeta) (s : BlobStore)
    → fits needed s ≡ false
    → evict_ordered needed (m ∷ ms) s ≡ evict_ordered needed ms (delete m.message_id s).0
unfolding evict_ordered
evict_ordered_go needed m ms s e = ground (arith, e)

pub evict_old_cons :
    (cutoff : ℕ) (m : BlobMeta) (ms : List BlobMeta) (s : BlobStore)
    → (evict_old cutoff (m ∷ ms) s).0
      ≡ (evict_old cutoff ms
          (if ltb 0 m.received && ltb m.received cutoff then (delete m.message_id s).0 else s)).0
unfolding evict_old
evict_old_cons cutoff m ms s = ground arith

-- What `delete` keeps, every eviction keeps.
module _ (P : BlobStore → Type 0)
    (keep : (id : List ℕ) (s : BlobStore) → P s → P (delete id s).0) where
  if_keep : (b : Bool) (id : List ℕ) (s : BlobStore) → P s → P (if b then (delete id s).0 else s)
  if_keep true id s w = keep id s w
  if_keep false id s w = w

  pub evict_old_keeps :
      (cutoff : ℕ) (ms : List BlobMeta) (s : BlobStore) → P s → P (evict_old cutoff ms s).0
  evict_old_keeps cutoff [] s w = unfold evict_old in w
  evict_old_keeps cutoff (m ∷ ms) s w = rw (evict_old_cons cutoff m ms s) (
      evict_old_keeps cutoff ms
        (if ltb 0 m.received && ltb m.received cutoff then (delete m.message_id s).0 else s)
        (if_keep (ltb 0 m.received && ltb m.received cutoff) m.message_id s w))

  pub evict_ordered_keeps :
      (needed : ℕ) (ms : List BlobMeta) (s : BlobStore) → P s → P (evict_ordered needed ms s)
  evict_ordered_keeps needed [] s w = unfold evict_ordered in w
  evict_ordered_keeps needed (m ∷ ms) s w = elim (Bool-cases (fits needed s)) [
    | inl e ↦ rw (evict_ordered_stop needed (m ∷ ms) s e) w
    | inr e ↦
        rw (evict_ordered_go needed m ms s e)
          (evict_ordered_keeps needed ms (delete m.message_id s).0 (keep m.message_id s w))
  ]

  pub evict_to_fit_keeps : (needed : ℕ) (s : BlobStore) → P s → P (evict_to_fit needed s)
  unfolding evict_to_fit
  evict_to_fit_keeps needed s w =
      if_either (fits needed s) s _ w (evict_ordered_keeps needed (sort_by_age (metas s.meta)) s w)
    where
      if_either : (b : Bool) (x y : BlobStore) → P x → P y → P (if b then x else y)
      if_either true x y h h' = h
      if_either false x y h h' = h'

  pub sweep_keeps :
      ((now : ℕ) (s : BlobStore) → P s → P (record s { last_eviction = now }))
      → (now : ℕ) (s : BlobStore) → P s
      → P (sweep now s)
  unfolding sweep evict_older_than
  sweep_keeps stamp now s w =
      if_either (ltb evict_check_interval (now - s.last_eviction)) _ s
        (stamp now _ (evict_old_keeps (now - blob_ttl) (metas s.meta) s w)) w
    where
      if_either : (b : Bool) (x y : BlobStore) → P x → P y → P (if b then x else y)
      if_either true x y h h' = h
      if_either false x y h h' = h'

-- The operations keep the invariant.
pub delete-IsWellFormed :
    (id : List ℕ) (s : BlobStore) → IsWellFormed s → IsWellFormed (delete id s).0
delete-IsWellFormed id s w = elim (Option-cases (Dict.get (to_hex id) s.meta)) [
  | inl e ↦ rw (delete_missing id s e) w
  | inr (m, e) ↦ rw (delete_found id m s e) (record {
    paired = delete-Paired (to_hex id) s.meta s.blobs w.paired;
    distinct = Distinct-delete (to_hex id) s.meta w.distinct;
    used = omega (arith, w.used, sum-delete blob_size (to_hex id) m s.meta w.distinct e);
  })
]

pub evict_to_fit-IsWellFormed :
    (needed : ℕ) (s : BlobStore) → IsWellFormed s → IsWellFormed (evict_to_fit needed s)
evict_to_fit-IsWellFormed = evict_to_fit_keeps IsWellFormed delete-IsWellFormed

pub sweep-IsWellFormed : (now : ℕ) (s : BlobStore) → IsWellFormed s → IsWellFormed (sweep now s)
sweep-IsWellFormed =
    sweep_keeps IsWellFormed delete-IsWellFormed
      (λ now s w. record { paired = w.paired; distinct = w.distinct; used = w.used })

pub prune-IsWellFormed :
    (now age : ℕ) (s : BlobStore) → IsWellFormed s → IsWellFormed (prune_older_than now age s).0
unfolding prune_older_than evict_older_than
prune-IsWellFormed now age s w =
    evict_old_keeps IsWellFormed delete-IsWellFormed (now - age) (metas s.meta) s w

pub insert_blob-IsWellFormed :
    (now : ℕ) (dest id blob : List ℕ) (s : BlobStore)
    → IsWellFormed s
    → Dict.get (to_hex id) s.meta ≡ none
    → IsWellFormed (insert_blob now dest id blob s)
unfolding insert_blob
insert_blob-IsWellFormed now dest id blob s w e = record {
  paired = set-Paired (to_hex id) _ blob s.meta s.blobs w.paired refl refl e;
  distinct = Distinct-set (to_hex id) _ s.meta w.distinct;
  used =
      rw
        (sum-set_new blob_size (to_hex id)
          (record { message_id = id; destination_hash = dest; received = now; size = length blob })
          s.meta e)
        (ap (λ (n : ℕ). n + length blob) w.used);
}
