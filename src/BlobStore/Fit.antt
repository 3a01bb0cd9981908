-- ===== src/BlobStore/Fit.antt =====
-- Capacity eviction of packages/rfed/src/blob_store.js: the list that it goes through, and the
-- room that it makes.
use reticulum_js.Common.{
  ℕ, ◌+◌, ◌≤◌, ◌≡◌, ◌≢◌, ◌⊎◌, refl, ◌∙◌, arith, true, false, Option, none, some, List, [], ◌∷◌, leb,
  if◌then◌else◌, Bool-cases, Option-cases, inl, inr,
}
use reticulum_js.Common.Dict
use reticulum_js.Common.Dict.{Key, Dict, str_eq, str_eq_iff, str_eq_refl}
use reticulum_js.Common.Sized.{sum_of}
use reticulum_js.Encoding.{to_hex}
use reticulum_js.BlobStore.{
  BlobMeta, BlobStore, delete, metas, insert_by_age, sort_by_age, fits, evict_ordered, evict_to_fit,
}
use reticulum_js.BlobStore.Pairs.{Paired, IsWellFormed, blob_size}
use reticulum_js.BlobStore.Invariant.{
  delete_missing, delete_found, delete-IsWellFormed, evict_ordered_stop, evict_ordered_go,
  evict_to_fit_keeps,
}

-- The metadata under a key after a deletion.
pub meta-delete :
    (id : List ℕ) (k : Key) (s : BlobStore)
    → Dict.get k (delete id s).0.meta ≡ (if str_eq (to_hex id) k then none else Dict.get k s.meta)
meta-delete id k s = elim (Option-cases (Dict.get (to_hex id) s.meta)) [
  | inl e ↦ rw (delete_missing id s e) (ground (arith, e, str_eq_iff (to_hex id) k))
  | inr (m, e) ↦ rw (delete_found id m s e) (Dict.get-delete (to_hex id) k s.meta)
]

pub limit-delete :
    (id : List ℕ) (s : BlobStore) → (delete id s).0.storage_limit_bytes ≡ s.storage_limit_bytes
unfolding delete
limit-delete id s = ground arith

pub limit-evict_to_fit :
    (needed : ℕ) (s : BlobStore)
    → (evict_to_fit needed s).storage_limit_bytes ≡ s.storage_limit_bytes
limit-evict_to_fit needed s =
    evict_to_fit_keeps (λ (t : BlobStore). t.storage_limit_bytes ≡ s.storage_limit_bytes)
      (λ id t e. limit-delete id t ∙ e) needed s refl

-- The metadata of the list under its key.
abbrev pub Listed : Key → BlobMeta → List BlobMeta → Type 0
Listed k m [] = ⊥
Listed k m (x ∷ xs) = ((k ≡ to_hex x.message_id) × (m ≡ x)) ⊎ Listed k m xs

-- All that the store has is in the list.
abbrev pub Covers : List BlobMeta → BlobStore → Type 0
Covers ms s = (k : Key) (m : BlobMeta) → Dict.get k s.meta ≡ some m → Listed k m ms

pub deleted_is_gone :
    (x : BlobMeta) (s : BlobStore) (k : Key) (m : BlobMeta)
    → Dict.get k (delete x.message_id s).0.meta ≡ some m
    → (k ≢ to_hex x.message_id) × (Dict.get k s.meta ≡ some m)
deleted_is_gone x s k m e =
    ground (arith, e, meta-delete x.message_id k s, str_eq_iff (to_hex x.message_id) k)

pub Covers-delete :
    (x : BlobMeta) (xs : List BlobMeta) (s : BlobStore)
    → Covers (x ∷ xs) s
    → Covers xs (delete x.message_id s).0
Covers-delete x xs s c k m e =
    let (other, e') = deleted_is_gone x s k m e in
    elim (c k m e') [ inl h ↦ absurd (other h.0) | inr h ↦ h ]

none_left : (s : BlobStore) → IsWellFormed s → Covers [] s → s.used_bytes ≡ 0
none_left s w c = w.used ∙ empty s.meta c
  where
    empty :
        (d : Dict BlobMeta)
        → ((k : Key) (m : BlobMeta) → Dict.get k d ≡ some m → ⊥)
        → sum_of blob_size d ≡ 0
    empty [] c = unfold sum_of in refl
    empty ((k, m) ∷ d) c = absurd (c k m (unfold Dict.get in rw (str_eq_refl k) refl))

fits_iff :
    (needed : ℕ) (s : BlobStore)
    → s.used_bytes + needed ≤ s.storage_limit_bytes
    → fits needed s ≡ true
unfolding fits
fits_iff needed s h = ground arith

evict_ordered_fits :
    (needed : ℕ) (ms : List BlobMeta) (s : BlobStore)
    → IsWellFormed s
    → Covers ms s
    → needed ≤ s.storage_limit_bytes
    → fits needed (evict_ordered needed ms s) ≡ true
evict_ordered_fits needed [] s w c le =
    unfold evict_ordered in fits_iff needed s (omega (arith, none_left s w c))
evict_ordered_fits needed (x ∷ xs) s w c le = elim (Bool-cases (fits needed s)) [
  | inl e ↦ rw (evict_ordered_stop needed (x ∷ xs) s e) e
  | inr e ↦ rw (evict_ordered_go needed x xs s e) (
      evict_ordered_fits needed xs (delete x.message_id s).0 (delete-IsWellFormed x.message_id s w)
        (Covers-delete x xs s c) (omega (arith, limit-delete x.message_id s)))
]

-- The sorted list has the same metadata.
Listed-insert :
    (k : Key) (m x : BlobMeta) (xs : List BlobMeta)
    → Listed k m (x ∷ xs)
    → Listed k m (insert_by_age x xs)
unfolding insert_by_age
Listed-insert k m x [] h = h
Listed-insert k m x (y ∷ ys) h = elim (Bool-cases (leb x.received y.received)) [
  | inl e ↦ rw e h
  | inr e ↦ rw e (swap h (Listed-insert k m x ys))
]
  where
    swap :
        Listed k m (x ∷ y ∷ ys)
        → (Listed k m (x ∷ ys) → Listed k m (insert_by_age x ys))
        → Listed k m (y ∷ insert_by_age x ys)
    swap (inl h) ih = inr (ih (inl h))
    swap (inr (inl h)) ih = inl h
    swap (inr (inr h)) ih = inr (ih (inr h))

Listed-sort :
    (k : Key) (m : BlobMeta) (ms : List BlobMeta) → Listed k m ms → Listed k m (sort_by_age ms)
unfolding sort_by_age
Listed-sort k m (x ∷ xs) (inl h) = Listed-insert k m x (sort_by_age xs) (inl h)
Listed-sort k m (x ∷ xs) (inr h) = Listed-insert k m x (sort_by_age xs) (inr (Listed-sort k m xs h))
Listed-sort k m [] h = absurd h

Listed-metas :
    (d : Dict BlobMeta) (b : Dict (List ℕ)) (k : Key) (m : BlobMeta)
    → Paired d b
    → Dict.get k d ≡ some m
    → Listed k m (metas d)
unfolding metas Dict.get
Listed-metas [] b k m p e = absurd (no e)
  where
    no : ◌≡◌ {A = Option BlobMeta} none (some m) → ⊥
    no h = cc
Listed-metas ((j, x) ∷ d) [] k m p e = absurd p
Listed-metas ((j, x) ∷ d) ((i, y) ∷ b) k m (same, id, size, p) e = elim (Bool-cases (str_eq j k)) [
  | inl is ↦ inl (ground (arith, is, str_eq_iff j k), ground (arith, is, e))
  | inr isnt ↦ inr (Listed-metas d b k m p (ground (arith, isnt, e)))
]

pub covers : (s : BlobStore) → IsWellFormed s → Covers (sort_by_age (metas s.meta)) s
covers s w k m e = Listed-sort k m (metas s.meta) (Listed-metas s.meta s.blobs k m w.paired e)

pub evict_to_fit_stop :
    (needed : ℕ) (s : BlobStore) → fits needed s ≡ true → evict_to_fit needed s ≡ s
unfolding evict_to_fit
evict_to_fit_stop needed s e = ground (arith, e)

pub evict_to_fit_go :
    (needed : ℕ) (s : BlobStore)
    → fits needed s ≡ false
    → evict_to_fit needed s ≡ evict_ordered needed (sort_by_age (metas s.meta)) s
unfolding evict_to_fit
evict_to_fit_go needed s e = ground (arith, e)

fits_after :
    (needed : ℕ) (s : BlobStore)
    → IsWellFormed s
    → needed ≤ s.storage_limit_bytes
    → fits needed (evict_to_fit needed s) ≡ true
fits_after needed s w le = elim (Bool-cases (fits needed s)) [
  | inl e ↦ rw (evict_to_fit_stop needed s e) e
  | inr e ↦
      rw (evict_to_fit_go needed s e)
        (evict_ordered_fits needed (sort_by_age (metas s.meta)) s w (covers s w) le)
]

fits_bound :
    (needed : ℕ) (s : BlobStore)
    → fits needed s ≡ true
    → s.used_bytes + needed ≤ s.storage_limit_bytes
unfolding fits
fits_bound needed s e = ground arith

-- Where the blob is no larger than the limit, a well-formed store has room for it after eviction.
pub evict_to_fit_lem :
    (needed : ℕ) (s : BlobStore)
    → IsWellFormed s
    → needed ≤ s.storage_limit_bytes
    → (evict_to_fit needed s).used_bytes + needed ≤ s.storage_limit_bytes
evict_to_fit_lem needed s w le = omega (
  arith,
  fits_bound needed (evict_to_fit needed s) (fits_after needed s w le),
  limit-evict_to_fit needed s,
)
