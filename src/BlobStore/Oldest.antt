-- ===== src/BlobStore/Oldest.antt =====
-- The blobs that capacity eviction of packages/rfed/src/blob_store.js takes.
use reticulum_js.Common.{
  ℕ, ◌≤◌, ◌≡◌, refl, sym, ap, ◌∙◌, arith, Option, none, some, List, [], ◌∷◌, leb, Bool-cases,
  Option-cases, inl, inr, All,
}
use reticulum_js.Common.Dict
use reticulum_js.Common.Dict.{Key, Dict, str_eq, str_eq_iff, str_eq_refl}
use reticulum_js.Common.Sized.{Distinct}
use reticulum_js.Encoding.{to_hex}
use reticulum_js.BlobStore.{
  BlobMeta, BlobStore, delete, metas, insert_by_age, sort_by_age, fits, evict_ordered, evict_to_fit,
}
use reticulum_js.BlobStore.Pairs.{Paired, IsWellFormed}
use reticulum_js.BlobStore.Invariant.{evict_ordered_stop, evict_ordered_go, evict_ordered_keeps}
use reticulum_js.BlobStore.Fit.{
  meta-delete, deleted_is_gone, Listed, Covers, Covers-delete, covers, evict_to_fit_stop,
  evict_to_fit_go,
}

-- In ascending order of age.
abbrev IsSorted : List BlobMeta → Type 0
IsSorted [] = Unit {0}
IsSorted (x ∷ xs) = All (λ y. x.received ≤ y.received) xs × IsSorted xs

insert-All :
    (P : BlobMeta → Type 0) (x : BlobMeta) (xs : List BlobMeta)
    → P x
    → All P xs
    → All P (insert_by_age x xs)
unfolding insert_by_age
insert-All P x [] h hs = (h, tt)
insert-All P x (y ∷ ys) h hs = elim (Bool-cases (leb x.received y.received)) [
  | inl e ↦ rw e (h, hs)
  | inr e ↦ rw e (hs.0, insert-All P x ys h hs.1)
]

older_than-All :
    (x y : BlobMeta) (ys : List BlobMeta)
    → x.received ≤ y.received
    → All (λ z. y.received ≤ z.received) ys
    → All (λ z. x.received ≤ z.received) ys
older_than-All x y [] le h = tt
older_than-All x y (z ∷ ys) le h = (omega (arith, h.0), older_than-All x y ys le h.1)

insert-IsSorted : (x : BlobMeta) (xs : List BlobMeta) → IsSorted xs → IsSorted (insert_by_age x xs)
unfolding insert_by_age
insert-IsSorted x [] h = (tt, tt)
insert-IsSorted x (y ∷ ys) h = elim (Bool-cases (leb x.received y.received)) [
  | inl e ↦
      let le : x.received ≤ y.received = ground arith in
      rw e ((le, older_than-All x y ys le h.0), h)
  | inr e ↦
      rw e (
        insert-All (λ z. y.received ≤ z.received) x ys (ground arith) h.0,
        insert-IsSorted x ys h.1,
      )
]

sort-IsSorted : (ms : List BlobMeta) → IsSorted (sort_by_age ms)
unfolding sort_by_age
sort-IsSorted [] = tt
sort-IsSorted (m ∷ ms) = insert-IsSorted m (sort_by_age ms) (sort-IsSorted ms)

Listed-All :
    (P : BlobMeta → Type 0) (k : Key) (m : BlobMeta) (ms : List BlobMeta)
    → All P ms
    → Listed k m ms
    → P m
Listed-All P k m [] h l = absurd l
Listed-All P k m (x ∷ xs) h (inl (_, is)) = rw is h.0
Listed-All P k m (x ∷ xs) h (inr l) = Listed-All P k m xs h.1 l

-- What the store has under the key of a member of the list is that member.
abbrev Agrees : BlobStore → BlobMeta → Type 0
Agrees s x = (m : BlobMeta) → Dict.get (to_hex x.message_id) s.meta ≡ some m → m ≡ x

Agrees-delete :
    (y : BlobMeta) (s : BlobStore) (xs : List BlobMeta)
    → All (Agrees s) xs
    → All (Agrees (delete y.message_id s).0) xs
Agrees-delete y s [] h = tt
Agrees-delete y s (x ∷ xs) h =
    (λ m e. h.0 m (deleted_is_gone y s (to_hex x.message_id) m e).1, Agrees-delete y s xs h.1)

-- Eviction only removes.
evict_ordered_removes :
    (needed : ℕ) (ms : List BlobMeta) (s : BlobStore) (k : Key) (m : BlobMeta)
    → Dict.get k (evict_ordered needed ms s).meta ≡ some m
    → Dict.get k s.meta ≡ some m
evict_ordered_removes needed ms s k m =
    evict_ordered_keeps (λ (t : BlobStore). Dict.get k t.meta ≡ some m → Dict.get k s.meta ≡ some m)
      (λ id t h e. h (ground (arith, e, meta-delete id k t))) needed ms s (λ e. e)

no_both : (o : Option BlobMeta) (m : BlobMeta) → o ≡ some m → o ≡ none → ⊥
no_both o m e e' = cc

module _ (needed : ℕ) (k j : Key) (m m' : BlobMeta) where
  ordered_lem :
      (ms : List BlobMeta) (s : BlobStore)
      → IsSorted ms
      → Covers ms s
      → All (Agrees s) ms
      → Dict.get k s.meta ≡ some m
      → Dict.get k (evict_ordered needed ms s).meta ≡ none
      → Dict.get j (evict_ordered needed ms s).meta ≡ some m'
      → m.received ≤ m'.received
  ordered_lem [] s sorted c a had gone left =
      absurd (no_both (Dict.get k s.meta) m had (unfold evict_ordered in gone))
  ordered_lem (x ∷ xs) s sorted c a had gone left = elim (Bool-cases (fits needed s)) [
    | inl e ↦
        let same =
          ap (λ (t : BlobStore). Dict.get k t.meta) (evict_ordered_stop needed (x ∷ xs) s e) in
        absurd (no_both (Dict.get k s.meta) m had (sym same ∙ gone))
    | inr e ↦
        let on = evict_ordered_go needed x xs s e in
        let gone' = sym (ap (λ (t : BlobStore). Dict.get k t.meta) on) ∙ gone in
        let left' = sym (ap (λ (t : BlobStore). Dict.get j t.meta) on) ∙ left in
        let s' : BlobStore = (delete x.message_id s).0 in
        elim (Option-cases (Dict.get k s'.meta)) [
          | inl e' ↦
              let key : k ≡ to_hex x.message_id = ground (
                arith,
                had,
                e',
                meta-delete x.message_id k s,
                str_eq_iff (to_hex x.message_id) k,
              ) in
              let is : m ≡ x = a.0 m (rw (sym key) had) in
              rw is (
                Listed-All (λ z. x.received ≤ z.received) j m' xs sorted.0
                  (Covers-delete x xs s c j m' (evict_ordered_removes needed xs s' j m' left')))
          | inr (m_1, e') ↦
              let is : m_1 ≡ m = ground (arith, had, deleted_is_gone x s k m_1 e') in
              ordered_lem xs s' sorted.1 (Covers-delete x xs s c) (Agrees-delete x s xs a.1)
                (e' ∙ ap some is) gone' left'
        ]
  ]

-- At first the list is that of the store.
metas-Agrees :
    (d e : Dict BlobMeta) (b : Dict (List ℕ))
    → Paired d b
    → Distinct d
    → ((k : Key) (m : BlobMeta) → Dict.get k d ≡ some m → Dict.get k e ≡ some m)
    → All (λ x. (m : BlobMeta) → Dict.get (to_hex x.message_id) e ≡ some m → m ≡ x) (metas d)
unfolding metas Dict.get
metas-Agrees [] e b p h into = tt
metas-Agrees ((k, x) ∷ d) e [] p h into = absurd p
metas-Agrees ((k, x) ∷ d) e ((i, y) ∷ b) (same, id, size, p) h into = (
  λ m found.
      let at : Dict.get k e ≡ some x = into k x (rw (str_eq_refl k) refl) in
      ground (arith, id, at, found),
  metas-Agrees d e b p h.1 (λ j m found. into j m (ground (arith, found, h.0, str_eq_iff k j))),
)

sort-All : (P : BlobMeta → Type 0) (ms : List BlobMeta) → All P ms → All P (sort_by_age ms)
unfolding sort_by_age
sort-All P [] h = tt
sort-All P (m ∷ ms) h = insert-All P m (sort_by_age ms) h.0 (sort-All P ms h.1)

-- In a well-formed store, a blob that makes way for one to be stored is at most as recent as every blob
-- that is left.
pub evict_to_fit_oldest :
    (needed : ℕ) (s : BlobStore) (k j : Key) (m m' : BlobMeta)
    → IsWellFormed s
    → Dict.get k s.meta ≡ some m
    → Dict.get k (evict_to_fit needed s).meta ≡ none
    → Dict.get j (evict_to_fit needed s).meta ≡ some m'
    → m.received ≤ m'.received
evict_to_fit_oldest needed s k j m m' w had gone left = elim (Bool-cases (fits needed s)) [
  | inl e ↦
      let same = ap (λ (t : BlobStore). Dict.get k t.meta) (evict_to_fit_stop needed s e) in
      absurd (no_both (Dict.get k s.meta) m had (sym same ∙ gone))
  | inr e ↦
      let on = evict_to_fit_go needed s e in
      ordered_lem needed k j m m' (sort_by_age (metas s.meta)) s (sort-IsSorted (metas s.meta))
        (covers s w)
        (sort-All (Agrees s) (metas s.meta)
          (metas-Agrees s.meta s.meta s.blobs w.paired w.distinct (λ i x found. found)))
        had (sym (ap (λ (t : BlobStore). Dict.get k t.meta) on) ∙ gone)
        (sym (ap (λ (t : BlobStore). Dict.get j t.meta) on) ∙ left)
]
