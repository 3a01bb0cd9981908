-- ===== src/BlobStore/Pairs.antt =====
-- The form of a blob store of packages/rfed/src/blob_store.js between two calls: the two maps have the
-- same keys, and `usedBytes` is the sum of the sizes.
use reticulum_js.Common.{
  ℕ, ◌≡◌, refl, sym, arith, none, List, [], ◌∷◌, length, Bool-cases, inl, inr,
}
use reticulum_js.Common.Dict
use reticulum_js.Common.Dict.{Key, Dict, str_eq, str_eq_iff, str_eq_refl}
use reticulum_js.Common.Sized.{Distinct, sum_of}
use reticulum_js.Encoding.{to_hex}
use reticulum_js.BlobStore.{BlobMeta, BlobStore}

abbrev pub blob_size : BlobMeta → ℕ
blob_size m = m.size

-- The two maps, entry by entry: one key, that of the message id, and the size of the blob.
abbrev pub Paired : Dict BlobMeta → Dict (List ℕ) → Type 0
Paired [] [] = Unit {0}
Paired [] (b ∷ blobs) = ⊥
Paired (m ∷ meta) [] = ⊥
Paired ((k, m) ∷ meta) ((j, b) ∷ blobs) =
    (k ≡ j) × (k ≡ to_hex m.message_id) × (m.size ≡ length b) × Paired meta blobs

pub record IsWellFormed (s : BlobStore) : Type 0 where
  pub paired : Paired s.meta s.blobs
  pub distinct : Distinct s.meta
  pub used : s.used_bytes ≡ sum_of blob_size s.meta

pub delete-Paired :
    (k : Key) (d : Dict BlobMeta) (b : Dict (List ℕ))
    → Paired d b
    → Paired (Dict.delete k d) (Dict.delete k b)
unfolding Dict.delete
delete-Paired k [] [] h = tt
delete-Paired k [] (x ∷ b) h = absurd h
delete-Paired k (m ∷ d) [] h = absurd h
delete-Paired k ((j, m) ∷ d) ((i, x) ∷ b) (same, id, size, h) =
    rw (sym same) (elim (Bool-cases (str_eq j k)) [
      | inl e ↦ rw e (delete-Paired k d b h)
      | inr e ↦ rw e (refl, id, size, delete-Paired k d b h)
    ])

-- Writing a key that is not there.
pub set-Paired :
    (k : Key) (m : BlobMeta) (x : List ℕ) (d : Dict BlobMeta) (b : Dict (List ℕ))
    → Paired d b
    → k ≡ to_hex m.message_id
    → m.size ≡ length x
    → Dict.get k d ≡ none
    → Paired (Dict.set k m d) (Dict.set k x b)
unfolding Dict.get Dict.set
set-Paired k m x [] [] h id size e = (refl, id, size, tt)
set-Paired k m x [] (y ∷ b) h id size e = absurd h
set-Paired k m x (w ∷ d) [] h id size e = absurd h
set-Paired k m x ((j, w) ∷ d) ((i, y) ∷ b) (same, id', size', h) id size e =
    rw (sym same) (elim (Bool-cases (str_eq j k)) [
      | inl is ↦ ground (arith, is, e)
      | inr isnt ↦
          rw isnt (refl, id', size', set-Paired k m x d b h id size (ground (arith, isnt, e)))
    ])
