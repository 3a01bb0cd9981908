-- ===== src/BlobStore/Records.antt =====
-- `exportRecords` and `importRecords` of packages/rfed/src/blob_store.js.
use reticulum_js.Common.{
  ℕ, ◌+◌, ◌≡◌, refl, sym, ap, ◌∙◌, arith, Bool-cases, Option, none, some, List, [], ◌∷◌, ◌++◌,
  length, append_assoc, append-nil, inl, inr,
}
use reticulum_js.Common.Dict
use reticulum_js.Common.Dict.{Key, Dict, str_eq, str_eq_iff, str_eq_refl}
use reticulum_js.Common.Sized.{Distinct, sum_of, set_fresh, get-append_none, get_head, get_later}
use reticulum_js.Encoding.{to_hex}
use reticulum_js.BlobStore.{BlobMeta, BlobStore}
use reticulum_js.BlobStore.Pairs.{Paired, IsWellFormed, blob_size}

pub record BlobRecord : Type 0 where
  pub channel_hash : List ℕ
  pub message_id : List ℕ
  pub blob : List ℕ
  pub received : ℕ

unfoldable pub or_empty : Option (List ℕ) → List ℕ
or_empty none = []
or_empty (some b) = b

unfoldable pub export_metas : Dict (List ℕ) → Dict BlobMeta → List BlobRecord
export_metas blobs [] = []
export_metas blobs ((k, m) ∷ meta) =
    record {
      channel_hash = m.destination_hash;
      message_id = m.message_id;
      blob = or_empty (Dict.get (to_hex m.message_id) blobs);
      received = m.received;
    }
    ∷ export_metas blobs meta

unfoldable pub export_records : BlobStore → List BlobRecord
export_records s = export_metas s.blobs s.meta

-- A turn of the loop of `importRecords`.
unfoldable pub import_record : BlobRecord → BlobStore → BlobStore
import_record r s = record s {
  blobs = Dict.set (to_hex r.message_id) r.blob s.blobs;
  meta =
      Dict.set (to_hex r.message_id)
        (record {
          message_id = r.message_id;
          destination_hash = r.channel_hash;
          received = r.received;
          size = length r.blob;
        })
        s.meta;
  used_bytes = s.used_bytes + length r.blob;
}

unfoldable pub import_loop : List BlobRecord → BlobStore → BlobStore
import_loop [] s = s
import_loop (r ∷ records) s = import_loop records (import_record r s)

unfoldable pub import_records : List BlobRecord → BlobStore → BlobStore
import_records records s = import_loop records (record s { blobs = []; meta = []; used_bytes = 0 })

-- None of the keys is in the store yet.
abbrev AllFresh : Dict BlobMeta → BlobStore → Type 0
AllFresh d s =
    (k : Key) (m : BlobMeta)
    → Dict.get k d ≡ some m
    → (Dict.get k s.meta ≡ none) × (Dict.get k s.blobs ≡ none)

abbrev grown : BlobStore → Dict BlobMeta → Dict (List ℕ) → BlobStore
grown s d b = record s {
  meta = s.meta ++ d;
  blobs = s.blobs ++ b;
  used_bytes = s.used_bytes + sum_of blob_size d;
}

Paired-none :
    (k : Key) (d : Dict BlobMeta) (b : Dict (List ℕ))
    → Paired d b
    → Dict.get k d ≡ none
    → Dict.get k b ≡ none
unfolding Dict.get
Paired-none k [] [] p e = refl
Paired-none k [] (x ∷ b) p e = absurd p
Paired-none k (m ∷ d) [] p e = absurd p
Paired-none k ((j, m) ∷ d) ((i, x) ∷ b) (same, id, size, p) e = elim (Bool-cases (str_eq j k)) [
  | inl is ↦ ground (arith, is, e)
  | inr isnt ↦ ground (arith, isnt, same, e, Paired-none k d b p (ground (arith, isnt, e)))
]

import_record_lem :
    (k : Key) (m : BlobMeta) (x : List ℕ) (full : Dict (List ℕ)) (s : BlobStore)
    → k ≡ to_hex m.message_id
    → m.size ≡ length x
    → Dict.get k full ≡ some x
    → Dict.get k s.meta ≡ none
    → Dict.get k s.blobs ≡ none
    → import_record
        (record {
          channel_hash = m.destination_hash;
          message_id = m.message_id;
          blob = or_empty (Dict.get (to_hex m.message_id) full);
          received = m.received;
        })
        s
      ≡ grown s ((k, m) ∷ []) ((k, x) ∷ [])
unfolding import_record or_empty sum_of
import_record_lem k m x full s id size e em eb =
    ground (arith, id, size, e, set_fresh k m s.meta em, set_fresh k x s.blobs eb)

import_records-export_lem :
    (d : Dict BlobMeta) (b full : Dict (List ℕ)) (s : BlobStore)
    → Paired d b
    → Distinct d
    → ((k : Key) (x : List ℕ) → Dict.get k b ≡ some x → Dict.get k full ≡ some x)
    → AllFresh d s
    → import_loop (export_metas full d) s ≡ grown s d b
unfolding import_loop export_metas sum_of
import_records-export_lem [] [] full s p h into fresh =
    rw (append-nil s.meta, append-nil s.blobs) (ground arith)
import_records-export_lem [] (x ∷ b) full s p h into fresh = absurd p
import_records-export_lem (m ∷ d) [] full s p h into fresh = absurd p
import_records-export_lem ((k, m) ∷ d) ((j, x) ∷ b) full s (same, id, size, p) h into fresh =
    let e = into k x (rw (sym same) (get_head k x b)) in
    let absent = fresh k m (get_head k m d) in
    ap (import_loop (export_metas full d))
      (import_record_lem k m x full s id size e absent.0 absent.1)
    ∙ import_records-export_lem d b full (grown s ((k, m) ∷ []) ((k, x) ∷ [])) p h.1
        (λ i y found.
          into i y (rw (sym same) (get_later k i x y b (Paired-none k d b p h.0) found).1))
        (λ i n found.
          let (other, found') = get_later k i m n d h.0 found in
          let (fm, fb) = fresh i n found' in
          (get-append_none i k m s.meta fm other, get-append_none i k x s.blobs fb other))
    ∙ ground
        (arith, same, append_assoc s.meta ((k, m) ∷ []) d, append_assoc s.blobs ((k, x) ∷ []) b)

get_empty : {V : Type 0} → (k : Key) → Dict.get {V = V} k [] ≡ none
unfolding Dict.get
get_empty k = refl

-- What a well-formed store exports is imported again by any store: it then has the same blobs and the
-- same metadata in the same order, and counts the same bytes.
pub import_records-export :
    (s t : BlobStore)
    → IsWellFormed s
    → import_records (export_records s) t
      ≡ record t { blobs = s.blobs; meta = s.meta; used_bytes = s.used_bytes }
unfolding import_records export_records
import_records-export s t w =
    import_records-export_lem s.meta s.blobs s.blobs
      (record t { blobs = []; meta = []; used_bytes = 0 }) w.paired w.distinct (λ k x found. found)
      (λ k m found. (get_empty k, get_empty k))
    ∙ ground (arith, w.used)
