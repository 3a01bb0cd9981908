-- ===== src/DeferredQueue/Records.antt =====
-- `exportRecords` and `importRecords` of packages/rfed/src/deferred_queue.js.
use mathlib.Core.Path.{subst}
use reticulum_js.Common.{
  ℕ, ◌≡◌, ◌≢◌, refl, ap, sym, ◌∙◌, arith, none, some, List, [], ◌∷◌, ◌++◌, append-nil, append_assoc,
  All, IsByte, Result, ok, err, Bool-cases, inl, inr,
}
use reticulum_js.Common.Dict
use reticulum_js.Common.Dict.{Key, Dict, str_eq, str_eq_iff, str_eq_refl}
use reticulum_js.Encoding.{to_hex, from_hex, HexError}
use reticulum_js.Encoding.Hex.{from_hex-to_hex}
use reticulum_js.DeferredQueue.{PendingBlob, DeferredQueue, bucket_of}

-- A record of one entry with its subscriber's hash.
pub record QueueRecord : Type 0 where
  pub subscriber_hash : List ℕ
  pub entry : PendingBlob

-- The inner loop of `exportRecords`.
unfoldable pub records_of : List ℕ → List PendingBlob → List QueueRecord
records_of subscriber [] = []
records_of subscriber (e ∷ bucket) =
    record { subscriber_hash = subscriber; entry = e } ∷ records_of subscriber bucket

-- `fromHex(key)` throws on a key that is not hexadecimal; no record is read for an empty bucket.
unfoldable pub export_bucket : Key → List PendingBlob → Result HexError (List QueueRecord)
export_bucket key [] = ok []
export_bucket key (e ∷ bucket) = elim (from_hex key) [
  | ok subscriber ↦ ok (records_of subscriber (e ∷ bucket))
  | err x ↦ err x
]

unfoldable pub export_buckets : Dict (List PendingBlob) → Result HexError (List QueueRecord)
export_buckets [] = ok []
export_buckets ((key, bucket) ∷ buckets) = elim (export_bucket key bucket) [
  | err x ↦ err x
  | ok first ↦ elim (export_buckets buckets) [ err x ↦ err x | ok rest ↦ ok (first ++ rest) ]
]

unfoldable pub export_records : DeferredQueue → Result HexError (List QueueRecord)
export_records q = export_buckets q.buckets

-- A turn of the loop of `importRecords`.
unfoldable pub import_record : QueueRecord → Dict (List PendingBlob) → Dict (List PendingBlob)
import_record r buckets =
    let key = to_hex r.subscriber_hash in
    Dict.set key (bucket_of key buckets ++ r.entry ∷ []) buckets

unfoldable pub import_loop : Dict (List PendingBlob) → List QueueRecord → Dict (List PendingBlob)
import_loop buckets [] = buckets
import_loop buckets (r ∷ records) = import_loop (import_record r buckets) records

unfoldable pub import_records : DeferredQueue → List QueueRecord → DeferredQueue
import_records q records = record q { buckets = import_loop [] records }

-- No bucket of the list has this key.
abbrev pub Absent : Key → Dict (List PendingBlob) → Type 0
Absent k buckets = All (λ b. b.0 ≢ k) buckets

get-Absent :
    (k : Key) (v : List PendingBlob) (acc : Dict (List PendingBlob))
    → Absent k acc
    → Dict.get k (acc ++ (k, v) ∷ []) ≡ some v
unfolding Dict.get
get-Absent k v [] h = rw (str_eq_refl k) refl
get-Absent k v ((j, w) ∷ acc) (other, h) =
    ground (arith, str_eq_iff j k, other, get-Absent k v acc h)

get-none : (k : Key) (acc : Dict (List PendingBlob)) → Absent k acc → Dict.get k acc ≡ none
unfolding Dict.get
get-none k [] h = refl
get-none k ((j, w) ∷ acc) (other, h) = ground (arith, str_eq_iff j k, other, get-none k acc h)

set-new :
    (k : Key) (v : List PendingBlob) (acc : Dict (List PendingBlob))
    → Absent k acc
    → Dict.set k v acc ≡ acc ++ (k, v) ∷ []
unfolding Dict.set
set-new k v [] h = refl
set-new k v ((j, w) ∷ acc) (other, h) = elim (Bool-cases (str_eq j k)) [
  | inl e ↦ absurd (other ((str_eq_iff j k).0 e))
  | inr e ↦ rw (e, set-new k v acc h) refl
]

set-last :
    (k : Key) (v w : List PendingBlob) (acc : Dict (List PendingBlob))
    → Absent k acc
    → Dict.set k v (acc ++ (k, w) ∷ []) ≡ acc ++ (k, v) ∷ []
unfolding Dict.set
set-last k v w [] h = rw (str_eq_refl k) refl
set-last k v w ((j, u) ∷ acc) (other, h) = elim (Bool-cases (str_eq j k)) [
  | inl e ↦ absurd (other ((str_eq_iff j k).0 e))
  | inr e ↦ rw (e, set-last k v w acc h) refl
]

import_record-new :
    (subscriber : List ℕ) (e : PendingBlob) (acc : Dict (List PendingBlob))
    → Absent (to_hex subscriber) acc
    → import_record (record { subscriber_hash = subscriber; entry = e }) acc
      ≡ acc ++ (to_hex subscriber, e ∷ []) ∷ []
unfolding import_record bucket_of
import_record-new subscriber e acc h =
    ap
      (λ o.
        Dict.set (to_hex subscriber)
          (elim o as (λ x. List PendingBlob) [ none ↦ [] | some b ↦ b ] ++ e ∷ []) acc)
      (get-none (to_hex subscriber) acc h)
    ∙ set-new (to_hex subscriber) (e ∷ []) acc h

import_record-last :
    (subscriber : List ℕ) (e : PendingBlob) (done : List PendingBlob)
    (acc : Dict (List PendingBlob))
    → Absent (to_hex subscriber) acc
    → import_record
        (record { subscriber_hash = subscriber; entry = e })
        (acc ++ (to_hex subscriber, done) ∷ [])
      ≡ acc ++ (to_hex subscriber, done ++ e ∷ []) ∷ []
unfolding import_record bucket_of
import_record-last subscriber e done acc h =
    ap
      (λ o.
        Dict.set (to_hex subscriber)
          (elim o as (λ x. List PendingBlob) [ none ↦ [] | some b ↦ b ] ++ e ∷ [])
          (acc ++ (to_hex subscriber, done) ∷ []))
      (get-Absent (to_hex subscriber) done acc h)
    ∙ set-last (to_hex subscriber) (done ++ e ∷ []) done acc h

import-bucket_rest :
    (subscriber : List ℕ) (done bucket : List PendingBlob) (rest : List QueueRecord)
    (acc : Dict (List PendingBlob))
    → Absent (to_hex subscriber) acc
    → import_loop (acc ++ (to_hex subscriber, done) ∷ []) (records_of subscriber bucket ++ rest)
      ≡ import_loop (acc ++ (to_hex subscriber, done ++ bucket) ∷ []) rest
unfolding import_loop records_of
import-bucket_rest subscriber done [] rest acc h =
    ap (λ x. import_loop (acc ++ (to_hex subscriber, x) ∷ []) rest) (sym (append-nil done))
import-bucket_rest subscriber done (e ∷ bucket) rest acc h =
    ap (λ x. import_loop x (records_of subscriber bucket ++ rest))
      (import_record-last subscriber e done acc h)
    ∙ import-bucket_rest subscriber (done ++ e ∷ []) bucket rest acc h
    ∙ ap (λ x. import_loop (acc ++ (to_hex subscriber, x) ∷ []) rest)
        (append_assoc done (e ∷ []) bucket)

import-bucket :
    (subscriber : List ℕ) (e : PendingBlob) (bucket : List PendingBlob) (rest : List QueueRecord)
    (acc : Dict (List PendingBlob))
    → Absent (to_hex subscriber) acc
    → import_loop acc (records_of subscriber (e ∷ bucket) ++ rest)
      ≡ import_loop (acc ++ (to_hex subscriber, e ∷ bucket) ∷ []) rest
unfolding import_loop records_of
import-bucket subscriber e bucket rest acc h =
    ap (λ x. import_loop x (records_of subscriber bucket ++ rest))
      (import_record-new subscriber e acc h)
    ∙ import-bucket_rest subscriber (e ∷ []) bucket rest acc h

export_bucket-hex :
    (subscriber : List ℕ) (e : PendingBlob) (bucket : List PendingBlob)
    → All IsByte subscriber
    → export_bucket (to_hex subscriber) (e ∷ bucket) ≡ ok (records_of subscriber (e ∷ bucket))
unfolding export_bucket
export_bucket-hex subscriber e bucket bytes =
    rw (export_bucket, from_hex-to_hex subscriber bytes) refl

-- What an operation leaves in the map: each key once and written by `toHex`, and no empty bucket.
unfoldable pub IsStored : Dict (List PendingBlob) → Dict (List PendingBlob) → Type 0
IsStored acc [] = Unit
IsStored acc ((k, bucket) ∷ buckets) =
    Absent k acc
    × ((subscriber : List ℕ) × All IsByte subscriber
        × (k ≡ to_hex subscriber)
        × (e : PendingBlob) × (more : List PendingBlob) × (bucket ≡ e ∷ more))
    × IsStored (acc ++ (k, bucket) ∷ []) buckets

import-export_loop :
    (acc buckets : Dict (List PendingBlob))
    → IsStored acc buckets
    → (records : List QueueRecord) × (export_buckets buckets ≡ ok records)
      × (import_loop acc records ≡ acc ++ buckets)
unfolding IsStored export_buckets
import-export_loop acc [] h = ([], refl, unfold import_loop in sym (append-nil acc))
import-export_loop acc ((k, bucket) ∷ buckets)
      (absent, (subscriber, bytes, key, e, more, filled), rest) =
    let (records, exported, imported) = import-export_loop (acc ++ (k, bucket) ∷ []) buckets rest in
    let here : export_bucket k bucket ≡ ok (records_of subscriber (e ∷ more)) =
      rw (key, filled) (export_bucket-hex subscriber e more bytes) in
    let absent' : Absent (to_hex subscriber) acc = subst (λ x. Absent x acc) key absent in
    let same : acc ++ (to_hex subscriber, e ∷ more) ∷ [] ≡ acc ++ (k, bucket) ∷ [] =
      rw (key, filled) refl in
    (
      records_of subscriber (e ∷ more) ++ records,
      rw (export_buckets, here, exported) refl,
      import-bucket subscriber e more records acc absent'
          ∙ ap (λ x. import_loop x records) same
          ∙ imported
          ∙ append_assoc acc ((k, bucket) ∷ []) buckets,
    )

-- Where each key is there once and was written by `toHex`, and no bucket is empty, the queue can be
-- exported, and importing the records into any queue gives it the same buckets, entries and order.
pub import-export :
    (q other : DeferredQueue)
    → IsStored [] q.buckets
    → (records : List QueueRecord) × (export_records q ≡ ok records)
      × ((import_records other records).buckets ≡ q.buckets)
unfolding export_records import_records
import-export q other h = import-export_loop [] q.buckets h
