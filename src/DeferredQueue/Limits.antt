-- ===== src/DeferredQueue/Limits.antt =====
-- The two limits of packages/rfed/src/deferred_queue.js.
use reticulum_js.Common.{
  ℕ, ◌+◌, ◌≤◌, ◌<◌, ◌≡◌, ◌≢◌, arith, List, [], ◌∷◌, ◌++◌, leb, if◌then◌else◌, length, length-append,
  length-drop, drop, max,
}
use reticulum_js.Common.Dict
use reticulum_js.Common.Dict.{
  Key, Dict, str_eq, str_eq_iff, str_eq_refl, get-set, get-set_self, get-delete,
}
use reticulum_js.Encoding.{to_hex}
use reticulum_js.DeferredQueue.{
  PendingBlob, DeferredQueue, sum_lengths, total_len, bucket_of, push_bounded, enqueue, drain,
}

-- Storing a bucket changes the total by the difference of the two buckets.
pub sum_lengths-set :
    (k : Key) (bucket : List PendingBlob) (d : Dict (List PendingBlob))
    → sum_lengths (Dict.set k bucket d) + length (bucket_of k d) ≡ sum_lengths d + length bucket
unfolding sum_lengths bucket_of Dict.set Dict.get
sum_lengths-set k bucket [] = omega arith
sum_lengths-set k bucket ((j, old) ∷ d) = ground (arith, sum_lengths-set k bucket d)

length-push_bounded :
    (limit : ℕ) (e : PendingBlob) (bucket : List PendingBlob)
    → length (push_bounded limit e bucket) ≤ length bucket + 1
unfolding push_bounded
length-push_bounded limit e bucket = ground (
  arith,
  length-append bucket (e ∷ []),
  length-append (drop 1 bucket) (e ∷ []),
  length-drop 1 bucket,
)

push_bounded-le :
    (limit : ℕ) (e : PendingBlob) (bucket : List PendingBlob)
    → length bucket ≤ max limit 1
    → length (push_bounded limit e bucket) ≤ max limit 1
unfolding push_bounded
push_bounded-le limit e bucket h = ground (
  arith,
  length-append bucket (e ∷ []),
  length-append (drop 1 bucket) (e ∷ []),
  length-drop 1 bucket,
)

-- From a total within the global limit an enqueue adds one entry at most, never past the limit; at
-- the limit it changes nothing.
pub enqueue_total :
    (q : DeferredQueue) (subscriber channel blob : List ℕ) (limit now : ℕ)
    → total_len q ≤ q.global_limit
    → let q' = enqueue q subscriber channel blob limit now in
      (total_len q' ≤ q'.global_limit)
      × (total_len q' ≤ total_len q + 1)
      × (total_len q ≡ q.global_limit → q' ≡ q)
unfolding enqueue total_len
enqueue_total q subscriber channel blob limit now h =
    let key = to_hex subscriber in
    let entry : PendingBlob = record { channel_hash = channel; blob = blob; enqueued_at = now } in
    let old = bucket_of key q.buckets in
    let sum = sum_lengths-set key (push_bounded limit entry old) q.buckets in
    let size = length-push_bounded limit entry old in
    (ground (arith, sum, size), ground (arith, sum, size), ground arith)

pub bucket_of-set :
    (k j : Key) (bucket : List PendingBlob) (d : Dict (List PendingBlob))
    → bucket_of j (Dict.set k bucket d) ≡ (if str_eq k j then bucket else bucket_of j d)
unfolding bucket_of
bucket_of-set k j bucket d = ground (arith, get-set k j bucket d)

pub bucket_of-delete :
    (k j : Key) (d : Dict (List PendingBlob))
    → bucket_of j (Dict.delete k d) ≡ (if str_eq k j then [] else bucket_of j d)
unfolding bucket_of
bucket_of-delete k j d = ground (arith, get-delete k j d)

-- No bucket is longer than the per-subscriber limit, or than one entry where that is 0.
pub record WithinLimit (limit : ℕ) (q : DeferredQueue) : Type 0 where
  pub within : (k : Key) → length (bucket_of k q.buckets) ≤ max limit 1

-- Enqueuing under one per-subscriber limit keeps every bucket within it; a limit of 0 still holds one
-- entry.
pub enqueue-WithinLimit :
    (q : DeferredQueue) (subscriber channel blob : List ℕ) (limit now : ℕ)
    → WithinLimit limit q
    → WithinLimit limit (enqueue q subscriber channel blob limit now)
unfolding enqueue
enqueue-WithinLimit q subscriber channel blob limit now h =
    let key = to_hex subscriber in
    let entry : PendingBlob = record { channel_hash = channel; blob = blob; enqueued_at = now } in
    let old = bucket_of key q.buckets in
    record {
      within = λ k. ground (
        arith,
        h.within k,
        bucket_of-set key k (push_bounded limit entry old) q.buckets,
        push_bounded-le limit entry old (h.within key),
      );
    }

-- Below the global limit a drain after an enqueue returns what was waiting, without the oldest entry
-- if the bucket was full, and the new entry last; what other subscribers have does not change.
pub drain-enqueue :
    (q : DeferredQueue) (subscriber channel blob : List ℕ) (limit now : ℕ)
    → total_len q < q.global_limit
    → let old = bucket_of (to_hex subscriber) q.buckets in
      let q' = enqueue q subscriber channel blob limit now in
      ((drain q' subscriber).1
        ≡ (if leb limit (length old) then drop 1 old else old)
          ++ record { channel_hash = channel; blob = blob; enqueued_at = now } ∷ [])
      × ((k : Key) → k ≢ to_hex subscriber → bucket_of k q'.buckets ≡ bucket_of k q.buckets)
      × ((k : Key)
          → k ≢ to_hex subscriber
          → bucket_of k (drain q' subscriber).0.buckets ≡ bucket_of k q.buckets)
      × (bucket_of (to_hex subscriber) (drain q' subscriber).0.buckets ≡ [])
unfolding enqueue drain
drain-enqueue q subscriber channel blob limit now h =
    let key = to_hex subscriber in
    let entry : PendingBlob = record { channel_hash = channel; blob = blob; enqueued_at = now } in
    let bucket = push_bounded limit entry (bucket_of key q.buckets) in
    let stored = get-set_self key bucket q.buckets in
    (
      unfold push_bounded in ground (arith, stored),
      λ k ne. ground (arith, bucket_of-set key k bucket q.buckets, str_eq_iff key k),
      λ k ne. ground (
        arith,
        stored,
        bucket_of-delete key k (Dict.set key bucket q.buckets),
        bucket_of-set key k bucket q.buckets,
        str_eq_iff key k,
      ),
      ground (
        arith,
        stored,
        bucket_of-delete key key (Dict.set key bucket q.buckets),
        str_eq_refl key,
      ),
    )
