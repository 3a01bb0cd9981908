-- ===== src/DeferredQueue/Expiry.antt =====
-- `evictExpired` of packages/rfed/src/deferred_queue.js.
use reticulum_js.Common.{
  ℕ, ◌+◌, ◌≡◌, refl, arith, Bool, List, [], ◌∷◌, leb, ◌==◌, if◌then◌else◌, length,
}
use reticulum_js.Common.Dict.{Dict}
use reticulum_js.DeferredQueue.{
  PendingBlob, DeferredQueue, sum_lengths, total_len, keep_fresh, evict_buckets, evict_expired,
}

abbrev pub is_fresh : ℕ → ℕ → PendingBlob → Bool
is_fresh now max_age e = leb now (e.enqueued_at + max_age)

unfoldable pub fresh : ℕ → ℕ → List PendingBlob → List PendingBlob
fresh now max_age [] = []
fresh now max_age (e ∷ bucket) =
    let rest = fresh now max_age bucket in if is_fresh now max_age e then e ∷ rest else rest

-- The buckets with only their fresh entries, and no empty ones.
unfoldable pub fresh_buckets : ℕ → ℕ → Dict (List PendingBlob) → Dict (List PendingBlob)
fresh_buckets now max_age [] = []
fresh_buckets now max_age ((k, bucket) ∷ d) =
    let rest = fresh_buckets now max_age d in
    let kept = fresh now max_age bucket in if length kept == 0 then rest else (k, kept) ∷ rest

keep_fresh_lem :
    (now max_age : ℕ) (bucket : List PendingBlob)
    → ((keep_fresh now max_age bucket).0 ≡ fresh now max_age bucket)
      × ((keep_fresh now max_age bucket).1 + length (fresh now max_age bucket) ≡ length bucket)
unfolding keep_fresh fresh
keep_fresh_lem now max_age [] = (refl, omega arith)
keep_fresh_lem now max_age (e ∷ bucket) = ground (arith, keep_fresh_lem now max_age bucket)

evict_buckets_lem :
    (now max_age : ℕ) (d : Dict (List PendingBlob))
    → ((evict_buckets now max_age d).0 ≡ fresh_buckets now max_age d)
      × ((evict_buckets now max_age d).1 + sum_lengths (fresh_buckets now max_age d)
          ≡ sum_lengths d)
unfolding evict_buckets fresh_buckets sum_lengths
evict_buckets_lem now max_age [] = (refl, omega arith)
evict_buckets_lem now max_age ((k, bucket) ∷ d) =
    ground (arith, keep_fresh_lem now max_age bucket, evict_buckets_lem now max_age d)

-- `evictExpired` leaves, in order, the entries of each bucket that are at most `max_age` old, drops the
-- buckets that have none, and returns how many entries went.
pub evict_expired_lem :
    (q : DeferredQueue) (max_age now : ℕ)
    → let q' = (evict_expired q max_age now).0 in
      (q'.buckets ≡ fresh_buckets now max_age q.buckets)
      × ((evict_expired q max_age now).1 + total_len q' ≡ total_len q)
      × (q'.global_limit ≡ q.global_limit)
unfolding evict_expired total_len
evict_expired_lem q max_age now =
    let (kept, count) = evict_buckets_lem now max_age q.buckets in (kept, rw kept count, refl)
