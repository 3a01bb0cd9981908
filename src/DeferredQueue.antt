-- ===== src/DeferredQueue.antt =====
-- packages/rfed/src/deferred_queue.js: blobs that wait for an unreachable subscriber.
-- Times are whole milliseconds, where the code divides `Date.now()` by 1000; `max_age` is
-- `maxAgeSec` in milliseconds.
pub mod Limits
pub mod Paging
pub mod Expiry
pub mod Records
mod Tests
use reticulum_js.Common.{
  ℕ, zero, suc, ◌+◌, Bool, true, false, ◌&&◌, Option, none, some, List, [], ◌∷◌, ◌++◌, ltb, leb,
  ◌==◌, if◌then◌else◌, length, take, drop, Result, ok, err,
}
use reticulum_js.Common.Dict
use reticulum_js.Common.Dict.{Key, Dict, str_eq}
use reticulum_js.Encoding.{to_hex, from_hex}

pub record PendingBlob : Type 0 where
  pub channel_hash : List ℕ
  pub blob : List ℕ
  pub enqueued_at : ℕ

abbrev pub default_global_limit : ℕ
default_global_limit = 4096

pub record DeferredQueue : Type 0 where
  pub buckets : Dict (List PendingBlob)
  pub global_limit : ℕ

abbrev pub new_queue : ℕ → DeferredQueue
new_queue limit = record { buckets = []; global_limit = limit }

unfoldable pub sum_lengths : Dict (List PendingBlob) → ℕ
sum_lengths [] = 0
sum_lengths ((k, bucket) ∷ buckets) = length bucket + sum_lengths buckets

unfoldable pub total_len : DeferredQueue → ℕ
total_len q = sum_lengths q.buckets

-- `this._buckets.get(key) ?? []`
unfoldable pub bucket_of : Key → Dict (List PendingBlob) → List PendingBlob
bucket_of k buckets = elim (Dict.get k buckets) [ none ↦ [] | some bucket ↦ bucket ]

-- `if (bucket.length >= perSubscriberLimit) bucket.shift(); bucket.push(entry);`
unfoldable pub push_bounded : ℕ → PendingBlob → List PendingBlob → List PendingBlob
push_bounded limit entry bucket =
    (if leb limit (length bucket) then drop 1 bucket else bucket) ++ entry ∷ []

unfoldable pub enqueue : DeferredQueue → List ℕ → List ℕ → List ℕ → ℕ → ℕ → DeferredQueue
unfolding push_bounded
enqueue q subscriber channel blob limit now =
    let key = to_hex subscriber in
    let entry : PendingBlob = record { channel_hash = channel; blob = blob; enqueued_at = now } in
    if leb q.global_limit (total_len q) then q else record q {
      buckets = Dict.set key (push_bounded limit entry (bucket_of key q.buckets)) q.buckets;
    }

unfoldable pub drain : DeferredQueue → List ℕ → DeferredQueue × List PendingBlob
drain q subscriber =
    let key = to_hex subscriber in
    elim (Dict.get key q.buckets) [
      | none ↦ (q, [])
      | some bucket ↦ (record q { buckets = Dict.delete key q.buckets }, bucket)
    ]

-- What is left is stored back, or the bucket goes.
unfoldable pub put_back : Key → List PendingBlob → DeferredQueue → DeferredQueue
put_back key kept q =
    if length kept == 0
    then record q { buckets = Dict.delete key q.buckets }
    else record q { buckets = Dict.set key kept q.buckets }

unfoldable pub drain_batch : DeferredQueue → List ℕ → ℕ → DeferredQueue × List PendingBlob
drain_batch q subscriber max =
    let key = to_hex subscriber in
    if max == 0 then (q, []) else elim (Dict.get key q.buckets) [
      | none ↦ (q, [])
      | some bucket ↦ (put_back key (drop max bucket) q, take max bucket)
    ]

-- The loop of `drainChannelBatch`: what is removed, and what is kept. `count` is `removed.length`.
unfoldable pub split_channel : Key → ℕ → ℕ → List PendingBlob → List PendingBlob × List PendingBlob
split_channel want max count [] = ([], [])
split_channel want max count (entry ∷ bucket) =
    let taken = split_channel want max (count + 1) bucket in
    let passed = split_channel want max count bucket in
    if ltb count max && str_eq (to_hex entry.channel_hash) want
    then (entry ∷ taken.0, taken.1)
    else (passed.0, entry ∷ passed.1)

unfoldable pub drain_channel_batch :
    DeferredQueue → List ℕ → List ℕ → ℕ → DeferredQueue × List PendingBlob
drain_channel_batch q subscriber channel max =
    let key = to_hex subscriber in
    elim (Dict.get key q.buckets) [
      | none ↦ (q, [])
      | some bucket ↦
          let parts = split_channel (to_hex channel) max 0 bucket in
          (put_back key parts.1 q, parts.0)
    ]

unfoldable pub has_pending : DeferredQueue → List ℕ → Bool
has_pending q subscriber = ltb 0 (length (bucket_of (to_hex subscriber) q.buckets))

unfoldable pub any_channel : Key → List PendingBlob → Bool
any_channel want [] = false
any_channel want (entry ∷ bucket) =
    let rest = any_channel want bucket in
    if str_eq (to_hex entry.channel_hash) want then true else rest

unfoldable pub has_pending_channel : DeferredQueue → List ℕ → List ℕ → Bool
has_pending_channel q subscriber channel = elim (Dict.get (to_hex subscriber) q.buckets) [
  | none ↦ false
  | some bucket ↦ any_channel (to_hex channel) bucket
]

-- The inner loop of `evictExpired`: what is kept, and how many are not.
unfoldable pub keep_fresh : ℕ → ℕ → List PendingBlob → List PendingBlob × ℕ
keep_fresh now max_age [] = ([], 0)
keep_fresh now max_age (e ∷ bucket) =
    let (kept, count) = keep_fresh now max_age bucket in
    if leb now (e.enqueued_at + max_age) then (e ∷ kept, count) else (kept, count + 1)

-- The outer loop: an emptied bucket goes, any other keeps its place.
unfoldable pub evict_buckets : ℕ → ℕ → Dict (List PendingBlob) → Dict (List PendingBlob) × ℕ
evict_buckets now max_age [] = ([], 0)
evict_buckets now max_age ((k, bucket) ∷ buckets) =
    let (kept, count) = keep_fresh now max_age bucket in
    let (rest, more) = evict_buckets now max_age buckets in
    if length kept == 0 then (rest, count + more) else ((k, kept) ∷ rest, count + more)

unfoldable pub evict_expired : DeferredQueue → ℕ → ℕ → DeferredQueue × ℕ
evict_expired q max_age now =
    let (buckets, count) = evict_buckets now max_age q.buckets in
    (record q { buckets = buckets }, count)
