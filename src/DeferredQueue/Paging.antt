-- ===== src/DeferredQueue/Paging.antt =====
-- The paging drains of packages/rfed/src/deferred_queue.js.
use reticulum_js.Common.{
  ℕ, zero, suc, ◌+◌, ◌≡◌, ◌≢◌, ◌⊎◌, refl, sym, ◌∙◌, arith, Bool, some, List, [], ◌∷◌, ltb,
  if◌then◌else◌, length, length-drop, take, drop, Option-cases, inl, inr,
}
use reticulum_js.Common.Dict
use reticulum_js.Common.Dict.{Key, Dict, str_eq, str_eq_iff, str_eq_refl, get-set, get-delete}
use reticulum_js.Encoding.{to_hex}
use reticulum_js.DeferredQueue.{
  PendingBlob, DeferredQueue, bucket_of, put_back, drain_batch, split_channel, drain_channel_batch,
  any_channel, has_pending_channel,
}
use reticulum_js.DeferredQueue.Limits.{bucket_of-set, bucket_of-delete}

abbrev pub on_channel : Key → PendingBlob → Bool
on_channel want e = str_eq (to_hex e.channel_hash) want

-- The entries of a channel, and the others, in their order.
unfoldable pub matching : Key → List PendingBlob → List PendingBlob
matching want [] = []
matching want (e ∷ bucket) =
    let rest = matching want bucket in if on_channel want e then e ∷ rest else rest

unfoldable pub others : Key → List PendingBlob → List PendingBlob
others want [] = []
others want (e ∷ bucket) =
    let rest = others want bucket in if on_channel want e then rest else e ∷ rest

-- `room` more entries may be removed.
split_channel_lem :
    (want : Key) (max count room : ℕ) (bucket : List PendingBlob)
    → max ≡ count + room
    → let parts = split_channel want max count bucket in
      (parts.0 ≡ take room (matching want bucket))
      × (matching want parts.1 ≡ drop room (matching want bucket))
      × (others want parts.1 ≡ others want bucket)
unfolding split_channel matching others
split_channel_lem want max count zero [] e = (refl, refl, refl)
split_channel_lem want max count (suc room) [] e = (refl, refl, refl)
split_channel_lem want max count zero (b ∷ bucket) e =
    ground (arith, split_channel_lem want max count zero bucket e)
split_channel_lem want max count (suc room) (b ∷ bucket) e = ground (
  arith,
  split_channel_lem want max count (suc room) bucket e,
  split_channel_lem want max (count + 1) room bucket,
)

bucket_of-put_back :
    (k j : Key) (kept : List PendingBlob) (q : DeferredQueue)
    → bucket_of j (put_back k kept q).buckets ≡ (if str_eq k j then kept else bucket_of j q.buckets)
unfolding put_back
bucket_of-put_back k j [] q = ground (arith, bucket_of-delete k j q.buckets)
bucket_of-put_back k j (e ∷ kept) q = ground (arith, bucket_of-set k j (e ∷ kept) q.buckets)

any_channel_lem :
    (want : Key) (bucket : List PendingBlob)
    → any_channel want bucket ≡ ltb 0 (length (matching want bucket))
unfolding any_channel matching
any_channel_lem want [] = refl
any_channel_lem want (e ∷ bucket) = ground (arith, any_channel_lem want bucket)

has_pending_channel_lem :
    (q : DeferredQueue) (subscriber channel : List ℕ)
    → has_pending_channel q subscriber channel
      ≡ ltb 0 (length (matching (to_hex channel) (bucket_of (to_hex subscriber) q.buckets)))
unfolding has_pending_channel bucket_of
has_pending_channel_lem q subscriber channel =
    elim (Option-cases (Dict.get (to_hex subscriber) q.buckets)) [
      | inl e ↦ unfold matching in ground (arith, e)
      | inr (bucket, e) ↦ ground (arith, e, any_channel_lem (to_hex channel) bucket)
    ]

-- The bucket is not there, or it is split and put back.
drain_cases :
    (q : DeferredQueue) (subscriber channel : List ℕ) (max : ℕ)
    → ((bucket_of (to_hex subscriber) q.buckets ≡ [])
        × (drain_channel_batch q subscriber channel max ≡ (q, [])))
      ⊎ (let parts =
            split_channel (to_hex channel) max 0 (bucket_of (to_hex subscriber) q.buckets) in
          drain_channel_batch q subscriber channel max
          ≡ (put_back (to_hex subscriber) parts.1 q, parts.0))
unfolding drain_channel_batch bucket_of
drain_cases q subscriber channel max =
    elim (Option-cases (Dict.get (to_hex subscriber) q.buckets)) [
      | inl e ↦ inl (ground (arith, e), ground (arith, e))
      | inr (bucket, e) ↦ inr (ground (arith, e))
    ]

take-nil {ℓ} : {A : Type ℓ} (n : ℕ) → take {A = A} n [] ≡ []
take-nil zero = refl
take-nil (suc n) = refl

drop-nil {ℓ} : {A : Type ℓ} (n : ℕ) → drop {A = A} n [] ≡ []
drop-nil zero = refl
drop-nil (suc n) = refl

page_facts :
    (q : DeferredQueue) (subscriber channel : List ℕ) (max : ℕ)
    → let key = to_hex subscriber in
      let want = to_hex channel in
      let old = bucket_of key q.buckets in
      let q' = (drain_channel_batch q subscriber channel max).0 in
      ((drain_channel_batch q subscriber channel max).1 ≡ take max (matching want old))
      × (matching want (bucket_of key q'.buckets) ≡ drop max (matching want old))
      × (others want (bucket_of key q'.buckets) ≡ others want old)
      × ((k : Key) → k ≢ key → bucket_of k q'.buckets ≡ bucket_of k q.buckets)
page_facts q subscriber channel max = elim (drain_cases q subscriber channel max) [
  | inl (empty, e) ↦
      rw (e, empty)
        (unfold matching others in (sym (take-nil max), sym (drop-nil max), refl, λ k ne. refl))
  | inr e ↦
      let key = to_hex subscriber in
      let want = to_hex channel in
      let old = bucket_of key q.buckets in
      let parts = split_channel want max 0 old in
      let (removed, left, rest) = split_channel_lem want max 0 max old (omega arith) in
      let here : bucket_of key (put_back key parts.1 q).buckets ≡ parts.1 =
        rw (bucket_of-put_back key key parts.1 q, str_eq_refl key) in
      rw (e, here)
        (
          removed,
          left,
          rest,
          λ k ne. ground (arith, bucket_of-put_back key k parts.1 q, str_eq_iff key k),
        )
]

-- `drainChannelBatch` returns the oldest entries of the channel, at most `max` of them. Those left of
-- the channel and those of other channels keep their order, other subscribers keep their buckets, and
-- afterwards `hasPendingChannel` says whether the channel had more than `max`.
pub drain_channel_batch_lem :
    (q : DeferredQueue) (subscriber channel : List ℕ) (max : ℕ)
    → let key = to_hex subscriber in
      let want = to_hex channel in
      let old = bucket_of key q.buckets in
      let q' = (drain_channel_batch q subscriber channel max).0 in
      ((drain_channel_batch q subscriber channel max).1 ≡ take max (matching want old))
      × (matching want (bucket_of key q'.buckets) ≡ drop max (matching want old))
      × (others want (bucket_of key q'.buckets) ≡ others want old)
      × ((k : Key) → k ≢ key → bucket_of k q'.buckets ≡ bucket_of k q.buckets)
      × (has_pending_channel q' subscriber channel ≡ ltb max (length (matching want old)))
drain_channel_batch_lem q subscriber channel max =
    let q' = (drain_channel_batch q subscriber channel max).0 in
    let old = bucket_of (to_hex subscriber) q.buckets in
    let (page, left, rest, same) = page_facts q subscriber channel max in
    (
      page,
      left,
      rest,
      same,
      has_pending_channel_lem q' subscriber channel
          ∙ rw left (ground (arith, length-drop max (matching (to_hex channel) old))),
    )

-- `drainBatch` returns the `max` oldest entries, or all where there are fewer; the rest stays in order,
-- and other subscribers keep their buckets.
pub drain_batch_lem :
    (q : DeferredQueue) (subscriber : List ℕ) (max : ℕ)
    → let key = to_hex subscriber in
      let old = bucket_of key q.buckets in
      let q' = (drain_batch q subscriber max).0 in
      ((drain_batch q subscriber max).1 ≡ take max old)
      × (bucket_of key q'.buckets ≡ drop max old)
      × ((k : Key) → k ≢ key → bucket_of k q'.buckets ≡ bucket_of k q.buckets)
unfolding drain_batch
drain_batch_lem q subscriber zero = (refl, refl, λ k ne. refl)
drain_batch_lem q subscriber (suc n) =
    elim (Option-cases (Dict.get (to_hex subscriber) q.buckets)) [
      | inl e ↦
          unfold bucket_of in (ground (arith, e), ground (arith, e), λ k ne. ground (arith, e))
      | inr (bucket, e) ↦ some_bucket bucket e (unfold bucket_of in ground (arith, e))
    ]
  where
    some_bucket :
        (bucket : List PendingBlob)
        → Dict.get (to_hex subscriber) q.buckets ≡ some bucket
        → bucket_of (to_hex subscriber) q.buckets ≡ bucket
        → let q' = (drain_batch q subscriber (suc n)).0 in
          ((drain_batch q subscriber (suc n)).1
            ≡ take (suc n) (bucket_of (to_hex subscriber) q.buckets))
          × (bucket_of (to_hex subscriber) q'.buckets
              ≡ drop (suc n) (bucket_of (to_hex subscriber) q.buckets))
          × ((k : Key) → k ≢ to_hex subscriber → bucket_of k q'.buckets ≡ bucket_of k q.buckets)
    some_bucket bucket e old =
        let key = to_hex subscriber in
        (
          ground (arith, e, old),
          ground
              (arith, e, old, bucket_of-put_back key key (drop (suc n) bucket) q, str_eq_refl key),
          λ k ne.
              ground (arith, e, bucket_of-put_back key k (drop (suc n) bucket) q, str_eq_iff key k),
        )
