-- ===== src/DeferredQueue/Tests.antt =====
-- Runs of packages/rfed/src/deferred_queue.js, and the theorems at concrete queues.
use reticulum_js.Common.{◌≡◌, ◌≢◌, refl, arith, [], ◌∷◌, ◌++◌, leb, if◌then◌else◌, length, drop}
use reticulum_js.Common.Dict
use reticulum_js.Common.Dict.{Key, str_eq}
use reticulum_js.Encoding.{to_hex, hex_digit}
use reticulum_js.DeferredQueue.{
  PendingBlob, DeferredQueue, new_queue, total_len, sum_lengths, bucket_of, push_bounded, enqueue,
  drain,
}
use reticulum_js.DeferredQueue.Limits.{drain-enqueue}
use reticulum_js.DeferredQueue.Records.{IsStored}

abbrev empty : DeferredQueue
empty = new_queue 4

abbrev one : PendingBlob
one = record { channel_hash = 1 ∷ []; blob = 10 ∷ []; enqueued_at = 5 }

abbrev two : PendingBlob
two = record { channel_hash = 2 ∷ []; blob = 20 ∷ []; enqueued_at = 7 }

abbrev waiting : DeferredQueue
waiting = record { buckets = (b'0' ∷ b'9' ∷ [], one ∷ two ∷ one ∷ []) ∷ []; global_limit = 4 }

enqueue_run :
    (drain (enqueue waiting (9 ∷ []) (2 ∷ []) (30 ∷ []) 3 8) (9 ∷ [])).1
    ≡ two ∷ one ∷ record { channel_hash = 2 ∷ []; blob = 30 ∷ []; enqueued_at = 8 } ∷ []
unfolding enqueue drain total_len sum_lengths bucket_of push_bounded to_hex hex_digit Dict.get
    Dict.set str_eq
enqueue_run = refl

drain-enqueue_example :
    let old = bucket_of (to_hex (9 ∷ [])) waiting.buckets in
    let q' = enqueue waiting (9 ∷ []) (2 ∷ []) (30 ∷ []) 3 8 in
    ((drain q' (9 ∷ [])).1
      ≡ (if leb 3 (length old) then drop 1 old else old)
        ++ record { channel_hash = 2 ∷ []; blob = 30 ∷ []; enqueued_at = 8 } ∷ [])
    × ((k : Key) → k ≢ to_hex (9 ∷ []) → bucket_of k q'.buckets ≡ bucket_of k waiting.buckets)
    × ((k : Key)
        → k ≢ to_hex (9 ∷ [])
        → bucket_of k (drain q' (9 ∷ [])).0.buckets ≡ bucket_of k waiting.buckets)
    × (bucket_of (to_hex (9 ∷ [])) (drain q' (9 ∷ [])).0.buckets ≡ [])
unfolding total_len sum_lengths
drain-enqueue_example = drain-enqueue waiting (9 ∷ []) (2 ∷ []) (30 ∷ []) 3 8 (omega arith)

waiting-IsStored : IsStored [] waiting.buckets
unfolding IsStored
waiting-IsStored = (tt, (9 ∷ [], (omega arith, tt), nine, one, two ∷ one ∷ [], refl), tt)
  where
    nine : b'0' ∷ b'9' ∷ [] ≡ to_hex (9 ∷ [])
    nine = unfold to_hex hex_digit in refl
