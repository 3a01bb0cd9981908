-- ===== src/Channel/Order.antt =====
-- What `Channel._receive` of packages/core/src/transport/channel.js hands to its handlers.
-- The message with index `i` travels in an envelope with the sequence number `i`: the numbers have
-- not wrapped yet.
use reticulum_js.Common.{
  ℕ, zero, suc, ◌+◌, ◌%◌, ◌≤◌, ◌<◌, ◌≡◌, ◌⊎◌, refl, ap, ◌∙◌, arith, true, false, List, [], ◌∷◌,
  ◌++◌, ltb, ◌==◌, length, All, map, Bool-cases, inl, inr,
}
use reticulum_js.Channel.{
  seq_modulus, Rx, emplace_envelope, take_sequence, drain, is_invalid_sequence, receive_envelope,
  receive_all,
}
use reticulum_js.Channel.Ring.{
  epoch, from_index, from_index-append, Ascending, has_index, Ascending-weaken, emplace-Ascending,
  take_sequence-none, has_index-behind, Ascending-front, emplace-keeps, emplace-duplicate,
}

module _ {M : Type 0} (msg : ℕ → M) where
  -- A drained receiver: what waits lies past the next index.
  pub record Drained (rx : Rx M) : Type 0 where
    pub early : rx.next_rx_sequence ≤ epoch
    pub waiting : Ascending msg (suc rx.next_rx_sequence) rx.rx_ring

  -- The message of the index `k` is delivered or waits in the ring.
  pub Seen : ℕ → Rx M → Type 0
  Seen k rx = (k < rx.next_rx_sequence) ⊎ (has_index msg k rx.rx_ring ≡ true)

  -- A run of the receiver from the index `n` on has delivered the messages from `n` to the next
  -- index, each of them once and in order, and has lost none of the ring.
  pub DeliveredFrom : ℕ → List (ℕ × M) → Rx M × List M → Type 0
  DeliveredFrom n ring run =
      (k : ℕ) × (run.0.next_rx_sequence ≡ n + k)
      × (run.1 ≡ from_index msg n k)
      × Drained run.0
      × ((j : ℕ) → has_index msg j ring ≡ true → Seen j run.0)

  nothing :
      (n : ℕ) (ring : List (ℕ × M))
      → n ≤ epoch
      → Ascending msg (suc n) ring
      → DeliveredFrom n ring (record { next_rx_sequence = n; rx_ring = ring }, [])
  unfolding DeliveredFrom from_index Seen
  nothing n ring e asc = (0, omega arith, refl, record { early = e; waiting = asc }, λ j h. inr h)

  one_more :
      (n : ℕ) (ring : List (ℕ × M)) (run : Rx M × List M)
      → DeliveredFrom (suc n) ring run
      → DeliveredFrom n ((n, msg n) ∷ ring) (run.0, msg n ∷ run.1)
  unfolding DeliveredFrom from_index
  one_more n ring run (k, next, out, drained, seen) = (
    suc k,
    omega (arith, next),
    ap (λ r. msg n ∷ r) out,
    drained,
    λ j h. elim (Bool-cases (n == j)) [
      | inl here ↦ front j (ground (arith, here, next))
      | inr other ↦ seen j (behind j other h)
    ],
  )
    where
      front : (j : ℕ) → j < run.0.next_rx_sequence → Seen j run.0
      front j h = unfold Seen in inl h

      behind :
          (j : ℕ)
          → (n == j) ≡ false
          → has_index msg j ((n, msg n) ∷ ring) ≡ true
          → has_index msg j ring ≡ true
      behind j other h = has_index-behind msg n j ring other h

  drain-front :
      (fuel n : ℕ) (ring : List (ℕ × M))
      → n < epoch
      → DeliveredFrom
          (suc n)
          ring
          (drain fuel (record { next_rx_sequence = suc n; rx_ring = ring }))
      → DeliveredFrom n
          ((n, msg n) ∷ ring)
          (drain (suc fuel) (record { next_rx_sequence = n; rx_ring = (n, msg n) ∷ ring }))
  unfolding drain take_sequence
  drain-front fuel n ring e ih =
      let here : (n == n) ≡ true = ground arith in
      let next : (n + 1) % seq_modulus ≡ suc n = omega (arith, e) in
      rw (drain, take_sequence, here, next) (one_more n ring _ ih)

  drain-stop :
      (fuel n : ℕ) (ring : List (ℕ × M))
      → n ≤ epoch
      → Ascending msg (suc n) ring
      → DeliveredFrom n ring (drain (suc fuel) (record { next_rx_sequence = n; rx_ring = ring }))
  unfolding drain
  drain-stop fuel n ring e past =
      let (none_found, absent) = take_sequence-none msg n (suc n) ring (omega arith) past in
      rw (drain, none_found) (nothing n ring e past)

  -- Draining with as much fuel as the ring has envelopes delivers all that is contiguous.
  drain_lem :
      (fuel n : ℕ) (ring : List (ℕ × M))
      → length ring < suc fuel
      → n ≤ epoch
      → Ascending msg n ring
      → DeliveredFrom n ring (drain fuel (record { next_rx_sequence = n; rx_ring = ring }))
  drain_lem zero n [] f e asc = unfold drain in nothing n [] e (unfold Ascending in tt)
  drain_lem zero n (x ∷ ring) f e asc = absurd (omega (arith, f))
  drain_lem (suc fuel) n [] f e asc = drain-stop fuel n [] e (unfold Ascending in tt)
  drain_lem (suc fuel) n ((s, m) ∷ ring) f e asc = elim (Ascending-front msg s n m ring asc) [
    | inl (at, early, same, rest) ↦
        rw (at, same)
          (drain-front fuel n ring early
            (drain_lem fuel (suc n) ring (omega (arith, f)) early rest))
    | inr past ↦ drain-stop fuel n ((s, m) ∷ ring) e past
  ]

  old_is_invalid : (n i : ℕ) → n ≤ epoch → i < n → is_invalid_sequence n i ≡ true
  unfolding is_invalid_sequence
  old_is_invalid n i e h = ground (arith, e, h)

  new_is_valid : (n i : ℕ) → n ≤ i → is_invalid_sequence n i ≡ false
  unfolding is_invalid_sequence
  new_is_valid n i h = ground (arith, h)

  -- What was seen stays seen.
  Seen-later :
      (rx : Rx M) (run : Rx M × List M) (j : ℕ)
      → DeliveredFrom rx.next_rx_sequence rx.rx_ring run
      → Seen j rx
      → Seen j run.0
  unfolding DeliveredFrom Seen
  Seen-later rx run j (k, next, out, drained, seen) h = elim h [
    | inl before ↦ inl (omega (arith, next, before))
    | inr waits ↦ seen j waits
  ]

  Drained-run :
      (n : ℕ) (ring : List (ℕ × M)) (run : Rx M × List M) → DeliveredFrom n ring run → Drained run.0
  unfolding DeliveredFrom
  Drained-run n ring run (k, next, out, drained, seen) = drained

  Seen-run :
      (n : ℕ) (ring : List (ℕ × M)) (run : Rx M × List M) (j : ℕ)
      → DeliveredFrom n ring run
      → has_index msg j ring ≡ true
      → Seen j run.0
  unfolding DeliveredFrom
  Seen-run n ring run j (k, next, out, drained, seen) h = seen j h

  fewer :
      (n : ℕ) (ring ring' : List (ℕ × M)) (run : Rx M × List M)
      → ((j : ℕ) → has_index msg j ring ≡ true → has_index msg j ring' ≡ true)
      → DeliveredFrom n ring' run
      → DeliveredFrom n ring run
  unfolding DeliveredFrom
  fewer n ring ring' run sub (k, next, out, drained, seen) =
      (k, next, out, drained, λ j h. seen j (sub j h))

  both_runs :
      (rx : Rx M) (first second : Rx M × List M)
      → DeliveredFrom rx.next_rx_sequence rx.rx_ring first
      → DeliveredFrom first.0.next_rx_sequence first.0.rx_ring second
      → DeliveredFrom rx.next_rx_sequence rx.rx_ring (second.0, first.1 ++ second.1)
  unfolding DeliveredFrom
  both_runs rx first second (k, next, out, drained, seen) second_run =
      let (l, next', out', drained', seen') = second_run in
      (
        k + l,
        omega (arith, next, next'),
        rw (out, out')
            (from_index-append msg rx.next_rx_sequence first.0.next_rx_sequence k l next),
        drained',
        λ j h. Seen-later first.0 second j second_run (seen j h),
      )

  -- One arrival: whatever its index, it is delivered with all that it makes contiguous, kept, or
  -- dropped as old or as a duplicate.
  receive_envelope_lem :
      (rx : Rx M) (i : ℕ)
      → i < epoch
      → Drained rx
      → DeliveredFrom rx.next_rx_sequence rx.rx_ring (receive_envelope (i, msg i) rx)
        × Seen i (receive_envelope (i, msg i) rx).0
  unfolding receive_envelope Seen
  receive_envelope_lem rx i e d = elim (Bool-cases (ltb i rx.next_rx_sequence)) [
    | inl old ↦
        rw (receive_envelope, old_is_invalid rx.next_rx_sequence i d.early (ground (arith, old)))
          (nothing rx.next_rx_sequence rx.rx_ring d.early d.waiting, inl (ground (arith, old)))
    | inr later ↦
        let past : rx.next_rx_sequence ≤ i = ground (arith, later) in
        elim (Bool-cases (emplace_envelope rx.next_rx_sequence (i, msg i) rx.rx_ring).1) [
          | inl placed ↦
              rw (receive_envelope, new_is_valid rx.next_rx_sequence i past, placed)
                (placed_lem past)
          | inr twice ↦
              rw (receive_envelope, new_is_valid rx.next_rx_sequence i past, twice)
                (
                  nothing rx.next_rx_sequence rx.rx_ring d.early d.waiting,
                  inr (emplace-duplicate msg rx.next_rx_sequence (i, msg i) rx.rx_ring twice),
                )
        ]
  ]
    where
      ring' : List (ℕ × M)
      ring' = (emplace_envelope rx.next_rx_sequence (i, msg i) rx.rx_ring).0

      placed_lem :
          rx.next_rx_sequence ≤ i
          → DeliveredFrom rx.next_rx_sequence rx.rx_ring (
              drain
                (length ring')
                (record { next_rx_sequence = rx.next_rx_sequence; rx_ring = ring' }))
            × Seen i
                (drain
                  (length ring')
                  (record { next_rx_sequence = rx.next_rx_sequence; rx_ring = ring' })).0
      placed_lem past =
          let n : ℕ = rx.next_rx_sequence in
          let asc : Ascending msg n rx.rx_ring =
            Ascending-weaken msg n (suc n) rx.rx_ring (omega arith) d.waiting in
          let run =
            drain_lem (length ring') n ring' (omega arith) d.early
              (emplace-Ascending msg n n i rx.rx_ring past past e asc) in
          (
            fewer n rx.rx_ring ring' _ (λ j h. (emplace-keeps msg n j (i, msg i) rx.rx_ring).0 h)
                run,
            Seen-run n ring' _ i run (emplace-keeps msg n i (i, msg i) rx.rx_ring).1,
          )

  receive_all_lem :
      (rx : Rx M) (arrivals : List ℕ)
      → All (λ i. i < epoch) arrivals
      → Drained rx
      → DeliveredFrom rx.next_rx_sequence rx.rx_ring
          (receive_all (map (λ i. (i, msg i)) arrivals) rx)
        × All (λ i. Seen i (receive_all (map (λ i. (i, msg i)) arrivals) rx).0) arrivals
  unfolding receive_all
  receive_all_lem rx [] h d = (nothing rx.next_rx_sequence rx.rx_ring d.early d.waiting, tt)
  receive_all_lem rx (i ∷ arrivals) (e, h) d =
      let (run, seen) = receive_envelope_lem rx i e d in
      let (rest, seen') =
        receive_all_lem (receive_envelope (i, msg i) rx).0 arrivals h (Drained-run _ _ _ run) in
      (both_runs rx _ _ run rest, (Seen-later _ _ i rest seen, seen'))

  -- Whatever the order in which messages arrive, and however often each does, as long as every
  -- index is below 65487, a new channel hands its handlers the messages 0, 1, 2, and so on, each
  -- once and in order, up to the first that has not arrived; those that arrived past it wait in
  -- the ring.
  pub in_order_once :
      (arrivals : List ℕ)
      → All (λ i. i < epoch) arrivals
      → let (rx, out) =
          receive_all
            (map (λ i. (i, msg i)) arrivals)
            (record { next_rx_sequence = 0; rx_ring = [] }) in
        (out ≡ from_index msg 0 rx.next_rx_sequence)
        × All (λ i. (i < rx.next_rx_sequence) ⊎ (has_index msg i rx.rx_ring ≡ true)) arrivals
        × (has_index msg rx.next_rx_sequence rx.rx_ring ≡ false)
  unfolding DeliveredFrom Seen
  in_order_once arrivals h =
      let start : Rx M = record { next_rx_sequence = 0; rx_ring = [] } in
      let fresh : Drained start = record {
        early = omega arith;
        waiting = unfold Ascending in tt;
      } in
      let (run, seen) = receive_all_lem start arrivals h fresh in
      let (k, next, out, drained, kept) = run in
      let (rx, messages) = receive_all (map (λ i. (i, msg i)) arrivals) start in
      let count : k ≡ rx.next_rx_sequence = omega (arith, next) in
      (
        out ∙ ap (λ n. from_index msg 0 n) count,
        seen,
        (take_sequence-none msg rx.next_rx_sequence (suc rx.next_rx_sequence) rx.rx_ring
            (omega arith) drained.waiting).1,
      )
