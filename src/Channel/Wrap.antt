-- ===== src/Channel/Wrap.antt =====
-- The receiving half of packages/core/src/transport/channel.js where sequence numbers wrap around.
use reticulum_js.Common.{
  ℕ, zero, suc, ap, ◌+◌, ◌%◌, ◌≤◌, ◌<◌, ◌≡◌, refl, arith, true, false, List, [], ◌∷◌, ltb, leb,
  ◌==◌, length, none,
}
use reticulum_js.Channel.{
  Rx, emplace_envelope, take_sequence, drain, is_invalid_sequence, receive_envelope,
}

-- A number below the next one by more than half the range is of the next round.
wrapped_is_valid :
    (next s : ℕ)
    → 65488 < next
    → next < 65536
    → s ≤ (next + 48) % 65536
    → is_invalid_sequence next s ≡ false
unfolding is_invalid_sequence
wrapped_is_valid next s h h' over = ground (arith, h, h', over)

module _ {M : Type 0} where
  -- An envelope that is kept and is not the next one.
  drain-none :
      (fuel : ℕ) (rx : Rx M)
      → take_sequence rx.next_rx_sequence rx.rx_ring ≡ none
      → drain fuel rx ≡ (rx, [])
  unfolding drain
  drain-none zero rx h = refl
  drain-none (suc fuel) rx h = rw (drain, h) refl

  receive-kept :
      (envelope : ℕ × M) (rx : Rx M) (ring : List (ℕ × M))
      → is_invalid_sequence rx.next_rx_sequence envelope.0 ≡ false
      → emplace_envelope rx.next_rx_sequence envelope rx.rx_ring ≡ (ring, true)
      → take_sequence rx.next_rx_sequence ring ≡ none
      → (receive_envelope envelope rx).0
        ≡ record { next_rx_sequence = rx.next_rx_sequence; rx_ring = ring }
  unfolding receive_envelope
  receive-kept envelope rx ring valid placed absent =
      rw (receive_envelope, valid, placed)
        (ap (λ r. r.0)
          (drain-none (length ring)
            (record { next_rx_sequence = rx.next_rx_sequence; rx_ring = ring }) absent))

  receive_first :
      (next t : ℕ) (a : M)
      → is_invalid_sequence next t ≡ false
      → (t == next) ≡ false
      → (receive_envelope (t, a) (record { next_rx_sequence = next; rx_ring = [] })).0
        ≡ record { next_rx_sequence = next; rx_ring = (t, a) ∷ [] }
  receive_first next t a valid other =
      receive-kept (t, a) (record { next_rx_sequence = next; rx_ring = [] }) ((t, a) ∷ []) valid
        (unfold emplace_envelope in refl) (unfold take_sequence in rw other refl)

  receive_second :
      (next s t : ℕ) (a b : M)
      → is_invalid_sequence next s ≡ false
      → (t == next) ≡ false
      → (s == next) ≡ false
      → (s == t) ≡ false
      → leb (s + 32768) next ≡ true
      → ltb s t ≡ true
      → (receive_envelope (s, b) (record { next_rx_sequence = next; rx_ring = (t, a) ∷ [] })).0
        ≡ record { next_rx_sequence = next; rx_ring = (t, a) ∷ (s, b) ∷ [] }
  receive_second next s t a b valid other other' apart far below =
      receive-kept (s, b) (record { next_rx_sequence = next; rx_ring = (t, a) ∷ [] })
        ((t, a) ∷ (s, b) ∷ []) valid (unfold emplace_envelope in rw (apart, below, far) refl)
        (unfold take_sequence in rw (other, other') refl)

  -- While the next number is above 65488, two messages of the next round, within the window, that
  -- arrive in reverse order are kept in that order; once the numbers have wrapped and are not past
  -- them, the ring takes a second envelope with the number of the one that waits behind the other.
  pub wrap_keeps_duplicate :
      (next next' s t : ℕ) (a b c : M)
      → 65488 < next
      → next < 65536
      → s < t
      → t ≤ (next + 48) % 65536
      → next' ≤ s
      → let ring : List (ℕ × M) = (t, a) ∷ (s, b) ∷ [] in
        ((receive_envelope
            (s, b)
            (receive_envelope (t, a) (record { next_rx_sequence = next; rx_ring = [] })).0).0
          ≡ record { next_rx_sequence = next; rx_ring = ring })
        × (emplace_envelope next' (s, c) ring ≡ ((s, c) ∷ ring, true))
  unfolding emplace_envelope
  wrap_keeps_duplicate next next' s t a b c h h' st overflow n =
      let valid_t : is_invalid_sequence next t ≡ false = wrapped_is_valid next t h h' overflow in
      let valid_s : is_invalid_sequence next s ≡ false =
        wrapped_is_valid next s h h' (omega (arith, st, overflow)) in
      let apart_t : (t == next) ≡ false = ground (arith, h, h', overflow) in
      let apart_s : (s == next) ≡ false = ground (arith, h, h', st, overflow) in
      let apart : (s == t) ≡ false = ground (arith, st) in
      let far : leb (s + 32768) next ≡ true = ground (arith, h, h', st, overflow) in
      let below : ltb s t ≡ true = ground (arith, st) in
      let near : leb (s + 32768) next' ≡ false = ground (arith, n) in
      (
        rw (receive_first next t a valid_t apart_t)
            (receive_second next s t a b valid_s apart_t apart_s apart far below),
        rw (apart, below, near) refl,
      )
