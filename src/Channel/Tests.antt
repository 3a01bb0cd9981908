-- ===== src/Channel/Tests.antt =====
-- Runs of packages/core/src/transport/channel.js, and the theorems at concrete frames and arrivals.
use reticulum_js.Common.{
  ℕ, ◌+◌, ◌<◌, ◌≡◌, ◌≢◌, ◌⊎◌, inr, refl, arith, Bool, true, false, none, some, List, [], ◌∷◌, ◌==◌,
  if◌then◌else◌, length, All, map, ok, err,
}
use reticulum_js.Channel.{
  envelope_header_size, range_error, StreamDataMessage, stream_pack, stream_unpack, get_uint_16,
  envelope_pack, Rx, Factories, envelope_unpack, emplace_envelope, take_sequence, drain,
  is_invalid_sequence, receive_envelope, receive_all, new_window, was_delivered, was_resent,
  window_run,
}
use reticulum_js.Channel.Wire.{envelope_unpack-pack}
use reticulum_js.Channel.Ring.{from_index, has_index}
use reticulum_js.Channel.Order.{in_order_once}
use reticulum_js.Channel.Wrap.{wrap_keeps_duplicate}
use reticulum_js.Channel.Sender.{
  Tx, new_tx, link_not_ready, begin_send, SenderEvent, begins, finishes, proved, timed_out,
  sender_run,
}
use reticulum_js.Channel.Sender.Retries.{IsBounded, sender_run-IsBounded}
use reticulum_js.Channel.Sender.Attempts.{tries_of}
use reticulum_js.Channel.Sender.Exhausted.{count_timeouts, fifth_timeout}
use reticulum_js.Channel.Bounds.{IsSane, window_run-IsSane}

abbrev numbered : ℕ → ℕ
numbered i = 100 + i

abbrev at_start : Rx ℕ
at_start = record { next_rx_sequence = 0; rx_ring = [] }

shuffled :
    (receive_all ((1, 101) ∷ (1, 101) ∷ (0, 100) ∷ (3, 103) ∷ []) at_start).1 ≡ 100 ∷ 101 ∷ []
unfolding receive_all receive_envelope is_invalid_sequence emplace_envelope take_sequence drain
shuffled = refl

abbrev last_frame : StreamDataMessage
last_frame = record { stream_id = 5; data' = 1 ∷ []; eof = true; compressed = false }

frame_run : stream_pack last_frame ≡ 0x80 ∷ 0x05 ∷ 1 ∷ []
unfolding stream_pack
frame_run = refl

short_frame : stream_unpack (1 ∷ []) ≡ err range_error
unfolding stream_unpack get_uint_16
short_frame = refl

-- One message type, 9, whose messages are their bodies.
unfoldable factories : Factories (List ℕ)
factories msgtype = if msgtype == 9 then some (λ body. some body) else none

known : factories 9 ≡ some (λ body. some body)
unfolding factories
known = refl

envelope_unpack-pack_example :
    (raw : List ℕ) × (envelope_pack (some 9) 300 (1 ∷ []) ≡ ok raw)
    × (length raw ≡ length {A = ℕ} (1 ∷ []) + envelope_header_size)
    × (envelope_unpack factories raw ≡ ok (300, 1 ∷ []))
envelope_unpack-pack_example =
    envelope_unpack-pack factories 9 300 (1 ∷ []) (λ body. some body) (1 ∷ []) (omega arith)
      (omega arith) known refl

in_order_once_example :
    let (rx, out) = receive_all (map (λ i. (i, numbered i)) (2 ∷ 0 ∷ 2 ∷ [])) at_start in
    (out ≡ from_index numbered 0 rx.next_rx_sequence)
    × All
        (λ i. (i < rx.next_rx_sequence) ⊎ (has_index numbered i rx.rx_ring ≡ true))
        (2 ∷ 0 ∷ 2 ∷ [])
    × (has_index numbered rx.next_rx_sequence rx.rx_ring ≡ false)
in_order_once_example =
    in_order_once numbered (2 ∷ 0 ∷ 2 ∷ []) (omega arith, (omega arith, (omega arith, tt)))

wrap_keeps_duplicate_example :
    let ring : List (ℕ × ℕ) = (3, 10) ∷ (1, 20) ∷ [] in
    ((receive_envelope
        (1, 20)
        (receive_envelope (3, 10) (record { next_rx_sequence = 65535; rx_ring = [] })).0).0
      ≡ record { next_rx_sequence = 65535; rx_ring = ring })
    × (emplace_envelope 0 (1, 30) ring ≡ ((1, 30) ∷ ring, true))
wrap_keeps_duplicate_example =
    wrap_keeps_duplicate 65535 0 1 3 10 20 30 (omega arith) (omega arith) (omega arith)
      (omega arith) (omega arith)

window_run-IsSane_example :
    IsSane (window_run (was_delivered 5 ∷ was_resent ∷ []) (new_window 2000000000))
window_run-IsSane_example = window_run-IsSane 2000000000 (was_delivered 5 ∷ was_resent ∷ [])

abbrev fresh : Tx
fresh = record (new_tx 5) { tx_ring = (0, record { packet = 8; tries = 1 }) ∷ [] }

sender_run-IsBounded_example : IsBounded (
    sender_run
      (begins true (λ p. false) 400 20
        ∷ finishes (λ p. false) 5 0 (some 8)
        ∷ timed_out (λ p. false) false 5 8
        ∷ [])
      (new_tx 5))
sender_run-IsBounded_example = sender_run-IsBounded 5 (
    begins true (λ p. false) 400 20
    ∷ finishes (λ p. false) 5 0 (some 8)
    ∷ timed_out (λ p. false) false 5 8
    ∷ [])

abbrev five_timeouts : List SenderEvent
five_timeouts =
    timed_out (λ p. false) false 5 8
    ∷ timed_out (λ p. false) false 5 8
    ∷ proved 5 9
    ∷ timed_out (λ p. false) false 5 8
    ∷ timed_out (λ p. false) false 5 8
    ∷ timed_out (λ p. false) false 5 8
    ∷ []

fifth_timeout_example :
    let tx' = sender_run (begins true (λ p. false) 400 20 ∷ []) (sender_run five_timeouts fresh) in
    (tx'.shut_down ≡ true)
    × ((usable : Bool) (d : ℕ → Bool) (mdu size : ℕ)
        → begin_send usable d mdu size tx' ≡ (tx', some link_not_ready))
unfolding tries_of count_timeouts new_tx
fifth_timeout_example =
    fifth_timeout 8 1 five_timeouts (begins true (λ p. false) 400 20 ∷ []) fresh refl (omega arith)
      (
        inr (refl, refl),
        (inr (refl, refl), (other, (inr (refl, refl), (inr (refl, refl), (inr (refl, refl), tt))))),
      )
      (omega arith)
  where
    other : ◌≢◌ {A = ℕ} 9 8
    other e = omega arith
