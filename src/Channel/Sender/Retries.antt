-- ===== src/Channel/Sender/Retries.antt =====
-- What every run of the sending half of packages/core/src/transport/channel.js keeps.
use reticulum_js.Common.{
  ℕ, ◌+◌, ◌≤◌, ◌<◌, ◌≡◌, ap, sym, arith, Bool, false, not, ◌&&◌, ◌||◌, Option, none, some, List, [],
  ◌∷◌, ltb, leb, ◌==◌, All, Bool-cases, Option-cases, inl, inr,
}
use reticulum_js.Channel.{emplace_envelope}
use reticulum_js.Channel.Bounds.{IsSane, new_window-IsSane, delivered-IsSane, timeout-IsSane}
use reticulum_js.Channel.Sender.{
  max_tries, InFlight, Tx, new_tx, is_ready_to_send, begin_send, take_packet, packet_delivered,
  finish_send, count_try, shutdown, retry, packet_timeout, SenderEvent, begins, finishes, proved,
  timed_out, sender_step, sender_run,
}

-- An envelope has been sent at least once and at most five times.
abbrev pub Tried : ℕ × InFlight → Type 0
Tried e = (1 ≤ e.1.tries) × (e.1.tries ≤ max_tries)

pub record IsBounded (tx : Tx) : Type 0 where
  pub tried : All Tried tx.tx_ring
  pub sane : IsSane tx.window'

emplace-Tried :
    (next : ℕ) (e : ℕ × InFlight) (ring : List (ℕ × InFlight))
    → Tried e
    → All Tried ring
    → All Tried (emplace_envelope next e ring).0
unfolding emplace_envelope
emplace-Tried next e [] h hs = (h, tt)
emplace-Tried next e (x ∷ ring) h (hx, hs) = elim (Bool-cases (e.0 == x.0)) [
  | inl same ↦ rw same (hx, hs)
  | inr other ↦ elim (Bool-cases (ltb e.0 x.0 && not (leb (e.0 + 32768) next))) [
    | inl here ↦ rw (other, here) (h, (hx, hs))
    | inr later ↦ rw (other, later) (hx, emplace-Tried next e ring h hs)
  ]
]

-- What was taken out of the ring, and what is left, has been tried as often as it may.
unfoldable TriedResult : Option (InFlight × List (ℕ × InFlight)) → Type 0
TriedResult none = Unit
TriedResult (some (e, rest)) = Tried (0, e) × All Tried rest

TriedResult-cons :
    (s : ℕ) (e : InFlight) (o : Option (InFlight × List (ℕ × InFlight)))
    → Tried (s, e)
    → TriedResult o
    → TriedResult (elim o as (λ x. Option (InFlight × List (ℕ × InFlight))) [
      | none ↦ none
      | some r ↦ some (r.0, (s, e) ∷ r.1)
    ])
unfolding TriedResult
TriedResult-cons s e none h t = tt
TriedResult-cons s e (some r) h (taken, rest) = (taken, (h, rest))

take_packet-Tried :
    (id : ℕ) (ring : List (ℕ × InFlight)) → All Tried ring → TriedResult (take_packet id ring)
unfolding take_packet TriedResult
take_packet-Tried id [] hs = tt
take_packet-Tried id ((s, e) ∷ ring) (h, hs) = elim (Bool-cases (e.packet == id)) [
  | inl here ↦ rw here (h, hs)
  | inr other ↦
      rw other (TriedResult-cons s e (take_packet id ring) h (take_packet-Tried id ring hs))
]

-- The envelope that was found may be sent once more.
unfoldable FewerResult : Option (InFlight × List (ℕ × InFlight)) → Type 0
FewerResult none = Unit
FewerResult (some (e, rest)) = e.tries < max_tries

FewerResult-cons :
    (s : ℕ) (e : InFlight) (o : Option (InFlight × List (ℕ × InFlight)))
    → FewerResult (elim o as (λ x. Option (InFlight × List (ℕ × InFlight))) [
      | none ↦ none
      | some r ↦ some (r.0, (s, e) ∷ r.1)
    ])
    → FewerResult o
unfolding FewerResult
FewerResult-cons s e none t = tt
FewerResult-cons s e (some r) t = t

count_try-Tried :
    (id : ℕ) (ring : List (ℕ × InFlight))
    → All Tried ring
    → FewerResult (take_packet id ring)
    → All Tried (count_try id ring)
unfolding take_packet count_try FewerResult
count_try-Tried id [] hs fewer = tt
count_try-Tried id ((s, e) ∷ ring) (h, hs) fewer = elim (Bool-cases (e.packet == id)) [
  | inl here ↦
      let few : e.tries < max_tries = rw here at fewer in
      rw here ((omega (arith, h), omega (arith, few)), hs)
  | inr other ↦
      let few : FewerResult (take_packet id ring) =
        FewerResult-cons s e (take_packet id ring) (rw other at fewer) in
      rw other (h, count_try-Tried id ring hs few)
]

delivered-IsBounded : (rtt id : ℕ) (tx : Tx) → IsBounded tx → IsBounded (packet_delivered rtt id tx)
unfolding packet_delivered
delivered-IsBounded rtt id tx b = elim (Option-cases (take_packet id tx.tx_ring)) [
  | inl absent ↦ rw (packet_delivered, absent) b
  | inr (r, found) ↦
      let rest : TriedResult (some r) = rw found at (take_packet-Tried id tx.tx_ring b.tried) in
      rw (packet_delivered, found)
        (record { tried = left r rest; sane = delivered-IsSane rtt tx.window' b.sane })
]
  where
    left : (r : InFlight × List (ℕ × InFlight)) → TriedResult (some r) → All Tried r.1
    left r h = unfold TriedResult in h.1

shutdown-IsBounded : (tx : Tx) → IsBounded tx → IsBounded (shutdown tx)
unfolding shutdown
shutdown-IsBounded tx b = elim (Bool-cases tx.shut_down) [
  | inl down ↦ rw (shutdown, down) (record { tried = b.tried; sane = b.sane })
  | inr up ↦ rw (shutdown, up) (record { tried = tt; sane = b.sane })
]

retry-IsBounded :
    (id : ℕ) (tx : Tx)
    → IsBounded tx
    → FewerResult (take_packet id tx.tx_ring)
    → IsBounded (retry id tx)
unfolding retry
retry-IsBounded id tx b fewer = record {
  tried = count_try-Tried id tx.tx_ring b.tried fewer;
  sane = timeout-IsSane tx.window' b.sane;
}

timeout-IsBounded :
    (delivered : ℕ → Bool) (resent : Bool) (rtt id : ℕ) (tx : Tx)
    → IsBounded tx
    → IsBounded (packet_timeout delivered resent rtt id tx)
unfolding packet_timeout
timeout-IsBounded delivered resent rtt id tx b = elim (Bool-cases (delivered id)) [
  | inl done ↦ rw (packet_timeout, done) b
  | inr waits ↦ elim (Option-cases (take_packet id tx.tx_ring)) [
    | inl absent ↦ rw (packet_timeout, waits, absent) b
    | inr (r, found) ↦ elim (Bool-cases (leb max_tries r.0.tries)) [
      | inl over ↦ rw (packet_timeout, waits, found, over) (shutdown-IsBounded tx b)
      | inr again ↦
          let once_more : IsBounded (retry id tx) =
            retry-IsBounded id tx b (rw found (fewer r again)) in
          elim (Bool-cases resent) [
            | inl early ↦
                rw (packet_timeout, waits, found, again, early)
                  (delivered-IsBounded rtt id (retry id tx) once_more)
            | inr later ↦ rw (packet_timeout, waits, found, again, later) once_more
          ]
    ]
  ]
]
  where
    fewer :
        (r : InFlight × List (ℕ × InFlight))
        → leb max_tries r.0.tries ≡ false
        → FewerResult (some r)
    fewer r h = unfold FewerResult in ground (arith, h)

begin-IsBounded :
    (usable : Bool) (delivered : ℕ → Bool) (mdu size : ℕ) (tx : Tx)
    → IsBounded tx
    → IsBounded (begin_send usable delivered mdu size tx).0
unfolding begin_send
begin-IsBounded usable delivered mdu size tx b =
    elim (Bool-cases (tx.shut_down || not (is_ready_to_send usable delivered tx))) [
      | inl refused ↦ rw (begin_send, refused) b
      | inr ready ↦ elim (Bool-cases (ltb mdu size)) [
        | inl big ↦ rw (begin_send, ready, big) b
        | inr fits ↦ rw (begin_send, ready, fits) (record { tried = b.tried; sane = b.sane })
      ]
    ]

finish-IsBounded :
    (delivered : ℕ → Bool) (rtt next_rx : ℕ) (sent : Option ℕ) (tx : Tx)
    → IsBounded tx
    → IsBounded (finish_send delivered rtt next_rx sent tx)
unfolding finish_send
finish-IsBounded delivered rtt next_rx sent tx b = elim (Option-cases tx.sending) [
  | inl idle ↦ rw (finish_send, idle) b
  | inr (reserved, busy) ↦ elim (Option-cases sent) [
    | inl declined ↦ rw (finish_send, busy, declined) (record { tried = b.tried; sane = b.sane })
    | inr (packet, went) ↦
        let envelope : ℕ × InFlight = (reserved, record { packet = packet; tries = 1 }) in
        let placed : Tx = record tx {
          tx_ring = (emplace_envelope next_rx envelope tx.tx_ring).0;
          sending = none;
        } in
        let bounded : IsBounded placed = record {
          tried = emplace-Tried next_rx envelope tx.tx_ring (omega arith, omega arith) b.tried;
          sane = b.sane;
        } in
        elim (Bool-cases (delivered packet)) [
          | inl early ↦
              rw (finish_send, busy, went, early) (delivered-IsBounded rtt packet placed bounded)
          | inr later ↦ rw (finish_send, busy, went, later) bounded
        ]
  ]
]

step-IsBounded : (e : SenderEvent) (tx : Tx) → IsBounded tx → IsBounded (sender_step e tx)
unfolding sender_step
step-IsBounded (begins usable delivered mdu size) tx b = elim (Option-cases tx.sending) [
  | inl idle ↦ rw (sender_step, idle) (begin-IsBounded usable delivered mdu size tx b)
  | inr (s, busy) ↦ rw (sender_step, busy) b
]
step-IsBounded (finishes delivered rtt next_rx sent) tx b =
    finish-IsBounded delivered rtt next_rx sent tx b
step-IsBounded (proved rtt id) tx b = delivered-IsBounded rtt id tx b
step-IsBounded (timed_out delivered resent rtt id) tx b =
    timeout-IsBounded delivered resent rtt id tx b

run-IsBounded :
    (events : List SenderEvent) (tx : Tx) → IsBounded tx → IsBounded (sender_run events tx)
unfolding sender_run
run-IsBounded [] tx b = b
run-IsBounded (e ∷ events) tx b = run-IsBounded events (sender_step e tx) (step-IsBounded e tx b)

-- Whatever sends, proofs and timeouts follow, in whatever order, every envelope in flight has been
-- sent at least once and at most five times, and the window keeps its bounds.
pub sender_run-IsBounded :
    (rtt : ℕ) (events : List SenderEvent) → IsBounded (sender_run events (new_tx rtt))
unfolding new_tx
sender_run-IsBounded rtt events =
    run-IsBounded events (new_tx rtt) (record { tried = tt; sane = new_window-IsSane rtt })

-- A message that the outlet declines to send leaves the channel as it was before the send.
pub declined_send_keeps :
    (usable : Bool) (delivered : ℕ → Bool) (mdu size rtt next_rx : ℕ) (tx : Tx)
    → tx.sending ≡ none
    → finish_send delivered rtt next_rx none (begin_send usable delivered mdu size tx).0 ≡ tx
unfolding begin_send finish_send
declined_send_keeps usable delivered mdu size rtt next_rx tx idle =
    elim (Bool-cases (tx.shut_down || not (is_ready_to_send usable delivered tx))) [
      | inl refused ↦ rw (begin_send, refused) (unsent tx idle)
      | inr ready ↦ elim (Bool-cases (ltb mdu size)) [
        | inl big ↦ rw (begin_send, ready, big) (unsent tx idle)
        | inr fits ↦ rw (begin_send, ready, fits) (ap (λ o. record tx { sending = o }) (sym idle))
      ]
    ]
  where
    unsent : (t : Tx) → t.sending ≡ none → finish_send delivered rtt next_rx none t ≡ t
    unsent t h =
        ap
          (λ (o : Option ℕ). elim o as (λ x. Tx) [
            | none ↦ t
            | some r ↦ record t { next_sequence = r; sending = none }
          ])
          h
