-- ===== src/Channel/Sender/Attempts.antt =====
-- How often the sending half of packages/core/src/transport/channel.js tries a packet that no proof
-- comes for.
use reticulum_js.Common.{
  ℕ, ◌+◌, ◌≡◌, ◌≢◌, ◌⊎◌, refl, ap, ◌∙◌, arith, Bool, true, not, ◌&&◌, ◌||◌, Option, none, some,
  List, [], ◌∷◌, ltb, leb, ◌==◌, if◌then◌else◌, Bool-cases, Option-cases, inl, inr,
}
use reticulum_js.Channel.{emplace_envelope}
use reticulum_js.Channel.Sender.{
  max_tries, InFlight, Tx, is_ready_to_send, begin_send, take_packet, packet_delivered, finish_send,
  count_try, shutdown, retry, packet_timeout, SenderEvent, begins, finishes, proved, timed_out,
  sender_step, sender_run,
}

-- How often the packet has been sent, where it is in flight.
unfoldable pub tries_of : ℕ → List (ℕ × InFlight) → Option ℕ
tries_of id [] = none
tries_of id ((s, e) ∷ ring) =
    let rest = tries_of id ring in if e.packet == id then some e.tries else rest

pub take-tries :
    (id n : ℕ) (ring : List (ℕ × InFlight))
    → tries_of id ring ≡ some n
    → (r : InFlight × List (ℕ × InFlight)) × (take_packet id ring ≡ some r) × (r.0.tries ≡ n)
unfolding tries_of take_packet
take-tries id n [] h = absurd (differ h)
  where
    differ : ◌≡◌ {A = Option ℕ} none (some n) → ⊥
    differ a = cc
take-tries id n ((s, e) ∷ ring) h = elim (Bool-cases (e.packet == id)) [
  | inl is ↦ ((e, ring), rw is refl, ground (arith, is, h))
  | inr isnt ↦
      let (r, found, same) = take-tries id n ring (ground (arith, isnt, h)) in
      ((r.0, (s, e) ∷ r.1), rw (isnt, found) refl, same)
]

tries-take_other :
    (id j : ℕ) (ring : List (ℕ × InFlight)) (r : InFlight × List (ℕ × InFlight))
    → j ≢ id
    → take_packet j ring ≡ some r
    → tries_of id r.1 ≡ tries_of id ring
unfolding tries_of take_packet
tries-take_other id j [] r other h = absurd (differ h)
  where
    differ : ◌≡◌ {A = Option (InFlight × List (ℕ × InFlight))} none (some r) → ⊥
    differ a = cc
tries-take_other id j ((s, e) ∷ ring) r other h = elim (Bool-cases (e.packet == j)) [
  | inl is ↦ ground (arith, is, h, other)
  | inr isnt ↦ elim (Option-cases (take_packet j ring)) [
    | inl gone ↦ ground (arith, isnt, gone, h)
    | inr (r', found) ↦ ground (arith, isnt, found, h, tries-take_other id j ring r' other found)
  ]
]

pub tries-count_self :
    (id n : ℕ) (ring : List (ℕ × InFlight))
    → tries_of id ring ≡ some n
    → tries_of id (count_try id ring) ≡ some (n + 1)
unfolding tries_of count_try
tries-count_self id n [] h = cc
tries-count_self id n ((s, e) ∷ ring) h = elim (Bool-cases (e.packet == id)) [
  | inl is ↦ ground (arith, is, h)
  | inr isnt ↦ ground (arith, isnt, tries-count_self id n ring (ground (arith, isnt, h)))
]

pub tries-count_other :
    (id j : ℕ) (ring : List (ℕ × InFlight))
    → j ≢ id
    → tries_of id (count_try j ring) ≡ tries_of id ring
unfolding tries_of count_try
tries-count_other id j [] other = refl
tries-count_other id j ((s, e) ∷ ring) other =
    ground (arith, other, tries-count_other id j ring other)

tries-emplace :
    (id next : ℕ) (e : ℕ × InFlight) (ring : List (ℕ × InFlight))
    → e.1.packet ≢ id
    → tries_of id (emplace_envelope next e ring).0 ≡ tries_of id ring
unfolding tries_of emplace_envelope
tries-emplace id next e [] other = ground (arith, other)
tries-emplace id next e (x ∷ ring) other = elim (Bool-cases (e.0 == x.0)) [
  | inl same ↦ rw same refl
  | inr apart ↦ elim (Bool-cases (ltb e.0 x.0 && not (leb (e.0 + 32768) next))) [
    | inl here ↦ rw (apart, here) (ground (arith, other))
    | inr later ↦ rw (apart, later) (ground (arith, tries-emplace id next e ring other))
  ]
]

-- The handlers, case by case.
pub delivered-tries :
    (rtt id j : ℕ) (tx : Tx)
    → j ≢ id
    → tries_of id (packet_delivered rtt j tx).tx_ring ≡ tries_of id tx.tx_ring
unfolding packet_delivered
delivered-tries rtt id j tx other = elim (Option-cases (take_packet j tx.tx_ring)) [
  | inl gone ↦ rw (packet_delivered, gone) refl
  | inr (r, found) ↦ rw (packet_delivered, found) (tries-take_other id j tx.tx_ring r other found)
]

pub finish-tries :
    (delivered : ℕ → Bool) (rtt next_rx id : ℕ) (sent : Option ℕ) (tx : Tx)
    → sent ≢ some id
    → tries_of id (finish_send delivered rtt next_rx sent tx).tx_ring ≡ tries_of id tx.tx_ring
unfolding finish_send
finish-tries delivered rtt next_rx id sent tx other = elim (Option-cases tx.sending) [
  | inl idle ↦ rw (finish_send, idle) refl
  | inr (reserved, busy) ↦ elim (Option-cases sent) [
    | inl declined ↦ rw (finish_send, busy, declined) refl
    | inr (packet, went) ↦
        let apart : packet ≢ id = λ same. other (went ∙ ap some same) in
        let envelope : ℕ × InFlight = (reserved, record { packet = packet; tries = 1 }) in
        let placed : Tx = record tx {
          tx_ring = (emplace_envelope next_rx envelope tx.tx_ring).0;
          sending = none;
        } in
        let same = tries-emplace id next_rx envelope tx.tx_ring apart in
        elim (Bool-cases (delivered packet)) [
          | inl early ↦
              rw (finish_send, busy, went, early)
                (delivered-tries rtt id packet placed apart ∙ same)
          | inr later ↦ rw (finish_send, busy, went, later) same
        ]
  ]
]

pub begin-ring :
    (usable : Bool) (delivered : ℕ → Bool) (mdu size : ℕ) (tx : Tx)
    → ((begin_send usable delivered mdu size tx).0.tx_ring ≡ tx.tx_ring)
      × ((begin_send usable delivered mdu size tx).0.shut_down ≡ tx.shut_down)
unfolding begin_send
begin-ring usable delivered mdu size tx =
    elim (Bool-cases (tx.shut_down || not (is_ready_to_send usable delivered tx))) [
      | inl refused ↦ rw (begin_send, refused) (refl, refl)
      | inr ready ↦ elim (Bool-cases (ltb mdu size)) [
        | inl big ↦ rw (begin_send, ready, big) (refl, refl)
        | inr fits ↦ rw (begin_send, ready, fits) (refl, refl)
      ]
    ]

pub shutdown_lem : (tx : Tx) → (shutdown tx).shut_down ≡ true
unfolding shutdown
shutdown_lem tx = ground arith

delivered-down : (rtt j : ℕ) (tx : Tx) → (packet_delivered rtt j tx).shut_down ≡ tx.shut_down
unfolding packet_delivered
delivered-down rtt j tx = elim (Option-cases (take_packet j tx.tx_ring)) [
  | inl gone ↦ rw (packet_delivered, gone) refl
  | inr (r, found) ↦ rw (packet_delivered, found) refl
]

finish-down :
    (delivered : ℕ → Bool) (rtt next_rx : ℕ) (sent : Option ℕ) (tx : Tx)
    → (finish_send delivered rtt next_rx sent tx).shut_down ≡ tx.shut_down
unfolding finish_send
finish-down delivered rtt next_rx sent tx = elim (Option-cases tx.sending) [
  | inl idle ↦ rw (finish_send, idle) refl
  | inr (reserved, busy) ↦ elim (Option-cases sent) [
    | inl declined ↦ rw (finish_send, busy, declined) refl
    | inr (packet, went) ↦ elim (Bool-cases (delivered packet)) [
      | inl early ↦ rw (finish_send, busy, went, early) (delivered-down rtt packet _)
      | inr later ↦ rw (finish_send, busy, went, later) refl
    ]
  ]
]

retry-down : (id : ℕ) (tx : Tx) → (retry id tx).shut_down ≡ tx.shut_down
unfolding retry
retry-down id tx = refl

-- What a timeout does: nothing, a shutdown, or one more try.
pub timeout_cases :
    (delivered : ℕ → Bool) (resent : Bool) (rtt id : ℕ) (tx : Tx)
    → (packet_timeout delivered resent rtt id tx ≡ tx)
      ⊎ (packet_timeout delivered resent rtt id tx ≡ shutdown tx)
      ⊎ (packet_timeout delivered resent rtt id tx ≡ packet_delivered rtt id (retry id tx))
      ⊎ (packet_timeout delivered resent rtt id tx ≡ retry id tx)
unfolding packet_timeout
timeout_cases delivered resent rtt id tx = elim (Bool-cases (delivered id)) [
  | inl done ↦ inl (rw (packet_timeout, done) refl)
  | inr waits ↦ elim (Option-cases (take_packet id tx.tx_ring)) [
    | inl absent ↦ inl (rw (packet_timeout, waits, absent) refl)
    | inr (r, found) ↦ elim (Bool-cases (leb max_tries r.0.tries)) [
      | inl over ↦ inr (inl (rw (packet_timeout, waits, found, over) refl))
      | inr again ↦ elim (Bool-cases resent) [
        | inl early ↦ inr (inr (inl (rw (packet_timeout, waits, found, again, early) refl)))
        | inr later ↦ inr (inr (inr (rw (packet_timeout, waits, found, again, later) refl)))
      ]
    ]
  ]
]

-- A channel that is shut down stays so.
step-down : (e : SenderEvent) (tx : Tx) → tx.shut_down ≡ true → (sender_step e tx).shut_down ≡ true
unfolding sender_step
step-down (begins usable delivered mdu size) tx h = elim (Option-cases tx.sending) [
  | inl idle ↦ rw (sender_step, idle) ((begin-ring usable delivered mdu size tx).1 ∙ h)
  | inr (s, busy) ↦ rw (sender_step, busy) h
]
step-down (finishes delivered rtt next_rx sent) tx h = finish-down delivered rtt next_rx sent tx ∙ h
step-down (proved rtt id) tx h = delivered-down rtt id tx ∙ h
step-down (timed_out delivered resent rtt id) tx h =
    elim (timeout_cases delivered resent rtt id tx) [
      | inl e ↦ rw e h
      | inr (inl e) ↦ rw e (shutdown_lem tx)
      | inr (inr (inl e)) ↦ rw e (delivered-down rtt id (retry id tx) ∙ retry-down id tx ∙ h)
      | inr (inr (inr e)) ↦ rw e (retry-down id tx ∙ h)
    ]

pub run-down :
    (events : List SenderEvent) (tx : Tx)
    → tx.shut_down ≡ true
    → (sender_run events tx).shut_down ≡ true
unfolding sender_run
run-down [] tx h = h
run-down (e ∷ events) tx h = run-down events (sender_step e tx) (step-down e tx h)
