-- ===== src/Channel/Sender/Exhausted.antt =====
-- The retries of the sending half of packages/core/src/transport/channel.js run out.
use reticulum_js.Common.{
  ℕ, ◌+◌, ◌≤◌, ◌<◌, ◌≡◌, ◌≢◌, ◌⊎◌, ap, ◌∙◌, arith, Bool, true, false, some, List, [], ◌∷◌, leb,
  ◌==◌, if◌then◌else◌, All, Bool-cases, Option-cases, inl, inr,
}
use reticulum_js.Channel.Sender.{
  max_tries, Tx, link_not_ready, begin_send, retry, packet_timeout, SenderEvent, begins, finishes,
  proved, timed_out, sender_step, sender_run,
}
use reticulum_js.Channel.Sender.Attempts.{
  tries_of, take-tries, tries-count_self, tries-count_other, delivered-tries, finish-tries,
  begin-ring, shutdown_lem, timeout_cases, run-down,
}

-- An event that neither confirms the packet nor sends another under its handle.
abbrev pub LeavesWaiting : ℕ → SenderEvent → Type 0
LeavesWaiting id (begins usable delivered mdu size) = Unit {0}
LeavesWaiting id (finishes delivered rtt next_rx sent) = sent ≢ some id
LeavesWaiting id (proved rtt j) = j ≢ id
LeavesWaiting id (timed_out delivered resent rtt j) =
    (j ≢ id) ⊎ ((delivered id ≡ false) × (resent ≡ false))

abbrev pub is_timeout : ℕ → SenderEvent → Bool
is_timeout id (timed_out delivered resent rtt j) = j == id
is_timeout id e = false

unfoldable pub count_timeouts : ℕ → List SenderEvent → ℕ
count_timeouts id [] = 0
count_timeouts id (e ∷ events) =
    let rest = count_timeouts id events in if is_timeout id e then rest + 1 else rest

-- The channel is shut down, or the packet is in flight and has been sent this often.
abbrev Waits : ℕ → ℕ → Tx → Type 0
Waits id n tx = (tx.shut_down ≡ true) ⊎ ((tries_of id tx.tx_ring ≡ some n) × (n ≤ max_tries))

timeout_self :
    (delivered : ℕ → Bool) (rtt id n : ℕ) (tx : Tx)
    → delivered id ≡ false
    → tries_of id tx.tx_ring ≡ some n
    → n ≤ max_tries
    → Waits id (n + 1) (packet_timeout delivered false rtt id tx)
unfolding packet_timeout
timeout_self delivered rtt id n tx waits h few =
    let (r, found, same) = take-tries id n tx.tx_ring h in
    elim (Bool-cases (leb max_tries r.0.tries)) [
      | inl over ↦ rw (packet_timeout, waits, found, over) (inl (shutdown_lem tx))
      | inr again ↦
          let fewer : n + 1 ≤ max_tries = ground (arith, same, again) in
          rw (packet_timeout, waits, found, again)
            (inr (unfold retry in (tries-count_self id n tx.tx_ring h, fewer)))
    ]

timeout_other :
    (delivered : ℕ → Bool) (resent : Bool) (rtt id j n : ℕ) (tx : Tx)
    → j ≢ id
    → tries_of id tx.tx_ring ≡ some n
    → n ≤ max_tries
    → Waits id n (packet_timeout delivered resent rtt j tx)
timeout_other delivered resent rtt id j n tx other h few =
    elim (timeout_cases delivered resent rtt j tx) [
      | inl e ↦ rw e (inr (h, few))
      | inr (inl e) ↦ rw e (inl (shutdown_lem tx))
      | inr (inr (inl e)) ↦ rw e (inr (delivered-tries rtt id j (retry j tx) other ∙ counted, few))
      | inr (inr (inr e)) ↦ rw e (inr (counted, few))
    ]
  where
    counted : tries_of id (retry j tx).tx_ring ≡ some n
    counted = unfold retry in (tries-count_other id j tx.tx_ring other ∙ h)

-- The number of tries after an event.
unfoldable after : ℕ → SenderEvent → ℕ → ℕ
after id e n = if is_timeout id e then n + 1 else n

step-Waits :
    (id n : ℕ) (e : SenderEvent) (tx : Tx)
    → LeavesWaiting id e
    → tries_of id tx.tx_ring ≡ some n
    → n ≤ max_tries
    → Waits id (after id e n) (sender_step e tx)
unfolding sender_step after
step-Waits id n (begins usable delivered mdu size) tx l h few = elim (Option-cases tx.sending) [
  | inl idle ↦
      rw (sender_step, idle)
        (inr (ap (tries_of id) (begin-ring usable delivered mdu size tx).0 ∙ h, few))
  | inr (s, busy) ↦ rw (sender_step, busy) (inr (h, few))
]
step-Waits id n (finishes delivered rtt next_rx sent) tx l h few =
    inr (finish-tries delivered rtt next_rx id sent tx l ∙ h, few)
step-Waits id n (proved rtt j) tx l h few = inr (delivered-tries rtt id j tx l ∙ h, few)
step-Waits id n (timed_out delivered resent rtt j) tx (inl other) h few =
    elim (Bool-cases (j == id)) [
      | inl is ↦ absurd (other (ground arith))
      | inr isnt ↦ rw isnt (timeout_other delivered resent rtt id j n tx other h few)
    ]
step-Waits id n (timed_out delivered resent rtt j) tx (inr (waits, late)) h few =
    elim (Bool-cases (j == id)) [
      | inl is ↦
          let same : j ≡ id = ground arith in
          rw (is, late, same) (timeout_self delivered rtt id n tx waits h few)
      | inr isnt ↦
          rw isnt (timeout_other delivered resent rtt id j n tx (λ same. ground arith) h few)
    ]

none_left : (id n : ℕ) → n ≤ max_tries → max_tries < n + count_timeouts id [] → ⊥
unfolding count_timeouts
none_left id n few many = omega (arith, few, many)

run-Waits :
    (id n : ℕ) (events : List SenderEvent) (tx : Tx)
    → All (LeavesWaiting id) events
    → max_tries < n + count_timeouts id events
    → Waits id n tx
    → (sender_run events tx).shut_down ≡ true
unfolding sender_run
run-Waits id n events tx l many (inl down) = run-down events tx down
run-Waits id n [] tx l many (inr (h, few)) = absurd (none_left id n few many)
run-Waits id n (e ∷ events) tx l many (inr (h, few)) =
    run-Waits id (after id e n) events (sender_step e tx) l.1 (counted e events many)
      (step-Waits id n e tx l.0 h few)
  where
    counted :
        (e : SenderEvent) (events : List SenderEvent)
        → max_tries < n + count_timeouts id (e ∷ events)
        → max_tries < after id e n + count_timeouts id events
    counted e events m = unfold count_timeouts after in ground arith

down-refuses :
    (usable : Bool) (d : ℕ → Bool) (mdu size : ℕ) (tx : Tx)
    → tx.shut_down ≡ true
    → begin_send usable d mdu size tx ≡ (tx, some link_not_ready)
unfolding begin_send
down-refuses usable d mdu size tx h = ground (arith, h)

-- A packet is in flight and has been sent at most five times, and no event that follows confirms it or
-- sends another under its handle, whatever else is sent, proved or times out. Once its timeouts and the
-- sendings before them are more than five in all, as at the fifth timeout of a packet sent once, the
-- channel is shut down, and stays so whatever events come after, and every send is refused.
pub fifth_timeout :
    (id n : ℕ) (events later : List SenderEvent) (tx : Tx)
    → tries_of id tx.tx_ring ≡ some n
    → n ≤ max_tries
    → All (LeavesWaiting id) events
    → max_tries < n + count_timeouts id events
    → let tx' = sender_run later (sender_run events tx) in
      (tx'.shut_down ≡ true)
      × ((usable : Bool) (d : ℕ → Bool) (mdu size : ℕ)
          → begin_send usable d mdu size tx' ≡ (tx', some link_not_ready))
fifth_timeout id n events later tx h few l many =
    let down =
      run-down later (sender_run events tx) (run-Waits id n events tx l many (inr (h, few))) in
    (down, λ usable d mdu size. down-refuses usable d mdu size _ down)
