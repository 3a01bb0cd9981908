-- ===== src/Channel/Outlet/Order.antt =====
-- The order of the sending of a packet and its proof, in `LinkChannelOutlet` of
-- packages/core/src/transport/channel.js.
use reticulum_js.Common.{
  ℕ, ◌≡◌, ◌≢◌, refl, sym, arith, Bool, true, false, ◌||◌, List, [], ◌∷◌, if◌then◌else◌, Bool-cases,
  inl, inr, ◌+◌,
}
use reticulum_js.Common.Dict
use reticulum_js.Common.Dict.{Key, Dict, str_eq, str_eq_iff, str_eq_refl}
use reticulum_js.Common.KeySet.{has}
use reticulum_js.Channel.Outlet.{
  OutletPacket, Outlet, new_outlet, outlet_send, is_packet_delivered, armed, with_handle,
  set_packet_timeout_callback, set_packet_delivered_callback, extended, extend_timeout, timer_fires,
  on_proof, OutletEvent, sends, proves, sets_timeout, sets_delivered, extends, fires, outlet_step,
  outlet_run,
}
use reticulum_js.Channel.Outlet.Proofs.{
  Unsent, Sent, with_handle-Unsent, with_handle-Sent, armed-delivered, extended-delivered,
  send-Unsent, send-Sent, send_lem, proof-Unsent_other, proof-Sent_other, proof-Unsent, proof-Sent,
}

abbrev pub is_send : Key → OutletEvent → Bool
is_send h (sends k) = str_eq k h
is_send h e = false

abbrev pub is_proof : Key → OutletEvent → Bool
is_proof h (proves k) = str_eq k h
is_proof h e = false

-- How often the packet is sent, and whether its proof is among the events.
abbrev pub count_sends : Key → List OutletEvent → ℕ
count_sends h [] = 0
count_sends h (e ∷ events) = (if is_send h e then 1 else 0) + count_sends h events

abbrev pub any_proof : Key → List OutletEvent → Bool
any_proof h [] = false
any_proof h (e ∷ events) = is_proof h e || any_proof h events

or_false : (p : Bool) → p ≡ (p || false)
or_false true = refl
or_false false = refl

or_true : (p : Bool) → true ≡ (p || true)
or_true true = refl
or_true false = refl

or_assoc : (p q r : Bool) → ((p || q) || r) ≡ (p || (q || r))
or_assoc true q r = refl
or_assoc false q r = refl

not_same : (k h : Key) → str_eq k h ≡ false → k ≢ h
not_same k h e same = ground (arith, e, same, str_eq_iff k h)

-- Each of the events but the sending of the packet itself.
module _ (h : Key) (P : Bool → Outlet → Type 0)
    (touched : (k : Key) (f : OutletPacket → OutletPacket)
      → ((op : OutletPacket) → (f op).delivered ≡ op.delivered)
      → (p : Bool) (s : Outlet) → P p s
      → P p (with_handle k f s))
    (proved : (p : Bool) (s : Outlet) → P p s → P true (on_proof h s).0)
    (proved_other : (k : Key) (p : Bool) (s : Outlet) → k ≢ h → P p s → P p (on_proof k s).0)
    (sent_other : (k : Key) (p : Bool) (s : Outlet) → k ≢ h → P p s → P p (outlet_send k s)) where
  pub step_lem :
      (e : OutletEvent) (p : Bool) (s : Outlet)
      → is_send h e ≡ false
      → P p s
      → P (p || is_proof h e) (outlet_step e s)
  unfolding outlet_step set_packet_timeout_callback set_packet_delivered_callback extend_timeout
      timer_fires
  step_lem (sends k) p s unsent u = rw (sym (or_false p)) (sent_other k p s (not_same k h unsent) u)
  step_lem (proves k) p s unsent u = elim (Bool-cases (str_eq k h)) [
    | inl e ↦
        let same : k ≡ h = (str_eq_iff k h).0 e in rw (e, sym (or_true p), same) (proved p s u)
    | inr e ↦ rw (e, sym (or_false p)) (proved_other k p s (not_same k h e) u)
  ]
  step_lem (sets_timeout k c t) p s unsent u =
      rw (sym (or_false p)) (touched k (armed c t) (armed-delivered c t) p s u)
  step_lem (sets_delivered k c) p s unsent u =
      rw (sym (or_false p))
        (touched k (λ op. record op { delivered_callback = c }) (λ op. refl) p s u)
  step_lem (extends k t) p s unsent u =
      rw (sym (or_false p)) (touched k (extended t) (extended-delivered t) p s u)
  step_lem (fires k) p s unsent u =
      rw (sym (or_false p))
        (touched k (λ op. record op { timeout_timer = false }) (λ op. refl) p s u)

step-Unsent :
    (h : Key) (e : OutletEvent) (p : Bool) (s : Outlet)
    → is_send h e ≡ false
    → Unsent h p s
    → Unsent h (p || is_proof h e) (outlet_step e s)
step-Unsent h =
    step_lem h (Unsent h) (λ k f same. with_handle-Unsent h k f same) (proof-Unsent h)
      (λ k p s other. proof-Unsent_other h k p s other) (λ k p s other. send-Unsent h k p s other)

step-Sent :
    (h : Key) (e : OutletEvent) (p : Bool) (s : Outlet)
    → is_send h e ≡ false
    → Sent h p s
    → Sent h (p || is_proof h e) (outlet_step e s)
step-Sent h =
    step_lem h (Sent h) (λ k f same. with_handle-Sent h k f same) (proof-Sent h)
      (λ k p s other. proof-Sent_other h k p s other) (λ k p s other. send-Sent h k p s other)

run-Sent :
    (h : Key) (events : List OutletEvent) (p : Bool) (s : Outlet)
    → count_sends h events ≡ 0
    → Sent h p s
    → Sent h (p || any_proof h events) (outlet_run events s)
unfolding outlet_run
run-Sent h [] p s none_sent u = rw (sym (or_false p)) u
run-Sent h (e ∷ events) p s none_sent u =
    rw (sym (or_assoc p (is_proof h e) (any_proof h events))) (
      run-Sent h events (p || is_proof h e) (outlet_step e s) (ground (arith, none_sent))
        (step-Sent h e p s (ground (arith, none_sent)) u))

-- The event that sends the packet.
sending :
    (h : Key) (e : OutletEvent) (p : Bool) (s : Outlet)
    → is_send h e ≡ true
    → Unsent h p s
    → Sent h (p || is_proof h e) (outlet_step e s)
unfolding outlet_step
sending h (sends k) p s is u =
    let same : k ≡ h = (str_eq_iff k h).0 is in rw (sym (or_false p), same) (send_lem h p s u)
sending h e p s is u = cc

run-Unsent :
    (h : Key) (events : List OutletEvent) (p : Bool) (s : Outlet)
    → count_sends h events ≡ 1
    → Unsent h p s
    → Sent h (p || any_proof h events) (outlet_run events s)
unfolding outlet_run
run-Unsent h [] p s once u = absurd (omega arith)
run-Unsent h (e ∷ events) p s once u =
    rw (sym (or_assoc p (is_proof h e) (any_proof h events))) (elim (Bool-cases (is_send h e)) [
      | inl is ↦
          run-Sent h events (p || is_proof h e) (outlet_step e s) (ground (arith, is, once))
            (sending h e p s is u)
      | inr isnt ↦
          run-Unsent h events (p || is_proof h e) (outlet_step e s) (ground (arith, isnt, once))
            (step-Unsent h e p s isnt u)
    ])

delivered-Sent : (h : Key) (p : Bool) (s : Outlet) → Sent h p s → is_packet_delivered h s ≡ p
unfolding is_packet_delivered
delivered-Sent h p s u = ground (arith, u.handle, u.marked)

start : (h : Key) → Unsent h false new_outlet
unfolding new_outlet has Dict.get
start h = record { listens = refl; absent = refl; not_sent = refl; early = refl }

-- A new outlet that sends a packet once counts it as delivered exactly when its proof is among the
-- events, before the sending or after it, whatever else happens: other packets and their proofs,
-- timers that are set, extended and run out, as long as it is not cleaned up.
pub proof_is_kept :
    (h : Key) (events : List OutletEvent)
    → count_sends h events ≡ 1
    → is_packet_delivered h (outlet_run events new_outlet) ≡ any_proof h events
proof_is_kept h events once =
    delivered-Sent h (any_proof h events) (outlet_run events new_outlet)
      (run-Unsent h events false new_outlet once (start h))
