-- ===== src/Receipt/Trace.antt =====
-- Sequences of the handlers of packages/core/src/transport/transport.js on a receipt of
-- packages/core/src/core/packet_receipt.js, each of which runs to its end before the next begins.
use reticulum_js.Common.{
  ℕ, arith, ◌≡◌, ◌⊎◌, refl, ap, ◌∙◌, Bool, true, false, Option, List, [], ◌∷◌, Bool-cases, inl, inr,
}
use reticulum_js.Receipt.{
  ReceiptStatus, sending, delivered, failed, culled, is_sending, PacketReceipt, World,
  track_receipt, start_timeout, when_settled, timer_fires, begin_proof, handle_proof, finish_proof,
  validate_proof,
}
use reticulum_js.Receipt.Life.{
  calls_of, IsSettled, SettledAs-IsSettled, timer_fires_lem, failed-SettledAs, handlers_return,
  handle_proof-SettledAs,
}

pub data ReceiptEvent : Type 0 where
  tracked : ReceiptEvent
  timeout_started : ReceiptEvent
  awaited : ReceiptEvent
  timer_fired : ReceiptEvent
  proof_came : List ℕ → List ℕ → ReceiptEvent

-- A receipt that waits and has called nothing back.
pub record IsWaiting (w : World) : Type 0 where
  pub waits : w.receipt.status ≡ sending
  pub quiet : w.fired ≡ []

calls_of-owner :
    (r : PacketReceipt) (s : ReceiptStatus)
    → calls_of r s ≡ calls_of (record r { has_owner = true }) s
unfolding calls_of
calls_of-owner r delivered = refl
calls_of-owner r failed = refl
calls_of-owner r sending = refl
calls_of-owner r culled = refl

start_timeout-status : (r : PacketReceipt) → (start_timeout r).status ≡ r.status
unfolding start_timeout
start_timeout-status r = ground arith

when_settled-status : (r : PacketReceipt) → (when_settled r).0.status ≡ r.status
unfolding when_settled
when_settled-status r = ground arith

timer_idle : (w : World) → w.receipt.timer_set ≡ false → timer_fires w ≡ w
unfolding timer_fires
timer_idle w e = rw (timer_fires, e) refl

module _ {Identity : Type 0} (recall : List ℕ → Option Identity)
    (valid : Identity → List ℕ → List ℕ → Bool) where
  unfoldable pub receipt_step : ReceiptEvent → World → World
  receipt_step tracked w = track_receipt w
  receipt_step timeout_started w = record w { receipt = start_timeout w.receipt }
  receipt_step awaited w = record w { receipt = (when_settled w.receipt).0 }
  receipt_step timer_fired w = timer_fires w
  receipt_step (proof_came destination proof) w = handle_proof recall valid w destination proof

  unfoldable pub receipt_run : List ReceiptEvent → World → World
  receipt_run [] w = w
  receipt_run (e ∷ events) w = receipt_run events (receipt_step e w)

  -- What a settled receipt keeps.
  abbrev Kept : World → World → Type 0
  Kept w w' = IsSettled w' × (w'.receipt.status ≡ w.receipt.status) × (w'.fired ≡ w.fired)

  same-Kept : (w w' : World) → w' ≡ w → IsSettled w → Kept w w'
  same-Kept w w' e s = rw e (s, refl, refl)

  settled-step : (e : ReceiptEvent) (w : World) → IsSettled w → Kept w (receipt_step e w)
  unfolding receipt_step
  settled-step tracked w s =
      unfold track_receipt in
      (
        record {
          over = s.over;
          no_timer = s.no_timer;
          fired_once = s.fired_once ∙ calls_of-owner w.receipt w.receipt.status;
        },
        refl,
        refl,
      )
  settled-step timeout_started w s =
      same-Kept w _ (ap (λ r. record w { receipt = r }) (handlers_return recall valid w [] [] s).2)
        s
  settled-step awaited w s =
      same-Kept w _ (ap (λ r. record w { receipt = r }) (at_once w.receipt s.over)) s
    where
      at_once : (r : PacketReceipt) → is_sending r.status ≡ false → (when_settled r).0 ≡ r
      at_once r over = unfold when_settled in rw over refl
  settled-step timer_fired w s = same-Kept w _ (handlers_return recall valid w [] [] s).1 s
  settled-step (proof_came destination proof) w s =
      same-Kept w _ (handlers_return recall valid w destination proof s).0 s

  settled-run :
      (events : List ReceiptEvent) (w : World) → IsSettled w → Kept w (receipt_run events w)
  unfolding receipt_run
  settled-run [] w s = (s, refl, refl)
  settled-run (e ∷ events) w s =
      let (s', status, fired) = settled-step e w s in
      let (s'', status', fired') = settled-run events (receipt_step e w) s' in
      (s'', status' ∙ status, fired' ∙ fired)

  proof_refused :
      (destination proof : List ℕ) (w : World)
      → validate_proof recall valid w.receipt proof ≡ false
      → handle_proof recall valid w destination proof ≡ w
  unfolding handle_proof finish_proof
  proof_refused destination proof w refused = ground (arith, refused)

  proof_passed :
      (destination proof : List ℕ) (w : World)
      → begin_proof w destination ≡ false
      → handle_proof recall valid w destination proof ≡ w
  unfolding handle_proof
  proof_passed destination proof w e = ground (arith, e)

  same-IsWaiting : (w w' : World) → w' ≡ w → IsWaiting w → IsWaiting w' ⊎ IsSettled w'
  same-IsWaiting w w' e h = rw e (inl h)

  step-IsWaiting :
      (e : ReceiptEvent) (w : World)
      → IsWaiting w
      → IsWaiting (receipt_step e w) ⊎ IsSettled (receipt_step e w)
  unfolding receipt_step
  step-IsWaiting tracked w h =
      unfold track_receipt in inl (record { waits = h.waits; quiet = h.quiet })
  step-IsWaiting timeout_started w h =
      inl (record { waits = start_timeout-status w.receipt ∙ h.waits; quiet = h.quiet })
  step-IsWaiting awaited w h =
      inl (record { waits = when_settled-status w.receipt ∙ h.waits; quiet = h.quiet })
  step-IsWaiting timer_fired w h = elim (Bool-cases w.receipt.timer_set) [
    | inl armed ↦
        let (r, f) = timer_fires_lem w h.waits armed in
        inr (SettledAs-IsSettled failed _ (failed-SettledAs w (timer_fires w) r f h.quiet))
    | inr idle ↦ same-IsWaiting w (timer_fires w) (timer_idle w idle) h
  ]
  step-IsWaiting (proof_came destination proof) w h =
      elim (Bool-cases (begin_proof w destination)) [
        | inr passed ↦ same-IsWaiting w _ (proof_passed destination proof w passed) h
        | inl found ↦ elim (Bool-cases (validate_proof recall valid w.receipt proof)) [
          | inr refused ↦ same-IsWaiting w _ (proof_refused destination proof w refused) h
          | inl accepted ↦ inr (
              SettledAs-IsSettled delivered _ (
                handle_proof-SettledAs recall valid w destination proof h.waits h.quiet found
                  accepted))
        ]
      ]

  run-IsWaiting :
      (events : List ReceiptEvent) (w : World)
      → IsWaiting w ⊎ IsSettled w
      → IsWaiting (receipt_run events w) ⊎ IsSettled (receipt_run events w)
  unfolding receipt_run
  run-IsWaiting [] w h = h
  run-IsWaiting (e ∷ events) w (inl h) =
      run-IsWaiting events (receipt_step e w) (step-IsWaiting e w h)
  run-IsWaiting (e ∷ events) w (inr s) =
      run-IsWaiting events (receipt_step e w) (inr (settled-step e w s).0)

  -- From a receipt that waits and has called nothing back, after every sequence in which it is tracked,
  -- awaited, given a timeout, timed out and proved, each handler running to its end before the next
  -- begins: it still waits and has called nothing back; or it is settled, has no timer, and has called
  -- back once, as its status says and if that callback is set, and then nothing that follows in the
  -- same way changes its status or calls anything back.
  pub settles_once :
      (events later : List ReceiptEvent) (w : World)
      → IsWaiting w
      → let w_1 = receipt_run events w in
        let w_2 = receipt_run later w_1 in
        IsWaiting w_1
        ⊎ (IsSettled w_1
            × IsSettled w_2
            × (w_2.receipt.status ≡ w_1.receipt.status)
            × (w_2.fired ≡ w_1.fired))
  settles_once events later w h = elim (run-IsWaiting events w (inl h)) [
    | inl waits ↦ inl waits
    | inr s ↦
        let (s', status, fired) = settled-run later (receipt_run events w) s in
        inr (s, s', status, fired)
  ]
