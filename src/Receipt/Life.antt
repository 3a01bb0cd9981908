-- ===== src/Receipt/Life.antt =====
-- The life of a receipt of packages/core/src/core/packet_receipt.js under the handlers of
-- packages/core/src/transport/transport.js, each of which runs to its end before the next begins.
use reticulum_js.Common.{
  ℕ, ◌≡◌, refl, ap, ◌∙◌, Bool, true, false, Option, List, [], ◌∷◌, ◌==◌, if◌then◌else◌,
  Option-cases, Bool-cases, inl, inr,
}
use reticulum_js.Receipt.{
  ReceiptStatus, sending, delivered, failed, is_sending, is_delivered, is_failed, Callback,
  on_delivered, on_failed, PacketReceipt, World, unregister, start_timeout, settle, set_delivered,
  set_failed, timer_fires, finish_proof, begin_proof, find_receipt, handle_proof, validate_proof,
}

-- The callbacks that a receipt of this status has fired.
unfoldable pub calls_of : PacketReceipt → ReceiptStatus → List Callback
calls_of r delivered = if r.has_delivered then on_delivered ∷ [] else []
calls_of r failed = if r.has_failed then on_failed ∷ [] else []
calls_of r _ = []

-- A settled receipt has fired its callback once and no other, and has no timer.
pub record IsSettled (w : World) : Type 0 where
  pub over : is_sending w.receipt.status ≡ false
  pub no_timer : w.receipt.timer_set ≡ false
  pub fired_once : w.fired ≡ calls_of w.receipt w.receipt.status

-- What the two settling methods do to a receipt that has another status.
pub set_delivered-other :
    (w : World)
    → is_delivered w.receipt.status ≡ false
    → ((set_delivered w).receipt ≡ settle delivered w.receipt)
      × ((set_delivered w).fired
          ≡ (if w.receipt.has_delivered then on_delivered ∷ w.fired else w.fired))
unfolding set_delivered settle unregister
set_delivered-other w h = elim (Bool-cases w.receipt.has_owner) [
  | inl o ↦ elim (Bool-cases w.receipt.has_delivered) [
    | inl d ↦ rw (set_delivered, h, unregister, o, d) (refl, refl)
    | inr d ↦ rw (set_delivered, h, unregister, o, d) (refl, refl)
  ]
  | inr o ↦ elim (Bool-cases w.receipt.has_delivered) [
    | inl d ↦ rw (set_delivered, h, unregister, o, d) (refl, refl)
    | inr d ↦ rw (set_delivered, h, unregister, o, d) (refl, refl)
  ]
]

pub set_failed-other :
    (w : World)
    → is_failed w.receipt.status ≡ false
    → ((set_failed w).receipt ≡ settle failed w.receipt)
      × ((set_failed w).fired ≡ (if w.receipt.has_failed then on_failed ∷ w.fired else w.fired))
unfolding set_failed settle
set_failed-other w h = elim (Bool-cases w.receipt.has_failed) [
  | inl d ↦ rw (set_failed, h, d) (refl, refl)
  | inr d ↦ rw (set_failed, h, d) (refl, refl)
]

-- What a handler leaves of a receipt that waits: settled with this status.
pub SettledAs : ReceiptStatus → World → Type 0
SettledAs s w = (w.receipt.status ≡ s) × IsSettled w

pub SettledAs-IsSettled : (s : ReceiptStatus) (w : World) → SettledAs s w → IsSettled w
unfolding SettledAs
SettledAs-IsSettled s w h = h.1

unregister-receipt : (w : World) → (unregister w).receipt ≡ w.receipt
unfolding unregister
unregister-receipt w = elim (Bool-cases w.receipt.has_owner) [
  | inl e ↦ rw e refl
  | inr e ↦ rw e refl
]

unregister-fired : (w : World) → (unregister w).fired ≡ w.fired
unfolding unregister
unregister-fired w = elim (Bool-cases w.receipt.has_owner) [ inl e ↦ rw e refl | inr e ↦ rw e refl ]

-- A world whose receipt has been settled as failed, or as delivered, from no callback at all.
pub failed-SettledAs :
    (w w' : World)
    → w'.receipt ≡ settle failed w.receipt
    → w'.fired ≡ (if w.receipt.has_failed then on_failed ∷ w.fired else w.fired)
    → w.fired ≡ []
    → SettledAs failed w'
unfolding SettledAs settle calls_of is_sending
failed-SettledAs w w' same calls quiet = (
  rw same refl,
  record {
    over = rw same refl;
    no_timer = rw same refl;
    fired_once = rw (same, calls, quiet) refl;
  },
)

delivered-SettledAs :
    (w w' : World)
    → w'.receipt ≡ settle delivered w.receipt
    → w'.fired ≡ (if w.receipt.has_delivered then on_delivered ∷ w.fired else w.fired)
    → w.fired ≡ []
    → SettledAs delivered w'
unfolding SettledAs settle calls_of is_sending
delivered-SettledAs w w' same calls quiet = (
  rw same refl,
  record {
    over = rw same refl;
    no_timer = rw same refl;
    fired_once = rw (same, calls, quiet) refl;
  },
)

-- What the timer does to a receipt that waits.
pub timer_fires_lem :
    (w : World)
    → w.receipt.status ≡ sending
    → w.receipt.timer_set ≡ true
    → ((timer_fires w).receipt ≡ settle failed w.receipt)
      × ((timer_fires w).fired ≡ (if w.receipt.has_failed then on_failed ∷ w.fired else w.fired))
unfolding timer_fires settle
timer_fires_lem w waits armed =
    let disarmed : World = record w { receipt = record w.receipt { timer_set = false } } in
    let w0 : World = unregister disarmed in
    let same : w0.receipt ≡ disarmed.receipt = unregister-receipt disarmed in
    let quiet : w0.fired ≡ w.fired = unregister-fired disarmed in
    let waits' : w0.receipt.status ≡ sending = ap PacketReceipt.status same ∙ waits in
    let other : is_failed w0.receipt.status ≡ false = rw waits' (unfold is_failed in refl) in
    let (r, f) = set_failed-other w0 other in
    let fires : timer_fires w ≡ set_failed w0 = ap (λ b. if b then set_failed w0 else w) armed in
    (
      ap World.receipt fires ∙ r ∙ ap (settle failed) same,
      ap World.fired fires
          ∙ f
          ∙ ap (λ x. if x.0 then on_failed ∷ x.1 else x.1)
              (pair (ap PacketReceipt.has_failed same) quiet),
    )
  where
    pair :
        {a b : Bool} {xs ys : List Callback}
        → a ≡ b
        → xs ≡ ys
        → Path (Bool × List Callback) (a, xs) (b, ys)
    pair e f = rw (e, f) refl

module _ {Identity : Type 0} (recall : List ℕ → Option Identity)
    (valid : Identity → List ℕ → List ℕ → Bool) where
  -- On a settled receipt the handlers return at once.
  pub handlers_return :
      (w : World) (destination proof : List ℕ)
      → IsSettled w
      → (handle_proof recall valid w destination proof ≡ w)
        × (timer_fires w ≡ w)
        × (start_timeout w.receipt ≡ w.receipt)
  unfolding handle_proof timer_fires start_timeout begin_proof
  handlers_return w destination proof s = (
    elim (Option-cases (find_receipt w destination)) [
      | inl e ↦ rw (handle_proof, begin_proof, e) refl
      | inr (id, e) ↦ elim (Bool-cases (id == w.receipt.id)) [
        | inl same ↦ rw (handle_proof, begin_proof, e, same, s.over) refl
        | inr other ↦ rw (handle_proof, begin_proof, e, other) refl
      ]
    ],
    rw (timer_fires, s.no_timer) refl,
    rw (start_timeout, s.over) refl,
  )

  -- A valid proof of a receipt that waits settles it as delivered.
  pub handle_proof-SettledAs :
      (w : World) (destination proof : List ℕ)
      → w.receipt.status ≡ sending
      → w.fired ≡ []
      → begin_proof w destination ≡ true
      → validate_proof recall valid w.receipt proof ≡ true
      → SettledAs delivered (handle_proof recall valid w destination proof)
  unfolding handle_proof finish_proof
  handle_proof-SettledAs w destination proof waits quiet found accepted =
      let other : is_delivered w.receipt.status ≡ false = rw waits (unfold is_delivered in refl) in
      let (r, f) = set_delivered-other w other in
      rw (handle_proof, found, finish_proof, accepted) (delivered-SettledAs w _ r f quiet)

  -- A receipt that waits with its timer set and no callback fired is settled as failed when the timer fires, and as
  -- delivered when a proof addressed to it is valid; an invalid proof changes nothing.
  pub first_outcome :
      (w : World) (destination proof : List ℕ)
      → w.receipt.status ≡ sending
      → w.fired ≡ []
      → w.receipt.timer_set ≡ true
      → SettledAs failed (timer_fires w)
        × (begin_proof w destination ≡ true
            → validate_proof recall valid w.receipt proof ≡ true
            → SettledAs delivered (handle_proof recall valid w destination proof))
        × (validate_proof recall valid w.receipt proof ≡ false
            → handle_proof recall valid w destination proof ≡ w)
  first_outcome w destination proof waits quiet armed = (
    (let (r, f) = timer_fires_lem w waits armed in failed-SettledAs w (timer_fires w) r f quiet),
    λ found accepted. handle_proof-SettledAs w destination proof waits quiet found accepted,
    λ refused. ignored refused,
  )
    where
      ignored :
          validate_proof recall valid w.receipt proof ≡ false
          → handle_proof recall valid w destination proof ≡ w
      ignored refused = elim (Bool-cases (begin_proof w destination)) [
        | inl e ↦
            unfold handle_proof finish_proof in rw (handle_proof, e, finish_proof, refused) refl
        | inr e ↦ unfold handle_proof in rw (handle_proof, e) refl
      ]
