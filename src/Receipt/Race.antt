-- ===== src/Receipt/Race.antt =====
-- A timeout between the two halves of `_handleProof` of packages/core/src/transport/transport.js.
use reticulum_js.Common.{ℕ, ◌≡◌, refl, ap, ◌∙◌, Bool, true, false, Option, List, [], ◌∷◌}
use reticulum_js.Receipt.{
  sending, delivered, failed, is_delivered, on_delivered, on_failed, PacketReceipt, World, settle,
  timer_fires, verify, validate_proof, finish_proof,
}
use reticulum_js.Receipt.Life.{set_delivered-other, timer_fires_lem}

module _ {Identity : Type 0} (recall : List ℕ → Option Identity)
    (valid : Identity → List ℕ → List ℕ → Bool) where
  -- The check of a proof does not depend on the receipt's status.
  validate-settle :
      (r : PacketReceipt) (proof : List ℕ)
      → validate_proof recall valid (settle failed r) proof ≡ validate_proof recall valid r proof
  unfolding validate_proof verify settle
  validate-settle r proof = refl

  -- A receipt is waiting with its timer set, has both callbacks, and has fired none. Where the
  -- timer fires while the signature of a valid proof is being checked, both callbacks fire, the
  -- failure first, and the receipt ends as delivered.
  pub late_proof_flips :
      (w : World) (proof : List ℕ)
      → w.receipt.status ≡ sending
      → w.receipt.timer_set ≡ true
      → w.receipt.has_delivered ≡ true
      → w.receipt.has_failed ≡ true
      → w.fired ≡ []
      → validate_proof recall valid w.receipt proof ≡ true
      → let w' = finish_proof recall valid (timer_fires w) proof in
        (w'.receipt.status ≡ delivered) × (w'.fired ≡ on_delivered ∷ on_failed ∷ [])
  unfolding finish_proof
  late_proof_flips w proof waits armed d f quiet accepted =
      let w1 : World = timer_fires w in
      let (r, fired) = timer_fires_lem w waits armed in
      let settled : is_delivered w1.receipt.status ≡ false =
        rw r (unfold settle is_delivered in refl) in
      let ok : validate_proof recall valid w1.receipt proof ≡ true =
        rw r (validate-settle w.receipt proof ∙ accepted) in
      let (r', fired') = set_delivered-other w1 settled in
      let listens : w1.receipt.has_delivered ≡ true = rw r (unfold settle in d) in
      let failed_first : w1.fired ≡ on_failed ∷ [] = rw (fired, f, quiet) refl in
      rw ok (
        ap PacketReceipt.status r' ∙ unfold settle in refl,
        rw (fired', listens, failed_first) refl,
      )
