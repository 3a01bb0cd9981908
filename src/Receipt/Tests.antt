-- ===== src/Receipt/Tests.antt =====
-- Runs of packages/core/src/core/packet_receipt.js, and the theorems at a concrete receipt.
use reticulum_js.Common.{
  ℕ, zero, suc, ◌<◌, ◌≡◌, ◌↔◌, ◌⊎◌, refl, arith, Bool, true, false, ◌==◌, Option, none, some, List,
  [], ◌∷◌, length, take, drop, replicate, All, IsByte,
}
use reticulum_js.Common.Dict
use reticulum_js.Common.Dict.{str_eq}
use reticulum_js.Encoding.{to_hex, hex_digit}
use reticulum_js.Receipt.{
  sending, delivered, failed, is_sending, on_delivered, on_failed, World, find_receipt,
  start_timeout, when_settled, set_delivered, settle, unregister, is_delivered, timer_fires, verify,
  validate_proof, begin_proof, finish_proof, handle_proof,
}
use reticulum_js.Receipt.Life.{IsSettled, SettledAs, first_outcome}
use reticulum_js.Receipt.Trace.{
  ReceiptEvent, timeout_started, awaited, timer_fired, proof_came, IsWaiting, receipt_step,
  receipt_run, settles_once,
}
use reticulum_js.Receipt.Proof.{SignedBy, validate_proof_iff}
use reticulum_js.Receipt.Race.{late_proof_flips}

-- One identity is known, 7, and it accepts the signatures that begin with its number.
abbrev recall : List ℕ → Option ℕ
recall destination = some 7

unfoldable valid : ℕ → List ℕ → List ℕ → Bool
valid identity [] data' = false
valid identity (b ∷ signature) data' = b == identity

abbrev signature : List ℕ
signature = 7 ∷ replicate 63 0

abbrev hash : List ℕ
hash = replicate 32 3

abbrev waiting : World
waiting = record {
  receipt = record {
    id = 4;
    packet_hash = hash;
    truncated_hash = replicate 16 3;
    destination_hash = 1 ∷ [];
    has_delivered = true;
    has_failed = true;
    has_owner = true;
    status = sending;
    timer_set = true;
    promise_made = false;
    resolver_set = false;
    settled = none;
  };
  receipts = (to_hex (replicate 16 3), 4) ∷ [];
  routes = [];
  fired = [];
}

accepted : validate_proof recall valid waiting.receipt signature ≡ true
unfolding validate_proof verify valid
accepted = refl

addressed : begin_proof waiting (replicate 16 3) ≡ true
unfolding begin_proof find_receipt is_sending Dict.get str_eq to_hex hex_digit
addressed = refl

replicate_bytes : (n b : ℕ) → b < 256 → All IsByte (replicate n b)
replicate_bytes zero b h = tt
replicate_bytes (suc n) b h = (h, replicate_bytes n b h)

hash_bytes : All IsByte hash
hash_bytes = replicate_bytes 32 3 (omega arith)

signature_bytes : All IsByte signature
signature_bytes = (omega arith, replicate_bytes 63 0 (omega arith))

validate_proof_iff_example : (validate_proof recall valid waiting.receipt signature ≡ true) ↔ (
    ((length signature ≡ 96)
      × (take 32 signature ≡ hash)
      × SignedBy recall valid waiting.receipt (drop 32 signature))
    ⊎ ((length signature ≡ 64) × SignedBy recall valid waiting.receipt signature))
validate_proof_iff_example =
    validate_proof_iff recall valid waiting.receipt signature signature_bytes hash_bytes

first_outcome_example :
    SettledAs failed (timer_fires waiting)
    × (begin_proof waiting (replicate 16 3) ≡ true
        → validate_proof recall valid waiting.receipt signature ≡ true
        → SettledAs delivered (handle_proof recall valid waiting (replicate 16 3) signature))
    × (validate_proof recall valid waiting.receipt signature ≡ false
        → handle_proof recall valid waiting (replicate 16 3) signature ≡ waiting)
first_outcome_example = first_outcome recall valid waiting (replicate 16 3) signature refl refl refl

late_proof_flips_example :
    let w' = finish_proof recall valid (timer_fires waiting) signature in
    (w'.receipt.status ≡ delivered) × (w'.fired ≡ on_delivered ∷ on_failed ∷ [])
late_proof_flips_example =
    late_proof_flips recall valid waiting signature refl refl refl refl refl accepted

-- The timer is started again, the receipt is awaited, and the proof comes before the timer.
abbrev events : List ReceiptEvent
events = awaited ∷ timeout_started ∷ proof_came (replicate 16 3) signature ∷ timer_fired ∷ []

settled_run : (receipt_run recall valid events waiting).fired ≡ on_delivered ∷ []
unfolding receipt_run receipt_step when_settled start_timeout handle_proof finish_proof begin_proof
    validate_proof verify valid timer_fires set_delivered settle unregister is_sending is_delivered
    find_receipt Dict.get str_eq to_hex hex_digit
settled_run = refl

settles_once_example :
    let w_1 = receipt_run recall valid events waiting in
    let w_2 = receipt_run recall valid (timer_fired ∷ []) w_1 in
    IsWaiting w_1
    ⊎ (IsSettled w_1
        × IsSettled w_2
        × (w_2.receipt.status ≡ w_1.receipt.status)
        × (w_2.fired ≡ w_1.fired))
settles_once_example =
    settles_once recall valid events (timer_fired ∷ []) waiting
      (record { waits = refl; quiet = refl })
