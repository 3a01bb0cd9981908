-- ===== src/Receipt.antt =====
-- packages/core/src/core/packet_receipt.js, and the methods of
-- packages/core/src/transport/transport.js that drive a receipt: `trackReceipt`, `findReceipt` and
-- `_handleProof`. Identities and their signature check are parameters. `_handleProof` is cut at its
-- `await`: `begin_proof` is what runs before it, `finish_proof` what runs after it. The log of the
-- callbacks that fired has the newest first.
pub mod Life
pub mod Proof
pub mod Race
pub mod Trace
mod Tests
use reticulum_js.Common.{
  ℕ, Bool, true, false, not, ◌&&◌, Option, none, some, List, [], ◌∷◌, ◌==◌, if◌then◌else◌, length,
  take, drop,
}
use reticulum_js.Common.Dict
use reticulum_js.Common.Dict.{Dict}
use reticulum_js.Encoding.{to_hex, bytes_equal}
use reticulum_js.Router.{Table, responsive}
use reticulum_js.Router.Lookup.{mark_state}

pub data ReceiptStatus : Type 0 where
  sending delivered failed culled : ReceiptStatus

unfoldable pub is_sending : ReceiptStatus → Bool
is_sending sending = true
is_sending _ = false

unfoldable pub is_delivered : ReceiptStatus → Bool
is_delivered delivered = true
is_delivered _ = false

unfoldable pub is_failed : ReceiptStatus → Bool
is_failed failed = true
is_failed _ = false

pub data Callback : Type 0 where
  on_delivered on_failed : Callback

-- `resolver_set` is whether `_settledResolve` is there, `settled` what the promise resolved to.
pub record PacketReceipt : Type 0 where
  pub id : ℕ
  pub packet_hash : List ℕ
  pub truncated_hash : List ℕ
  pub destination_hash : List ℕ
  pub has_delivered : Bool
  pub has_failed : Bool
  pub has_owner : Bool
  pub status : ReceiptStatus
  pub timer_set : Bool
  pub promise_made : Bool
  pub resolver_set : Bool
  pub settled : Option ReceiptStatus

-- A receipt with the registry of its transport, the table of routes and the callbacks fired.
pub record World : Type 0 where
  pub receipt : PacketReceipt
  pub receipts : Dict ℕ
  pub routes : Table
  pub fired : List Callback

unfoldable pub new_receipt : ℕ → List ℕ → List ℕ → Bool → Bool → PacketReceipt
new_receipt id packet_hash destination_hash has_delivered has_failed = record {
  id = id;
  packet_hash = packet_hash;
  truncated_hash = take 16 packet_hash;
  destination_hash = destination_hash;
  has_delivered = has_delivered;
  has_failed = has_failed;
  has_owner = false;
  status = sending;
  timer_set = false;
  promise_made = false;
  resolver_set = false;
  settled = none;
}

unfoldable pub unregister : World → World
unregister w =
    if w.receipt.has_owner
    then record w { receipts = Dict.delete (to_hex w.receipt.truncated_hash) w.receipts }
    else w

unfoldable pub track_receipt : World → World
track_receipt w = record w {
  receipt = record w.receipt { has_owner = true };
  receipts = Dict.set (to_hex w.receipt.truncated_hash) w.receipt.id w.receipts;
}

unfoldable pub find_receipt : World → List ℕ → Option ℕ
find_receipt w proof_dest_hash = Dict.get (to_hex proof_dest_hash) w.receipts

unfoldable pub start_timeout : PacketReceipt → PacketReceipt
start_timeout r = if is_sending r.status then record r { timer_set = true } else r

-- `whenSettled`: what it resolves to at once, if it does.
unfoldable pub when_settled : PacketReceipt → PacketReceipt × Option ReceiptStatus
when_settled r =
    if is_sending r.status
    then (if r.promise_made then r else record r { promise_made = true; resolver_set = true }, none)
    else (r, some r.status)

-- `clearTimeout`, the new status, and the promise's resolver, which is called once.
unfoldable pub settle : ReceiptStatus → PacketReceipt → PacketReceipt
settle s r = record r {
  timer_set = false;
  status = s;
  settled = if r.resolver_set then some s else r.settled;
  resolver_set = false;
}

unfoldable pub set_delivered : World → World
set_delivered w =
    if is_delivered w.receipt.status
    then w
    else let w' : World = unregister (record w { receipt = settle delivered w.receipt }) in
      if w'.receipt.has_delivered then record w' { fired = on_delivered ∷ w'.fired } else w'

unfoldable pub set_failed : World → World
set_failed w =
    if is_failed w.receipt.status
    then w
    else let w' : World = record w { receipt = settle failed w.receipt } in
      if w'.receipt.has_failed then record w' { fired = on_failed ∷ w'.fired } else w'

-- The timer's function; it runs only while the timer is set.
unfoldable pub timer_fires : World → World
timer_fires w =
    if w.receipt.timer_set
    then set_failed (unregister (record w { receipt = record w.receipt { timer_set = false } }))
    else w

-- Whether the handler goes on to validate: the receipt is registered under the proof's destination
-- and is still sending.
unfoldable pub begin_proof : World → List ℕ → Bool
begin_proof w destination = elim (find_receipt w destination) [
  | none ↦ false
  | some id ↦ id == w.receipt.id && is_sending w.receipt.status
]

module _ {Identity : Type 0} (recall : List ℕ → Option Identity)
    (valid : Identity → List ℕ → List ℕ → Bool) where
  unfoldable pub verify : PacketReceipt → List ℕ → List ℕ → Bool
  verify r signature data' =
      if r.has_owner
      then elim (recall r.destination_hash) [
        | none ↦ false
        | some identity ↦ valid identity signature data'
      ]
      else false

  unfoldable pub validate_proof : PacketReceipt → List ℕ → Bool
  validate_proof r proof =
      if length proof == 96
      then if bytes_equal (take 32 proof) r.packet_hash
        then verify r (drop 32 proof) r.packet_hash
        else false
      else if length proof == 64
      then verify r proof r.packet_hash
      else false

  unfoldable pub finish_proof : World → List ℕ → World
  finish_proof w proof =
      let w' : World = set_delivered w in
      if validate_proof w.receipt proof
      then record w' { routes = (mark_state w'.routes w'.receipt.destination_hash responsive).0 }
      else w

  unfoldable pub handle_proof : World → List ℕ → List ℕ → World
  handle_proof w destination proof = if begin_proof w destination then finish_proof w proof else w
