-- ===== src/Channel/Sender.antt =====
-- The sending half of `Channel` in packages/core/src/transport/channel.js, over any outlet. The packet
-- handles of the outlet are numbers; what it says of them, `getPacketState(packet) === DELIVERED`, is
-- an argument of each handler, as is its round trip time. `_sendImpl` is cut at its `await`:
-- `begin_send` runs before it, `finish_send` after it, and `_sendChain` lets no other send in between.
-- Arming a packet's timers and callbacks is the outlet's, and so is sending it again. A message is
-- given by the size of what it packs to; `_shutdown` empties the receive ring too, which is not here.
pub mod Retries
pub mod Attempts
pub mod Exhausted
use reticulum_js.Common.{
  ℕ, ◌+◌, ◌%◌, Bool, true, false, not, ◌||◌, Option, none, some, List, [], ◌∷◌, ltb, leb, ◌==◌,
  if◌then◌else◌,
}
use reticulum_js.Channel.{
  seq_modulus, emplace_envelope, Window, new_window, window_delivered, window_timeout,
}

abbrev pub max_tries : ℕ
max_tries = 5

pub record InFlight : Type 0 where
  pub packet : ℕ
  pub tries : ℕ

-- `sending` is the sequence number that a send in progress has reserved.
pub record Tx : Type 0 where
  pub next_sequence : ℕ
  pub tx_ring : List (ℕ × InFlight)
  pub shut_down : Bool
  pub window' : Window
  pub sending : Option ℕ

unfoldable pub new_tx : ℕ → Tx
new_tx rtt = record {
  next_sequence = 0;
  tx_ring = [];
  shut_down = false;
  window' = new_window rtt;
  sending = none;
}

-- What `isReadyToSend` counts.
unfoldable pub outstanding : (ℕ → Bool) → List (ℕ × InFlight) → ℕ
outstanding delivered [] = 0
outstanding delivered ((s, e) ∷ ring) =
    let rest = outstanding delivered ring in if delivered e.packet then rest else rest + 1

unfoldable pub is_ready_to_send : Bool → (ℕ → Bool) → Tx → Bool
is_ready_to_send usable delivered tx =
    if usable then ltb (outstanding delivered tx.tx_ring) tx.window'.window else false

pub data SendError : Type 0 where
  link_not_ready too_big : SendError

-- Up to the `await`: the packed message has `size` bytes.
unfoldable pub begin_send : Bool → (ℕ → Bool) → ℕ → ℕ → Tx → Tx × Option SendError
begin_send usable delivered mdu size tx =
    if tx.shut_down || not (is_ready_to_send usable delivered tx)
    then (tx, some link_not_ready)
    else if ltb mdu size
    then (tx, some too_big)
    else (
      record tx {
        next_sequence = (tx.next_sequence + 1) % seq_modulus;
        sending = some tx.next_sequence;
      },
      none,
    )

-- The first envelope of the packet, and the ring without it.
unfoldable pub take_packet : ℕ → List (ℕ × InFlight) → Option (InFlight × List (ℕ × InFlight))
take_packet id [] = none
take_packet id ((s, e) ∷ ring) =
    let rest = take_packet id ring in
    if e.packet == id
    then some (e, ring)
    else elim rest [ none ↦ none | some r ↦ some (r.0, (s, e) ∷ r.1) ]

-- `_packetDelivered`, by `_packetTxOp`.
unfoldable pub packet_delivered : ℕ → ℕ → Tx → Tx
packet_delivered rtt id tx = elim (take_packet id tx.tx_ring) [
  | none ↦ tx
  | some r ↦ record tx { tx_ring = r.1; window' = window_delivered rtt tx.window' }
]

-- After the `await`: the outlet gave a packet, or threw. `next_rx` is what the ring's order reads.
unfoldable pub finish_send : (ℕ → Bool) → ℕ → ℕ → Option ℕ → Tx → Tx
finish_send delivered rtt next_rx sent tx = elim tx.sending [
  | none ↦ tx
  | some reserved ↦ elim sent [
    | none ↦ record tx { next_sequence = reserved; sending = none }
    | some packet ↦
        let envelope : ℕ × InFlight = (reserved, record { packet = packet; tries = 1 }) in
        let placed : Tx = record tx {
          tx_ring = (emplace_envelope next_rx envelope tx.tx_ring).0;
          sending = none;
        } in
        if delivered packet then packet_delivered rtt packet placed else placed
  ]
]

-- `envelope.tries += 1` on the first envelope of the packet.
unfoldable pub count_try : ℕ → List (ℕ × InFlight) → List (ℕ × InFlight)
count_try id [] = []
count_try id ((s, e) ∷ ring) =
    let rest = count_try id ring in
    if e.packet == id then (s, record e { tries = e.tries + 1 }) ∷ ring else (s, e) ∷ rest

-- `_shutdown`
unfoldable pub shutdown : Tx → Tx
shutdown tx = if tx.shut_down then tx else record tx { shut_down = true; tx_ring = [] }

-- `tries` and the window, for one more try.
unfoldable pub retry : ℕ → Tx → Tx
retry id tx = record tx { tx_ring = count_try id tx.tx_ring; window' = window_timeout tx.window' }

-- `resent` is what the outlet says of the packet once it has been sent again.
unfoldable pub packet_timeout : (ℕ → Bool) → Bool → ℕ → ℕ → Tx → Tx
packet_timeout delivered resent rtt id tx =
    if delivered id then tx else elim (take_packet id tx.tx_ring) [
      | none ↦ tx
      | some r ↦
          if leb max_tries r.0.tries
          then shutdown tx
          else if resent
          then packet_delivered rtt id (retry id tx)
          else retry id tx
    ]

pub data SenderEvent : Type 0 where
  begins : Bool → (ℕ → Bool) → ℕ → ℕ → SenderEvent
  finishes : (ℕ → Bool) → ℕ → ℕ → Option ℕ → SenderEvent
  proved : ℕ → ℕ → SenderEvent
  timed_out : (ℕ → Bool) → Bool → ℕ → ℕ → SenderEvent

-- A send begins only when none is in progress.
unfoldable pub sender_step : SenderEvent → Tx → Tx
sender_step (begins usable delivered mdu size) tx = elim tx.sending [
  | none ↦ (begin_send usable delivered mdu size tx).0
  | some s ↦ tx
]
sender_step (finishes delivered rtt next_rx sent) tx = finish_send delivered rtt next_rx sent tx
sender_step (proved rtt id) tx = packet_delivered rtt id tx
sender_step (timed_out delivered resent rtt id) tx = packet_timeout delivered resent rtt id tx

unfoldable pub sender_run : List SenderEvent → Tx → Tx
sender_run [] tx = tx
sender_run (e ∷ events) tx = sender_run events (sender_step e tx)
