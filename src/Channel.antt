-- ===== src/Channel.antt =====
-- packages/core/src/transport/channel.js: the frames on the wire (`StreamDataMessage`, `Envelope`),
-- the receiving half of `Channel` and its send window.
-- Message classes are a parameter: a factory by message type, whose `unpack` may throw.
pub mod Wire
pub mod Ring
pub mod Order
pub mod Wrap
pub mod Bounds
pub mod Sender
pub mod Outlet
mod Tests
use reticulum_js.Common.{
  ℕ, zero, suc, ◌+◌, ◌-◌, ◌*◌, ◌/◌, ◌%◌, Bool, true, false, not, ◌&&◌, Option, none, some, List, [],
  ◌∷◌, ◌++◌, ltb, leb, ◌==◌, if◌then◌else◌, length, drop, Result, ok, err,
}

abbrev pub smt_stream_data : ℕ
smt_stream_data = 0xff00

abbrev pub envelope_header_size : ℕ
envelope_header_size = 6

abbrev pub header_size : ℕ
header_size = 2

abbrev pub window_max : ℕ
window_max = 48

abbrev pub seq_max : ℕ
seq_max = 0xffff

abbrev pub seq_modulus : ℕ
seq_modulus = 0x10000

-- `DataView.setUint16(_, n, false)`
abbrev pub set_uint_16 : ℕ → List ℕ
set_uint_16 n = (n / 256) % 256 ∷ n % 256 ∷ []

-- What a call throws.
pub data ChannelError : Type 0 where
  range_error not_registered message_error no_msg_type : ChannelError

-- `DataView.getUint16(_, false)` at the head of the bytes; too few of them are a `RangeError`.
unfoldable pub get_uint_16 : List ℕ → Result ChannelError ℕ
get_uint_16 [] = err range_error
get_uint_16 (a ∷ []) = err range_error
get_uint_16 (a ∷ b ∷ bytes) = ok (a * 256 + b)

pub record StreamDataMessage : Type 0 where
  pub stream_id : ℕ
  pub data' : List ℕ
  pub eof : Bool
  pub compressed : Bool

-- The header's parts have no bit in common, so `|` adds them; `& 0x3fff` keeps 14 bits.
unfoldable pub stream_pack : StreamDataMessage → List ℕ
stream_pack m =
    let header : ℕ =
      m.stream_id % 0x4000 + (if m.eof then 0x8000 else 0) + (if m.compressed then 0x4000 else 0) in
    set_uint_16 header ++ m.data'

unfoldable pub stream_unpack : List ℕ → Result ChannelError StreamDataMessage
stream_unpack raw = elim (get_uint_16 raw) [
  | err e ↦ err e
  | ok header ↦ ok (record {
    stream_id = header % 0x4000;
    data' = drop header_size raw;
    eof = not ((header / 0x8000) % 2 == 0);
    compressed = not ((header / 0x4000) % 2 == 0);
  })
]

-- `Envelope.pack` of a message of this type whose body packs to these bytes.
unfoldable pub envelope_pack : Option ℕ → ℕ → List ℕ → Result ChannelError (List ℕ)
envelope_pack none sequence data' = err no_msg_type
envelope_pack (some msgtype) sequence data' =
    ok (set_uint_16 msgtype ++ set_uint_16 sequence ++ set_uint_16 (length data') ++ data')

-- The receive ring holds envelopes: here the sequence number and the message of each, since an
-- envelope is unpacked before it is placed.
pub record Rx (M : Type 0) : Type 0 where
  pub next_rx_sequence : ℕ
  pub rx_ring : List (ℕ × M)

abbrev pub Factories : Type 0 → Type 0
Factories M = ℕ → Option (List ℕ → Option M)

-- The tests of a sequence number below the next one.
unfoldable pub is_invalid_sequence : ℕ → ℕ → Bool
is_invalid_sequence next sequence =
    let window_overflow : ℕ = (next + window_max) % seq_modulus in
    if ltb sequence next
    then if ltb window_overflow next then ltb window_overflow sequence else true
    else false

module _ {M : Type 0} where
  unfoldable pub envelope_unpack : Factories M → List ℕ → Result ChannelError (ℕ × M)
  envelope_unpack factories raw = elim (get_uint_16 raw) [
    | err e ↦ err e
    | ok msgtype ↦ elim (get_uint_16 (drop 2 raw)) [
      | err e ↦ err e
      | ok sequence ↦ elim (factories msgtype) [
        | none ↦ err not_registered
        | some unpack ↦ elim (unpack (drop envelope_header_size raw)) [
          | none ↦ err message_error
          | some message ↦ ok (sequence, message)
        ]
      ]
    ]
  ]

  -- `_emplaceEnvelope`: the loop, and the push at its end. `a - b > SEQ_MAX / 2` is `a ≥ b + 32768`.
  unfoldable pub emplace_envelope : ℕ → ℕ × M → List (ℕ × M) → List (ℕ × M) × Bool
  emplace_envelope next envelope [] = (envelope ∷ [], true)
  emplace_envelope next envelope (existing ∷ ring) =
      let rest = emplace_envelope next envelope ring in
      if envelope.0 == existing.0
      then (existing ∷ ring, false)
      else if ltb envelope.0 existing.0 && not (leb (envelope.0 + 32768) next)
      then (envelope ∷ existing ∷ ring, true)
      else (existing ∷ rest.0, rest.1)

  -- `findIndex` of the next sequence and the `splice` of what it finds.
  unfoldable pub take_sequence : ℕ → List (ℕ × M) → Option (M × List (ℕ × M))
  take_sequence next [] = none
  take_sequence next ((s, m) ∷ ring) =
      let rest = take_sequence next ring in
      if s == next
      then some (m, ring)
      else elim rest [ none ↦ none | some r ↦ some (r.0, (s, m) ∷ r.1) ]

  -- The draining loop, which takes one envelope out of the ring at each turn.
  unfoldable pub drain : ℕ → Rx M → Rx M × List M
  drain zero rx = (rx, [])
  drain (suc fuel) rx = elim (take_sequence rx.next_rx_sequence rx.rx_ring) [
    | none ↦ (rx, [])
    | some r ↦
        let (rx', messages) =
          drain fuel (record {
            next_rx_sequence = (rx.next_rx_sequence + 1) % seq_modulus;
            rx_ring = r.1;
          }) in
        (rx', r.0 ∷ messages)
  ]

  -- `_receive` past the decoding: the state, and the messages for the handlers in order.
  unfoldable pub receive_envelope : ℕ × M → Rx M → Rx M × List M
  receive_envelope envelope rx =
      if is_invalid_sequence rx.next_rx_sequence envelope.0
      then (rx, [])
      else (λ (placed : List (ℕ × M) × Bool).
            if placed.1
            then drain (length placed.0) (record rx { rx_ring = placed.0 })
            else (rx, []))
          (emplace_envelope rx.next_rx_sequence envelope rx.rx_ring)

  -- `_receive`; what is thrown is logged and swallowed.
  unfoldable pub receive : Factories M → List ℕ → Rx M → Rx M × List M
  receive factories raw rx = elim (envelope_unpack factories raw) [
    | err e ↦ (rx, [])
    | ok envelope ↦ receive_envelope envelope rx
  ]

  unfoldable pub receive_all : List (ℕ × M) → Rx M → Rx M × List M
  receive_all [] rx = (rx, [])
  receive_all (envelope ∷ envelopes) rx =
      let (rx₁, first) = receive_envelope envelope rx in
      let (rx₂, rest) = receive_all envelopes rx₁ in (rx₂, first ++ rest)

-- The send window's part of `Channel`'s state; `flexibility` is fixed.
pub record Window : Type 0 where
  pub window : ℕ
  pub max' : ℕ
  pub min' : ℕ
  pub flexibility : ℕ
  pub fast_rate_rounds : ℕ
  pub medium_rate_rounds : ℕ

-- `RTT_FAST`, `RTT_MEDIUM` and `RTT_SLOW` in nanoseconds, in which a round trip is counted here.
abbrev pub rtt_fast : ℕ
rtt_fast = 180000000

abbrev pub rtt_medium : ℕ
rtt_medium = 750000000

abbrev pub rtt_slow : ℕ
rtt_slow = 1450000000

abbrev pub fast_rate_threshold : ℕ
fast_rate_threshold = 10

-- The constructor's choice.
unfoldable pub new_window : ℕ → Window
new_window rtt =
    if ltb rtt_slow rtt
    then record {
      window = 1;
      max' = 1;
      min' = 1;
      flexibility = 1;
      fast_rate_rounds = 0;
      medium_rate_rounds = 0;
    }
    else record {
      window = 2;
      max' = 5;
      min' = 2;
      flexibility = 4;
      fast_rate_rounds = 0;
      medium_rate_rounds = 0;
    }

-- `if (this.window < this.windowMax) this.window += 1`
unfoldable pub grow : Window → Window
grow w = if ltb w.window w.max' then record w { window = w.window + 1 } else w

unfoldable pub medium_round : Window → Window
medium_round w =
    let w' : Window = record w {
      fast_rate_rounds = 0;
      medium_rate_rounds = w.medium_rate_rounds + 1;
    } in
    if ltb w'.max' 12 && w'.medium_rate_rounds == fast_rate_threshold
    then record w' { max' = 12; min' = 5 }
    else w'

unfoldable pub fast_round : Window → Window
fast_round w =
    let w' : Window = record w { fast_rate_rounds = w.fast_rate_rounds + 1 } in
    if ltb w'.max' 48 && w'.fast_rate_rounds == fast_rate_threshold
    then record w' { max' = 48; min' = 16 }
    else w'

-- The window in `_packetTxOp` when an envelope leaves the ring.
unfoldable pub window_delivered : ℕ → Window → Window
window_delivered rtt w =
    let w₁ : Window = grow w in
    if rtt == 0
    then w₁
    else if ltb rtt_fast rtt
    then if ltb rtt_medium rtt
      then record w₁ { fast_rate_rounds = 0; medium_rate_rounds = 0 }
      else medium_round w₁
    else fast_round w₁

-- The window in `_packetTimeout` when an envelope is sent again.
unfoldable pub window_timeout : Window → Window
window_timeout w =
    if ltb w.min' w.window
    then if ltb (w.min' + w.flexibility) w.max'
      then record w { window = w.window - 1; max' = w.max' - 1 }
      else record w { window = w.window - 1 }
    else w

pub data WindowEvent : Type 0 where
  was_delivered : ℕ → WindowEvent
  was_resent : WindowEvent

unfoldable pub window_step : WindowEvent → Window → Window
window_step (was_delivered rtt) w = window_delivered rtt w
window_step was_resent w = window_timeout w

unfoldable pub window_run : List WindowEvent → Window → Window
window_run [] w = w
window_run (e ∷ events) w = window_run events (window_step e w)
