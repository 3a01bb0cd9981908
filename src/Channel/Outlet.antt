-- ===== src/Channel/Outlet.antt =====
-- `LinkChannelOutlet` of packages/core/src/transport/channel.js. The link and its packets are outside:
-- a packet is its hash in hexadecimal. A handle stays with its envelope when it leaves `_sent`, so that
-- the handles are a store of their own. `send` is what runs after its `await`s; a callback that is
-- called is returned. Timeouts are in milliseconds.
pub mod Proofs
pub mod Order
pub mod Stash
pub mod Tests
use reticulum_js.Common.{
  ℕ, ◌+◌, ◌<◌, Bool, true, false, not, ◌&&◌, ◌||◌, Option, none, some, List, [], ◌∷◌, ltb,
  if◌then◌else◌,
}
use reticulum_js.Common.Dict
use reticulum_js.Common.Dict.{Key, Dict}
use reticulum_js.Common.KeySet.{has, add, remove}

-- A callback is its presence; `_packetDelivered` and `_packetTimeout` are the only ones that are set.
pub record OutletPacket : Type 0 where
  pub delivered : Bool
  pub timeout : Option ℕ
  pub timeout_callback : Bool
  pub delivered_callback : Bool
  pub timeout_timer : Bool

pub record Outlet : Type 0 where
  pub handles : Dict OutletPacket
  pub sent : List Key
  pub early_delivered : List Key
  pub listening : Bool

pub new_outlet : Outlet
new_outlet = record { handles = []; sent = []; early_delivered = []; listening = true }

unfoldable pub new_packet_handle : Bool → OutletPacket
new_packet_handle delivered = record {
  delivered = delivered;
  timeout = none;
  timeout_callback = false;
  delivered_callback = false;
  timeout_timer = false;
}

unfoldable pub outlet_send : Key → Outlet → Outlet
outlet_send hash s = record s {
  handles = Dict.set hash (new_packet_handle (has hash s.early_delivered)) s.handles;
  sent = add hash s.sent;
  early_delivered = remove hash s.early_delivered;
}

-- `getPacketState(op) === MSGSTATE_DELIVERED`
unfoldable pub is_packet_delivered : Key → Outlet → Bool
is_packet_delivered hash s = elim (Dict.get hash s.handles) [
  | none ↦ false
  | some op ↦ op.delivered
]

-- What a method does with a handle; without one it returns at once.
unfoldable pub with_handle : Key → (OutletPacket → OutletPacket) → Outlet → Outlet
with_handle hash f s = elim (Dict.get hash s.handles) [
  | none ↦ s
  | some op ↦ record s { handles = Dict.set hash (f op) s.handles }
]

-- `callback` is whether one is given.
unfoldable pub armed : Bool → Option ℕ → OutletPacket → OutletPacket
armed false timeout op = record op { timeout_timer = false; timeout_callback = false }
armed true timeout op =
    if op.delivered
    then record op { timeout_timer = false; timeout_callback = true }
    else elim timeout [
      | none ↦ record op { timeout_timer = false; timeout_callback = true }
      | some t ↦ record op { timeout = some t; timeout_timer = true; timeout_callback = true }
    ]

unfoldable pub set_packet_timeout_callback : Key → Bool → Option ℕ → Outlet → Outlet
set_packet_timeout_callback hash callback timeout s = with_handle hash (armed callback timeout) s

unfoldable pub set_packet_delivered_callback : Key → Bool → Outlet → Outlet
set_packet_delivered_callback hash callback s =
    with_handle hash (λ op. record op { delivered_callback = callback }) s

unfoldable pub extended : ℕ → OutletPacket → OutletPacket
extended t op = if op.delivered then op else elim op.timeout [
  | none ↦ op
  | some old ↦ if ltb old t then armed op.timeout_callback (some t) op else op
]

unfoldable pub extend_timeout : Key → ℕ → Outlet → Outlet
extend_timeout hash t s = with_handle hash (extended t) s

-- The timer of a handle runs out, where one is armed; with whether the callback is called.
unfoldable pub timer_fires : Key → Outlet → Outlet × Bool
timer_fires hash s = (
  with_handle hash (λ op. record op { timeout_timer = false }) s,
  elim (Dict.get hash s.handles) [
    | none ↦ false
    | some op ↦ op.timeout_timer && (not op.delivered && op.timeout_callback)
  ],
)

-- A proof comes in; with whether the callback is called.
unfoldable pub mark_delivered : Key → Outlet → Outlet × Bool
mark_delivered hash s =
    if has hash s.sent
    then elim (Dict.get hash s.handles) [
      | none ↦ (s, false)
      | some op ↦ if op.delivered then (s, false) else (
        record s {
          handles = Dict.set hash (record op { delivered = true; timeout_timer = false }) s.handles;
          sent = remove hash s.sent;
        },
        op.delivered_callback,
      )
    ]
    else (record s { early_delivered = add hash s.early_delivered }, false)

-- The `proof` event of the link.
unfoldable pub on_proof : Key → Outlet → Outlet × Bool
on_proof hash s = if s.listening then mark_delivered hash s else (s, false)

unfoldable pub clear_timers : List Key → Dict OutletPacket → Dict OutletPacket
clear_timers [] handles = handles
clear_timers (k ∷ ks) handles = clear_timers ks (elim (Dict.get k handles) [
  | none ↦ handles
  | some op ↦ Dict.set k (record op { timeout_timer = false }) handles
])

unfoldable pub cleanup : Outlet → Outlet
cleanup s = record {
  handles = clear_timers s.sent s.handles;
  sent = [];
  early_delivered = [];
  listening = false;
}

pub data OutletEvent : Type 0 where
  sends : Key → OutletEvent
  proves : Key → OutletEvent
  sets_timeout : Key → Bool → Option ℕ → OutletEvent
  sets_delivered : Key → Bool → OutletEvent
  extends : Key → ℕ → OutletEvent
  fires : Key → OutletEvent

unfoldable pub outlet_step : OutletEvent → Outlet → Outlet
outlet_step (sends k) s = outlet_send k s
outlet_step (proves k) s = (on_proof k s).0
outlet_step (sets_timeout k callback t) s = set_packet_timeout_callback k callback t s
outlet_step (sets_delivered k callback) s = set_packet_delivered_callback k callback s
outlet_step (extends k t) s = extend_timeout k t s
outlet_step (fires k) s = (timer_fires k s).0

unfoldable pub outlet_run : List OutletEvent → Outlet → Outlet
outlet_run [] s = s
outlet_run (e ∷ events) s = outlet_run events (outlet_step e s)
