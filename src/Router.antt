-- ===== src/Router.antt =====
-- packages/core/src/transport/router.js: the table of learned paths.
-- Times are milliseconds; `Date.now()` may be read several times in one call, so a call takes the
-- readings. An interface is what the table reads of one: its identity, name and gravity.
pub mod Lookup
pub mod Blobs
pub mod Ingest
pub mod Access
pub mod Calls
mod Tests
use reticulum_js.Common.{
  ℕ, zero, suc, ◌+◌, ◌-◌, ◌*◌, ◌≤◌, ◌<◌, ◌≡◌, Bool, true, false, not, ◌&&◌, ◌||◌, Option, none,
  some, List, [], ◌∷◌, ◌++◌, ltb, leb, ◌==◌, if◌then◌else◌, length, get_or, drop,
}
use reticulum_js.Common.Int.{ℤ, lt_ℤ}
use reticulum_js.Common.Dict
use reticulum_js.Common.Dict.{Key, Dict, str_eq}
use reticulum_js.Encoding.{to_hex, bytes_equal}

abbrev pub path_expiry_ms : ℕ
path_expiry_ms = 60 * 60 * 24 * 7 * 1000

abbrev pub max_random_blobs : ℕ
max_random_blobs = 64

pub data PathState : Type 0 where
  unknown unresponsive responsive : PathState

unfoldable pub is_unresponsive : PathState → Bool
is_unresponsive unresponsive = true
is_unresponsive _ = false

pub record Iface : Type 0 where
  pub id : ℕ
  pub name : Option (List ℕ)
  pub gravity : Option ℤ

pub record Route : Type 0 where
  pub iface : Option Iface
  pub interface_name : Option (List ℕ)
  pub next_hop : List ℕ
  pub hops : ℕ
  pub timestamp : ℕ
  pub expires : ℕ
  pub random_blobs : List (List ℕ)
  pub state : PathState

-- The argument of `addOrUpdateRoute`; `random_blob` is absent where none was given.
pub record Entry : Type 0 where
  pub next_hop : List ℕ
  pub hops : ℕ
  pub via_interface : Option Iface
  pub random_blob : Option (List ℕ)
  pub expires : Option ℕ
  pub timestamp : Option ℕ

-- `Date.now()` where the expiry, the longer path and the time stamp read it.
pub record Readings : Type 0 where
  pub at_expiry : ℕ
  pub at_check : ℕ
  pub at_stamp : ℕ

abbrev pub Table : Type 0
Table = Dict Route

-- `t = t * 256 + randomBlob[i]` for the bytes that are left.
big_endian : ℕ → ℕ → List ℕ → ℕ
big_endian zero t bytes = t
big_endian (suc n) t [] = t
big_endian (suc n) t (b ∷ bytes) = big_endian n (t * 256 + b) bytes

unfoldable pub emission_time : List ℕ → ℕ
unfolding big_endian
emission_time blob = if ltb (length blob) 10 then 0 else big_endian 5 0 (drop 5 blob)

-- The loop of `timebaseFromBlobs`.
unfoldable pub timebase_loop : ℕ → List (List ℕ) → ℕ
timebase_loop t [] = t
timebase_loop t (b ∷ blobs) =
    let e : ℕ = emission_time b in timebase_loop (if ltb t e then e else t) blobs

unfoldable pub timebase_from_blobs : List (List ℕ) → ℕ
timebase_from_blobs blobs = timebase_loop 0 blobs

-- `blobs.some((b) => bytesEqual(b, blob))`
unfoldable pub has_blob : List ℕ → List (List ℕ) → Bool
has_blob blob [] = false
has_blob blob (b ∷ blobs) =
    let rest = has_blob blob blobs in if bytes_equal b blob then true else rest

unfoldable pub is_replay : Option Route → Option (List ℕ) → Bool
is_replay none blob = false
is_replay (some r) none = false
is_replay (some r) (some blob) = has_blob blob r.random_blobs

unfoldable pub emitted_of : Option (List ℕ) → ℕ
emitted_of none = 0
emitted_of (some blob) = emission_time blob

-- `viaInterface?.gravity ?? null`
unfoldable pub gravity_of : Option Iface → Option ℤ
gravity_of none = none
gravity_of (some i) = i.gravity

unfoldable pub gravity_wins : Option Iface → Option Iface → Bool
gravity_wins current announce = elim (gravity_of current) [
  | none ↦ false
  | some c ↦ elim (gravity_of announce) [ none ↦ false | some a ↦ lt_ℤ c a ]
]

-- `shouldAdd` and `preserveState` after the tests.
pub data Verdict : Type 0 where
  refuse replace replace_keeping_state : Verdict

unfoldable pub verdict_existing : Route → Entry → ℕ → Verdict
verdict_existing existing entry now =
    let emitted : ℕ = emitted_of entry.random_blob in
    let timebase : ℕ = timebase_from_blobs existing.random_blobs in
    if leb entry.hops existing.hops
    then if ltb timebase emitted
      then replace
      else if emitted == timebase
      then if gravity_wins existing.iface entry.via_interface then replace_keeping_state else refuse
      else refuse
    else if leb existing.expires now
    then if is_replay (some existing) entry.random_blob then refuse else replace
    else if ltb timebase emitted
    then replace
    else if emitted == timebase && is_unresponsive existing.state
    then replace_keeping_state
    else refuse

unfoldable pub verdict : Option Route → Entry → ℕ → Verdict
verdict none entry now = replace
verdict (some existing) entry now = verdict_existing existing entry now

-- `while (randomBlobs.length > MAX_RANDOM_BLOBS) randomBlobs.shift();`
unfoldable pub trim_blobs : List (List ℕ) → List (List ℕ)
trim_blobs [] = []
trim_blobs (b ∷ blobs) =
    let rest = trim_blobs blobs in
    if ltb max_random_blobs (length (b ∷ blobs)) then rest else b ∷ blobs

unfoldable pub blobs_of : Option Route → List (List ℕ)
blobs_of none = []
blobs_of (some r) = r.random_blobs

unfoldable pub record_blob : Option Route → Option (List ℕ) → List (List ℕ)
record_blob existing none = blobs_of existing
record_blob existing (some blob) =
    if is_replay existing (some blob)
    then blobs_of existing
    else trim_blobs (blobs_of existing ++ blob ∷ [])

unfoldable pub next_state : Option Route → Verdict → PathState
next_state (some r) replace_keeping_state = r.state
next_state _ _ = unknown

abbrev pub or_default {ℓ} : {A : Type ℓ} → Option A → A → A
or_default none d = d
or_default (some a) d = a

-- `viaInterface?.name ?? null`
unfoldable pub name_of : Option Iface → Option (List ℕ)
name_of none = none
name_of (some i) = i.name

-- The route that an accepted entry becomes.
unfoldable pub new_route : Option Route → Entry → Verdict → Readings → Route
new_route existing entry v now = record {
  iface = entry.via_interface;
  interface_name = name_of entry.via_interface;
  next_hop = entry.next_hop;
  hops = entry.hops;
  timestamp = or_default entry.timestamp now.at_stamp;
  expires = or_default entry.expires (now.at_expiry + path_expiry_ms);
  random_blobs = record_blob existing entry.random_blob;
  state = next_state existing v;
}

unfoldable pub add_or_update_route : Table → List ℕ → Entry → Readings → Table × Bool
add_or_update_route routes destination entry now =
    let dest_key = to_hex destination in
    let existing = Dict.get dest_key routes in
    elim (verdict existing entry now.at_check) [
      | refuse ↦ (routes, false)
      | replace ↦ (Dict.set dest_key (new_route existing entry replace now) routes, true)
      | replace_keeping_state ↦
          (Dict.set dest_key (new_route existing entry replace_keeping_state now) routes, true)
    ]
