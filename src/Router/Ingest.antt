-- ===== src/Router/Ingest.antt =====
-- What `addOrUpdateRoute` of packages/core/src/transport/router.js accepts, and what it stores.
use reticulum_js.Common.{
  ℕ, ◌≤◌, ◌<◌, ◌≡◌, ◌≢◌, ◌⊎◌, ◌↔◌, refl, sym, ◌∙◌, arith, true, false, Option, none, some, List, [],
  ◌∷◌, ◌++◌, length, All, IsByte, Bool-cases, Option-cases, inl, inr,
}
use reticulum_js.Common.Dict
use reticulum_js.Common.Dict.{Key, Dict, str_eq, str_eq_iff, get-set, get-set_self, get-set_other}
use reticulum_js.Encoding.{to_hex}
use reticulum_js.Router.{
  max_random_blobs, Route, Entry, Readings, Table, emission_time, timebase_from_blobs,
  timebase_loop, is_replay, emitted_of, gravity_wins, is_unresponsive, Verdict, refuse, replace,
  replace_keeping_state, verdict_existing, verdict, blobs_of, record_blob, new_route,
  add_or_update_route,
}
use reticulum_js.Router.Blobs.{
  timebase-append, length-trim_blobs, trim_blobs-append, has_blob-emission, timebase-cons,
}

-- The blobs of a route and of an entry are byte arrays.
abbrev pub BlobsAreBytes : Route → Entry → Type 0
BlobsAreBytes r entry =
    All (All IsByte) r.random_blobs
    × ((blob : List ℕ) → entry.random_blob ≡ some blob → All IsByte blob)

replay-emission :
    (r : Route) (entry : Entry)
    → BlobsAreBytes r entry
    → is_replay (some r) entry.random_blob ≡ true
    → emitted_of entry.random_blob ≤ timebase_from_blobs r.random_blobs
replay-emission r entry (hr, he) h = elim (Option-cases entry.random_blob) [
  | inl e ↦ absurd_none (rw e at h)
  | inr (blob, e) ↦ rw e (with_blob blob (he blob e) (rw e at h))
]
  where
    absurd_none :
        is_replay (some r) none ≡ true
        → emitted_of entry.random_blob ≤ timebase_from_blobs r.random_blobs
    absurd_none h' = unfold is_replay in cc

    with_blob :
        (blob : List ℕ)
        → All IsByte blob
        → is_replay (some r) (some blob) ≡ true
        → emitted_of (some blob) ≤ timebase_from_blobs r.random_blobs
    with_blob blob hb h' =
        unfold is_replay emitted_of in has_blob-emission blob r.random_blobs hb hr h'

-- The two cases in which an announce whose blob is recorded replaces the route all the same.
abbrev pub IsTakenAgain : Route → Entry → ℕ → Type 0
IsTakenAgain r entry now =
    (emitted_of entry.random_blob ≡ timebase_from_blobs r.random_blobs)
    × (((entry.hops ≤ r.hops) × (gravity_wins r.iface entry.via_interface ≡ true))
        ⊎ ((r.hops < entry.hops) × (now < r.expires) × (is_unresponsive r.state ≡ true)))

-- Where blobs are byte arrays, an announce whose blob is already recorded is refused, or it replaces the
-- route with the liveness state kept; it replaces the route exactly when it is of the newest emission
-- and either no longer, through an interface of higher gravity, or longer, over a path marked
-- unresponsive that has not expired.
pub replay_is_not_fresh :
    (r : Route) (entry : Entry) (now : ℕ)
    → BlobsAreBytes r entry
    → is_replay (some r) entry.random_blob ≡ true
    → ((verdict_existing r entry now ≡ refuse)
        ⊎ (verdict_existing r entry now ≡ replace_keeping_state))
      × ((verdict_existing r entry now ≡ replace_keeping_state) ↔ IsTakenAgain r entry now)
unfolding verdict_existing
replay_is_not_fresh r entry now bytes h = (
  ground (arith, replay-emission r entry bytes h),
  (ground (arith, replay-emission r entry bytes h), λ again. taken again.0 again.1),
)
  where
    taken :
        emitted_of entry.random_blob ≡ timebase_from_blobs r.random_blobs
        → ((entry.hops ≤ r.hops) × (gravity_wins r.iface entry.via_interface ≡ true))
          ⊎ ((r.hops < entry.hops) × (now < r.expires) × (is_unresponsive r.state ≡ true))
        → verdict_existing r entry now ≡ replace_keeping_state
    taken e (inl c) = ground (arith, e, c)
    taken e (inr c) = ground (arith, e, c)

-- A stale announce, one emitted before the newest recorded emission, changes nothing, unless its
-- path is longer and the stored one has expired.
pub stale_is_refused :
    (routes : Table) (destination : List ℕ) (entry : Entry) (now : Readings) (r : Route)
    → Dict.get (to_hex destination) routes ≡ some r
    → emitted_of entry.random_blob < timebase_from_blobs r.random_blobs
    → (entry.hops ≤ r.hops) ⊎ (now.at_check < r.expires)
    → add_or_update_route routes destination entry now ≡ (routes, false)
unfolding add_or_update_route verdict verdict_existing
stale_is_refused routes destination entry now r e stale reason = ground (arith, e)

length-record_blob :
    (existing : Option Route) (blob : Option (List ℕ))
    → length (blobs_of existing) ≤ max_random_blobs
    → length (record_blob existing blob) ≤ max_random_blobs
unfolding record_blob
length-record_blob existing none h = h
length-record_blob existing (some b) h =
    ground (arith, length-trim_blobs (blobs_of existing ++ b ∷ []))

pub length-new_route :
    (existing : Option Route) (entry : Entry) (v : Verdict) (now : Readings)
    → length (blobs_of existing) ≤ max_random_blobs
    → length (new_route existing entry v now).random_blobs ≤ max_random_blobs
unfolding new_route
length-new_route existing entry v now h = length-record_blob existing entry.random_blob h

-- What is stored is as fresh as what was announced, where that is no staler than what was there.
timebase-record_blob :
    (r : Route) (blob : Option (List ℕ))
    → timebase_from_blobs r.random_blobs ≤ emitted_of blob
    → timebase_from_blobs r.random_blobs ≤ timebase_from_blobs (record_blob (some r) blob)
unfolding record_blob blobs_of
timebase-record_blob r none h = omega arith
timebase-record_blob r (some b) h = elim (Bool-cases (is_replay (some r) (some b))) [
  | inl e ↦ rw e (omega arith)
  | inr e ↦
      let (rest, cut) = trim_blobs-append r.random_blobs b in
      rw (e, cut) (omega (arith, timebase-append rest (b ∷ []), timebase-cons b [], emitted h))
]
  where
    emitted :
        timebase_from_blobs r.random_blobs ≤ emitted_of (some b)
        → timebase_from_blobs r.random_blobs ≤ emission_time b
    emitted h' = unfold emitted_of in h'

pub refused_keeps :
    (routes : Table) (destination : List ℕ) (entry : Entry) (now : Readings)
    → (add_or_update_route routes destination entry now).1 ≡ false
    → (add_or_update_route routes destination entry now).0 ≡ routes
unfolding add_or_update_route
refused_keeps routes destination entry now h = ground (arith, h)

-- An accepted entry is stored under its key, and no other key is touched.
pub accepted :
    (routes : Table) (destination : List ℕ) (entry : Entry) (now : Readings)
    → (add_or_update_route routes destination entry now).1 ≡ true
    → (v : Verdict) × (verdict (Dict.get (to_hex destination) routes) entry now.at_check ≡ v)
      × (v ≢ refuse)
      × ((add_or_update_route routes destination entry now).0
          ≡ Dict.set
              (to_hex destination)
              (new_route (Dict.get (to_hex destination) routes) entry v now)
              routes)
unfolding add_or_update_route
accepted routes destination entry now h =
    go (verdict (Dict.get (to_hex destination) routes) entry now.at_check) refl
  where
    go :
        (v : Verdict)
        → verdict (Dict.get (to_hex destination) routes) entry now.at_check ≡ v
        → (v : Verdict) × (verdict (Dict.get (to_hex destination) routes) entry now.at_check ≡ v)
          × (v ≢ refuse)
          × ((add_or_update_route routes destination entry now).0
              ≡ Dict.set
                  (to_hex destination)
                  (new_route (Dict.get (to_hex destination) routes) entry v now)
                  routes)
    go refuse e = absurd (ground (arith, e))
    go replace e = (replace, e, λ p. cc, ground (arith, e))
    go replace_keeping_state e = (replace_keeping_state, e, λ p. cc, ground (arith, e))

verdict-emission :
    (r : Route) (entry : Entry) (now : ℕ)
    → verdict_existing r entry now ≢ refuse
    → (entry.hops ≤ r.hops) ⊎ (now < r.expires)
    → timebase_from_blobs r.random_blobs ≤ emitted_of entry.random_blob
unfolding verdict_existing
verdict-emission r entry now h reason = ground arith

verdict-some :
    (r : Route) (entry : Entry) (now : ℕ)
    → verdict (some r) entry now ≡ verdict_existing r entry now
unfolding verdict
verdict-some r entry now = refl

new_route-timebase :
    (r : Route) (entry : Entry) (v : Verdict) (now : Readings)
    → timebase_from_blobs r.random_blobs ≤ emitted_of entry.random_blob
    → timebase_from_blobs r.random_blobs
      ≤ timebase_from_blobs (new_route (some r) entry v now).random_blobs
unfolding new_route
new_route-timebase r entry v now h = timebase-record_blob r entry.random_blob h

timebase-nothing : (n : ℕ) → timebase_from_blobs (blobs_of none) ≤ n
unfolding blobs_of timebase_from_blobs timebase_loop
timebase-nothing n = omega arith

-- An entry that is no staler than what is stored, or no route is stored, or the entry is longer and the
-- route has expired.
fresh_or_expired :
    (existing : Option Route) (entry : Entry) (v : Verdict) (now : Readings)
    → verdict existing entry now.at_check ≡ v
    → v ≢ refuse
    → (timebase_from_blobs (blobs_of existing)
        ≤ timebase_from_blobs (new_route existing entry v now).random_blobs)
      ⊎ ((r : Route) × (existing ≡ some r) × (r.hops < entry.hops) × (r.expires ≤ now.at_check))
fresh_or_expired none entry v now e fresh =
    inl (timebase-nothing (timebase_from_blobs (new_route none entry v now).random_blobs))
fresh_or_expired (some r) entry v now e fresh = elim (cases (r.expires) now.at_check) [
  | inl reason ↦ inl (
      unfold blobs_of in
      new_route-timebase r entry v now (
        verdict-emission r entry now.at_check
          (λ p. fresh (sym e ∙ verdict-some r entry now.at_check ∙ p)) reason))
  | inr old ↦ inr (r, refl, old.0, old.1)
]
  where
    cases : (x t : ℕ) → ((entry.hops ≤ r.hops) ⊎ (t < x)) ⊎ ((r.hops < entry.hops) × (x ≤ t))
    cases x t = ground arith

-- An accepted entry is stored under its destination with its hops and next hop, and the other
-- destinations keep their routes. The stored route has no lower timebase than the blobs that were
-- recorded for the destination, of which there are none where it had no route, unless the entry is
-- longer than a route that has expired.
pub timebase_monotone :
    (routes : Table) (destination : List ℕ) (entry : Entry) (now : Readings)
    → (add_or_update_route routes destination entry now).1 ≡ true
    → let routes' = (add_or_update_route routes destination entry now).0 in
      let existing = Dict.get (to_hex destination) routes in
      ((r' : Route) × (Dict.get (to_hex destination) routes' ≡ some r')
        × (r'.hops ≡ entry.hops)
        × (r'.next_hop ≡ entry.next_hop)
        × ((timebase_from_blobs (blobs_of existing) ≤ timebase_from_blobs r'.random_blobs)
            ⊎ ((r : Route) × (existing ≡ some r)
                × (r.hops < entry.hops)
                × (r.expires ≤ now.at_check))))
      × ((k : Key) → k ≢ to_hex destination → Dict.get k routes' ≡ Dict.get k routes)
timebase_monotone routes destination entry now h =
    let (v, ev, fresh, stored) = accepted routes destination entry now h in
    let existing : Option Route = Dict.get (to_hex destination) routes in
    (
      (
        new_route existing entry v now,
        rw stored (get-set_self (to_hex destination) (new_route existing entry v now) routes),
        unfold new_route in refl,
        unfold new_route in refl,
        fresh_or_expired existing entry v now ev fresh,
      ),
      λ k other. rw stored (other_key k other _ routes),
    )
  where
    other_key :
        (k : Key)
        → k ≢ to_hex destination
        → (x : Route) (d : Table) → Dict.get k (Dict.set (to_hex destination) x d) ≡ Dict.get k d
    other_key k other x d = get-set_other (to_hex destination) k x d (λ p. other (sym p))
