-- ===== src/Router/Calls.antt =====
-- What every sequence of calls of `RoutingTable` in packages/core/src/transport/router.js keeps.
use reticulum_js.Common.{
  ℕ, ◌+◌, ◌≤◌, ◌≡◌, refl, ap, arith, Option, some, List, [], ◌∷◌, leb, length, All, Bool-cases,
  Option-cases, inl, inr,
}
use reticulum_js.Common.Dict
use reticulum_js.Common.Dict.{
  Key, Dict, str_eq, str_eq_iff, get-set, get-delete, get-set_self, get-delete_self, get-set_other,
  get-delete_other,
}
use reticulum_js.Encoding.{to_hex}
use reticulum_js.Router.{
  max_random_blobs, path_expiry_ms, PathState, Iface, Route, Entry, Readings, Table, blobs_of,
  new_route, add_or_update_route,
}
use reticulum_js.Router.Lookup.{
  mark_state, expire_route, set_hops, Resolver, reassociate, get_route, learned_through,
  drop_interface,
}
use reticulum_js.Router.Ingest.{length-new_route, accepted, refused_keeps}

-- No route keeps more than 64 blobs.
unfoldable pub IsTrimmed : Table → Type 0
IsTrimmed routes = All (λ entry. length entry.1.random_blobs ≤ max_random_blobs) routes

set-IsTrimmed :
    (k : Key) (r : Route) (routes : Table)
    → length r.random_blobs ≤ max_random_blobs
    → IsTrimmed routes
    → IsTrimmed (Dict.set k r routes)
unfolding IsTrimmed Dict.set
set-IsTrimmed k r [] h trimmed = (h, tt)
set-IsTrimmed k r ((j, s) ∷ routes) h (hs, trimmed) = elim (Bool-cases (str_eq j k)) [
  | inl e ↦ rw e (h, trimmed)
  | inr e ↦ rw e (hs, set-IsTrimmed k r routes h trimmed)
]

delete-IsTrimmed : (k : Key) (routes : Table) → IsTrimmed routes → IsTrimmed (Dict.delete k routes)
unfolding IsTrimmed Dict.delete
delete-IsTrimmed k [] trimmed = tt
delete-IsTrimmed k ((j, s) ∷ routes) (hs, trimmed) = elim (Bool-cases (str_eq j k)) [
  | inl e ↦ rw e (delete-IsTrimmed k routes trimmed)
  | inr e ↦ rw e (hs, delete-IsTrimmed k routes trimmed)
]

get-IsTrimmed :
    (k : Key) (r : Route) (routes : Table)
    → IsTrimmed routes
    → Dict.get k routes ≡ some r
    → length r.random_blobs ≤ max_random_blobs
unfolding IsTrimmed Dict.get
get-IsTrimmed k r [] trimmed e = cc
get-IsTrimmed k r ((j, s) ∷ routes) (hs, trimmed) e =
    ground (arith, get-IsTrimmed k r routes trimmed, ap Route.random_blobs)

-- A call of the table.
pub data Call : Type 0 where
  add : List ℕ → Entry → Readings → Call
  mark : List ℕ → PathState → Call
  expire : List ℕ → Call
  hops : List ℕ → ℕ → Call
  lookup : Option Resolver → List ℕ → ℕ → Call
  interface_down : Iface → Call

unfoldable pub apply : Table → Call → Table
apply routes (add d entry now) = (add_or_update_route routes d entry now).0
apply routes (mark d s) = (mark_state routes d s).0
apply routes (expire d) = (expire_route routes d).0
apply routes (hops d n) = (set_hops routes d n).0
apply routes (lookup resolver d now) = (get_route resolver routes d now).0
apply routes (interface_down i) = drop_interface routes i

unfoldable pub apply_all : Table → List Call → Table
apply_all routes [] = routes
apply_all routes (c ∷ calls) = apply_all (apply routes c) calls

blobs_of-IsTrimmed :
    (k : Key) (routes : Table)
    → IsTrimmed routes
    → length (blobs_of (Dict.get k routes)) ≤ max_random_blobs
unfolding blobs_of
blobs_of-IsTrimmed k routes trimmed = elim (Option-cases (Dict.get k routes)) [
  | inl e ↦ rw e (omega arith)
  | inr (r, e) ↦ rw e (get-IsTrimmed k r routes trimmed e)
]

add-IsTrimmed :
    (routes : Table) (d : List ℕ) (entry : Entry) (now : Readings)
    → IsTrimmed routes
    → IsTrimmed (add_or_update_route routes d entry now).0
add-IsTrimmed routes d entry now trimmed =
    elim (Bool-cases (add_or_update_route routes d entry now).1) [
      | inl taken ↦
          let (v, _, _, stored) = accepted routes d entry now taken in
          rw stored (
            set-IsTrimmed (to_hex d) (new_route (Dict.get (to_hex d) routes) entry v now) routes
              (length-new_route (Dict.get (to_hex d) routes) entry v now
                (blobs_of-IsTrimmed (to_hex d) routes trimmed))
              trimmed)
      | inr refused ↦ rw (refused_keeps routes d entry now refused) trimmed
    ]

-- A route that keeps the stored one's blobs may replace it.
reset-IsTrimmed :
    (k : Key) (r r' : Route) (routes : Table)
    → Dict.get k routes ≡ some r
    → r'.random_blobs ≡ r.random_blobs
    → IsTrimmed routes
    → IsTrimmed (Dict.set k r' routes)
reset-IsTrimmed k r r' routes e same trimmed =
    set-IsTrimmed k r' routes (rw same (get-IsTrimmed k r routes trimmed e)) trimmed

mark-IsTrimmed :
    (routes : Table) (d : List ℕ) (s : PathState)
    → IsTrimmed routes
    → IsTrimmed (mark_state routes d s).0
unfolding mark_state
mark-IsTrimmed routes d s trimmed = elim (Option-cases (Dict.get (to_hex d) routes)) [
  | inl e ↦ rw (mark_state, e) trimmed
  | inr (r, e) ↦ rw (mark_state, e) (reset-IsTrimmed (to_hex d) r _ routes e refl trimmed)
]

expire-IsTrimmed :
    (routes : Table) (d : List ℕ) → IsTrimmed routes → IsTrimmed (expire_route routes d).0
unfolding expire_route
expire-IsTrimmed routes d trimmed = elim (Option-cases (Dict.get (to_hex d) routes)) [
  | inl e ↦ rw (expire_route, expire_route, e) trimmed
  | inr (r, e) ↦ rw (expire_route, expire_route, e) (delete-IsTrimmed (to_hex d) routes trimmed)
]

hops-IsTrimmed :
    (routes : Table) (d : List ℕ) (n : ℕ) → IsTrimmed routes → IsTrimmed (set_hops routes d n).0
unfolding set_hops
hops-IsTrimmed routes d n trimmed = elim (Option-cases (Dict.get (to_hex d) routes)) [
  | inl e ↦ rw (set_hops, e) trimmed
  | inr (r, e) ↦ rw (set_hops, e) (reset-IsTrimmed (to_hex d) r _ routes e refl trimmed)
]

get_route-IsTrimmed :
    (resolver : Option Resolver) (routes : Table) (d : List ℕ) (now : ℕ)
    → IsTrimmed routes
    → IsTrimmed (get_route resolver routes d now).0
unfolding get_route
get_route-IsTrimmed resolver routes d now trimmed =
    elim (Option-cases (Dict.get (to_hex d) routes)) [
      | inl e ↦ rw (get_route, e) trimmed
      | inr (r, e) ↦ elim (Bool-cases (leb (r.timestamp + path_expiry_ms) now)) [
        | inl old ↦ rw (get_route, e, old) (delete-IsTrimmed (to_hex d) routes trimmed)
        | inr live ↦ elim (Option-cases (reassociate resolver r)) [
          | inl none_found ↦ rw (get_route, e, live, none_found) trimmed
          | inr (i, found) ↦
              rw (get_route, e, live, found) (reset-IsTrimmed (to_hex d) r _ routes e refl trimmed)
        ]
      ]
    ]

drop_interface-IsTrimmed :
    (routes : Table) (i : Iface) → IsTrimmed routes → IsTrimmed (drop_interface routes i)
unfolding IsTrimmed drop_interface
drop_interface-IsTrimmed [] i trimmed = tt
drop_interface-IsTrimmed ((k, r) ∷ routes) i (h, trimmed) =
    elim (Bool-cases (learned_through i r)) [
      | inl e ↦ rw e (drop_interface-IsTrimmed routes i trimmed)
      | inr e ↦ rw e (h, drop_interface-IsTrimmed routes i trimmed)
    ]

apply-IsTrimmed : (routes : Table) (c : Call) → IsTrimmed routes → IsTrimmed (apply routes c)
unfolding apply
apply-IsTrimmed routes (add d entry now) h = add-IsTrimmed routes d entry now h
apply-IsTrimmed routes (mark d s) h = mark-IsTrimmed routes d s h
apply-IsTrimmed routes (expire d) h = expire-IsTrimmed routes d h
apply-IsTrimmed routes (hops d n) h = hops-IsTrimmed routes d n h
apply-IsTrimmed routes (lookup resolver d now) h = get_route-IsTrimmed resolver routes d now h
apply-IsTrimmed routes (interface_down i) h = drop_interface-IsTrimmed routes i h

-- No sequence of calls makes a route keep more than 64 blobs, from any table where none does.
pub apply_all-IsTrimmed :
    (routes : Table) (calls : List Call) → IsTrimmed routes → IsTrimmed (apply_all routes calls)
unfolding apply_all
apply_all-IsTrimmed routes [] h = h
apply_all-IsTrimmed routes (c ∷ calls) h =
    apply_all-IsTrimmed (apply routes c) calls (apply-IsTrimmed routes c h)
