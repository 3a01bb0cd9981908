-- ===== src/Router/Lookup.antt =====
-- The other methods of `RoutingTable` in packages/core/src/transport/router.js. A method that
-- mutates a `Route` in place stores the changed record under its key.
use reticulum_js.Common.{
  ℕ, ◌+◌, Bool, true, false, Option, none, some, List, [], ◌∷◌, leb, ◌==◌, if◌then◌else◌,
}
use reticulum_js.Common.Dict
use reticulum_js.Common.Dict.{Key, Dict}
use reticulum_js.Encoding.{to_hex}
use reticulum_js.Router.{PathState, unknown, Iface, Route, Table, path_expiry_ms, is_unresponsive}

unfoldable pub mark_state : Table → List ℕ → PathState → Table × Bool
mark_state routes destination state = elim (Dict.get (to_hex destination) routes) [
  | none ↦ (routes, false)
  | some route ↦ (Dict.set (to_hex destination) (record route { state = state }) routes, true)
]

unfoldable pub get_state : Table → List ℕ → PathState
get_state routes destination = elim (Dict.get (to_hex destination) routes) [
  | none ↦ unknown
  | some route ↦ route.state
]

unfoldable pub path_is_unresponsive : Table → List ℕ → Bool
path_is_unresponsive routes destination = is_unresponsive (get_state routes destination)

unfoldable pub expire_route : Table → List ℕ → Table × Bool
expire_route routes destination = elim (Dict.get (to_hex destination) routes) [
  | none ↦ (routes, false)
  | some route ↦ (Dict.delete (to_hex destination) routes, true)
]

unfoldable pub set_hops : Table → List ℕ → ℕ → Table × Bool
set_hops routes destination hops = elim (Dict.get (to_hex destination) routes) [
  | none ↦ (routes, false)
  | some route ↦ (Dict.set (to_hex destination) (record route { hops = hops }) routes, true)
]

-- `interfaceResolver`, which may be absent and may find nothing.
abbrev pub Resolver : Type 0
Resolver = List ℕ → Option Iface

-- `!route.interface && route.interfaceName && this.interfaceResolver`, then the resolver; the empty
-- name is falsy.
unfoldable pub reassociate : Option Resolver → Route → Option Iface
reassociate resolver route = elim route.iface [
  | some i ↦ none
  | none ↦ elim route.interface_name [
    | none ↦ none
    | some name ↦ elim name [
      | [] ↦ none
      | ◌∷◌ c rest ↦ elim resolver [ none ↦ none | some resolve ↦ resolve (c ∷ rest) ]
    ]
  ]
]

unfoldable pub get_route : Option Resolver → Table → List ℕ → ℕ → Table × Option Route
get_route resolver routes destination now =
    let dest_key = to_hex destination in
    elim (Dict.get dest_key routes) [
      | none ↦ (routes, none)
      | some route ↦
          if leb (route.timestamp + path_expiry_ms) now
          then (Dict.delete dest_key routes, none)
          else elim (reassociate resolver route) [
            | none ↦ (routes, some route)
            | some i ↦ (
              Dict.set dest_key (record route { iface = some i }) routes,
              some (record route { iface = some i }),
            )
          ]
    ]

unfoldable pub has_route : Option Resolver → Table → List ℕ → ℕ → Table × Bool
has_route resolver routes destination now =
    let (routes', route) = get_route resolver routes destination now in
    (routes', elim route [ none ↦ false | some r ↦ true ])

-- `route.interface === failedInterface`
unfoldable pub learned_through : Iface → Route → Bool
learned_through failed route = elim route.iface [ none ↦ false | some i ↦ i.id == failed.id ]

unfoldable pub drop_interface : Table → Iface → Table
drop_interface [] failed = []
drop_interface ((k, route) ∷ routes) failed =
    let rest = drop_interface routes failed in
    if learned_through failed route then rest else (k, route) ∷ rest
