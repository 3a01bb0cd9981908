-- ===== src/Router/Access.antt =====
-- Reading and dropping routes: `getRoute` and `dropInterface` of packages/core/src/transport/router.js.
use reticulum_js.Common.{
  ℕ, ◌+◌, ◌<◌, ◌≡◌, ◌≢◌, refl, ap, sym, arith, false, Option, none, some, List, [], ◌∷◌, leb,
  Bool-cases, Option-cases, inl, inr,
}
use reticulum_js.Common.Dict
use reticulum_js.Common.Dict.{
  Key, Dict, str_eq, str_eq_iff, get-set, get-delete, get-set_self, get-delete_self, get-set_other,
  get-delete_other,
}
use reticulum_js.Encoding.{to_hex}
use reticulum_js.Router.{path_expiry_ms, Iface, Route, Table}
use reticulum_js.Router.Lookup.{Resolver, reassociate, get_route, learned_through, drop_interface}

-- After an interface is dropped, no route is learned through it, and each route that was not is
-- still found.
pub drop_interface_lem :
    (i : Iface) (k : Key) (r : Route) (routes : Table)
    → (Dict.get k (drop_interface routes i) ≡ some r → learned_through i r ≡ false)
      × (Dict.get k routes ≡ some r
          → learned_through i r ≡ false
          → Dict.get k (drop_interface routes i) ≡ some r)
unfolding Dict.get drop_interface
drop_interface_lem i k r [] = (λ h. cc, λ h _. cc)
drop_interface_lem i k r ((j, s) ∷ routes) =
    let (gone, kept) = drop_interface_lem i k r routes in
    (
      λ h. ground (arith, h, gone, ap (learned_through i)),
      λ h n. ground (arith, h, n, kept, ap (learned_through i)),
    )

-- A route is found exactly where one is stored that was stamped less than a week ago; what is found
-- is what the table then holds, with the stored next hop and distance; where none is found, none is
-- left; and no other destination is touched.
pub get_route_lem :
    (resolver : Option Resolver) (routes : Table) (d : List ℕ) (now : ℕ)
    → let (routes', found) = get_route resolver routes d now in
      (Dict.get (to_hex d) routes' ≡ found)
      × ((r' : Route)
          → found ≡ some r'
          → (r : Route) × (Dict.get (to_hex d) routes ≡ some r)
            × (now < r.timestamp + path_expiry_ms)
            × (r'.next_hop ≡ r.next_hop)
            × (r'.hops ≡ r.hops))
      × ((r : Route)
          → Dict.get (to_hex d) routes ≡ some r
          → now < r.timestamp + path_expiry_ms
          → found ≢ none)
      × ((k : Key) → k ≢ to_hex d → Dict.get k routes' ≡ Dict.get k routes)
unfolding get_route
get_route_lem resolver routes d now = elim (Option-cases (Dict.get (to_hex d) routes)) [
  | inl e ↦ rw (get_route, e) (e, λ r' h. cc, λ r h _ _. cc, λ k _. refl)
  | inr (r, e) ↦ elim (Bool-cases (leb (r.timestamp + path_expiry_ms) now)) [
    | inl old ↦
        rw (get_route, e, old)
          (
            get-delete_self (to_hex d) routes,
            λ r' h. cc,
            λ s h fresh _. ground (arith, ap (λ o. stamp_of o) h, old),
            λ k other. get-delete_other (to_hex d) k routes (λ p. other (sym p)),
          )
    | inr live ↦ elim (Option-cases (reassociate resolver r)) [
      | inl none_found ↦
          rw (get_route, e, live, none_found)
            (
              e,
              λ r' h. (
                r,
                refl,
                ground (arith, live),
                ap (λ o. hop_of o) (sym h),
                ap (λ o. hops_of o) (sym h),
              ),
              λ s h fresh p. cc,
              λ k _. refl,
            )
      | inr (i, found) ↦
          rw (get_route, e, live, found)
            (
              get-set_self (to_hex d) _ routes,
              λ r' h. (
                r,
                refl,
                ground (arith, live),
                ap (λ o. hop_of o) (sym h),
                ap (λ o. hops_of o) (sym h),
              ),
              λ s h fresh p. cc,
              λ k other. get-set_other (to_hex d) k _ routes (λ p. other (sym p)),
            )
    ]
  ]
]
  where
    hop_of : Option Route → List ℕ
    hop_of none = []
    hop_of (some r) = r.next_hop

    hops_of : Option Route → ℕ
    hops_of none = 0
    hops_of (some r) = r.hops

    stamp_of : Option Route → ℕ
    stamp_of none = 0
    stamp_of (some r) = r.timestamp
