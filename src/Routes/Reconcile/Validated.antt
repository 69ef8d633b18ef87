-- ===== src/Routes/Reconcile/Validated.antt =====
-- Reconcile ends: its loops run through their lists, and no validated route makes PopulateRow fail
-- outside its error path.
use netpilot.Base.{
  ◌≡◌, ◌≢◌, inl, inr, Bool, true, false, none, some, List, [], ◌∷◌, arith, All, Bool-cases,
  Option-cases,
}
use netpilot.Protocol.Types.{RouteSpec, RouteCheck}
use netpilot.Protocol.Validate.{is_valid_route}
use netpilot.Routes.Row.Safe.{populate_row-ne-fault}
use netpilot.Routes.Net.{Net}
use netpilot.Routes.Entry.{thrown, add, remove, inspect}
use netpilot.Routes.Inventory.{remove_all}
use netpilot.Routes.Reconcile.{
  Pass, Outcome, validated_of, listed, start, drop_route, removal_loop, repair, check_route,
  add_new, place_route, placement_loop, both_loops, reconcile,
}

abbrev pub IsValid : RouteSpec → Type 0
IsValid route = is_valid_route route ≡ none

validated_of-IsValid : (desired : List RouteSpec) → All IsValid (validated_of desired)
unfolding validated_of
validated_of-IsValid [] = tt
validated_of-IsValid (route ∷ rest) = ground (arith, validated_of-IsValid rest)

module _ (n : Net) where
  open n use {World, inet_pton}

  add-ne-thrown : (route : RouteSpec) (w : World) → IsValid route → add n route w ≢ thrown
  unfolding add
  add-ne-thrown route w h = ground (arith, populate_row-ne-fault inet_pton route h)

  pub remove-ne-thrown : (route : RouteSpec) (w : World) → IsValid route → remove n route w ≢ thrown
  unfolding remove
  remove-ne-thrown route w h = ground (arith, populate_row-ne-fault inet_pton route h)

  inspect-ne-none : (route : RouteSpec) (w : World) → IsValid route → inspect n route w ≢ none
  unfolding inspect
  inspect-ne-none route w h = ground (arith, populate_row-ne-fault inet_pton route h)

  drop_route-ne-none :
      (route : RouteSpec) (p : Pass n) → IsValid route → drop_route n route p ≢ none
  unfolding drop_route
  drop_route-ne-none route p h = ground (arith, remove-ne-thrown route p.world h)

  removal_loop-ne-none :
      (validated managed : List RouteSpec) (p : Pass n)
      → All IsValid managed
      → removal_loop n validated managed p ≢ none
  unfolding removal_loop
  removal_loop-ne-none validated [] p h = λ e. cc
  removal_loop-ne-none validated (route ∷ rest) p h = elim (Bool-cases (listed route validated)) [
    | inl b ↦ rw b (removal_loop-ne-none validated rest p h.1)
    | inr b ↦ elim (Option-cases (drop_route n route p)) [
      | inl e ↦ absurd (drop_route-ne-none route p h.0 e)
      | inr (p', e) ↦ rw (b, e) (removal_loop-ne-none validated rest p' h.1)
    ]
  ]

  repair-ne-none :
      (route : RouteSpec) (check : RouteCheck) (p : Pass n)
      → IsValid route
      → repair n route check p ≢ none
  unfolding repair
  repair-ne-none route check p h =
      grind (arith, add-ne-thrown route p.world h, λ (w : World). inspect-ne-none route w h)

  check_route-ne-none :
      (recorded : Bool) (route : RouteSpec) (p : Pass n)
      → IsValid route
      → check_route n recorded route p ≢ none
  unfolding check_route
  check_route-ne-none recorded route p h =
      grind (arith, inspect-ne-none route p.world h, λ (c : RouteCheck). repair-ne-none route c p h)

  add_new-ne-none : (route : RouteSpec) (p : Pass n) → IsValid route → add_new n route p ≢ none
  unfolding add_new
  add_new-ne-none route p h =
      grind
        (arith, add-ne-thrown route p.world h, λ (q : Pass n). check_route-ne-none false route q h)

  place_route-ne-none :
      (managed : List RouteSpec) (route : RouteSpec) (p : Pass n)
      → IsValid route
      → place_route n managed route p ≢ none
  unfolding place_route
  place_route-ne-none managed route p h =
      grind (arith, add_new-ne-none route p h, λ (q : Pass n). check_route-ne-none true route q h)

  placement_loop-ne-none :
      (managed validated : List RouteSpec) (p : Pass n)
      → All IsValid validated
      → placement_loop n managed validated p ≢ none
  unfolding placement_loop
  placement_loop-ne-none managed [] p h = λ e. cc
  placement_loop-ne-none managed (route ∷ rest) p h =
      elim (Option-cases (place_route n managed route p)) [
        | inl e ↦ absurd (place_route-ne-none managed route p h.0 e)
        | inr (p', e) ↦ rw (e, placement_loop) (placement_loop-ne-none managed rest p' h.1)
      ]

  both_loops-ne-none :
      (managed validated : List RouteSpec) (w : World)
      → All IsValid managed
      → All IsValid validated
      → both_loops n managed validated w ≢ none
  unfolding both_loops
  both_loops-ne-none managed validated w hm hv =
      elim (Option-cases (removal_loop n validated managed (start n w))) [
        | inl e ↦ absurd (removal_loop-ne-none validated managed (start n w) hm e)
        | inr (p, e) ↦ rw (e, both_loops) (placement_loop-ne-none managed validated p hv)
      ]

  -- Whatever is desired, and whatever Windows answers: if the managed routes are valid, Reconcile
  -- returns.
  pub reconcile_total :
      (managed desired : List RouteSpec) (w : World)
      → All IsValid managed
      → (o : Outcome n) × (reconcile n managed desired w ≡ some o)
  unfolding reconcile
  reconcile_total managed desired w h = elim (Option-cases (reconcile n managed desired w)) [
    | inl e ↦ absurd (
        ground (
          arith,
          e,
          both_loops-ne-none managed (validated_of desired) w h (validated_of-IsValid desired),
        ))
    | inr found ↦ found
  ]

  remove_all-ne-none :
      (managed : List RouteSpec) (w : World) → All IsValid managed → remove_all n managed w ≢ none
  unfolding remove_all
  remove_all-ne-none [] w h = λ e. cc
  remove_all-ne-none (route ∷ rest) w h =
      grind (arith, remove-ne-thrown route w h.0, λ (w' : World). remove_all-ne-none rest w' h.1)
