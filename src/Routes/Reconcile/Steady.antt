-- ===== src/Routes/Reconcile/Steady.antt =====
-- Reconciling again what is already in place.
use netpilot.Base.{
  ◌≡◌, refl, sym, ◌∙◌, true, some, List, [], ◌∷◌, ◌++◌, append_assoc, append-nil, arith, All,
}
use netpilot.Base.Text.{Bytes, str_eq, str_eq_iff}
use netpilot.Protocol.Types.{RouteSpec, RouteCheck}
use netpilot.Routes.Row.{equal}
use netpilot.Routes.Net.{Net}
use netpilot.Routes.Entry.{inspect}
use netpilot.Routes.Inventory.{save}
use netpilot.Routes.Reconcile.{
  Pass, empty_result, listed, start, removal_loop, check_route, place_route, placement_loop,
  both_loops, reconcile, conclude, keep, record_check, changed_of,
}
use netpilot.Routes.Reconcile.Validated.{IsValid}
use netpilot.Routes.Reconcile.Answers.{valid→invalid_errors, validated_of_self}

str_eq_refl : (s : Bytes) → str_eq s s ≡ true
str_eq_refl s = (str_eq_iff s s).1 refl

equal_refl : (route : RouteSpec) → equal route route ≡ true
unfolding equal
equal_refl route = simp str_eq_refl

module _ (n : Net) where
  open n use {World}

  -- Inspect finds `route` in the forward table and verifies it.
  pub record InPlace (w : World) (route : RouteSpec) : Type 0 where
    pub check : RouteCheck
    pub seen : inspect n route w ≡ some check
    pub exact : check.exact_present ≡ true
    pub verified : check.verified ≡ true

  abbrev pub checks_in :
      (w : World) (routes : List RouteSpec) → All (InPlace w) routes → List RouteCheck
  checks_in w [] h = []
  checks_in w (route ∷ rest) h = h.0.check ∷ checks_in w rest h.1

  -- Every route of `routes` is found in `managed`.
  abbrev Within : List RouteSpec → List RouteSpec → Type 0
  Within managed routes = All (λ route. listed route managed ≡ true) routes

  Within-cons :
      (route : RouteSpec) (managed routes : List RouteSpec)
      → Within managed routes
      → Within (route ∷ managed) routes
  unfolding listed
  Within-cons route managed [] h = tt
  Within-cons route managed (x ∷ rest) h = (ground (arith, h.0), Within-cons route managed rest h.1)

  Within-self : (routes : List RouteSpec) → Within routes routes
  unfolding listed
  Within-self [] = tt
  Within-self (route ∷ rest) =
      (rw (equal_refl route), Within-cons route rest rest (Within-self rest))

  removal_loop-Within :
      (validated routes : List RouteSpec) (p : Pass n)
      → Within validated routes
      → removal_loop n validated routes p ≡ some p
  unfolding removal_loop
  removal_loop-Within validated [] p h = refl
  removal_loop-Within validated (route ∷ rest) p h =
      rw (h.0, removal_loop) (removal_loop-Within validated rest p h.1)

  -- One route that is in place: it is kept, with its check.
  placed : RouteSpec → RouteCheck → Pass n → Pass n
  placed route check p = record p {
    next = p.next ++ route ∷ [];
    route_checks = p.route_checks ++ check ∷ [];
  }

  place_route-in_place :
      (managed : List RouteSpec) (route : RouteSpec) (p : Pass n)
      → listed route managed ≡ true
      → (h : InPlace p.world route) → place_route n managed route p ≡ some (placed route h.check p)
  unfolding place_route check_route record_check keep placed
  place_route-in_place managed route p l h = ground (arith, h.seen, h.exact, h.verified)

  placement_loop-in_place :
      (managed routes : List RouteSpec) (p : Pass n)
      → Within managed routes
      → (h : All (InPlace p.world) routes)
      → placement_loop n managed routes p
        ≡ some (record p {
          next = p.next ++ routes;
          route_checks = p.route_checks ++ checks_in p.world routes h;
        })
  unfolding placement_loop placed
  placement_loop-in_place managed [] p l h = λ i. some (record p {
    next = sym (append-nil p.next) i;
    route_checks = sym (append-nil p.route_checks) i;
  })
  placement_loop-in_place managed (route ∷ rest) p l h =
      rw (place_route-in_place managed route p l.0 h.0, placement_loop)
        (placement_loop-in_place managed rest (placed route h.0.check p) l.1 h.1 ∙ λ i.
          some (record p {
            next = append_assoc p.next (route ∷ []) rest i;
            route_checks =
                append_assoc p.route_checks (h.0.check ∷ []) (checks_in p.world rest h.1) i;
          }))

  changed_of-nil : (checks : List RouteCheck) → changed_of n [] checks [] ≡ []
  unfolding changed_of
  changed_of-nil [] = refl
  changed_of-nil (check ∷ rest) = ground (arith, changed_of-nil rest)

  both_loops-in_place :
      (routes : List RouteSpec) (w : World) (h : All (InPlace w) routes)
      → both_loops n routes routes w
        ≡ some (record (start n w) { next = routes; route_checks = checks_in w routes h })
  unfolding both_loops start
  both_loops-in_place routes w h =
      rw (removal_loop-Within routes routes (start n w) (Within-self routes), both_loops)
        (placement_loop-in_place routes routes (start n w) (Within-self routes) h)

  -- If the desired routes are the inventory itself, and each of them is valid and in place, then
  -- Reconcile adds, removes and resets nothing, reports success with the checks that were seen, and
  -- keeps the inventory, which it writes again.
  pub reconcile_steady :
      (routes : List RouteSpec) (w : World)
      → All IsValid routes
      → (h : All (InPlace w) routes)
      → reconcile n routes routes w
        ≡ some (record {
          result = record empty_result { ok = true; route_checks = checks_in w routes h };
          managed = routes;
          world = save n routes w;
        })
  unfolding reconcile conclude start
  reconcile_steady routes w valid h =
      rw (valid→invalid_errors routes valid, reconcile)
        (rw (validated_of_self routes (valid→invalid_errors routes valid))
          (rw (both_loops-in_place routes w h) (rw (changed_of-nil (checks_in w routes h)) refl)))
