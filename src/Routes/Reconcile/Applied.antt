-- ===== src/Routes/Reconcile/Applied.antt =====
-- What a reconciliation that reports success has done.
use netpilot.Base.{
  ◌≡◌, refl, ap, ◌∙◌, ◌≢◌, inl, inr, Bool, true, false, not, ◌&&◌, some, List, [], ◌∷◌, ◌++◌, map,
  append_assoc, append-nil, arith, All, Bool-cases, Option-cases,
}
use netpilot.Base.Text.{text}
use netpilot.Protocol.Types.{RouteSpec, RouteCheck}
use netpilot.Routes.Net.{Net}
use netpilot.Routes.Entry.{Attempt-cases, add, inspect}
use netpilot.Routes.Reconcile.{
  Pass, listed, drop_route, removal_loop, repair, report, keep, count_added, record_check,
  check_route, add_new, place_route, placement_loop,
}

append-ne-nil {ℓ} : {A : Type ℓ} (xs : List A) (x : A) → xs ++ x ∷ [] ≢ []
append-ne-nil [] x = λ e. cc
append-ne-nil (y ∷ xs) x = λ e. cc

abbrev pub IsVerified : RouteCheck → Type 0
IsVerified check = check.verified ≡ true

module _ (n : Net) where
  open n use {World, inet_pton}

  -- From `p` to `q` a verified check of `route` was added, and no error.
  record Checked (route : RouteSpec) (p q : Pass n) : Type 0 where
    clean : p.errors ≡ []
    next : q.next ≡ p.next
    check : RouteCheck
    destination : check.destination ≡ route.destination
    verified : IsVerified check
    checks : q.route_checks ≡ p.route_checks ++ check ∷ []

  -- The same, and the route went into the inventory.
  record Placed (route : RouteSpec) (p q : Pass n) : Type 0 where
    clean : p.errors ≡ []
    next : q.next ≡ p.next ++ route ∷ []
    check : RouteCheck
    destination : check.destination ≡ route.destination
    verified : IsVerified check
    checks : q.route_checks ≡ p.route_checks ++ check ∷ []

  inspect_destination :
      (route : RouteSpec) (w : World) (check : RouteCheck)
      → inspect n route w ≡ some check
      → check.destination ≡ route.destination
  unfolding inspect
  inspect_destination route w check h = ground arith

  record_check_clean :
      (route : RouteSpec) (check : RouteCheck) (p : Pass n)
      → check.destination ≡ route.destination
      → (record_check n check p).errors ≡ []
      → Checked route p (record_check n check p)
  unfolding record_check
  record_check_clean route check p d h = elim (Bool-cases check.verified) [
    | inl v ↦ record {
      clean = ground arith;
      next = ground arith;
      check = check;
      destination = d;
      verified = v;
      checks = ground arith;
    }
    | inr v ↦ absurd (grind (arith, append-ne-nil))
  ]

  drop_route_clean :
      (route : RouteSpec) (p q : Pass n)
      → drop_route n route p ≡ some q
      → q.errors ≡ []
      → (p.errors ≡ []) × (q.next ≡ p.next) × (q.route_checks ≡ p.route_checks)
  unfolding drop_route
  drop_route_clean route p q h e = grind (arith, append-ne-nil)

  pub removal_loop_clean :
      (validated managed : List RouteSpec) (p q : Pass n)
      → removal_loop n validated managed p ≡ some q
      → q.errors ≡ []
      → (p.errors ≡ []) × (q.next ≡ p.next) × (q.route_checks ≡ p.route_checks)
  unfolding removal_loop
  removal_loop_clean validated [] p q h e = ground arith
  removal_loop_clean validated (route ∷ rest) p q h e = elim (Bool-cases (listed route validated)) [
    | inl b ↦ removal_loop_clean validated rest p q (ground arith) e
    | inr b ↦ elim (Option-cases (drop_route n route p)) [
      | inl none_left ↦ absurd (ground arith)
      | inr (p', step) ↦
          ground (arith, removal_loop_clean validated rest p' q, drop_route_clean route p p' step)
    ]
  ]

  repair_clean :
      (route : RouteSpec) (check : RouteCheck) (p q : Pass n)
      → check.destination ≡ route.destination
      → repair n route check p ≡ some q
      → q.errors ≡ []
      → Checked route p q
  unfolding repair
  repair_clean route check p q d h e = elim (Attempt-cases (add n route p.world)) [
    | inl (w, added) ↦ elim (Option-cases (inspect n route w)) [
      | inl gone ↦ absurd (ground arith)
      | inr (check', seen) ↦
          let last : q ≡ record_check n check' (count_added n route w p) = ground arith in
          let c =
            record_check_clean route check' (count_added n route w p)
              (inspect_destination route w check' seen) (rw last at e) in
          rw last (record {
            clean = c.clean;
            next = c.next;
            check = c.check;
            destination = c.destination;
            verified = c.verified;
            checks = c.checks;
          })
    ]
    | inr (inl (error, w, refused)) ↦
        let p' : Pass n =
          report n (text "repair " ++ (route.destination ++ (text ": " ++ error)))
            (record p { world = w }) in
        let last : q ≡ record_check n check p' = ground arith in
        absurd (append-ne-nil p.errors _ (record_check_clean route check p' d (rw last at e)).clean)
    | inr (inr broken) ↦ absurd (ground arith)
  ]

  check_route_clean :
      (recorded : Bool) (route : RouteSpec) (p q : Pass n)
      → check_route n recorded route p ≡ some q
      → q.errors ≡ []
      → Checked route p q
  unfolding check_route
  check_route_clean recorded route p q h e = elim (Option-cases (inspect n route p.world)) [
    | inl gone ↦ absurd (ground arith)
    | inr (check, seen) ↦ elim (Bool-cases (not check.exact_present && recorded)) [
      | inl b ↦
          repair_clean route check p q (inspect_destination route p.world check seen) (ground arith)
            e
      | inr b ↦
          let done : q ≡ record_check n check p = ground arith in
          rw done (
            record_check_clean route check p (inspect_destination route p.world check seen)
              (rw done at e))
    ]
  ]

  place_recorded :
      (route : RouteSpec) (p q : Pass n) → Checked route (keep n route p) q → Placed route p q
  unfolding keep
  place_recorded route p q c = record {
    clean = c.clean;
    next = c.next;
    check = c.check;
    destination = c.destination;
    verified = c.verified;
    checks = c.checks;
  }

  add_new_clean :
      (route : RouteSpec) (p q : Pass n)
      → add_new n route p ≡ some q
      → q.errors ≡ []
      → Placed route p q
  unfolding add_new
  add_new_clean route p q h e = elim (Attempt-cases (add n route p.world)) [
    | inl (w, added) ↦
        let c =
          check_route_clean false route (keep n route (count_added n route w p)) q (ground arith)
            e in
        record {
          clean = c.clean;
          next = c.next;
          check = c.check;
          destination = c.destination;
          verified = c.verified;
          checks = c.checks;
        }
    | inr (inl (error, w, refused)) ↦ absurd (grind (arith, append-ne-nil))
    | inr (inr broken) ↦ absurd (ground arith)
  ]

  place_route_clean :
      (managed : List RouteSpec) (route : RouteSpec) (p q : Pass n)
      → place_route n managed route p ≡ some q
      → q.errors ≡ []
      → Placed route p q
  unfolding place_route
  place_route_clean managed route p q h e = elim (Bool-cases (listed route managed)) [
    | inl b ↦
        place_recorded route p q (check_route_clean true route (keep n route p) q (ground arith) e)
    | inr b ↦ add_new_clean route p q (ground arith) e
  ]

  -- From `p` to `q` every route was placed, in order.
  pub record AllPlaced (routes : List RouteSpec) (p q : Pass n) : Type 0 where
    pub clean : p.errors ≡ []
    pub next : q.next ≡ p.next ++ routes
    pub added_checks : List RouteCheck
    pub checks : q.route_checks ≡ p.route_checks ++ added_checks
    pub destinations :
        map (λ (c : RouteCheck). c.destination) added_checks
        ≡ map (λ (r : RouteSpec). r.destination) routes
    pub verified : All IsVerified added_checks

  pub placement_loop_clean :
      (managed routes : List RouteSpec) (p q : Pass n)
      → placement_loop n managed routes p ≡ some q
      → q.errors ≡ []
      → AllPlaced routes p q
  unfolding placement_loop
  placement_loop_clean managed [] p q h e = record {
    clean = ground arith;
    next = ground (arith, append-nil p.next);
    added_checks = [];
    checks = ground (arith, append-nil p.route_checks);
    destinations = refl;
    verified = tt;
  }
  placement_loop_clean managed (route ∷ rest) p q h e =
      elim (Option-cases (place_route n managed route p)) [
        | inl gone ↦ absurd (ground arith)
        | inr (p', step) ↦
            let more = placement_loop_clean managed rest p' q (ground arith) e in
            let first = place_route_clean managed route p p' step more.clean in
            record {
              clean = first.clean;
              next =
                  more.next
                  ∙ ap (λ (xs : List RouteSpec). xs ++ rest) first.next
                  ∙ append_assoc p.next (route ∷ []) rest;
              added_checks = first.check ∷ more.added_checks;
              checks =
                  more.checks
                  ∙ ap (λ (xs : List RouteCheck). xs ++ more.added_checks) first.checks
                  ∙ append_assoc p.route_checks (first.check ∷ []) more.added_checks;
              destinations = ground (arith, first.destination, more.destinations);
              verified = (first.verified, more.verified);
            }
      ]
