-- ===== src/Routes/Reconcile/Resets.antt =====
-- The destinations whose connections are to be reset.
use netpilot.Base.{
  ◌≡◌, ◌∙◌, ◌⊎◌, inl, inr, Bool, true, false, not, ◌&&◌, some, List, [], ◌∷◌, arith, any_of,
  Bool-cases, Option-cases,
}
use netpilot.Base.Text.{Bytes, is_empty, str_eq}
use netpilot.Std.OrderedSet.{contains, set_insert}
use netpilot.Std.OrderedSet.Laws.{IsIncreasing, contains-set_insert, set_insert-IsIncreasing}
use netpilot.Protocol.Types.{RouteSpec, RouteCheck}
use netpilot.Std.Regex.{is_empty→nil}
use netpilot.Routes.Reconcile.Answers.{validated_of_self}
use netpilot.Routes.Net.{Net}
use netpilot.Routes.Reconcile.{
  Pass, Outcome, invalid_errors, listed, start, drop_route, removal_loop, repair, record_check,
  check_route, add_new, place_route, placement_loop, both_loops, reconcile, conclude, changed_of,
}

-- A managed route with destination `d` that is not desired.
abbrev pub is_stale : List RouteSpec → Bytes → RouteSpec → Bool
is_stale desired d route = str_eq d route.destination && not (listed route desired)

-- A verified check of destination `d`.
abbrev pub is_verified_at : Bytes → RouteCheck → Bool
is_verified_at d check = check.verified && str_eq d check.destination

module _ (n : Net) where
  open n use {World}

  changed_of-IsIncreasing :
      (added : List Bytes) (checks : List RouteCheck) (changed : List Bytes)
      → IsIncreasing changed
      → IsIncreasing (changed_of n added checks changed)
  unfolding changed_of
  changed_of-IsIncreasing added [] changed h = h
  changed_of-IsIncreasing added (check ∷ rest) changed h =
      elim (Bool-cases (check.verified && contains check.destination added)) [
        | inl b ↦
            rw (b, changed_of)
              (changed_of-IsIncreasing added rest _
                (set_insert-IsIncreasing check.destination changed h))
        | inr b ↦ rw (b, changed_of) (changed_of-IsIncreasing added rest changed h)
      ]

  contains-changed_of :
      (d : Bytes) (added : List Bytes) (checks : List RouteCheck) (changed : List Bytes)
      → contains d (changed_of n added checks changed) ≡ true
      → (contains d changed ≡ true) ⊎ (any_of (is_verified_at d) checks ≡ true)
  unfolding changed_of
  contains-changed_of d added [] changed h = inl h
  contains-changed_of d added (check ∷ rest) changed h =
      elim (Bool-cases (check.verified && contains check.destination added)) [
        | inl b ↦ ground (
          arith,
          b,
          contains-changed_of d added rest (set_insert check.destination changed),
          contains-set_insert d check.destination changed,
        )
        | inr b ↦ ground (arith, b, contains-changed_of d added rest changed)
      ]

  -- The second loop leaves the removed destinations alone.
  repair-removed :
      (route : RouteSpec) (check : RouteCheck) (p q : Pass n)
      → repair n route check p ≡ some q
      → q.removed_destinations ≡ p.removed_destinations
  unfolding repair record_check
  repair-removed route check p q h = ground arith

  check_route-removed :
      (recorded : Bool) (route : RouteSpec) (p q : Pass n)
      → check_route n recorded route p ≡ some q
      → q.removed_destinations ≡ p.removed_destinations
  unfolding check_route record_check
  check_route-removed recorded route p q h =
      grind (arith, λ (c : RouteCheck). repair-removed route c p q)

  add_new-removed :
      (route : RouteSpec) (p q : Pass n)
      → add_new n route p ≡ some q
      → q.removed_destinations ≡ p.removed_destinations
  unfolding add_new
  add_new-removed route p q h = grind (arith, λ (r : Pass n). check_route-removed false route r q)

  place_route-removed :
      (managed : List RouteSpec) (route : RouteSpec) (p q : Pass n)
      → place_route n managed route p ≡ some q
      → q.removed_destinations ≡ p.removed_destinations
  unfolding place_route
  place_route-removed managed route p q h =
      grind (arith, add_new-removed route p q, λ (r : Pass n). check_route-removed true route r q)

  placement_loop-removed :
      (managed routes : List RouteSpec) (p q : Pass n)
      → placement_loop n managed routes p ≡ some q
      → q.removed_destinations ≡ p.removed_destinations
  unfolding placement_loop
  placement_loop-removed managed [] p q h = ground arith
  placement_loop-removed managed (route ∷ rest) p q h =
      elim (Option-cases (place_route n managed route p)) [
        | inl gone ↦ absurd (ground arith)
        | inr (p', step) ↦
            placement_loop-removed managed rest p' q (ground arith)
            ∙ place_route-removed managed route p p' step
      ]

  -- The first loop adds destinations of stale routes only, and keeps the set increasing.
  drop_route-removed :
      (route : RouteSpec) (p q : Pass n)
      → drop_route n route p ≡ some q
      → (q.removed_destinations ≡ p.removed_destinations)
        ⊎ (q.removed_destinations ≡ set_insert route.destination p.removed_destinations)
  unfolding drop_route
  drop_route-removed route p q h = ground arith

  removal_loop-removed :
      (d : Bytes) (validated managed : List RouteSpec) (p q : Pass n)
      → removal_loop n validated managed p ≡ some q
      → contains d q.removed_destinations ≡ true
      → (contains d p.removed_destinations ≡ true) ⊎ (any_of (is_stale validated d) managed ≡ true)
  unfolding removal_loop
  removal_loop-removed d validated [] p q h c = ground arith
  removal_loop-removed d validated (route ∷ rest) p q h c =
      elim (Bool-cases (listed route validated)) [
        | inl b ↦ ground (arith, b, removal_loop-removed d validated rest p q)
        | inr b ↦ elim (Option-cases (drop_route n route p)) [
          | inl gone ↦ absurd (ground arith)
          | inr (p', step) ↦ ground (
            arith,
            b,
            removal_loop-removed d validated rest p' q,
            drop_route-removed route p p' step,
            contains-set_insert d route.destination p.removed_destinations,
          )
        ]
      ]

  removal_loop-IsIncreasing :
      (validated managed : List RouteSpec) (p q : Pass n)
      → removal_loop n validated managed p ≡ some q
      → IsIncreasing p.removed_destinations
      → IsIncreasing q.removed_destinations
  unfolding removal_loop
  removal_loop-IsIncreasing validated [] p q h c =
      let same : q.removed_destinations ≡ p.removed_destinations = ground arith in rw same c
  removal_loop-IsIncreasing validated (route ∷ rest) p q h c =
      elim (Bool-cases (listed route validated)) [
        | inl b ↦ removal_loop-IsIncreasing validated rest p q (ground arith) c
        | inr b ↦ elim (Option-cases (drop_route n route p)) [
          | inl gone ↦ absurd (ground arith)
          | inr (p', step) ↦
              removal_loop-IsIncreasing validated rest p' q (ground arith)
                (elim (drop_route-removed route p p' step) [
                  | inl same ↦ rw same c
                  | inr more ↦
                      rw more (set_insert-IsIncreasing route.destination p.removed_destinations c)
                ])
        ]
      ]

  -- A reconciliation that gets past the validation runs both loops.
  reconcile_runs :
      (managed desired : List RouteSpec) (w : World) (o : Outcome n)
      → reconcile n managed desired w ≡ some o
      → (o.result.connection_reset_destinations ≡ [])
        ⊎ ((p q : Pass n) × (removal_loop n desired managed (start n w) ≡ some p)
            × (placement_loop n managed desired p ≡ some q)
            × (o ≡ conclude n q))
  unfolding reconcile both_loops
  reconcile_runs managed desired w o h = elim (Bool-cases (is_empty (invalid_errors desired))) [
    | inr refused ↦ inl (ground arith)
    | inl valid ↦
        let whole = validated_of_self desired (is_empty→nil (invalid_errors desired) valid) in
        elim (Option-cases (removal_loop n desired managed (start n w))) [
          | inl gone ↦ absurd (ground (arith, whole))
          | inr (p, first) ↦ elim (Option-cases (placement_loop n managed desired p)) [
            | inl gone ↦ absurd (ground (arith, whole))
            | inr (q, second) ↦ inr (p, q, first, second, ground (arith, whole))
          ]
        ]
  ]

  -- The destinations to reset are in strictly increasing order, so that none stands twice.
  reconcile_resets-IsIncreasing :
      (managed desired : List RouteSpec) (w : World) (o : Outcome n)
      → reconcile n managed desired w ≡ some o
      → IsIncreasing o.result.connection_reset_destinations
  unfolding conclude start
  reconcile_resets-IsIncreasing managed desired w o h =
      elim (reconcile_runs managed desired w o h) [
        | inl nothing ↦ rw nothing tt
        | inr (p, q, first, second, e) ↦
            let removed = removal_loop-IsIncreasing desired managed (start n w) p first tt in
            let kept = placement_loop-removed managed desired p q second in
            rw e (
              changed_of-IsIncreasing q.added_destinations q.route_checks q.removed_destinations
                (rw kept removed))
      ]

  -- Each destination to reset is that of a managed route that is no longer desired, or one with a
  -- check in the result that is verified.
  pub reconcile_resets_sound :
      (managed desired : List RouteSpec) (w : World) (o : Outcome n) (d : Bytes)
      → reconcile n managed desired w ≡ some o
      → contains d o.result.connection_reset_destinations ≡ true
      → (any_of (is_stale desired d) managed ≡ true)
        ⊎ (any_of (is_verified_at d) o.result.route_checks ≡ true)
  unfolding conclude start contains
  reconcile_resets_sound managed desired w o d h c = elim (reconcile_runs managed desired w o h) [
    | inl nothing ↦ absurd (ground arith)
    | inr (p, q, first, second, e) ↦
        let kept = placement_loop-removed managed desired p q second in
        elim (contains-changed_of d q.added_destinations q.route_checks q.removed_destinations
          (rw e at c)) [
            | inr checked ↦ inr (rw e checked)
            | inl removed ↦
                elim (removal_loop-removed d desired managed (start n w) p first
                  (rw kept at removed)) [
                    | inl never ↦ absurd (ground arith)
                    | inr stale ↦ inl stale
                  ]
          ]
  ]
