-- ===== src/Routes/Reconcile/Answers.antt =====
-- The answers of Reconcile: success, refusal, and the steady state.
use netpilot.Base.{
  ◌≡◌, refl, ap, ◌∙◌, ◌≢◌, inl, inr, true, false, some, List, [], ◌∷◌, ◌++◌, map, arith, All,
  Bool-cases, Option-cases,
}
use netpilot.Base.Text.{Bytes, is_empty}
use netpilot.Std.Regex.{is_empty→nil}
use netpilot.Protocol.Types.{RouteSpec, RouteCheck}
use netpilot.Routes.Net.{Net}
use netpilot.Routes.Reconcile.{
  Pass, Outcome, empty_result, invalid_errors, validated_of, start, removal_loop, both_loops,
  reconcile, conclude,
}
use netpilot.Routes.Reconcile.Validated.{IsValid}
use netpilot.Routes.Reconcile.Applied.{IsVerified, placement_loop_clean, removal_loop_clean}

pub validated_of_self :
    (desired : List RouteSpec) → invalid_errors desired ≡ [] → validated_of desired ≡ desired
unfolding validated_of invalid_errors
validated_of_self [] h = refl
validated_of_self (route ∷ rest) h = ground (arith, validated_of_self rest)

invalid_errors→valid :
    (desired : List RouteSpec) → invalid_errors desired ≡ [] → All IsValid desired
unfolding invalid_errors
invalid_errors→valid [] h = tt
invalid_errors→valid (route ∷ rest) h = ground (arith, invalid_errors→valid rest)

pub valid→invalid_errors :
    (desired : List RouteSpec) → All IsValid desired → invalid_errors desired ≡ []
unfolding invalid_errors
valid→invalid_errors [] h = refl
valid→invalid_errors (route ∷ rest) h = rw (h.0, invalid_errors) (valid→invalid_errors rest h.1)

is_empty-false : (errors : List Bytes) → errors ≢ [] → is_empty errors ≡ false
is_empty-false [] h = absurd (h refl)
is_empty-false (e ∷ errors) h = refl

abbrev pub destinations_of : List RouteSpec → List Bytes
destinations_of = map (λ (r : RouteSpec). r.destination)

abbrev pub checked_of : List RouteCheck → List Bytes
checked_of = map (λ (c : RouteCheck). c.destination)

module _ (n : Net) where
  open n use {World}

  -- What holds after a reconciliation that reports success.
  pub record IsApplied (desired : List RouteSpec) (o : Outcome n) : Type 0 where
    pub errors : o.result.errors ≡ []
    pub managed : o.managed ≡ desired
    pub checks : checked_of o.result.route_checks ≡ destinations_of desired
    pub verified : All IsVerified o.result.route_checks

  conclude-IsApplied :
      (managed desired : List RouteSpec) (w : World) (p : Pass n)
      → both_loops n managed desired w ≡ some p
      → p.errors ≡ []
      → IsApplied desired (conclude n p)
  unfolding both_loops conclude start
  conclude-IsApplied managed desired w p h clean =
      elim (Option-cases (removal_loop n desired managed (start n w))) [
        | inl gone ↦ absurd (ground arith)
        | inr (q, removed) ↦
            let placed = placement_loop_clean n managed desired q p (ground arith) clean in
            let kept = removal_loop_clean n desired managed (start n w) q removed placed.clean in
            record {
              errors = clean;
              managed = placed.next ∙ ap (λ (xs : List RouteSpec). xs ++ desired) kept.1;
              checks =
                  ap checked_of (
                    placed.checks ∙ ap (λ (xs : List RouteCheck). xs ++ placed.added_checks) kept.2)
                  ∙ placed.destinations;
              verified = rw (placed.checks, kept.2) placed.verified;
            }
      ]

  -- If Reconcile reports success, there are no errors, the inventory is the desired list, and
  -- there is one check for each desired route, in order, all of them verified.
  pub reconcile_success :
      (managed desired : List RouteSpec) (w : World) (o : Outcome n)
      → reconcile n managed desired w ≡ some o
      → o.result.ok ≡ true
      → IsApplied desired o
  unfolding reconcile conclude
  reconcile_success managed desired w o h ok =
      elim (Bool-cases (is_empty (invalid_errors desired))) [
        | inr refused ↦ absurd (ground arith)
        | inl valid ↦ elim (Option-cases (both_loops n managed (validated_of desired) w)) [
          | inl gone ↦ absurd (ground arith)
          | inr (p, ran) ↦
              let whole = validated_of_self desired (is_empty→nil (invalid_errors desired) valid) in
              let last : o ≡ conclude n p = ground arith in
              rw last (
                conclude-IsApplied managed desired w p (rw whole at ran)
                  (is_empty→nil p.errors (ground arith)))
        ]
      ]

  -- If some desired route is invalid, Reconcile changes neither the inventory nor the system: it
  -- reports failure with at least one error, and nothing added, removed, checked or reset.
  pub reconcile_refusal :
      (managed desired : List RouteSpec) (w : World)
      → ¬ All IsValid desired
      → (errors : List Bytes) × (errors ≢ [])
        × (reconcile n managed desired w
            ≡ some (record {
              result = record empty_result { errors = errors };
              managed = managed;
              world = w;
            }))
  unfolding reconcile
  reconcile_refusal managed desired w bad =
      let some_error : invalid_errors desired ≢ [] = λ e. bad (invalid_errors→valid desired e) in
      (invalid_errors desired, some_error, rw (is_empty-false (invalid_errors desired) some_error))
