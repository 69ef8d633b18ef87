-- ===== src/Routes/Reconcile.antt =====
-- RouteManager::Reconcile of windows/native/service/route_manager.cpp. `none` is a fault of
-- PopulateRow, which no loop catches.
pub mod Validated
pub mod Applied
pub mod Answers
pub mod Steady
pub mod Resets
use netpilot.Base.{
  ℕ, ◌+◌, ◌%◌, ◌^◌, Bool, true, false, not, ◌&&◌, ◌||◌, Option, none, some, List, [], ◌∷◌, ◌++◌,
  if◌then◌else◌, any_of,
}
use netpilot.Base.Text.{Bytes, text, is_empty}
use netpilot.Std.OrderedSet.{set_insert, contains}
use netpilot.Protocol.Types.{RouteSpec, RouteCheck, ReconcileResult}
use netpilot.Protocol.Validate.{is_valid_route}
use netpilot.Routes.Row.{equal}
use netpilot.Routes.Net.{Net}
use netpilot.Routes.Entry.{Attempt, done, failed, thrown, add, remove, inspect}
use netpilot.Routes.Inventory.{save}

-- `route.tag + ": " + error`.
abbrev pub tagged : RouteSpec → Bytes → Bytes
tagged route error = route.tag ++ (text ": " ++ error)

-- The errors of the first loop, and the routes that it takes over.
unfoldable pub invalid_errors : List RouteSpec → List Bytes
invalid_errors [] = []
invalid_errors (route ∷ rest) = elim (is_valid_route route) [
  | none ↦ invalid_errors rest
  | some error ↦ tagged route error ∷ invalid_errors rest
]

unfoldable pub validated_of : List RouteSpec → List RouteSpec
validated_of [] = []
validated_of (route ∷ rest) = elim (is_valid_route route) [
  | none ↦ route ∷ validated_of rest
  | some error ↦ validated_of rest
]

abbrev pub empty_result : ReconcileResult
empty_result = record {
  ok = false;
  added = 0;
  removed = 0;
  errors = [];
  route_checks = [];
  connection_reset_destinations = [];
  restarted_processes = [];
}

-- `std::any_of` over `Equal`.
unfoldable pub listed : RouteSpec → List RouteSpec → Bool
unfolding equal
listed route routes = any_of (equal route) routes

abbrev pub increment : ℕ → ℕ
increment count = (count + 1) % 2 ^ 32

module _ (n : Net) where
  open n use {World}

  -- The local variables of Reconcile, and the state of the system.
  pub record Pass : Type 0 where
    pub added : ℕ
    pub removed : ℕ
    pub errors : List Bytes
    pub route_checks : List RouteCheck
    pub removed_destinations : List Bytes
    pub added_destinations : List Bytes
    pub next : List RouteSpec
    pub world : World

  unfoldable pub start : World → Pass
  start w = record {
    added = 0;
    removed = 0;
    errors = [];
    route_checks = [];
    removed_destinations = [];
    added_destinations = [];
    next = [];
    world = w;
  }

  unfoldable pub report : Bytes → Pass → Pass
  report error p = record p { errors = p.errors ++ error ∷ [] }

  unfoldable pub keep : RouteSpec → Pass → Pass
  keep route p = record p { next = p.next ++ route ∷ [] }

  unfoldable pub count_added : RouteSpec → World → Pass → Pass
  unfolding set_insert
  count_added route w p = record p {
    added = increment p.added;
    added_destinations = set_insert route.destination p.added_destinations;
    world = w;
  }

  -- A managed route that is no longer desired; a failed deletion stays in the inventory.
  unfoldable pub drop_route : RouteSpec → Pass → Option Pass
  unfolding report keep set_insert
  drop_route route p = elim (remove n route p.world) [
    | done w ↦ some (record p {
      removed = increment p.removed;
      removed_destinations = set_insert route.destination p.removed_destinations;
      world = w;
    })
    | failed error w ↦ some (keep route (report (tagged route error) (record p { world = w })))
    | thrown ↦ none
  ]

  unfoldable pub removal_loop : List RouteSpec → List RouteSpec → Pass → Option Pass
  unfolding listed
  removal_loop validated [] p = some p
  removal_loop validated (route ∷ rest) p =
      let others = removal_loop validated rest in
      if listed route validated
      then others p
      else elim (drop_route route p) [ none ↦ none | some p' ↦ others p' ]

  -- The last lines of the second loop's body.
  unfoldable pub record_check : RouteCheck → Pass → Pass
  unfolding report
  record_check check p =
      let p' = if check.verified then p else report check.message p in
      record p' { route_checks = p'.route_checks ++ check ∷ [] }

  -- A recorded route that is not in the forward table is added again.
  unfoldable pub repair : RouteSpec → RouteCheck → Pass → Option Pass
  unfolding report count_added
  repair route check p = elim (add n route p.world) [
    | done w ↦ elim (inspect n route w) [
      | none ↦ none
      | some check' ↦ some (record_check check' (count_added route w p))
    ]
    | failed error w ↦ some (
        record_check check (
          report (text "repair " ++ (route.destination ++ (text ": " ++ error)))
            (record p { world = w })))
    | thrown ↦ none
  ]

  unfoldable pub check_route : Bool → RouteSpec → Pass → Option Pass
  check_route recorded route p = elim (inspect n route p.world) [
    | none ↦ none
    | some check ↦
        if not check.exact_present && recorded
        then repair route check p
        else some (record_check check p)
  ]

  unfoldable pub add_new : RouteSpec → Pass → Option Pass
  unfolding keep count_added report
  add_new route p = elim (add n route p.world) [
    | done w ↦ check_route false route (keep route (count_added route w p))
    | failed error w ↦ some (report (tagged route error) (record p { world = w }))
    | thrown ↦ none
  ]

  unfoldable pub place_route : List RouteSpec → RouteSpec → Pass → Option Pass
  unfolding listed keep
  place_route managed route p =
      if listed route managed then check_route true route (keep route p) else add_new route p

  unfoldable pub placement_loop : List RouteSpec → List RouteSpec → Pass → Option Pass
  placement_loop managed [] p = some p
  placement_loop managed (route ∷ rest) p = elim (place_route managed route p) [
    | none ↦ none
    | some p' ↦ placement_loop managed rest p'
  ]

  -- The destinations of verified checks that were added, put into the set of those removed.
  unfoldable pub changed_of : List Bytes → List RouteCheck → List Bytes → List Bytes
  unfolding set_insert contains
  changed_of added_destinations [] changed = changed
  changed_of added_destinations (check ∷ rest) changed = changed_of added_destinations rest (
      if check.verified && contains check.destination added_destinations
      then set_insert check.destination changed
      else changed)

  unfoldable pub result_of : Pass → ReconcileResult
  unfolding changed_of
  result_of p = record {
    ok = is_empty p.errors;
    added = p.added;
    removed = p.removed;
    errors = p.errors;
    route_checks = p.route_checks;
    connection_reset_destinations =
        changed_of p.added_destinations p.route_checks p.removed_destinations;
    restarted_processes = [];
  }

  -- What Reconcile returns, `managed_` after it, and the system after it.
  pub record Outcome : Type 0 where
    pub result : ReconcileResult
    pub managed : List RouteSpec
    pub world : World

  unfoldable pub both_loops : List RouteSpec → List RouteSpec → World → Option Pass
  unfolding start
  both_loops managed validated w = elim (removal_loop validated managed (start w)) [
    | none ↦ none
    | some p ↦ placement_loop managed validated p
  ]

  unfoldable pub conclude : Pass → Outcome
  unfolding result_of save
  conclude p = record { result = result_of p; managed = p.next; world = save n p.next p.world }

  unfoldable pub reconcile : List RouteSpec → List RouteSpec → World → Option Outcome
  unfolding conclude invalid_errors validated_of
  reconcile managed desired w =
      if is_empty (invalid_errors desired)
      then elim (both_loops managed (validated_of desired) w) [
        | none ↦ none
        | some p ↦ some (conclude p)
      ]
      else some (record {
        result = record empty_result { errors = invalid_errors desired };
        managed = managed;
        world = w;
      })
