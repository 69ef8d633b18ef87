-- ===== src/Service/Routing.antt =====
-- A route request from the client's bytes to the answer's.
use netpilot.Base.{ℕ, ◌≤◌, ◌≡◌, inl, inr, some, List, [], arith, All, length, Bool-cases}
use netpilot.Base.Text.{is_empty}
use netpilot.Protocol.Types.{Operation, operation_code, RouteSpec, RestartedProcess}
use netpilot.Protocol.Routes.{RouteFits, encode_routes, decode_routes-encode_routes}
use netpilot.Protocol.Reconcile.{encode_reconcile_result}
use netpilot.Routes.Net.{Net}
use netpilot.Routes.Reconcile.{Outcome, reconcile}
use netpilot.Wfp.Engine.{Engine}
use netpilot.Service.Host.{Host}
use netpilot.Service.State.{Service}
use netpilot.Service.Requests.{dispatch, handle_routes, answer_routes, reconnect_browsers, log_to}

module _ (n : Net) (e : Engine) (h : Host) where
  -- The route manager is where Reconcile leaves it; the policy and the rules are left alone.
  pub record Routed (s s' : Service n e h) (o : Outcome n) : Type 0 where
    pub managed : s'.managed ≡ o.managed
    pub net : s'.net ≡ o.world
    pub wfp : s'.wfp ≡ s.wfp
    pub app_rules : s'.app_rules ≡ s.app_rules
    pub applied_hash : s'.applied_hash ≡ s.applied_hash

  answer_routes_cases :
      (session : ℕ) (desired : List RouteSpec) (s : Service n e h) (o : Outcome n)
      → (processes : List RestartedProcess) × ((answer_routes n e h session desired s o).0
          ≡ encode_reconcile_result (record o.result { restarted_processes = processes }) [])
        × Routed s (answer_routes n e h session desired s o).1 o
  unfolding answer_routes reconnect_browsers log_to
  answer_routes_cases session desired s o =
      elim (Bool-cases (is_empty o.result.connection_reset_destinations)) [
        | inl b ↦ (
          o.result.restarted_processes,
          ground (arith, b),
          record {
            managed = ground (arith, b);
            net = ground (arith, b);
            wfp = ground (arith, b);
            app_rules = ground (arith, b);
            applied_hash = ground (arith, b);
          },
        )
        | inr b ↦ (
          (h.reconnect o.result.connection_reset_destinations session s.host).0,
          ground (arith, b),
          record {
            managed = ground (arith, b);
            net = ground (arith, b);
            wfp = ground (arith, b);
            app_rules = ground (arith, b);
            applied_hash = ground (arith, b);
          },
        )
      ]

  -- When routes arrive in the client's encoding and Reconcile returns, the request is answered
  -- with Reconcile's result, to which only the restarted processes are added, the route manager is
  -- where Reconcile leaves it, and the policy and the rules are as before.
  pub route_request_answered :
      (fuel : ℕ) (desired : List RouteSpec) (session : ℕ) (s : Service n e h) (o : Outcome n)
      → length desired ≤ 4096
      → All RouteFits desired
      → reconcile n s.managed desired s.net ≡ some o
      → (processes : List RestartedProcess) × (s' : Service n e h) × (dispatch n e h fuel
            (operation_code Operation.reconcile_routes)
            (encode_routes desired [])
            session
            s
          ≡ some (
            encode_reconcile_result (record o.result { restarted_processes = processes }) [],
            s',
          ))
        × Routed s s' o
  unfolding dispatch handle_routes
  route_request_answered fuel desired session s o fits each ran =
      let decoded = decode_routes-encode_routes desired fits each in
      let (processes, answered, routed) = answer_routes_cases session desired s o in
      (
        processes,
        (answer_routes n e h session desired s o).1,
        ground (arith, decoded, ran, answered),
        routed,
      )
