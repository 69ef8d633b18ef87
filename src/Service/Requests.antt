-- ===== src/Service/Requests.antt =====
-- ServiceRuntime::Dispatch and ReapplyForNetworkChange. A request is handled under the lock, so
-- the handlers are functions of the state; `none` stands for an exception of RouteManager or for
-- an enumeration of filters that runs out of fuel.
use netpilot.Base.{
  ℕ, Bool, false, not, ◌||◌, Option, none, some, List, [], ◌∷◌, ◌++◌, map, ◌==◌, if◌then◌else◌,
  length,
}
use netpilot.Base.Text.{Bytes, text, is_empty}
use netpilot.Std.Number.{to_string}
use netpilot.Diagnostics.{log_all}
use netpilot.Protocol.Types.{
  Operation, operation_code, RouteSpec, AppRuleSpec, RouteCheck, RestartedProcess, ReconcileResult,
}
use netpilot.Protocol.Buffer.{◌▸◌, write_count, write_each, write_string, reader}
use netpilot.Protocol.Routes.{decode_routes}
use netpilot.Protocol.AppRules.{decode_app_rules}
use netpilot.Protocol.Status.{encode_status}
use netpilot.Protocol.Reconcile.{encode_reconcile_result}
use netpilot.Routes.Net.{Net}
use netpilot.Routes.Inventory.{cleanup}
use netpilot.Routes.Reconcile.{Outcome, empty_result, reconcile}
use netpilot.Wfp.Engine.{Engine}
use netpilot.Wfp.Policy.{done, failed, Policy, apply, clear}
use netpilot.Service.Host.{Host}
use netpilot.Service.Rules.{validate_rules}
use netpilot.Service.State.{Service, status}

pub process_line : RestartedProcess → Bytes
process_line process =
    text "[NetPilot] Reconnected browser networking: "
    ++ (process.name ++ (text " (PID " ++ (to_string process.pid ++ text ")")))

pub verdict_text : RouteCheck → Bytes
verdict_text check = if check.verified then text " verified" else text " FAILED " ++ check.message

pub check_line : RouteCheck → Bytes
check_line check =
    text "[NetPilot] Route check "
    ++ (check.destination
        ++ (text " expected="
            ++ (check.expected_interface
                ++ (text " actual=" ++ (check.actual_interface ++ verdict_text check)))))

pub summary_line : List RouteSpec → ReconcileResult → Bytes
summary_line desired result =
    text "Route reconcile desired="
    ++ (to_string (length desired)
        ++ (text " added="
            ++ (to_string result.added ++ (text " removed=" ++ to_string result.removed))))

pub warning_lines : Bytes → List Bytes
warning_lines warning = if is_empty warning then [] else (text "[NetPilot] " ++ warning) ∷ []

pub applied_line : Bytes → List AppRuleSpec → Bytes
applied_line hash rules =
    text "[NetPilot App Routing] applied hash="
    ++ (hash ++ (text " rules=" ++ to_string (length rules)))

module _ (n : Net) (e : Engine) (h : Host) where
  abbrev pub Reply : Type 0
  Reply = Bytes × Service n e h

  unfoldable pub status_reply : Bytes → Service n e h → Reply
  status_reply message s = (encode_status (status n e h message s) [], s)

  unfoldable pub log_to : List Bytes → Service n e h → Service n e h
  log_to new s = record s { lines = log_all new s.lines }

  -- `BrowserReconnect::Reconnect` where there is something to reset: the result and the service,
  -- the lines of both logged.
  unfoldable pub reconnect_browsers :
      ℕ → ReconcileResult → Service n e h → ReconcileResult × Service n e h
  unfolding log_to process_line warning_lines
  reconnect_browsers session result s =
      if is_empty result.connection_reset_destinations
      then (result, s)
      else let (processes, warning, w) =
          h.reconnect result.connection_reset_destinations session s.host in
        (
          record result { restarted_processes = processes },
          log_to (warning_lines warning ++ map process_line processes) (record s { host = w }),
        )

  unfoldable pub answer_routes : ℕ → List RouteSpec → Service n e h → Outcome n → Reply
  unfolding reconnect_browsers check_line verdict_text summary_line log_to
  answer_routes session desired s o =
      let (result, s') =
        reconnect_browsers session o.result (record s { managed = o.managed; net = o.world }) in
      (
        encode_reconcile_result result [],
        log_to (map check_line result.route_checks ++ summary_line desired result ∷ []) s',
      )

  unfoldable pub handle_routes : Bytes → ℕ → Service n e h → Option Reply
  unfolding answer_routes
  handle_routes payload session s = elim (decode_routes (reader payload)) [
    | none ↦ some (
      encode_reconcile_result (record empty_result { errors = text "invalid route request" ∷ [] })
          [],
      s,
    )
    | some desired ↦ elim (reconcile n s.managed desired s.net) [
      | none ↦ none
      | some o ↦ some (answer_routes session desired s o)
    ]
  ]

  -- The policy after a call, with the lines that it logged handed on.
  unfoldable pub take_policy : Policy e → Service n e h → Service n e h
  unfolding log_to
  take_policy p s = log_to p.log (record s { wfp = record p { log = [] } })

  unfoldable pub applied : Bool → Bytes → List AppRuleSpec → Service n e h → Service n e h
  unfolding log_to applied_line
  applied master hash rules s = log_to (applied_line hash rules ∷ []) (record s {
    host = h.restart_flows s.host;
    master_enabled = master;
    applied_hash = hash;
    app_rules = rules;
    proxy_running = master;
  })

  unfoldable pub refused : Bytes → Service n e h → Service n e h
  unfolding log_to
  refused error s =
      log_to ((text "[NetPilot App Routing] apply failed: " ++ error) ∷ [])
        (record s { proxy_running = false })

  unfoldable pub apply_rules : ℕ → Bool → Bytes → List AppRuleSpec → Service n e h → Option Reply
  unfolding take_policy applied refused status_reply
  apply_rules fuel master hash rules s =
      let s' = record s { host = h.configure rules s.host } in
      elim (apply e fuel master hash rules s'.wfp) [
        | none ↦ none
        | some (done p) ↦ some (status_reply [] (applied master hash rules (take_policy p s')))
        | some (failed error p) ↦ some (status_reply error (refused error (take_policy p s')))
      ]

  unfoldable pub handle_rules : ℕ → Bytes → Service n e h → Option Reply
  handle_rules fuel payload s = elim (decode_app_rules (reader payload)) [
    | none ↦ some (status_reply (text "invalid app rules") s)
    | some (master, hash, rules) ↦ elim (validate_rules h rules s.host) [
      | some error ↦
          some (status_reply (if is_empty error then text "invalid app rules" else error) s)
      | none ↦ apply_rules fuel master hash rules s
    ]
  ]

  unfoldable pub handle_cleanup : ℕ → Service n e h → Option Reply
  handle_cleanup fuel s = elim (clear e fuel s.wfp) [
    | none ↦ none
    | some p ↦ elim (cleanup n s.managed s.net) [
      | none ↦ none
      | some (managed, w) ↦ some (
          status_reply (text "system state cleaned")
            (record s { wfp = p; managed = managed; net = w }))
    ]
  ]

  unfoldable pub snapshot_reply : Service n e h → Reply
  snapshot_reply s = ((write_count s.lines ▸ write_each write_string s.lines) [], s)

  unfoldable pub dispatch : ℕ → ℕ → Bytes → ℕ → Service n e h → Option Reply
  dispatch fuel operation payload session s =
      if operation == operation_code Operation.ping || operation == operation_code Operation.status
      then some (status_reply [] s)
      else if operation == operation_code Operation.reconcile_routes
      then handle_routes payload session s
      else if operation == operation_code Operation.apply_app_routing
      then handle_rules fuel payload s
      else if operation == operation_code Operation.diagnostics
      then some (snapshot_reply s)
      else if operation == operation_code Operation.cleanup
      then handle_cleanup fuel s
      else some (status_reply (text "unsupported service operation") s)

  -- ReapplyForNetworkChange.
  unfoldable pub reapply : ℕ → Service n e h → Option (Service n e h)
  unfolding take_policy log_to
  reapply fuel s =
      if not s.master_enabled
      then some s
      else elim (apply e fuel s.master_enabled s.applied_hash s.app_rules s.wfp) [
        | none ↦ none
        | some (failed error p) ↦ some (
            log_to ((text "[NetPilot App Routing] network-change apply failed: " ++ error) ∷ [])
              (take_policy p s))
        | some (done p) ↦ some (
            log_to (text "[NetPilot App Routing] rebuilt filters after interface change" ∷ [])
              (take_policy p s))
      ]
