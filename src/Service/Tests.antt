-- ===== src/Service/Tests.antt =====
-- Requests to a small service: one route is managed, one filter is in force, and commits fail.
use netpilot.Base.{
  ℕ, suc, ◌≡◌, refl, ◌⊎◌, Bool, true, false, Option, none, some, List, [], ◌∷◌, arith,
  if◌then◌else◌,
}
use netpilot.Base.Text.{Bytes, text, str_eq}
use netpilot.Std.Number.{stoull}
use netpilot.Std.Regex.{regex_match}
use netpilot.Diagnostics.{log, log_all}
use netpilot.Protocol.Types.{RouteSpec, AppRuleSpec, RestartedProcess}
use netpilot.Protocol.Validate.{luid}
use netpilot.Protocol.Routes.{encode_routes}
use netpilot.Protocol.AppRules.{encode_app_rules, decode_app_rules-encode_app_rules}
use netpilot.Protocol.Status.{encode_status}
use netpilot.Protocol.Reconcile.{encode_reconcile_result}
use netpilot.Routes.Row.{Row}
use netpilot.Routes.Net.{Net}
use netpilot.Routes.Entry.{remove}
use netpilot.Routes.Reconcile.{
  Outcome, empty_result, reconcile, both_loops, start, removal_loop, placement_loop, drop_route,
}
use netpilot.Wfp.AppId.{hex, hex_pair, app_id_hex}
use netpilot.Wfp.Engine.{Engine, Filter, block_flow, Transactions}
use netpilot.Wfp.Policy.{
  apply, run_transaction, delete_provider_filters, delete_loop, delete_batch, fill_transaction,
  add_rules, add_rule, add_executables, add_executable_filter, interface_available, wfp_error,
}
use netpilot.Service.Host.{Host}
use netpilot.Service.Rules.{
  validate_rules, is_valid_app_rule, check_executables, is_executable, rule_id, id_char,
  is_identified, is_component, find_owner,
}
use netpilot.Service.State.{Service, status}
use netpilot.Service.Requests.{
  dispatch, handle_rules, apply_rules, take_policy, refused, log_to, status_reply,
}
use netpilot.Service.Unchanged.{Answered, Applied, Kept, apply_request_cases}
use netpilot.Service.Routing.{Routed, route_request_answered}

abbrev office : RouteSpec
office = record {
  destination = text "203.0.113.10/32";
  gateway = text "192.168.8.1";
  interface_luid = text "123456";
  tag = text "netpilot:rule";
}

abbrev office_row : Row
office_row = record {
  luid = 123456;
  address = 3405803786;
  prefix_length = 32;
  next_hop = 3232237569;
  metric = 5;
}

abbrev net_lab : Net
net_lab = record {
  World = ℕ;
  inet_pton = λ s. if str_eq s (text "203.0.113.10") then some 3405803786 else some 3232237569;
  inet_ntop = λ a. text "192.168.8.1";
  create_entry = λ r w. (0, w);
  delete_entry = λ r w. (0, w);
  forward_table = λ w. (0, office_row ∷ []);
  best_route = λ a w. (0, office_row);
  write_state = λ s w. suc w;
}

-- Filters are in force.
abbrev has_filters : List Filter → Bool
has_filters [] = false
has_filters (f ∷ fs) = true

abbrev rolled_back : List Filter × Option (List Filter) → List Filter × Option (List Filter)
rolled_back (now, none) = (now, none)
rolled_back (now, some before) = (before, none)

-- The filters in force and those to be brought back; a commit answers 5 if there are filters.
abbrev engine_lab : Engine
engine_lab = record {
  World = List Filter × Option (List Filter);
  open_engine = λ w. (0, w);
  add_provider = λ w. (0, w);
  add_sublayer = λ w. (0, w);
  add_callout = λ w. (0, w);
  begin = λ w. (0, (w.0, some w.0));
  commit = λ w. if has_filters w.0 then (5, w) else (0, (w.0, none));
  abort = rolled_back;
  create_enum = λ w. (0, w);
  next_filters = λ w. (0, [], w);
  destroy_enum = λ w. w;
  delete_filter = λ id w. (0, ([], w.1));
  add_filter = λ f w. (0, (f ∷ w.0, w.1));
  interface_up = λ luid w. true;
}

abbrev engine_transactions : Transactions engine_lab
engine_transactions = record {
  installed = λ w. w.0;
  saved = λ w. w.1;
  begin_saves = λ w h. refl;
  begin_fails = λ w. refl;
  abort_restores = λ w filters h. ground (arith, h);
  create_saved = λ w. refl;
  next_saved = λ w. refl;
  destroy_saved = λ w. refl;
  delete_saved = λ id w. refl;
  add_saved = λ f w. refl;
  commit_fails = λ w h. ground (arith, h);
  open_installed = λ w. refl;
  provider_installed = λ w. refl;
  sublayer_installed = λ w. refl;
  callout_installed = λ w. refl;
}

abbrev host_lab : Host
host_lab = record {
  World = ℕ;
  is_absolute = λ path. true;
  extension = λ path. text ".EXE";
  WideText = Bytes;
  wide = λ s. s;
  file_name = λ s. s;
  same_text = str_eq;
  canonical = λ path w. some path;
  is_regular_file = λ path w. true;
  app_id_blob = λ path w. some (171 ∷ 10 ∷ []);
  driver_ready = λ w. true;
  test_mode = λ w. false;
  reconnect = λ destinations session w. ([], [], w);
  configure = λ rules w. suc w;
  restart_flows = λ w. suc w;
  running = λ w. true;
  metrics = λ w. [];
}

abbrev old_filter : Filter
old_filter = record { app_id = 7 ∷ []; raw_context = 7; action = block_flow }

abbrev service_lab : Service net_lab engine_lab host_lab
service_lab = record {
  managed = office ∷ [];
  net = 0;
  wfp = record { ready = true; applied_hash = []; log = []; world = (old_filter ∷ [], none) };
  master_enabled = true;
  proxy_running = true;
  applied_hash = text "old";
  app_rules = [];
  lines = [];
  host = 0;
}

abbrev dropped_outcome : Outcome net_lab
dropped_outcome = record {
  result = record empty_result {
    ok = true;
    removed = 1;
    connection_reset_destinations = text "203.0.113.10/32" ∷ [];
  };
  managed = [];
  world = 1;
}

reconcile_drops : reconcile net_lab (office ∷ []) [] 0 ≡ some dropped_outcome
unfolding reconcile both_loops start removal_loop placement_loop drop_route remove
reconcile_drops = refl

route_request_answered_example :
    (processes : List RestartedProcess) × (s' : Service net_lab engine_lab host_lab) × (dispatch
        net_lab engine_lab host_lab 1 3
        (encode_routes [] [])
        1
        service_lab
      ≡ some (
        encode_reconcile_result
            (record dropped_outcome.result { restarted_processes = processes })
            [],
        s',
      ))
    × Routed net_lab engine_lab host_lab service_lab s' dropped_outcome
route_request_answered_example =
    route_request_answered net_lab engine_lab host_lab 1 [] 1 service_lab dropped_outcome
      (omega arith) _ reconcile_drops

abbrev browser : AppRuleSpec
browser = record {
  id = text "web";
  interface_luid = text "123456";
  policy = text "block";
  enabled = true;
  executables = record { path = text "browser.exe"; app_id = text "ab0a" } ∷ [];
}

browser_valid : validate_rules host_lab (browser ∷ []) 0 ≡ none
unfolding validate_rules is_valid_app_rule check_executables is_executable rule_id id_char
    is_identified is_component find_owner regex_match luid str_eq app_id_hex
browser_valid = refl

-- The service after the commit that fails.
abbrev service_after : Service net_lab engine_lab host_lab
service_after = record service_lab {
  wfp = record { ready = true; applied_hash = []; log = []; world = (old_filter ∷ [], none) };
  proxy_running = false;
  lines = text "[NetPilot App Routing] apply failed: FwpmTransactionCommit failed (WFP 5)" ∷ [];
  host = 1;
}

browser_refused :
    apply_rules net_lab engine_lab host_lab 1 true (text "new") (browser ∷ []) service_lab
    ≡ some (
      encode_status
          (status net_lab engine_lab host_lab
            (wfp_error (text "FwpmTransactionCommit") 5)
            service_after)
          [],
      service_after,
    )
unfolding apply_rules apply run_transaction delete_provider_filters delete_loop delete_batch
    fill_transaction add_rules add_rule add_executables add_executable_filter interface_available
    stoull hex hex_pair take_policy refused log_to status_reply log_all log str_eq wfp_error
browser_refused = refl

abbrev response_after : Bytes
response_after =
    encode_status
      (status net_lab engine_lab host_lab (wfp_error (text "FwpmTransactionCommit") 5)
        service_after)
      []

browser_dispatched :
    dispatch net_lab engine_lab host_lab 1 4
      (encode_app_rules true (text "new") (browser ∷ []) [])
      1
      service_lab
    ≡ some (response_after, service_after)
unfolding dispatch handle_rules
browser_dispatched = ground (
  arith,
  decode_app_rules-encode_app_rules true (text "new") (browser ∷ []) (omega arith) (omega arith)
      (omega arith),
  browser_valid,
  browser_refused,
)

apply_request_cases_example :
    Answered net_lab engine_lab host_lab service_lab service_after response_after
    × (Applied net_lab engine_lab host_lab 1 true
          (text "new")
          (browser ∷ [])
          service_lab
          service_after
        ⊎ Kept net_lab engine_lab host_lab engine_transactions 1 true
            (text "new")
            (browser ∷ [])
            service_lab
            service_after)
apply_request_cases_example =
    apply_request_cases net_lab engine_lab host_lab engine_transactions 1 true (text "new")
      (browser ∷ []) 1 service_lab service_after response_after (omega arith) (omega arith)
      (omega arith) browser_valid browser_dispatched
