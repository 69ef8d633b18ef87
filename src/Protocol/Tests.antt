-- ===== src/Protocol/Tests.antt =====
-- Messages that are written and read back.
use netpilot.Base.{◌≡◌, true, false, some, [], ◌∷◌, arith}
use netpilot.Base.Text.{text}
use netpilot.Protocol.Types.{
  RouteSpec, AppRuleSpec, RuleMetric, ServiceStatus, RouteCheck, ReconcileResult,
}
use netpilot.Protocol.Buffer.{reader}
use netpilot.Protocol.Routes.{encode_routes, decode_routes, decode_routes-encode_routes}
use netpilot.Protocol.AppRules.{
  encode_app_rules, decode_app_rules, decode_app_rules-encode_app_rules,
}
use netpilot.Protocol.Status.{encode_status, decode_status, decode_status-encode_status}
use netpilot.Protocol.Reconcile.{
  encode_reconcile_result, decode_reconcile_result, decode_reconcile_result-encode_reconcile_result,
}

abbrev route : RouteSpec
route = record {
  destination = text "203.0.113.10/32";
  gateway = text "192.168.8.1";
  interface_luid = text "123456";
  tag = text "netpilot:rule";
}

routes_trip : decode_routes (reader (encode_routes (route ∷ []) [])) ≡ some (route ∷ [])
routes_trip = decode_routes-encode_routes (route ∷ []) (omega arith) (omega arith)

abbrev rule : AppRuleSpec
rule = record {
  id = text "browser-rule";
  interface_luid = text "123456";
  policy = text "block";
  enabled = true;
  executables = record { path = text "C:/browser.exe"; app_id = text "aabbcc" } ∷ [];
}

app_rules_trip :
    decode_app_rules (reader (encode_app_rules true (text "hash") (rule ∷ []) []))
    ≡ some (true, text "hash", rule ∷ [])
app_rules_trip =
    decode_app_rules-encode_app_rules true (text "hash") (rule ∷ []) (omega arith) (omega arith)
      (omega arith)

abbrev metric : RuleMetric
metric = record {
  id = text "browser-rule";
  active_flows = 2;
  bytes_in = 5_000_000_000;
  bytes_out = 7;
  last_error = [];
}

abbrev status : ServiceStatus
status = record {
  service_ready = true;
  driver_ready = true;
  engine_ready = true;
  proxy_running = false;
  reboot_required = false;
  test_mode = true;
  applied_hash = text "hash";
  message = text "ready";
  active_flows = 2;
  bytes_in = 5_000_000_000;
  bytes_out = 7;
  rule_metrics = metric ∷ [];
}

status_trip : decode_status (reader (encode_status status [])) ≡ some status
status_trip = decode_status-encode_status status (omega arith)

abbrev check : RouteCheck
check = record {
  destination = text "203.0.113.10/32";
  expected_interface = text "123456";
  expected_gateway = text "192.168.8.1";
  actual_interface = text "123456";
  actual_gateway = text "192.168.8.1";
  exact_present = true;
  verified = true;
  message = [];
}

abbrev result : ReconcileResult
result = record {
  ok = true;
  added = 1;
  removed = 0;
  errors = [];
  route_checks = check ∷ [];
  connection_reset_destinations = text "203.0.113.10/32" ∷ [];
  restarted_processes = record { pid = 424; name = text "chrome.exe Network Service" } ∷ [];
}

reconcile_result_trip :
    decode_reconcile_result (reader (encode_reconcile_result result [])) ≡ some result
reconcile_result_trip = decode_reconcile_result-encode_reconcile_result result (omega arith)
