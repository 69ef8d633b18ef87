-- ===== src/Service/State.antt =====
-- The state of ServiceRuntime, and Status.
use netpilot.Base.{ℕ, ◌+◌, ◌%◌, ◌^◌, Bool, true, false, ◌&&◌, List, [], ◌∷◌, if◌then◌else◌}
use netpilot.Base.Text.{Bytes, text, is_empty}
use netpilot.Protocol.Types.{RouteSpec, AppRuleSpec, RuleMetric, ServiceStatus}
use netpilot.Routes.Net.{Net}
use netpilot.Wfp.Engine.{Engine}
use netpilot.Wfp.Policy.{Policy}
use netpilot.Service.Host.{Host}

-- `+=` over the metrics, on 32 and 64 bits.
sum_flows : List RuleMetric → ℕ
sum_flows [] = 0
sum_flows (metric ∷ rest) = (metric.active_flows + sum_flows rest) % 2 ^ 32

sum_bytes : (RuleMetric → ℕ) → List RuleMetric → ℕ
sum_bytes f [] = 0
sum_bytes f (metric ∷ rest) = (f metric + sum_bytes f rest) % 2 ^ 64

module _ (n : Net) (e : Engine) (h : Host) where
  -- `managed` and `net` are those of the route manager; the lines that the policy logs are handed
  -- on after each of its calls.
  pub record Service : Type 0 where
    pub managed : List RouteSpec
    pub net : n.World
    pub wfp : Policy e
    pub master_enabled : Bool
    pub proxy_running : Bool
    pub applied_hash : Bytes
    pub app_rules : List AppRuleSpec
    pub lines : List Bytes
    pub host : h.World

  message_of : Bytes → Bool → Bytes
  message_of message engine_ready =
      if is_empty message
      then if engine_ready
        then text "Windows Service and WFP Driver are ready"
        else text "WFP Driver is not installed or not running"
      else message

  unfoldable pub status : Bytes → Service → ServiceStatus
  unfolding message_of sum_flows sum_bytes
  status message s =
      let driver_ready = h.driver_ready s.host in
      let engine_ready = s.wfp.ready && driver_ready in
      let metrics = h.metrics s.host in
      record {
        service_ready = true;
        driver_ready = driver_ready;
        engine_ready = engine_ready;
        proxy_running = s.proxy_running && (engine_ready && h.running s.host);
        reboot_required = false;
        test_mode = h.test_mode s.host;
        applied_hash = s.applied_hash;
        message = message_of message engine_ready;
        active_flows = sum_flows metrics;
        bytes_in = sum_bytes (λ metric. metric.bytes_in) metrics;
        bytes_out = sum_bytes (λ metric. metric.bytes_out) metrics;
        rule_metrics = metrics;
      }
