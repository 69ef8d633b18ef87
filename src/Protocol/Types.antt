-- ===== src/Protocol/Types.antt =====
-- windows/native/common/netpilot_protocol.h: the constants and the structs that cross the pipe.
use netpilot.Base.{ℕ, ◌*◌, Bool, List}
use netpilot.Base.Text.{Bytes}

abbrev pub protocol_magic : ℕ
protocol_magic = 0x4E504C54

abbrev pub protocol_version : ℕ
protocol_version = 2

abbrev pub max_frame_bytes : ℕ
max_frame_bytes = 4 * 1024 * 1024

pub data Operation : Type 0 where
  ping status reconcile_routes apply_app_routing restart_proxy diagnostics cleanup : Operation

abbrev pub operation_code : Operation → ℕ
operation_code ping = 1
operation_code status = 2
operation_code reconcile_routes = 3
operation_code apply_app_routing = 4
operation_code restart_proxy = 5
operation_code diagnostics = 6
operation_code cleanup = 7

pub record FrameHeader : Type 0 where
  pub magic : ℕ
  pub version : ℕ
  pub operation : ℕ
  pub payload_size : ℕ

pub record RouteSpec : Type 0 where
  pub destination : Bytes
  pub gateway : Bytes
  pub interface_luid : Bytes
  pub tag : Bytes

pub record AppExecutable : Type 0 where
  pub path : Bytes
  pub app_id : Bytes

pub record AppRuleSpec : Type 0 where
  pub id : Bytes
  pub interface_luid : Bytes
  pub policy : Bytes
  pub enabled : Bool
  pub executables : List AppExecutable

pub record RuleMetric : Type 0 where
  pub id : Bytes
  pub active_flows : ℕ
  pub bytes_in : ℕ
  pub bytes_out : ℕ
  pub last_error : Bytes

pub record ServiceStatus : Type 0 where
  pub service_ready : Bool
  pub driver_ready : Bool
  pub engine_ready : Bool
  pub proxy_running : Bool
  pub reboot_required : Bool
  pub test_mode : Bool
  pub applied_hash : Bytes
  pub message : Bytes
  pub active_flows : ℕ
  pub bytes_in : ℕ
  pub bytes_out : ℕ
  pub rule_metrics : List RuleMetric

pub record RouteCheck : Type 0 where
  pub destination : Bytes
  pub expected_interface : Bytes
  pub expected_gateway : Bytes
  pub actual_interface : Bytes
  pub actual_gateway : Bytes
  pub exact_present : Bool
  pub verified : Bool
  pub message : Bytes

pub record RestartedProcess : Type 0 where
  pub pid : ℕ
  pub name : Bytes

pub record ReconcileResult : Type 0 where
  pub ok : Bool
  pub added : ℕ
  pub removed : ℕ
  pub errors : List Bytes
  pub route_checks : List RouteCheck
  pub connection_reset_destinations : List Bytes
  pub restarted_processes : List RestartedProcess
