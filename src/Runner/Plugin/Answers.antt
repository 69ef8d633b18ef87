-- ===== src/Runner/Plugin/Answers.antt =====
-- What the methods of the plugin answer.
use netpilot.Base.{Bool, false, Option, none, some, List, [], ◌∷◌, if◌then◌else◌}
use netpilot.Base.Text.{Bytes, text, str_eq, is_empty}
use netpilot.Protocol.Types.{RuleMetric, ServiceStatus}
use netpilot.Client.Pipe.{Pipe}
use netpilot.Client.Call.{Handles}
use netpilot.Client.Requests.{Reply, result, no_result, apply_app_routing}
use netpilot.Runner.Network.{WindowsAdapterInfo, NetworkApi, list_adapters, resolve}
use netpilot.Runner.Inspector.{InspectedExecutable, InspectedApplication, Shell, select_and_inspect}
use netpilot.Runner.Plugin.{
  Value, null, boolean, int64, string, list, map, Values, no_values, value, Fields, no_fields,
  field, string_in, boolean_in, list_in, string_list, rules_of,
}

-- `map[key] = value`
unfoldable pub put : Bytes → Value → Fields → Fields
put key v no_fields = field key v no_fields
put key v (field name w rest) =
    let rest' = put key v rest in if str_eq name key then field name v rest else field name w rest'

-- Fields by their names.
unfoldable pub fields : List (Bytes × Value) → Fields
fields [] = no_fields
fields ((key, v) ∷ rest) = field key v (fields rest)

unfoldable pub metric_value : RuleMetric → Value
unfolding fields
metric_value metric = map (
    fields (
      (text "activeFlows", int64 metric.active_flows)
      ∷ (text "bytesIn", int64 metric.bytes_in)
      ∷ (text "bytesOut", int64 metric.bytes_out)
      ∷ (text "lastError", string metric.last_error)
      ∷ []))

unfoldable pub metrics_map : List RuleMetric → Fields → Fields
unfolding put metric_value
metrics_map [] m = m
metrics_map (metric ∷ rest) m = metrics_map rest (put metric.id (metric_value metric) m)

abbrev choice : Bool → Bytes → Bytes → Value
choice b yes' no' = string (if b then yes' else no')

-- StatusMap.
unfoldable pub status_map : ServiceStatus → Fields
unfolding metrics_map fields
status_map status = fields (
    (text "platform", string (text "windows"))
    ∷ (text "extensionStatus", choice status.engine_ready (text "installed") (text "unavailable"))
    ∷ (text "engineStatus", choice status.engine_ready (text "ready") (text "unavailable"))
    ∷ (text "serviceStatus", choice status.service_ready (text "running") (text "stopped"))
    ∷ (text "driverStatus", choice status.driver_ready (text "installed") (text "missing"))
    ∷ (text "proxyStatus", choice status.proxy_running (text "running") (text "stopped"))
    ∷ (text "rebootRequired", boolean status.reboot_required)
    ∷ (text "testMode", boolean status.test_mode)
    ∷ (text "appliedHash", string status.applied_hash)
    ∷ (text "message", string status.message)
    ∷ (text "activeFlows", int64 status.active_flows)
    ∷ (text "bytesIn", int64 status.bytes_in)
    ∷ (text "bytesOut", int64 status.bytes_out)
    ∷ (text "ruleMetrics", map (metrics_map status.rule_metrics no_fields))
    ∷ [])

unfoldable pub error_status : Bytes → Fields
unfolding fields
error_status message = fields (
    (text "platform", string (text "windows"))
    ∷ (text "extensionStatus", string (text "unavailable"))
    ∷ (text "engineStatus", string (text "unavailable"))
    ∷ (text "serviceStatus", string (text "unavailable"))
    ∷ (text "driverStatus", string (text "unknown"))
    ∷ (text "proxyStatus", string (text "stopped"))
    ∷ (text "message", string message)
    ∷ [])

-- MethodResult: Success, and Error with its code and message.
pub data MethodResult : Type 0 where
  success : Value → MethodResult
  error : (code message : Bytes) → MethodResult

unfoldable pub adapters_list : List WindowsAdapterInfo → Values
unfolding string_list fields
adapters_list [] = no_values
adapters_list (adapter ∷ rest) =
    value
      (map (
        fields (
          (text "id", string adapter.id)
          ∷ (text "nativeId", string adapter.native_id)
          ∷ (text "name", string adapter.name)
          ∷ (text "interfaceName", string adapter.interface_name)
          ∷ (text "kind", string adapter.kind)
          ∷ (text "ipv4Addresses", list (string_list adapter.ipv4_addresses))
          ∷ (text "gateway", string adapter.gateway)
          ∷ (text "dnsServers", list (string_list adapter.dns_servers))
          ∷ (text "isDefaultRoute", boolean adapter.is_default_route)
          ∷ (text "isActive", boolean adapter.is_active)
          ∷ [])))
      (adapters_list rest)

-- The methods of the two channels, by their arguments; `none` is a call without a map.
unfoldable pub list_interfaces : (n : NetworkApi) → n.World → MethodResult
unfolding adapters_list
list_interfaces n w =
    let (adapters, failure, w') = list_adapters n w in
    if is_empty failure
    then success (list (adapters_list adapters))
    else error (text "network_inventory") failure

unfoldable pub resolve_host : (n : NetworkApi) → Option Fields → n.World → MethodResult
unfolding string_in string_list
resolve_host n none w = error (text "bad_arguments") (text "resolveHost requires arguments")
resolve_host n (some arguments) w =
    let (addresses, failure) =
      resolve n (string_in arguments (text "host")) (string_in arguments (text "interfaceId")) w in
    if is_empty failure
    then success (map (field (text "ips") (list (string_list addresses)) no_fields))
    else error (text "dns") failure

unfoldable pub helper_list : List InspectedExecutable → Values
unfolding fields
helper_list [] = no_values
helper_list (helper ∷ rest) =
    value
      (map (
        fields (
          (text "path", string helper.path)
          ∷ (text "wfpAppId", string helper.app_id)
          ∷ (text "displayName", string helper.display_name)
          ∷ (text "publisher", string helper.publisher)
          ∷ (text "isSigned", boolean helper.is_signed)
          ∷ (text "enabled", boolean helper.selected)
          ∷ [])))
      (helper_list rest)

unfoldable pub application_map : InspectedApplication → Fields
unfolding helper_list fields
application_map application =
    let main = application.main in
    fields (
      (text "platform", string (text "windows"))
      ∷ (text "displayName", string main.display_name)
      ∷ (text "bundlePath", string main.path)
      ∷ (text "bundleIdentifier", string [])
      ∷ (text "signingIdentifier", string [])
      ∷ (text "teamIdentifier", string [])
      ∷ (text "executablePath", string main.path)
      ∷ (text "wfpAppId", string main.app_id)
      ∷ (text "publisher", string main.publisher)
      ∷ (text "isSigned", boolean main.is_signed)
      ∷ (text "iconPngBase64", string application.icon_png_base64)
      ∷ (text "helperExecutables", list (helper_list application.helpers))
      ∷ [])

unfoldable pub select_application : Shell → MethodResult
unfolding application_map
select_application os =
    let (chosen, failure) = select_and_inspect os in
    elim chosen [
      | some application ↦ success (map (application_map application))
      | none ↦ if is_empty failure then success null else error (text "app_inspection") failure
    ]

module _ (p : Pipe) (c : Handles p) where
  unfoldable pub status_result : Reply ServiceStatus → MethodResult
  unfolding status_map error_status
  status_result (result status) = success (map (status_map status))
  status_result (no_result failure) = success (map (error_status failure))

  -- applyAndRestart: the events that are sent before the call of the service, and the result.
  unfoldable pub apply_and_restart :
      (has_sink : Bool) → Option Fields → p.World → List Value × MethodResult × p.World
  unfolding rules_of boolean_in string_in status_result
  apply_and_restart has_sink none w =
      ([], error (text "bad_arguments") (text "applyAndRestart requires rules"), w)
  apply_and_restart has_sink (some arguments) w = elim (list_in arguments (text "rules")) [
    | none ↦ ([], error (text "bad_arguments") (text "applyAndRestart requires rules"), w)
    | some items ↦
        let (reply, w') =
          apply_app_routing p c (boolean_in arguments (text "masterEnabled") false)
            (string_in arguments (text "configurationHash")) (rules_of items) [] w in
        (
          if has_sink
              then map (field (text "type") (string (text "reconnecting")) no_fields) ∷ []
              else [],
          status_result reply,
          w',
        )
  ]
