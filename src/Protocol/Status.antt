-- ===== src/Protocol/Status.antt =====
-- EncodeStatus and DecodeStatus of windows/native/common/netpilot_protocol.cpp. DecodeStatus adds
-- the metrics to those of the struct that it is given; its callers give it a new one.
use netpilot.Base.{◌≤◌, ◌<◌, ◌^◌, ◌≡◌, some, Option, [], arith, length, All}
use netpilot.Protocol.Types.{RuleMetric, ServiceStatus}
use netpilot.Protocol.Buffer.{
  Write, ◌▸◌, write_u32, write_u64, write_string, write_flag, write_list, Reader, reader, Read,
  pure, ◌>>=◌, read_u32, read_u64, read_string, read_flag, read_list, decode,
}
use netpilot.Protocol.Trip.{Trip, then-Trip, last-Trip, u32-Trip, u64-Trip}
use netpilot.Protocol.Fields.{IsText, string-Trip, flag-Trip, list-Trip, decode-Trip, All-Trip}

abbrev write_metric : RuleMetric → Write
write_metric metric =
    write_string metric.id
    ▸ write_u32 metric.active_flows
    ▸ write_u64 metric.bytes_in
    ▸ write_u64 metric.bytes_out
    ▸ write_string metric.last_error

unfoldable pub encode_status : ServiceStatus → Write
encode_status status =
    write_flag status.service_ready
    ▸ write_flag status.driver_ready
    ▸ write_flag status.engine_ready
    ▸ write_flag status.proxy_running
    ▸ write_flag status.reboot_required
    ▸ write_flag status.test_mode
    ▸ write_string status.applied_hash
    ▸ write_string status.message
    ▸ write_u32 status.active_flows
    ▸ write_u64 status.bytes_in
    ▸ write_u64 status.bytes_out
    ▸ write_list write_metric status.rule_metrics

abbrev read_metric : Read RuleMetric
read_metric = do
  id ← read_string
  active_flows ← read_u32
  bytes_in ← read_u64
  bytes_out ← read_u64
  last_error ← read_string
  pure (record {
    id = id;
    active_flows = active_flows;
    bytes_in = bytes_in;
    bytes_out = bytes_out;
    last_error = last_error;
  })

unfoldable pub decode_status : Reader → Option ServiceStatus
decode_status = decode do
  service ← read_flag
  driver ← read_flag
  engine ← read_flag
  proxy ← read_flag
  reboot ← read_flag
  test_mode ← read_flag
  applied_hash ← read_string
  message ← read_string
  active_flows ← read_u32
  bytes_in ← read_u64
  bytes_out ← read_u64
  rule_metrics ← read_list 1024 read_metric
  pure (record {
    service_ready = service;
    driver_ready = driver;
    engine_ready = engine;
    proxy_running = proxy;
    reboot_required = reboot;
    test_mode = test_mode;
    applied_hash = applied_hash;
    message = message;
    active_flows = active_flows;
    bytes_in = bytes_in;
    bytes_out = bytes_out;
    rule_metrics = rule_metrics;
  })

-- The integers have their widths, and the strings are within the frame limit.
pub record MetricFits (metric : RuleMetric) : Type 0 where
  pub id : IsText metric.id
  pub active_flows : metric.active_flows < 2 ^ 32
  pub bytes_in : metric.bytes_in < 2 ^ 64
  pub bytes_out : metric.bytes_out < 2 ^ 64
  pub last_error : IsText metric.last_error

pub record StatusFits (status : ServiceStatus) : Type 0 where
  pub applied_hash : IsText status.applied_hash
  pub message : IsText status.message
  pub active_flows : status.active_flows < 2 ^ 32
  pub bytes_in : status.bytes_in < 2 ^ 64
  pub bytes_out : status.bytes_out < 2 ^ 64
  pub metric_count : length status.rule_metrics ≤ 1024
  pub rule_metrics : All MetricFits status.rule_metrics

metric-Trip :
    (metric : RuleMetric) → MetricFits metric → Trip (write_metric metric) read_metric metric
metric-Trip metric h = then-Trip _ _ _ _ _ _ (string-Trip _ h.id) (
    then-Trip _ _ _ _ _ _ (u32-Trip _ h.active_flows) (
      then-Trip _ _ _ _ _ _ (u64-Trip _ h.bytes_in) (
        then-Trip _ _ _ _ _ _ (u64-Trip _ h.bytes_out)
          (last-Trip _ _ _ _ (string-Trip _ h.last_error)))))

-- What EncodeStatus writes for a status within the widths and limits, DecodeStatus reads back.
pub decode_status-encode_status :
    (status : ServiceStatus)
    → StatusFits status
    → decode_status (reader (encode_status status [])) ≡ some status
unfolding decode_status encode_status
decode_status-encode_status status h = decode-Trip (encode_status status) _ status (
    then-Trip _ _ _ _ _ _ (flag-Trip status.service_ready) (
      then-Trip _ _ _ _ _ _ (flag-Trip status.driver_ready) (
        then-Trip _ _ _ _ _ _ (flag-Trip status.engine_ready) (
          then-Trip _ _ _ _ _ _ (flag-Trip status.proxy_running) (
            then-Trip _ _ _ _ _ _ (flag-Trip status.reboot_required) (
              then-Trip _ _ _ _ _ _ (flag-Trip status.test_mode) (
                then-Trip _ _ _ _ _ _ (string-Trip _ h.applied_hash) (
                  then-Trip _ _ _ _ _ _ (string-Trip _ h.message) (
                    then-Trip _ _ _ _ _ _ (u32-Trip _ h.active_flows) (
                      then-Trip _ _ _ _ _ _ (u64-Trip _ h.bytes_in) (
                        then-Trip _ _ _ _ _ _ (u64-Trip _ h.bytes_out) (
                          last-Trip _ _ _ _ (
                            list-Trip 1024 write_metric read_metric status.rule_metrics
                              (omega arith) h.metric_count
                              (All-Trip write_metric read_metric status.rule_metrics metric-Trip
                                h.rule_metrics))))))))))))))
