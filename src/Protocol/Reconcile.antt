-- ===== src/Protocol/Reconcile.antt =====
-- EncodeReconcileResult and DecodeReconcileResult of windows/native/common/netpilot_protocol.cpp.
-- DecodeReconcileResult adds to the lists of the struct that it is given; its callers give it a
-- new one.
use netpilot.Base.{◌≤◌, ◌<◌, ◌^◌, ◌≡◌, some, Option, [], arith, length, All}
use netpilot.Protocol.Types.{RouteCheck, RestartedProcess, ReconcileResult}
use netpilot.Protocol.Buffer.{
  Write, ◌▸◌, write_u32, write_string, write_flag, write_list, Reader, reader, Read, pure, ◌>>=◌,
  read_u32, read_string, read_flag, read_list, decode,
}
use netpilot.Protocol.Trip.{Trip, then-Trip, last-Trip, u32-Trip}
use netpilot.Protocol.Fields.{IsText, string-Trip, flag-Trip, list-Trip, decode-Trip, All-Trip}

abbrev write_check : RouteCheck → Write
write_check check =
    write_string check.destination
    ▸ write_string check.expected_interface
    ▸ write_string check.expected_gateway
    ▸ write_string check.actual_interface
    ▸ write_string check.actual_gateway
    ▸ write_flag check.exact_present
    ▸ write_flag check.verified
    ▸ write_string check.message

abbrev write_process : RestartedProcess → Write
write_process process = write_u32 process.pid ▸ write_string process.name

unfoldable pub encode_reconcile_result : ReconcileResult → Write
encode_reconcile_result result =
    write_flag result.ok
    ▸ write_u32 result.added
    ▸ write_u32 result.removed
    ▸ write_list write_string result.errors
    ▸ write_list write_check result.route_checks
    ▸ write_list write_string result.connection_reset_destinations
    ▸ write_list write_process result.restarted_processes

abbrev read_check : Read RouteCheck
read_check = do
  destination ← read_string
  expected_interface ← read_string
  expected_gateway ← read_string
  actual_interface ← read_string
  actual_gateway ← read_string
  exact_present ← read_flag
  verified ← read_flag
  message ← read_string
  pure (record {
    destination = destination;
    expected_interface = expected_interface;
    expected_gateway = expected_gateway;
    actual_interface = actual_interface;
    actual_gateway = actual_gateway;
    exact_present = exact_present;
    verified = verified;
    message = message;
  })

abbrev read_process : Read RestartedProcess
read_process = do pid ← read_u32; name ← read_string; pure (record { pid = pid; name = name })

unfoldable pub decode_reconcile_result : Reader → Option ReconcileResult
decode_reconcile_result = decode do
  ok ← read_flag
  added ← read_u32
  removed ← read_u32
  errors ← read_list 4096 read_string
  route_checks ← read_list 4096 read_check
  connection_reset_destinations ← read_list 4096 read_string
  restarted_processes ← read_list 4096 read_process
  pure (record {
    ok = ok;
    added = added;
    removed = removed;
    errors = errors;
    route_checks = route_checks;
    connection_reset_destinations = connection_reset_destinations;
    restarted_processes = restarted_processes;
  })

pub record CheckFits (check : RouteCheck) : Type 0 where
  pub destination : IsText check.destination
  pub expected_interface : IsText check.expected_interface
  pub expected_gateway : IsText check.expected_gateway
  pub actual_interface : IsText check.actual_interface
  pub actual_gateway : IsText check.actual_gateway
  pub message : IsText check.message

pub record ProcessFits (process : RestartedProcess) : Type 0 where
  pub pid : process.pid < 2 ^ 32
  pub name : IsText process.name

pub record ResultFits (result : ReconcileResult) : Type 0 where
  pub added : result.added < 2 ^ 32
  pub removed : result.removed < 2 ^ 32
  pub error_count : length result.errors ≤ 4096
  pub errors : All IsText result.errors
  pub check_count : length result.route_checks ≤ 4096
  pub route_checks : All CheckFits result.route_checks
  pub destination_count : length result.connection_reset_destinations ≤ 4096
  pub destinations : All IsText result.connection_reset_destinations
  pub process_count : length result.restarted_processes ≤ 4096
  pub processes : All ProcessFits result.restarted_processes

check-Trip : (check : RouteCheck) → CheckFits check → Trip (write_check check) read_check check
check-Trip check h = then-Trip _ _ _ _ _ _ (string-Trip _ h.destination) (
    then-Trip _ _ _ _ _ _ (string-Trip _ h.expected_interface) (
      then-Trip _ _ _ _ _ _ (string-Trip _ h.expected_gateway) (
        then-Trip _ _ _ _ _ _ (string-Trip _ h.actual_interface) (
          then-Trip _ _ _ _ _ _ (string-Trip _ h.actual_gateway) (
            then-Trip _ _ _ _ _ _ (flag-Trip check.exact_present) (
              then-Trip _ _ _ _ _ _ (flag-Trip check.verified)
                (last-Trip _ _ _ _ (string-Trip _ h.message))))))))

process-Trip :
    (process : RestartedProcess)
    → ProcessFits process
    → Trip (write_process process) read_process process
process-Trip process h =
    then-Trip _ _ _ _ _ _ (u32-Trip _ h.pid) (last-Trip _ _ _ _ (string-Trip _ h.name))

-- What EncodeReconcileResult writes for a result within the widths and limits,
-- DecodeReconcileResult reads back.
pub decode_reconcile_result-encode_reconcile_result :
    (result : ReconcileResult)
    → ResultFits result
    → decode_reconcile_result (reader (encode_reconcile_result result [])) ≡ some result
unfolding decode_reconcile_result encode_reconcile_result
decode_reconcile_result-encode_reconcile_result result h =
    decode-Trip (encode_reconcile_result result) _ result (
      then-Trip _ _ _ _ _ _ (flag-Trip result.ok) (
        then-Trip _ _ _ _ _ _ (u32-Trip _ h.added) (
          then-Trip _ _ _ _ _ _ (u32-Trip _ h.removed) (
            then-Trip _ _ _ _ _ _
              (list-Trip 4096 write_string read_string result.errors (omega arith) h.error_count
                (All-Trip write_string read_string result.errors string-Trip h.errors))
              (then-Trip _ _ _ _ _ _
                (list-Trip 4096 write_check read_check result.route_checks (omega arith)
                  h.check_count
                  (All-Trip write_check read_check result.route_checks check-Trip h.route_checks))
                (then-Trip _ _ _ _ _ _
                  (list-Trip 4096 write_string read_string result.connection_reset_destinations
                    (omega arith) h.destination_count
                    (All-Trip write_string read_string result.connection_reset_destinations
                      string-Trip h.destinations))
                  (last-Trip _ _ _ _ (
                    list-Trip 4096 write_process read_process result.restarted_processes
                      (omega arith) h.process_count
                      (All-Trip write_process read_process result.restarted_processes process-Trip
                        h.processes)))))))))
