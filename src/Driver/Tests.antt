-- ===== src/Driver/Tests.antt =====
-- One connection, one request and one start of the driver.
use netpilot.Base.{◌≡◌, ◌≢◌, refl, ◌⊎◌, true, false, none, some}
use netpilot.Driver.Classify.{
  Connection, Redirect, GoesToProxy, permit, classify, is_self_redirected, count_acquired,
  count_released, count_requests, count_applied, classify_permits_proxied, classify_balanced,
}
use netpilot.Driver.Control.{
  success, Request, Registers, device_control, device_control_cases, no_resources, Answers,
  driver_entry, unload, driver_entry_all_or_nothing,
}

-- A new TCP connection to 203.0.113.10, port 443, for which the kernel grants everything.
abbrev web : Connection
web = record {
  can_write = true;
  redirect_state = none;
  protocol = 6;
  filter_context = 99;
  remote_ipv4 = 0x0a71_00cb;
  remote_port = 0xbb01;
  handle_acquired = true;
  request_acquired = true;
  context_allocated = true;
}

web-not_self : is_self_redirected web.redirect_state ≡ false
unfolding is_self_redirected
web-not_self = refl

web-permitted : (classify web 42).action ≡ some permit
unfolding classify is_self_redirected
web-permitted = refl

classify_permits_proxied_example :
    (r : Redirect) × ((classify web 42).redirect ≡ some r) × GoesToProxy web 42 r
classify_permits_proxied_example = classify_permits_proxied web 42 web-not_self refl web-permitted

classify_balanced_example :
    (count_acquired (classify web 42).calls ≡ count_released (classify web 42).calls)
    × (count_requests (classify web 42).calls ≡ count_applied (classify web 42).calls)
classify_balanced_example = classify_balanced web 42

abbrev registration : Request
registration = record {
  is_set_proxy_pid = true;
  input_length = 8;
  buffer = some (record { version = 1; process_id = 42 });
}

registration_cases :
    (((device_control registration 7).0 ≡ success)
      × Registers registration (device_control registration 7).1)
    ⊎ (((device_control registration 7).0 ≢ success) × ((device_control registration 7).1 ≡ 7))
registration_cases = device_control_cases registration 7

abbrev granted : Answers
granted = record { device = success; link = success; redirect_handle = success; callout = success }

driver_entry_all_or_nothing_example :
    (((driver_entry granted).0 ≡ success)
      × ((driver_entry granted).1
          ≡ record { device = true; link = true; redirect_handle = true; callout = true })
      × (unload (driver_entry granted).1 ≡ no_resources))
    ⊎ (((driver_entry granted).0 ≢ success) × ((driver_entry granted).1 ≡ no_resources))
driver_entry_all_or_nothing_example = driver_entry_all_or_nothing granted
