-- ===== src/Maintenance/Tests.antt =====
-- A machine on which every call works; the service exists already, and nothing else does.
use netpilot.Base.{
  ℕ, suc, ◌-◌, ◌≡◌, refl, Bool, true, false, none, some, List, [], ◌∷◌, ◌++◌, arith,
}
use netpilot.Base.Text.{Bytes, text, str_eq, str_eq_iff}
use netpilot.Std.OrderedSet.{contains}
use netpilot.Maintenance.{
  Call, open_process_token, open_manager, load_newdev, open_pipe, close, create_service,
  open_service, start_service, control_stop, delete_service, install_driver, uninstall_driver,
  Windows, is_elevated, maintain, test_mode_enabled,
}
use netpilot.Maintenance.Handles.{after, Handles, maintain_closes}
use netpilot.Maintenance.Kept.{IsKept}
use netpilot.Maintenance.Installed.{Effects, IsInstalled, maintain-IsInstalled}

record Machine : Type 0 where
  handles : ℕ
  driver : Bool
  services : List Bytes
  started : List Bytes
  error : ℕ

abbrev opened : Machine → Machine
opened w = record w { handles = suc w.handles }

abbrev act : Call → Machine → Bool × Machine
act open_process_token w = (true, opened w)
act open_manager w = (true, opened w)
act load_newdev w = (true, opened w)
act open_pipe w = (true, opened w)
act close w = (true, record w { handles = w.handles - 1 })
act (create_service binary) w = (false, record w { error = 1073 })
act (open_service name) w = (true, record (opened w) { services = name ∷ w.services })
act (start_service name) w = (true, record w { started = name ∷ w.started })
act control_stop w = (true, record w { started = [] })
act delete_service w = (true, record w { services = [] })
act (install_driver inf) w = (true, record w { driver = true })
act (uninstall_driver inf) w = (true, record w { driver = false })
act _ w = (true, w)

abbrev machine : Windows
machine = record {
  World = Machine;
  call = act;
  last_error = λ w. w.error;
  restart = λ w. false;
  received = λ w. [];
  token_elevation = λ w. some true;
  code_integrity_options = λ w. some 2;
  exports = λ name w. true;
  directory = λ w. text "C:\\NetPilot";
  program_data = λ w. none;
  join = λ path name. path ++ (text "\\" ++ name);
}

act_counted : (c : Call) (w : Machine) → (act c w).1.handles ≡ after c (act c w).0 w.handles
act_counted c w = ground arith

abbrev machine_handles : Handles machine
machine_handles = record { count = λ w. w.handles; counted = act_counted }

driver-IsKept : IsKept machine (λ w. w.driver)
driver-IsKept c w stays h = ground (arith, stays, h)

registered-IsKept : (name : Bytes) → IsKept machine (λ w. contains name w.services)
unfolding contains
registered-IsKept name c w stays h = ground (arith, stays, h)

running-IsKept : (name : Bytes) → IsKept machine (λ w. contains name w.started)
unfolding contains
running-IsKept name c w stays h = ground (arith, stays, h)

machine_effects : Effects machine
unfolding contains
machine_effects = record {
  driver = λ w. w.driver;
  registered = λ name w. contains name w.services;
  running = λ name w. contains name w.started;
  driver_kept = driver-IsKept;
  registered_kept = registered-IsKept;
  running_kept = running-IsKept;
  installs = λ inf w h. refl;
  creates = λ binary w h. absurd (cc h);
  opens = λ name w h. ground (arith, (str_eq_iff name name).1 refl);
  starts = λ name w h. ground (arith, (str_eq_iff name name).1 refl);
}

abbrev empty : Machine
empty = record { handles = 5; driver = false; services = []; started = []; error = 0 }

abbrev final : Machine
final = (maintain machine (text "install" ∷ []) empty).1

maintain_closes_example : final.handles ≡ 5
maintain_closes_example = maintain_closes machine machine_handles (text "install" ∷ []) empty

maintain-IsInstalled_example :
    ((is_elevated machine empty).0 ≡ true)
    × ((test_mode_enabled machine (is_elevated machine empty).1 ≡ true)
        × IsInstalled machine machine_effects
            (maintain machine (text "install" ∷ []) empty).0
            final)
unfolding maintain str_eq
maintain-IsInstalled_example =
    maintain-IsInstalled machine machine_effects (text "install") empty refl refl
