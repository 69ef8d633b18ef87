-- ===== src/Maintenance/Handles.antt =====
-- The handles of the maintenance program.
use netpilot.Base.{
  ℕ, suc, ◌-◌, ◌≡◌, refl, ◌∙◌, inl, inr, Bool, List, [], ◌∷◌, ◌++◌, if◌then◌else◌, arith,
  Bool-cases, Option-cases,
}
use netpilot.Base.Text.{Bytes, text}
use netpilot.Protocol.Types.{cleanup, operation_code}
use netpilot.Protocol.Frame.{header_size, header_bytes, frame_header}
use netpilot.Maintenance.{
  header_read, Call, open_process_token, open_manager, load_newdev, wait_pipe, open_pipe, close,
  create_service, open_service, configure_service, set_recovery, start_service, control_stop,
  delete_service, install_driver, uninstall_driver, write_pipe, read_pipe, remove_all, Windows,
  service_name, driver_name, is_elevated, start_and_close, set_up_service, create_or_open,
  install_service, stop_and_delete_service, ask_cleanup, request_cleanup, remove_system_state,
  with_newdev, install_driver_package, remove_driver, start_kernel_driver, install, remove,
  maintain,
}

-- The number of open handles after a call.
abbrev pub after : Call → Bool → ℕ → ℕ
after close ok n = n - 1
after open_process_token ok n = if ok then suc n else n
after open_manager ok n = if ok then suc n else n
after load_newdev ok n = if ok then suc n else n
after open_pipe ok n = if ok then suc n else n
after (create_service binary) ok n = if ok then suc n else n
after (open_service name) ok n = if ok then suc n else n
after _ ok n = n

pub record Handles (os : Windows) : Type 0 where
  pub count : os.World → ℕ
  pub counted :
      (c : Call) (w : os.World) → count (os.call c w).1 ≡ after c (os.call c w).0 (count w)

module _ (os : Windows) (t : Handles os) where
  open os use {World}

  is_elevated_closes : (w : World) → t.count (is_elevated os w).1 ≡ t.count w
  unfolding is_elevated
  is_elevated_closes w =
      let (opened, w') = os.call open_process_token w in
      let a = t.counted open_process_token w in
      let b = t.counted close w' in
      elim (Bool-cases opened) [
        | inl yes' ↦ ground (arith, a, b, yes')
        | inr no' ↦ ground (arith, a, no')
      ]

  start_and_close_closes :
      (name : Bytes) (w : World) → t.count (start_and_close os name w).1 ≡ t.count w - 1 - 1
  unfolding start_and_close
  start_and_close_closes name w =
      let w1 = (os.call (start_service name) w).1 in
      let w2 = (os.call close w1).1 in
      ground (arith, t.counted (start_service name) w, t.counted close w1, t.counted close w2)

  set_up_service_closes :
      (quoted : Bytes) (w : World) → t.count (set_up_service os quoted w).1 ≡ t.count w - 1 - 1
  unfolding set_up_service
  set_up_service_closes quoted w =
      let w1 = (os.call (configure_service quoted) w).1 in
      let delays = 5000 ∷ 15000 ∷ 60000 ∷ [] in
      let w2 = (os.call (set_recovery delays) w1).1 in
      ground (
        arith,
        t.counted (configure_service quoted) w,
        t.counted (set_recovery delays) w1,
        start_and_close_closes service_name w2,
      )

  create_or_open_counted :
      (quoted : Bytes) (w : World)
      → t.count (create_or_open os quoted w).1
        ≡ (if (create_or_open os quoted w).0 then suc (t.count w) else t.count w)
  unfolding create_or_open
  create_or_open_counted quoted w =
      let w1 = (os.call (create_service quoted) w).1 in
      ground (arith, t.counted (create_service quoted) w, t.counted (open_service service_name) w1)

  install_service_closes :
      (binary : Bytes) (allow_pending : Bool) (w : World)
      → t.count (install_service os binary allow_pending w).1 ≡ t.count w
  unfolding install_service
  install_service_closes binary allow_pending w =
      let quoted = text "\"" ++ (binary ++ text "\"") in
      let w1 = (os.call open_manager w).1 in
      let w2 = (create_or_open os quoted w1).1 in
      ground (
        arith,
        t.counted open_manager w,
        create_or_open_counted quoted w1,
        set_up_service_closes quoted w2,
        t.counted close w2,
      )

  stop_and_delete_service_closes : (w : World) → t.count (stop_and_delete_service os w) ≡ t.count w
  unfolding stop_and_delete_service
  stop_and_delete_service_closes w =
      let w1 = (os.call open_manager w).1 in
      let w2 = (os.call (open_service service_name) w1).1 in
      let w3 = (os.call control_stop w2).1 in
      let w4 = (os.call delete_service w3).1 in
      let w5 = (os.call close w4).1 in
      ground (
        arith,
        t.counted open_manager w,
        t.counted (open_service service_name) w1,
        t.counted control_stop w2,
        t.counted delete_service w3,
        t.counted close w4,
        t.counted close w5,
        t.counted close w2,
      )

  ask_cleanup_closes : (w : World) → t.count (ask_cleanup os w) ≡ t.count w - 1
  unfolding ask_cleanup
  ask_cleanup_closes w =
      let header = frame_header (operation_code cleanup) 0 in
      let w1 = (os.call (write_pipe (header_bytes header)) w).1 in
      let w2 = (os.call (read_pipe header_size) w1).1 in
      let size =
        (if (os.call (read_pipe header_size) w1).0
          then header_read os header (os.received w2)
          else header).payload_size in
      let w3 = (os.call (read_pipe size) w2).1 in
      ground (
        arith,
        t.counted (write_pipe (header_bytes header)) w,
        t.counted (read_pipe header_size) w1,
        t.counted (read_pipe size) w2,
        t.counted close w2,
        t.counted close w3,
      )

  request_cleanup_closes : (w : World) → t.count (request_cleanup os w) ≡ t.count w
  unfolding request_cleanup
  request_cleanup_closes w =
      let w1 = (os.call wait_pipe w).1 in
      let w2 = (os.call open_pipe w1).1 in
      ground (arith, t.counted wait_pipe w, t.counted open_pipe w1, ask_cleanup_closes w2)

  remove_system_state_counted : (w : World) → t.count (remove_system_state os w) ≡ t.count w
  unfolding remove_system_state
  remove_system_state_counted w = elim (Option-cases (os.program_data w)) [
    | inl no_folder ↦ ground (arith, no_folder)
    | inr (path, folder) ↦
        ground (arith, folder, t.counted (remove_all (os.join path (text "NetPilot"))) w)
  ]

  with_newdev_closes :
      (procedure : Bytes) (c : Call) (w : World)
      → ((n : ℕ) (ok : Bool) → after c ok n ≡ n)
      → t.count (with_newdev os procedure c w).1 ≡ t.count w
  unfolding with_newdev
  with_newdev_closes procedure c w steady =
      let w1 = (os.call load_newdev w).1 in
      let (ok, w2) = os.call c w1 in
      ground (
        arith,
        t.counted load_newdev w,
        t.counted c w1,
        steady (t.count w1) ok,
        t.counted close w1,
        t.counted close w2,
      )

  install_driver_package_closes :
      (inf : Bytes) (w : World) → t.count (install_driver_package os inf w).1 ≡ t.count w
  unfolding install_driver_package
  install_driver_package_closes inf w =
      let same =
        with_newdev_closes (text "DiInstallDriverW") (install_driver inf) w (λ n ok. refl) in
      elim (Option-cases (with_newdev os (text "DiInstallDriverW") (install_driver inf) w).0) [
        | inl lost ↦ ground (arith, lost, same)
        | inr (made, answered) ↦ ground (arith, answered, same)
      ]

  remove_driver_closes : (inf : Bytes) (w : World) → t.count (remove_driver os inf w).1 ≡ t.count w
  unfolding remove_driver
  remove_driver_closes inf w =
      let same =
        with_newdev_closes (text "DiUninstallDriverW") (uninstall_driver inf) w (λ n ok. refl) in
      elim (Option-cases (with_newdev os (text "DiUninstallDriverW") (uninstall_driver inf) w).0) [
        | inl lost ↦ ground (arith, lost, same)
        | inr (made, answered) ↦ ground (arith, answered, same)
      ]

  start_kernel_driver_closes : (w : World) → t.count (start_kernel_driver os w).1 ≡ t.count w
  unfolding start_kernel_driver
  start_kernel_driver_closes w =
      let w1 = (os.call open_manager w).1 in
      let w2 = (os.call (open_service driver_name) w1).1 in
      ground (
        arith,
        t.counted open_manager w,
        t.counted (open_service driver_name) w1,
        t.counted close w2,
        start_and_close_closes driver_name w2,
      )

  install_closes : (w : World) → t.count (install os w).1 ≡ t.count w
  unfolding install
  install_closes w =
      let inf = os.join (os.join (os.directory w) (text "driver")) (text "NetPilotWfp.inf") in
      let binary = os.join (os.directory w) (text "NetPilotService.exe") in
      let ((installed, reboot), w1) = install_driver_package os inf w in
      let w2 = (start_kernel_driver os w1).1 in
      ground (
        arith,
        install_driver_package_closes inf w,
        start_kernel_driver_closes w1,
        install_service_closes binary reboot w1,
        install_service_closes binary reboot w2,
      )

  remove_closes : (w : World) → t.count (remove os w).1 ≡ t.count w
  unfolding remove
  remove_closes w =
      let inf = os.join (os.join (os.directory w) (text "driver")) (text "NetPilotWfp.inf") in
      let w1 = request_cleanup os w in
      let w2 = stop_and_delete_service os w1 in
      remove_system_state_counted (remove_driver os inf w2).1
      ∙ remove_driver_closes inf w2
      ∙ stop_and_delete_service_closes w1
      ∙ request_cleanup_closes w

  -- Whatever the arguments and whichever calls fail, the program closes every handle and library that
  -- it opens before it ends. (A call that opens one and succeeds is taken to leave one more open, a
  -- close one less, and no other call to change the count.)
  pub maintain_closes :
      (arguments : List Bytes) (w : World) → t.count (maintain os arguments w).1 ≡ t.count w
  unfolding maintain
  maintain_closes [] w = ground (arith, is_elevated_closes w)
  maintain_closes (operation ∷ extra ∷ others) w = ground (arith, is_elevated_closes w)
  maintain_closes (operation ∷ []) w =
      let w1 = (is_elevated os w).1 in
      ground (arith, is_elevated_closes w, install_closes w1, remove_closes w1)
