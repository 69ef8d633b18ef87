-- ===== src/Maintenance/Installed.antt =====
-- What an installation that succeeds leaves.
use netpilot.Base.{
  ℕ, ◌≡◌, refl, sym, inl, inr, ◌⊎◌, Bool, true, false, ◌||◌, [], ◌∷◌, ◌++◌, ◌==◌, arith, Bool-cases,
}
use netpilot.Base.Text.{Bytes, text, str_eq}
use netpilot.Maintenance.{
  open_manager, load_newdev, close, create_service, open_service, configure_service, set_recovery,
  start_service, install_driver, Windows, service_name, driver_name, is_elevated, start_and_close,
  set_up_service, create_or_open, install_service, with_newdev, install_driver_package,
  start_kernel_driver, install, maintain, already_running, test_mode_enabled, reboot_required,
}
use netpilot.Maintenance.Kept.{
  IsKept, install_service_keeps, start_kernel_driver_keeps, set_up_service_keeps,
}

-- Whether the driver's package is installed, and whether a service is registered and has been
-- started.
pub record Effects (os : Windows) : Type 0 where
  pub driver : os.World → Bool
  pub registered : Bytes → os.World → Bool
  pub running : Bytes → os.World → Bool
  pub driver_kept : IsKept os driver
  pub registered_kept : (name : Bytes) → IsKept os (registered name)
  pub running_kept : (name : Bytes) → IsKept os (running name)
  pub installs :
      (inf : Bytes) (w : os.World)
      → (os.call (install_driver inf) w).0 ≡ true
      → driver (os.call (install_driver inf) w).1 ≡ true
  pub creates :
      (binary : Bytes) (w : os.World)
      → (os.call (create_service binary) w).0 ≡ true
      → registered service_name (os.call (create_service binary) w).1 ≡ true
  pub opens :
      (name : Bytes) (w : os.World)
      → (os.call (open_service name) w).0 ≡ true
      → registered name (os.call (open_service name) w).1 ≡ true
  pub starts :
      (name : Bytes) (w : os.World)
      → ((os.call (start_service name) w).0
          || os.last_error (os.call (start_service name) w).1 == already_running)
        ≡ true
      → running name (os.call (start_service name) w).1 ≡ true

module _ (os : Windows) (t : Effects os) where
  open os use {World}

  start_and_close_starts :
      (name : Bytes) (w : World)
      → (start_and_close os name w).0 ≡ true
      → t.running name (start_and_close os name w).1 ≡ true
  unfolding start_and_close
  start_and_close_starts name w h =
      let kept = t.running_kept name in kept close _ refl (kept close _ refl (t.starts name w h))

  create_or_open_registers :
      (quoted : Bytes) (w : World)
      → (create_or_open os quoted w).0 ≡ true
      → t.registered service_name (create_or_open os quoted w).1 ≡ true
  unfolding create_or_open
  create_or_open_registers quoted w h =
      let w1 = (os.call (create_service quoted) w).1 in
      ground (arith, h, t.creates quoted w, t.opens service_name w1)

  install_service_registers :
      (binary : Bytes) (pending : Bool) (w : World)
      → (install_service os binary pending w).0 ≡ true
      → t.registered service_name (install_service os binary pending w).1 ≡ true
  unfolding install_service
  install_service_registers binary pending w h =
      let quoted = text "\"" ++ (binary ++ text "\"") in
      let w1 = (os.call open_manager w).1 in
      let w2 = (create_or_open os quoted w1).1 in
      let known = create_or_open_registers quoted w1 in
      ground (
        arith,
        h,
        known,
        set_up_service_keeps os (t.registered service_name) (t.registered_kept service_name) quoted
            w2,
      )

  install_service_starts :
      (binary : Bytes) (w : World)
      → (install_service os binary false w).0 ≡ true
      → t.running service_name (install_service os binary false w).1 ≡ true
  unfolding install_service set_up_service
  install_service_starts binary w h =
      let quoted = text "\"" ++ (binary ++ text "\"") in
      let w1 = (os.call open_manager w).1 in
      let w2 = (create_or_open os quoted w1).1 in
      let w3 = (os.call (configure_service quoted) w2).1 in
      let w4 = (os.call (set_recovery (5000 ∷ 15000 ∷ 60000 ∷ [])) w3).1 in
      ground (arith, h, start_and_close_starts service_name w4)

  start_kernel_driver_starts :
      (w : World)
      → (start_kernel_driver os w).0 ≡ true
      → t.running driver_name (start_kernel_driver os w).1 ≡ true
  unfolding start_kernel_driver
  start_kernel_driver_starts w h =
      let w1 = (os.call open_manager w).1 in
      let w2 = (os.call (open_service driver_name) w1).1 in
      ground (arith, h, start_and_close_starts driver_name w2)

  install_driver_package_installs :
      (inf : Bytes) (w : World)
      → (install_driver_package os inf w).0.0 ≡ true
      → t.driver (install_driver_package os inf w).1 ≡ true
  unfolding install_driver_package with_newdev
  install_driver_package_installs inf w h =
      let w1 = (os.call load_newdev w).1 in
      let w2 = (os.call (install_driver inf) w1).1 in
      let fresh = t.installs inf w1 in ground (arith, h, fresh, t.driver_kept close w2 refl)

-- The exit codes of success: 0, and that a restart is needed.
abbrev is_success : ℕ → Bool
is_success code = code == 0 || code == reboot_required

-- The driver's package is installed and the service is registered, and both were started unless a
-- restart is needed.
pub record IsInstalled (os : Windows) (t : Effects os) (code : ℕ) (w : os.World) : Type 0 where
  pub driver : t.driver w ≡ true
  pub registered : t.registered service_name w ≡ true
  pub started :
      (code ≡ reboot_required)
      ⊎ (t.running driver_name w ≡ true) × (t.running service_name w ≡ true)

module _ (os : Windows) (t : Effects os) where
  open os use {World}

  both_started :
      (binary : Bytes) (w : World)
      → t.driver w ≡ true
      → (start_kernel_driver os w).0 ≡ true
      → (install_service os binary false (start_kernel_driver os w).1).0 ≡ true
      → IsInstalled os t 0 (install_service os binary false (start_kernel_driver os w).1).1
  both_started binary w here ready served =
      let w' = (start_kernel_driver os w).1 in
      let still = start_kernel_driver_keeps os t.driver t.driver_kept w here in
      let on = start_kernel_driver_starts os t w ready in
      record {
        driver = install_service_keeps os t.driver t.driver_kept binary false w' still;
        registered = install_service_registers os t binary false w' served;
        started = inr (
          install_service_keeps os (t.running driver_name) (t.running_kept driver_name) binary false
              w' on,
          install_service_starts os t binary w' served,
        );
      }

  install-IsInstalled :
      (w : World)
      → is_success (install os w).0 ≡ true
      → IsInstalled os t (install os w).0 (install os w).1
  unfolding install
  install-IsInstalled w h =
      let inf = os.join (os.join (os.directory w) (text "driver")) (text "NetPilotWfp.inf") in
      let binary = os.join (os.directory w) (text "NetPilotService.exe") in
      let w1 = (install_driver_package os inf w).1 in
      let w2 = (start_kernel_driver os w1).1 in
      elim (Bool-cases (install_driver_package os inf w).0.0) [
        | inr failed ↦ absurd (ground (arith, failed))
        | inl installed ↦
            let here = install_driver_package_installs os t inf w installed in
            elim (Bool-cases (install_driver_package os inf w).0.1) [
              | inl reboot ↦ elim (Bool-cases (install_service os binary true w1).0) [
                | inr failed ↦ absurd (ground (arith, installed, reboot, failed))
                | inl served ↦
                    let e : install os w
                        ≡ (reboot_required, (install_service os binary true w1).1) =
                      ground (arith, installed, reboot, served) in
                    rw e (record {
                      driver = install_service_keeps os t.driver t.driver_kept binary true w1 here;
                      registered = install_service_registers os t binary true w1 served;
                      started = inl refl;
                    })
              ]
              | inr whole ↦ elim (Bool-cases (start_kernel_driver os w1).0) [
                | inr idle ↦ absurd (ground (arith, installed, whole, idle))
                | inl ready ↦ elim (Bool-cases (install_service os binary false w2).0) [
                  | inr failed ↦ absurd (ground (arith, installed, whole, ready, failed))
                  | inl served ↦
                      let e : install os w ≡ (0, (install_service os binary false w2).1) =
                        ground (arith, installed, whole, ready, served) in
                      rw e (both_started binary w1 here ready served)
                ]
              ]
            ]
      ]

  -- If `install` or `repair` ends with 0 or with the code for a restart, then the program was elevated and
  -- Windows was in test mode, the driver's package is installed and the service is registered, and
  -- unless a restart is needed both the driver and the service were started. (No call is taken to undo
  -- what an earlier one did but those that stop or remove something.)
  pub maintain-IsInstalled :
      (operation : Bytes) (w : World)
      → (str_eq operation (text "install") || str_eq operation (text "repair")) ≡ true
      → is_success (maintain os (operation ∷ []) w).0 ≡ true
      → ((is_elevated os w).0 ≡ true)
        × ((test_mode_enabled os (is_elevated os w).1 ≡ true)
            × IsInstalled os t
                (maintain os (operation ∷ []) w).0
                (maintain os (operation ∷ []) w).1)
  unfolding maintain
  maintain-IsInstalled operation w asked h =
      let w' = (is_elevated os w).1 in
      elim (Bool-cases (is_elevated os w).0) [
        | inr plain ↦ absurd (ground (arith, plain))
        | inl elevated ↦ elim (Bool-cases (test_mode_enabled os w')) [
          | inr blocked ↦ absurd (ground (arith, elevated, asked, blocked))
          | inl signed ↦
              let e : maintain os (operation ∷ []) w ≡ install os w' =
                ground (arith, elevated, asked, signed) in
              (elevated, (signed, rw e (install-IsInstalled w' (rw (sym e) h))))
        ]
      ]
