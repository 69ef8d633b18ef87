-- ===== src/Maintenance/Kept.antt =====
-- What a call of the installation leaves as it is.
use netpilot.Base.{◌≡◌, refl, Bool, true, false, ◌++◌, arith}
use netpilot.Base.Text.{Bytes, text}
use netpilot.Maintenance.{
  Call, open_manager, close, create_service, open_service, configure_service, set_recovery,
  start_service, control_stop, delete_service, uninstall_driver, Windows, service_name, driver_name,
  start_and_close, set_up_service, create_or_open, install_service, start_kernel_driver,
}

abbrev pub is_removal : Call → Bool
is_removal control_stop = true
is_removal delete_service = true
is_removal (uninstall_driver inf) = true
is_removal _ = false

-- What no call undoes that does not stop or remove something.
abbrev pub IsKept : (os : Windows) → (os.World → Bool) → Type 0
IsKept os holds =
    (c : Call) (w : os.World) → is_removal c ≡ false → holds w ≡ true → holds (os.call c w).1 ≡ true

module _ (os : Windows) (holds : os.World → Bool) (kept : IsKept os holds) where
  open os use {World}

  start_and_close_keeps :
      (name : Bytes) (w : World) → holds w ≡ true → holds (start_and_close os name w).1 ≡ true
  unfolding start_and_close
  start_and_close_keeps name w h =
      kept close _ refl (kept close _ refl (kept (start_service name) w refl h))

  pub set_up_service_keeps :
      (quoted : Bytes) (w : World) → holds w ≡ true → holds (set_up_service os quoted w).1 ≡ true
  unfolding set_up_service
  set_up_service_keeps quoted w h =
      start_and_close_keeps service_name _
        (kept (set_recovery _) _ refl (kept (configure_service quoted) w refl h))

  create_or_open_keeps :
      (quoted : Bytes) (w : World) → holds w ≡ true → holds (create_or_open os quoted w).1 ≡ true
  unfolding create_or_open
  create_or_open_keeps quoted w h =
      let w1 = (os.call (create_service quoted) w).1 in
      let h1 = kept (create_service quoted) w refl h in
      ground (arith, h1, kept (open_service service_name) w1 refl h1)

  pub install_service_keeps :
      (binary : Bytes) (pending : Bool) (w : World)
      → holds w ≡ true
      → holds (install_service os binary pending w).1 ≡ true
  unfolding install_service
  install_service_keeps binary pending w h =
      let quoted = text "\"" ++ (binary ++ text "\"") in
      let h1 = kept open_manager w refl h in
      let h2 = create_or_open_keeps quoted (os.call open_manager w).1 h1 in
      let h3 = set_up_service_keeps quoted _ h2 in ground (arith, h1, h2, h3, kept close _ refl h2)

  pub start_kernel_driver_keeps :
      (w : World) → holds w ≡ true → holds (start_kernel_driver os w).1 ≡ true
  unfolding start_kernel_driver
  start_kernel_driver_keeps w h =
      let h1 = kept open_manager w refl h in
      let h2 = kept (open_service driver_name) _ refl h1 in
      let h3 = start_and_close_keeps driver_name _ h2 in
      ground (arith, h1, h2, h3, kept close _ refl h2)
