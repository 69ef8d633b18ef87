-- ===== src/Maintenance.antt =====
-- windows/native/maintenance/maintenance_main.cpp: the program that installs and removes the service
-- and the driver.
pub mod Handles
pub mod Kept
pub mod Installed
mod Tests
use netpilot.Base.{
  ℕ, ◌*◌, ◌/◌, ◌%◌, Bool, true, false, not, ◌&&◌, ◌||◌, Option, none, some, List, [], ◌∷◌, ◌++◌,
  ◌==◌, leb, if◌then◌else◌, length, drop,
}
use netpilot.Base.Text.{Bytes, text, str_eq}
use netpilot.Protocol.Types.{FrameHeader, Operation, cleanup, operation_code, max_frame_bytes}
use netpilot.Protocol.Frame.{header_size, header_bytes, header_at, frame_header}

-- What the program asks of Windows. A service is known by the name that its handle was opened with;
-- `close` is CloseHandle, CloseServiceHandle and FreeLibrary.
pub data Call : Type 0 where
  open_process_token open_manager load_newdev wait_pipe open_pipe close : Call
  create_service : (binary : Bytes) → Call
  open_service : (name : Bytes) → Call
  configure_service : (binary : Bytes) → Call
  set_recovery : (delays : List ℕ) → Call
  start_service : (name : Bytes) → Call
  control_stop delete_service : Call
  install_driver : (inf : Bytes) → Call
  uninstall_driver : (inf : Bytes) → Call
  write_pipe : Bytes → Call
  read_pipe : (size : ℕ) → Call
  remove_all : (path : Bytes) → Call

-- A call answers whether it succeeds; what it leaves is read from the world after it: GetLastError,
-- the flag for a restart, and the bytes that ReadFile got. GetTokenInformation and
-- NtQuerySystemInformation are `none` where they fail, and so is the known folder.
pub record Windows : Type 1 where
  pub World : Type 0
  pub call : Call → World → Bool × World
  pub last_error : World → ℕ
  pub restart : World → Bool
  pub received : World → Bytes
  pub token_elevation : World → Option Bool
  pub code_integrity_options : World → Option ℕ
  pub exports : Bytes → World → Bool
  pub directory : World → Bytes
  pub program_data : World → Option Bytes
  -- `path / name`
  pub join : Bytes → Bytes → Bytes

abbrev pub service_name : Bytes
service_name = text "NetPilotService"

abbrev pub driver_name : Bytes
driver_name = text "NetPilotWfp"

abbrev service_exists : ℕ
service_exists = 1073

abbrev pub already_running : ℕ
already_running = 1056

abbrev not_found : ℕ
not_found = 1168

abbrev pub elevation_required : ℕ
elevation_required = 740

abbrev pub bad_arguments : ℕ
bad_arguments = 160

abbrev pub driver_blocked : ℕ
driver_blocked = 1275

abbrev pub reboot_required : ℕ
reboot_required = 3010

module _ (os : Windows) where
  open os use {World}

  unfoldable pub is_elevated : World → Bool × World
  is_elevated w =
      let (opened, w') = os.call open_process_token w in
      if opened
      then (
        elim (os.token_elevation w') [ none ↦ false | some elevated ↦ elevated ],
        (os.call close w').1,
      )
      else (false, w')

  unfoldable pub test_mode_enabled : World → Bool
  test_mode_enabled w = elim (os.code_integrity_options w) [
    | none ↦ false
    | some options ↦ options / 2 % 2 == 1
  ]

  -- The end of InstallService and of StartKernelDriver: StartServiceW and the handles.
  unfoldable pub start_and_close : Bytes → World → Bool × World
  start_and_close name w =
      let (started, w') = os.call (start_service name) w in
      (started || os.last_error w' == already_running, (os.call close (os.call close w').1).1)

  unfoldable pub set_up_service : Bytes → World → Bool × World
  unfolding start_and_close
  set_up_service quoted w =
      let w' = (os.call (configure_service quoted) w).1 in
      start_and_close service_name (os.call (set_recovery (5000 ∷ 15000 ∷ 60000 ∷ [])) w').1

  -- CreateServiceW, or the service that exists.
  unfoldable pub create_or_open : Bytes → World → Bool × World
  create_or_open quoted w =
      let (created, w') = os.call (create_service quoted) w in
      if not created && os.last_error w' == service_exists
      then os.call (open_service service_name) w'
      else (created, w')

  unfoldable pub install_service : (binary : Bytes) (allow_pending : Bool) → World → Bool × World
  unfolding set_up_service create_or_open
  install_service binary allow_pending w =
      let quoted = text "\"" ++ (binary ++ text "\"") in
      let (managed, w1) = os.call open_manager w in
      let (found, w2) = create_or_open quoted w1 in
      let (started, w3) = set_up_service quoted w2 in
      if not managed
      then (false, w1)
      else if not found
      then (false, (os.call close w2).1)
      else (started || allow_pending, w3)

  unfoldable pub stop_and_delete_service : World → World
  stop_and_delete_service w =
      let (managed, w1) = os.call open_manager w in
      let (opened, w2) = os.call (open_service service_name) w1 in
      let w3 = (os.call delete_service (os.call control_stop w2).1).1 in
      if not managed then w1 else (os.call close (if opened then (os.call close w3).1 else w2)).1

  -- ReadFile into the header that was sent, which keeps the bytes that are not read.
  unfoldable pub header_read : FrameHeader → Bytes → FrameHeader
  unfolding header_bytes header_at
  header_read header bytes = header_at (bytes ++ drop (length bytes) (header_bytes header))

  unfoldable pub ask_cleanup : World → World
  unfolding header_read
  ask_cleanup w =
      let header = frame_header (operation_code cleanup) 0 in
      let w1 = (os.call (write_pipe (header_bytes header)) w).1 in
      let (read, w2) = os.call (read_pipe header_size) w1 in
      let size = (if read then header_read header (os.received w2) else header).payload_size in
      let w3 =
        if not (size == 0) && leb size max_frame_bytes
        then (os.call (read_pipe size) w2).1
        else w2 in
      (os.call close w3).1

  unfoldable pub request_cleanup : World → World
  unfolding ask_cleanup
  request_cleanup w =
      let (waited, w1) = os.call wait_pipe w in
      let (opened, w2) = os.call open_pipe w1 in
      if not waited then w1 else if opened then ask_cleanup w2 else w2

  unfoldable pub remove_system_state : World → World
  remove_system_state w = elim (os.program_data w) [
    | none ↦ w
    | some path ↦ (os.call (remove_all (os.join path (text "NetPilot"))) w).1
  ]

  -- A call of newdev.dll: whether it was made, whether it succeeded, its last error and its restart.
  unfoldable pub with_newdev : (procedure : Bytes) → Call → World → Option (Bool × ℕ × Bool) × World
  with_newdev procedure c w =
      let (loaded, w1) = os.call load_newdev w in
      let (done, w2) = os.call c w1 in
      if not loaded
      then (none, w1)
      else if not (os.exports procedure w1)
      then (none, (os.call close w1).1)
      else (some (done, os.last_error w2, os.restart w2), (os.call close w2).1)

  -- InstallDriver and RemoveDriver: the answer and `reboot`, which is false before.
  unfoldable pub install_driver_package : Bytes → World → (Bool × Bool) × World
  unfolding with_newdev
  install_driver_package inf w =
      let (made, w') = with_newdev (text "DiInstallDriverW") (install_driver inf) w in
      elim made [
        | none ↦ ((false, false), w')
        | some (done, error, restart) ↦ ((done, restart), w')
      ]

  unfoldable pub remove_driver : Bytes → World → (Bool × Bool) × World
  unfolding with_newdev
  remove_driver inf w =
      let (made, w') = with_newdev (text "DiUninstallDriverW") (uninstall_driver inf) w in
      elim made [
        | none ↦ ((false, false), w')
        | some (done, error, restart) ↦ ((done || error == not_found, restart), w')
      ]

  unfoldable pub start_kernel_driver : World → Bool × World
  unfolding start_and_close
  start_kernel_driver w =
      let (managed, w1) = os.call open_manager w in
      let (opened, w2) = os.call (open_service driver_name) w1 in
      if not managed
      then (false, w1)
      else if not opened
      then (false, (os.call close w2).1)
      else start_and_close driver_name w2

  -- What wmain answers in the end.
  abbrev exit_code : Bool → ℕ
  exit_code reboot = if reboot then reboot_required else 0

  unfoldable pub install : World → ℕ × World
  unfolding install_driver_package start_kernel_driver install_service
  install w =
      let inf = os.join (os.join (os.directory w) (text "driver")) (text "NetPilotWfp.inf") in
      let ((installed, reboot), w1) = install_driver_package inf w in
      let (started, w2) = start_kernel_driver w1 in
      let w3 = if reboot then w1 else w2 in
      let (served, w4) =
        install_service (os.join (os.directory w) (text "NetPilotService.exe")) reboot w3 in
      if not installed
      then (1, w1)
      else if not reboot && not started
      then (1, w2)
      else if served
      then (exit_code reboot, w4)
      else (1, w4)

  unfoldable pub remove : World → ℕ × World
  unfolding request_cleanup stop_and_delete_service remove_driver remove_system_state
  remove w =
      let inf = os.join (os.join (os.directory w) (text "driver")) (text "NetPilotWfp.inf") in
      let ((removed, reboot), w') =
        remove_driver inf (stop_and_delete_service (request_cleanup w)) in
      (exit_code reboot, remove_system_state w')

  -- wmain, after the program's name: the exit code.
  unfoldable pub maintain : List Bytes → World → ℕ × World
  unfolding is_elevated test_mode_enabled install remove
  maintain arguments w =
      let (elevated, w') = is_elevated w in
      if not elevated then (elevation_required, w') else elim arguments [
        | [] ↦ (bad_arguments, w')
        | operation ∷ more ↦ elim more [
          | extra ∷ others ↦ (bad_arguments, w')
          | [] ↦
              if str_eq operation (text "install") || str_eq operation (text "repair")
              then if test_mode_enabled w' then install w' else (driver_blocked, w')
              else if str_eq operation (text "remove")
              then remove w'
              else (bad_arguments, w')
        ]
      ]
