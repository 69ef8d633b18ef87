-- ===== src/Driver/Control.antt =====
-- Dispatch, DeviceControl, Unload and DriverEntry: the device's requests and the driver's life.
use netpilot.Base.{
  ℕ, ◌≡◌, ◌≢◌, refl, ◌⊎◌, inl, inr, Bool, true, false, not, ◌&&◌, ◌||◌, Option, none, some, arith,
  ◌==◌, if◌then◌else◌, Bool-cases,
}

pub data Status : Type 0 where
  success invalid_device_request invalid_parameter : Status
  failure : ℕ → Status

-- NetPilotProxyProcessConfig.
pub record ProxyConfig : Type 0 where
  pub version : ℕ
  pub process_id : ℕ

abbrev pub proxy_config_version : ℕ
proxy_config_version = 1

-- `sizeof(NetPilotProxyProcessConfig)`, two 32-bit integers.
abbrev pub proxy_config_size : ℕ
proxy_config_size = 8

-- A device control request: whether its code is IOCTL_NETPILOT_SET_PROXY_PID, the length of its
-- input, and the buffer.
pub record Request : Type 0 where
  pub is_set_proxy_pid : Bool
  pub input_length : ℕ
  pub buffer : Option ProxyConfig

-- IRP_MJ_CREATE and IRP_MJ_CLOSE are 0 and 2.
unfoldable pub dispatch : ℕ → Status
dispatch function = if function == 0 || function == 2 then success else invalid_device_request

set_proxy : Option ProxyConfig → ℕ → Status × ℕ
set_proxy none pid = (invalid_parameter, pid)
set_proxy (some config) pid =
    if config.version == proxy_config_version && not (config.process_id == 0)
    then (success, config.process_id)
    else (invalid_parameter, pid)

-- The status, and `g_proxy_process_id` as its 32-bit pattern.
unfoldable pub device_control : Request → ℕ → Status × ℕ
unfolding set_proxy
device_control request pid =
    if request.is_set_proxy_pid && request.input_length == proxy_config_size
    then set_proxy request.buffer pid
    else (invalid_device_request, pid)

-- A request that registers a process.
pub record Registers (request : Request) (pid : ℕ) : Type 0 where
  pub code : request.is_set_proxy_pid ≡ true
  pub size : request.input_length ≡ proxy_config_size
  pub config : request.buffer ≡ some (record { version = proxy_config_version; process_id = pid })
  pub nonzero : pid ≢ 0

set_proxy_cases :
    (request : Request) (buffer : Option ProxyConfig) (old : ℕ)
    → request.is_set_proxy_pid ≡ true
    → request.input_length ≡ proxy_config_size
    → request.buffer ≡ buffer
    → (((set_proxy buffer old).0 ≡ success) × Registers request (set_proxy buffer old).1)
      ⊎ (((set_proxy buffer old).0 ≢ success) × ((set_proxy buffer old).1 ≡ old))
unfolding set_proxy
set_proxy_cases request none old code size e = inr (λ p. cc, refl)
set_proxy_cases request (some config) old code size e =
    elim (Bool-cases (config.version == proxy_config_version && not (config.process_id == 0))) [
      | inl b ↦ rw b (
          inl (
            refl,
            record { code = code; size = size; config = ground arith; nonzero = ground arith },
          ))
      | inr b ↦ rw b (inr ((λ p. cc), refl))
    ]

-- DeviceControl either answers success, and then the request had the right code, length and
-- version and named the process that is now registered, or it answers an error and leaves the
-- registered process alone.
pub device_control_cases :
    (request : Request) (old : ℕ)
    → (((device_control request old).0 ≡ success)
        × Registers request (device_control request old).1)
      ⊎ (((device_control request old).0 ≢ success) × ((device_control request old).1 ≡ old))
unfolding device_control
device_control_cases request old =
    elim (Bool-cases (request.is_set_proxy_pid && request.input_length == proxy_config_size)) [
      | inl b ↦ rw b (set_proxy_cases request request.buffer old (ground arith) (ground arith) refl)
      | inr b ↦ rw b (inr ((λ p. cc), refl))
    ]

-- What DriverEntry has created. The two handles are tested by Unload; the link is deleted in any
-- case.
pub record Resources : Type 0 where
  pub device : Bool
  pub link : Bool
  pub redirect_handle : Bool
  pub callout : Bool

abbrev pub no_resources : Resources
no_resources = record { device = false; link = false; redirect_handle = false; callout = false }

unfoldable pub unload : Resources → Resources
unload r =
    let r' = if r.callout then record r { callout = false } else r in
    let r'' = if r'.redirect_handle then record r' { redirect_handle = false } else r' in
    let r''' = record r'' { link = false } in
    if r'''.device then record r''' { device = false } else r'''

-- The kernel's answers, in the order in which DriverEntry asks.
pub record Answers : Type 0 where
  pub device : Status
  pub link : Status
  pub redirect_handle : Status
  pub callout : Status

abbrev is_success : Status → Bool
is_success success = true
is_success _ = false

register_callout : Answers → Resources → Status × Resources
unfolding unload
register_callout a r =
    if is_success a.callout then (a.callout, record r { callout = true }) else (a.callout, unload r)

create_redirect_handle : Answers → Resources → Status × Resources
unfolding register_callout
create_redirect_handle a r =
    if is_success a.redirect_handle
    then register_callout a (record r { redirect_handle = true })
    else (a.redirect_handle, unload r)

unfoldable pub driver_entry : Answers → Status × Resources
unfolding create_redirect_handle
driver_entry a =
    if not (is_success a.device)
    then (a.device, no_resources)
    else if not (is_success a.link)
    then (a.link, no_resources)
    else create_redirect_handle a
        (record { device = true; link = true; redirect_handle = false; callout = false })

-- DriverEntry is all or nothing: with success the device, its link, the redirect handle and the
-- callout are there, and Unload gives all of them back; otherwise nothing is left.
pub driver_entry_all_or_nothing :
    (a : Answers)
    → (((driver_entry a).0 ≡ success)
        × ((driver_entry a).1
            ≡ record { device = true; link = true; redirect_handle = true; callout = true })
        × (unload (driver_entry a).1 ≡ no_resources))
      ⊎ (((driver_entry a).0 ≢ success) × ((driver_entry a).1 ≡ no_resources))
unfolding driver_entry
driver_entry_all_or_nothing a = ground arith
