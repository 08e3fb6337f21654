-- ===== src/Windows/Wintun.antt =====
-- src/platform/windows/tun/mod.rs and the calls of windows/ffi.rs that it makes: the Wintun adapter. The
-- functions of `wintun.dll` and of the Windows API are requests; a null pointer is answered by `none`.
pub mod Session
pub mod Adapter
pub mod Held
pub mod Switch
pub mod Awake
pub mod Clock
pub mod Lifecycle
use quincy_tun.Base.{ℕ, List, Bool, true, false, Option, none, some, Outcome, ok, err, os}
use quincy_tun.Host.{Event, Host, M, call, pure, next, ◌>>=◌}
use quincy_tun.Net.{Text}

pub data Dll : Type 0 where
  load : Text → Dll
  set_default_logger : Dll
  open_adapter : Text → Dll
  create_adapter : Text → Text → Option ℕ → Dll
  get_adapter_luid close_adapter : ℕ → Dll
  delete_driver : Dll
  start_session : ℕ → ℕ → Dll
  get_read_wait_event end_session : ℕ → Dll
  -- a packet of the ring, asked for by its size, and sent with the bytes copied into it
  allocate_send_packet : ℕ → ℕ → Dll
  send_packet : ℕ → ℕ → List ℕ → Dll
  receive_packet : ℕ → Dll
  release_receive_packet : ℕ → ℕ → Dll
  get_running_driver_version get_last_error : Dll
  create_event : Dll
  set_event reset_event close_handle : ℕ → Dll
  wait_for_single_object : ℕ → ℕ → Dll
  -- without a timeout: INFINITE
  wait_for_multiple_objects : List ℕ → Option ℕ → Dll
  convert_luid_to_index convert_luid_to_alias : ℕ → Dll
  -- the flag of the adapter, which another thread may have changed
  load_state : Dll
  -- the clock, in nanoseconds since the start, and a pause of milliseconds
  elapsed : Dll
  spin_loop yield_now : Dll
  sleep : ℕ → Dll
  -- the version of Windows, and the devices that its SetupAPI lists
  get_version_ex : Dll
  get_class_devs : Text → Dll
  enum_device_info : ℕ → ℕ → Dll
  destroy_device_info_list get_devnode_status : ℕ → Dll
  get_name_size : ℕ → ℕ → Dll
  get_name_property : ℕ → ℕ → ℕ → Dll
  get_owning_process : ℕ → ℕ → Dll
  open_process get_process_times close_process : ℕ → Dll
  -- the descriptions of the interfaces, the crate `getifaddrs`
  getifaddrs : Dll

-- `OwningProcess`, where the property is of the binary type: a process, and the time of its creation.
pub record OwningProcess : Type 0 where
  pub process_id : ℕ
  pub creation_time : ℕ

abbrev pub DllReply : Dll → Type 0
DllReply (open_adapter name) = Option ℕ
DllReply (create_adapter name description guid) = Option ℕ
DllReply (get_adapter_luid adapter) = ℕ
DllReply (start_session adapter capacity) = Option ℕ
DllReply (get_read_wait_event s) = Option ℕ
DllReply (allocate_send_packet s n) = Option ℕ
DllReply (receive_packet s) = Option (ℕ × List ℕ)
DllReply get_running_driver_version = ℕ
DllReply get_last_error = ℕ
DllReply create_event = Option ℕ
DllReply (set_event e) = Bool
DllReply (reset_event e) = Bool
DllReply (wait_for_single_object e t) = ℕ
DllReply (wait_for_multiple_objects es t) = ℕ
DllReply (convert_luid_to_index luid) = Option ℕ
DllReply (convert_luid_to_alias luid) = Option Text
DllReply load_state = Bool
DllReply elapsed = ℕ
DllReply get_version_ex = Option (ℕ × ℕ)
DllReply (get_class_devs path) = Option ℕ
DllReply (enum_device_info devs i) = Option ℕ
DllReply (get_devnode_status d) = Option ℕ
DllReply (get_name_size devs d) = Bool × ℕ
DllReply (get_name_property devs d n) = Option Text
DllReply (get_owning_process devs d) = Option OwningProcess
DllReply (open_process pid) = Option ℕ
DllReply (get_process_times p) = Option ℕ
DllReply getifaddrs = List Text
DllReply _ = Unit

abbrev pub Win : Type 0 → Type 0
Win A = M DllReply A

abbrev pub dll : (c : Dll) → Win (DllReply c)
dll c = call DllReply c

-- `Err(io::Error::last_os_error())`
abbrev pub last_os_error : {A : Type 0} → Win A
last_os_error = dll get_last_error >>= λ n. pure (err (os n))

-- A null pointer, or a code of failure, is the last error.
abbrev pub not_null : {A : Type 0} → Option A → Win A
not_null (some a) = pure (ok a)
not_null none = last_os_error

abbrev pub not_false : Bool → Win (Unit {0})
not_false true = pure (ok tt)
not_false false = last_os_error

unfoldable pub ffi_create_event : Win ℕ
ffi_create_event = dll create_event >>= not_null

unfoldable pub ffi_set_event : ℕ → Win (Unit {0})
ffi_set_event handle = dll (set_event handle) >>= not_false

unfoldable pub ffi_reset_event : ℕ → Win (Unit {0})
ffi_reset_event handle = dll (reset_event handle) >>= not_false

unfoldable pub luid_to_index : ℕ → Win ℕ
luid_to_index luid = dll (convert_luid_to_index luid) >>= not_null

unfoldable pub luid_to_alias : ℕ → Win Text
luid_to_alias luid = dll (convert_luid_to_alias luid) >>= not_null

-- `WinTunSession`
pub record WinTunSession : Type 0 where
  pub handle : ℕ
  pub read_event : ℕ

-- `WinTunAdapter`, of which `enabled` is the flag of its `State`. The library is loaded once.
pub record WinTunAdapter : Type 0 where
  pub handle : ℕ
  pub event : ℕ
  pub ring_capacity : ℕ
  pub enabled : Bool
  pub session : Option WinTunSession
  pub delete_driver : Bool

pub record TunDevice : Type 0 where
  pub index : ℕ
  pub luid : ℕ
  pub win_tun_adapter : WinTunAdapter
