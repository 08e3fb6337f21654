-- ===== src/Windows/Create.antt =====
-- src/platform/windows/device.rs, `DeviceImpl::new`: a name is found, and the device of that name is
-- opened or created. The loop is on `fuel`; none is that it was not enough.
pub mod Ends
use quincy_tun.Base.{
  ℕ, zero, suc, ◌+◌, List, [], ◌∷◌, Bool, true, false, ltb, if◌then◌else◌, Option, none, some,
  Outcome, ok, err, panic, ErrorKind, length,
}
use quincy_tun.Host.{Event, Host, call, pure, next, ◌>>=◌, attempt}
use quincy_tun.Net.{Text}
use quincy_tun.Linux.Open.{unwrap_or}
use quincy_tun.Windows.Wintun.{Dll, DllReply, Win, dll, getifaddrs, TunDevice}
use quincy_tun.Windows.Wintun.Adapter.{open_device, create_device}
use quincy_tun.Windows.Orphans.{check_adapter_if_orphaned_devices}
use quincy_tun.Windows.Names.{default_name, contains}

-- The part of `DeviceConfig` that Windows has.
pub record DeviceConfig : Type 0 where
  pub dev_name : Option Text
  pub description : Option Text
  pub device_guid : Option ℕ
  pub wintun_log : Option Bool
  pub wintun_file : Option Text
  pub ring_capacity : Option ℕ
  pub delete_driver : Option Bool

-- `wintun.dll`
abbrev pub wintun_dll : Text
wintun_dll = 119 ∷ 105 ∷ 110 ∷ 116 ∷ 117 ∷ 110 ∷ 46 ∷ 100 ∷ 108 ∷ 108 ∷ []

-- The standard library's UTF-16, both ways, the two paths of the system's list of devices, and the
-- rounds for a search in it.
pub record Windows : Type 0 where
  pub encode_utf16 : Text → Text
  pub from_utf16_lossy : Text → Text
  pub swd : Text
  pub root : Text
  pub rounds : ℕ

module _ (w : Windows) (config : DeviceConfig) where
  abbrev ring : ℕ
  ring = unwrap_or config.ring_capacity 0x200000

  abbrev file : Text
  file = unwrap_or config.wintun_file wintun_dll

  unfoldable pub opens : Text → Win (Option TunDevice)
  unfolding open_device
  opens name =
      open_device file (w.encode_utf16 name) ring (unwrap_or config.delete_driver false)
        (unwrap_or config.wintun_log false)
      >>= λ tun. pure (ok (some tun))

  unfoldable pub creates : Text → Win TunDevice
  unfolding create_device
  creates name =
      create_device file (w.encode_utf16 name) (w.encode_utf16 (unwrap_or config.description name))
        config.device_guid ring (unwrap_or config.delete_driver false)
        (unwrap_or config.wintun_log false)

  -- A device was created; or the attempts are used up; or there is another one.
  unfoldable pub created : ℕ → Win (Option TunDevice) → Outcome TunDevice → Win (Option TunDevice)
  created attempts again (ok tun) = pure (ok (some tun))
  created attempts again (err e) = if ltb 3 attempts then pure (err e) else again
  created attempts again panic = pure panic

  -- The name is that of an interface: an orphan is created again, any other adapter is opened.
  unfoldable pub by_search : Text → Win (Option TunDevice) → Option Bool → Win (Option TunDevice)
  unfolding opens
  by_search name create none = pure (ok none)
  by_search name create (some true) = create
  by_search name create (some false) = opens name

  unfoldable pub name_taken :
      Option Text → Win (Option TunDevice) → Win (Option TunDevice) → Win (Option TunDevice)
  unfolding by_search check_adapter_if_orphaned_devices
  name_taken none create next_name = next_name
  name_taken (some name) create next_name =
      check_adapter_if_orphaned_devices w.from_utf16_lossy w.swd w.root w.rounds name
      >>= by_search name create

  unfoldable pub new_loop : List Text → ℕ → ℕ → ℕ → Win (Option TunDevice)
  unfolding contains default_name name_taken creates created
  new_loop interfaces zero count attempts = pure (ok none)
  new_loop interfaces (suc fuel) count attempts =
      let next_name = new_loop interfaces fuel (count + 1) attempts in
      let again = new_loop interfaces fuel (count + 1) (attempts + 1) in
      let name = unwrap_or config.dev_name (default_name count) in
      let create = attempt (creates name) >>= created attempts again in
      if contains interfaces name then name_taken config.dev_name create next_name else create

  -- As many rounds as there are interfaces, and five more, are enough, as `Ends` shows.
  unfoldable pub new : Win (Option TunDevice)
  unfolding new_loop
  new = dll getifaddrs >>= λ interfaces. new_loop interfaces (length interfaces + 5) 0 0
