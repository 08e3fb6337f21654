-- ===== src/Builder/Build.antt =====
-- src/builder.rs, `build_sync`, with the device of src/platform/linux/device.rs.
pub mod Order
pub mod Drops
pub mod Success
use quincy_tun.Base.{ℕ, List, [], ◌∷◌, Option, none, some, Outcome, ok, err, panic}
use quincy_tun.Host.{Host, Event, M, call, pure, next, ◌>>=◌, attempt}
use quincy_tun.Net.{Address, addr, prefix_len}
use quincy_tun.Linux.{Reply, Io, Deps, DeviceImpl}
use quincy_tun.Linux.Settings.{set_mtu, enabled}
use quincy_tun.Linux.Addresses.{set_network_address, add_address_v6}
use quincy_tun.Linux.Open.{drop_on_err}
use quincy_tun.Builder.{Device, DeviceBuilder, build_config, config}

abbrev pub as_addresses : Option ℕ → Option Address
as_addresses none = none
as_addresses (some d) = some (addr d)

-- The operations that the builder calls, on addresses and on a prefix length as a `u8`.
abbrev pub linux_device : Deps → DeviceImpl → Device Reply
linux_device deps dev = record {
  set_mtu = set_mtu deps dev;
  set_network_address =
      λ a len d. set_network_address deps dev (addr a) (prefix_len len) (as_addresses d);
  add_address_v6 = λ a len. add_address_v6 deps dev (addr a) (prefix_len len);
  set_enabled = enabled deps dev;
}

-- The device is dropped where `config` fails.
unfoldable pub configured : Deps → DeviceBuilder → DeviceImpl → Io DeviceImpl
unfolding config
configured deps b dev =
    attempt (config (linux_device deps dev) b) >>= λ r. drop_on_err dev.fd r >>= λ _. pure (ok dev)

unfoldable pub build_sync : Deps → DeviceBuilder → Io DeviceImpl
unfolding build_config configured
build_sync deps b =
    let c = build_config b in quincy_tun.Linux.Open.new c.0 >>= λ dev. configured deps c.1 dev
