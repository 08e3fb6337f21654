-- ===== src/Builder.antt =====
-- src/builder.rs on Linux: the settings of a device are gathered, and then given to it in one order.
pub mod Plan
pub mod Setters
pub mod Build
use quincy_tun.Base.{
  ℕ, List, [], ◌∷◌, ◌++◌, Bool, true, false, map, Option, none, some, Outcome, ok, err, panic,
}
use quincy_tun.Host.{Host, Event, M, call, pure, next, ◌>>=◌, ◌>>◌}
use quincy_tun.Net.{Text, Parsers, Address, Mask, prefix}
use quincy_tun.Linux.Open.{DeviceConfig}

-- The type `IPV4`: address, prefix length and destination, each as its conversion ended.
pub record Ipv4Setting : Type 0 where
  pub address : Outcome ℕ
  pub len : Outcome ℕ
  pub destination : Option (Outcome ℕ)

pub record Ipv6Setting : Type 0 where
  pub address : Outcome ℕ
  pub len : Outcome ℕ

pub record DeviceBuilder : Type 0 where
  pub dev_name : Option Text
  pub enabled : Option Bool
  pub mtu : Option ℕ
  pub ipv4 : Option Ipv4Setting
  pub ipv6 : Option (List Ipv6Setting)
  pub packet_information : Option Bool
  pub offload : Option Bool

-- What the builder asks of the device: the operations of `DeviceImpl`, on addresses and prefix
-- lengths that are converted.
pub record Device {C : Type 0} (Reply : C → Type 0) : Type 0 where
  pub set_mtu : ℕ → M Reply (Unit {0})
  pub set_network_address : ℕ → ℕ → Option ℕ → M Reply (Unit {0})
  pub add_address_v6 : ℕ → ℕ → M Reply (Unit {0})
  pub set_enabled : Bool → M Reply (Unit {0})

-- `Default`
abbrev pub default : DeviceBuilder
default = record {
  dev_name = none;
  enabled = none;
  mtu = none;
  ipv4 = none;
  ipv6 = none;
  packet_information = none;
  offload = none;
}

-- The setters: each takes the builder and gives it back with one field set.
unfoldable pub with_name : Text → DeviceBuilder → DeviceBuilder
with_name n b = record b { dev_name = some n }

unfoldable pub with_mtu : ℕ → DeviceBuilder → DeviceBuilder
with_mtu n b = record b { mtu = some n }

module _ (std : Parsers) where
  abbrev converted : Option Address → Option (Outcome ℕ)
  converted none = none
  converted (some d) = some (quincy_tun.Net.ipv4 std d)

  unfoldable pub with_ipv4 : Address → Mask → Option Address → DeviceBuilder → DeviceBuilder
  with_ipv4 a m d b = record b {
    ipv4 = some (record {
      address = quincy_tun.Net.ipv4 std a;
      len = prefix 32 std.ipv4_from_str m;
      destination = converted d;
    });
  }

  abbrev pushed : Option (List Ipv6Setting) → Ipv6Setting → List Ipv6Setting
  pushed (some v) x = v ++ x ∷ []
  pushed none x = x ∷ []

  unfoldable pub with_ipv6 : Address → Mask → DeviceBuilder → DeviceBuilder
  with_ipv6 a m b = record b {
    ipv6 = some (
        pushed b.ipv6
          (record { address = quincy_tun.Net.ipv6 std a; len = prefix 128 std.ipv6_from_str m }));
  }

unfoldable pub enable : Bool → DeviceBuilder → DeviceBuilder
enable e b = record b { enabled = some e }

unfoldable pub with_packet_information : Bool → DeviceBuilder → DeviceBuilder
with_packet_information p b = record b { packet_information = some p }

unfoldable pub with_offload : Bool → DeviceBuilder → DeviceBuilder
with_offload o b = record b { offload = some o }

unfoldable pub new : DeviceBuilder
unfolding enable
new = enable true default

-- The configuration, and the builder without what `take` took.
unfoldable pub build_config : DeviceBuilder → DeviceConfig × DeviceBuilder
build_config b = (
  record { dev_name = b.dev_name; packet_information = b.packet_information; offload = b.offload },
  record b { dev_name = none; packet_information = none; offload = none },
)

-- `transpose`
abbrev pub transpose : Option (Outcome ℕ) → Outcome (Option ℕ)
transpose none = ok none
transpose (some (ok a)) = ok (some a)
transpose (some (err e)) = err e
transpose (some panic) = panic

module _ {C : Type 0} {Reply : C → Type 0} (device : Device Reply) where
  unfoldable pub config_mtu : Option ℕ → M Reply (Unit {0})
  config_mtu none = pure (ok tt)
  config_mtu (some n) = device.set_mtu n

  unfoldable pub config_ipv4 : Option Ipv4Setting → M Reply (Unit {0})
  config_ipv4 none = pure (ok tt)
  config_ipv4 (some s) = pure s.len >>= λ len. pure s.address >>= λ address.
      pure (transpose s.destination) >>= λ destination.
      device.set_network_address address len destination

  unfoldable pub config_each : List Ipv6Setting → M Reply (Unit {0})
  config_each [] = pure (ok tt)
  config_each (s ∷ ipv6) = pure s.len >>= λ len.
      pure s.address >>= λ address. device.add_address_v6 address len >>= λ _. config_each ipv6

  unfoldable pub config_ipv6 : Option (List Ipv6Setting) → M Reply (Unit {0})
  unfolding config_each
  config_ipv6 none = pure (ok tt)
  config_ipv6 (some ipv6) = config_each ipv6

  unfoldable pub config_enabled : Option Bool → M Reply (Unit {0})
  config_enabled none = pure (ok tt)
  config_enabled (some e) = device.set_enabled e

  unfoldable pub config : DeviceBuilder → M Reply (Unit {0})
  unfolding config_mtu config_ipv4 config_ipv6 config_enabled
  config b = config_mtu b.mtu >>= λ _.
      config_ipv4 b.ipv4 >>= λ _. config_ipv6 b.ipv6 >>= λ _. config_enabled b.enabled
