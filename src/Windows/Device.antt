-- ===== src/Windows/Device.antt =====
-- src/platform/windows/device.rs: the operations on the device by the index of its interface. They run one
-- at a time, since each holds the lock.
use quincy_tun.Base.{
  ℕ, ◌%◌, ◌^◌, List, [], ◌∷◌, Bool, true, false, ◌==◌, if◌then◌else◌, Option, none, some, Outcome,
  ok, err, panic, unsupported,
}
use quincy_tun.Host.{pure, ◌>>=◌}
use quincy_tun.Net.{IpAddr, v4, v6, Address, Mask, Parsers, ipv4, ipv6, prefix}
use quincy_tun.Linux.{IpNet}
use quincy_tun.Windows.Ffi.{
  Ip, api, Interface, try_from_index, net_add_address, getifaddrs, add_address, set_address,
  remove_address, set_interface_metric, set_interface_mtu, get_mtu_by_index,
}

-- What the code takes from the standard library and from `ipnet`.
pub record Deps : Type 0 where
  pub parsers : Parsers
  pub new_assert : IpAddr → ℕ → Outcome IpNet

-- `destination.map(|v| v.ipv4()).transpose()?`
unfoldable pub converted : Parsers → Option Address → Outcome (Option IpAddr)
unfolding ipv4
converted std none = ok none
converted std (some d) = elim (ipv4 std d) [
  | ok a ↦ ok (some (v4 a))
  | err e ↦ err e
  | panic ↦ panic
]

abbrev pub is_index : ℕ → Option ℕ → Bool
is_index index none = false
is_index index (some i) = i == index

-- The addresses of the rows of an interface.
unfoldable pub addresses_of : ℕ → List Interface → List IpAddr
addresses_of index [] = []
addresses_of index (x ∷ interfaces) =
    let rest = addresses_of index interfaces in
    let more : List IpAddr = elim x.ip_addr [ some ip ↦ ip ∷ rest | none ↦ rest ] in
    if is_index index x.index then more else rest

module _ (deps : Deps) (index : ℕ) where
  unfoldable pub addresses : Ip (List IpAddr)
  unfolding addresses_of
  addresses = api getifaddrs >>= λ interfaces. pure (ok (addresses_of index interfaces))

  -- All arguments are converted before anything is asked of the system.
  unfoldable pub set_network_address : Address → Mask → Option Address → Ip (Unit {0})
  unfolding converted set_address
  set_network_address address netmask destination = pure (ipv4 deps.parsers address) >>= λ a.
      pure (prefix 32 deps.parsers.ipv4_from_str netmask) >>= λ len.
      pure (converted deps.parsers destination) >>= λ d. set_address index (v4 a) len d

  unfoldable pub add_address_v4 : Address → Mask → Ip (Unit {0})
  add_address_v4 address netmask = api (try_from_index index) >>= λ interface.
      pure (ipv4 deps.parsers address) >>= λ a.
      pure (prefix 32 deps.parsers.ipv4_from_str netmask) >>= λ len.
      pure (deps.new_assert (v4 a) len) >>= λ net. api (net_add_address interface net)

  unfoldable pub remove : IpAddr → Ip (Unit {0})
  unfolding remove_address
  remove address = remove_address index address

  unfoldable pub add_address_v6 : Address → Mask → Ip (Unit {0})
  unfolding add_address
  add_address_v6 address netmask = pure (ipv6 deps.parsers address) >>= λ a.
      pure (prefix 128 deps.parsers.ipv6_from_str netmask) >>= λ len.
      add_address index (v6 a) len none

  -- `as u16`: the higher bits of the system's number are cut off.
  unfoldable pub mtu : Ip ℕ
  unfolding get_mtu_by_index
  mtu = get_mtu_by_index index true >>= λ v. pure (ok (v % 2 ^ 16))

  unfoldable pub mtu_v6 : Ip ℕ
  unfolding get_mtu_by_index
  mtu_v6 = get_mtu_by_index index false >>= λ v. pure (ok (v % 2 ^ 16))

  unfoldable pub set_mtu : ℕ → Ip (Unit {0})
  unfolding set_interface_mtu
  set_mtu value = set_interface_mtu index value true

  unfoldable pub set_mtu_v6 : ℕ → Ip (Unit {0})
  unfolding set_interface_mtu
  set_mtu_v6 value = set_interface_mtu index value false

  unfoldable pub set_metric : ℕ → Ip (Unit {0})
  unfolding set_interface_metric
  set_metric metric = set_interface_metric index metric

  unfoldable pub set_mac_address : List ℕ → Ip (Unit {0})
  set_mac_address eth_addr = pure (err unsupported)

  unfoldable pub mac_address : Ip (List ℕ)
  mac_address = pure (err unsupported)
