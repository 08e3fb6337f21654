-- ===== src/Linux/Addresses.antt =====
-- src/platform/linux/device.rs: the operations on the addresses of the device.
use quincy_tun.Base.{
  ℕ, List, [], ◌∷◌, Bool, true, false, ◌==◌, if◌then◌else◌, ◌&&◌, Option, none, some, ok,
}
use quincy_tun.Host.{pure, ◌>>=◌}
use quincy_tun.Net.{Text, IpAddr, v4, v6, Address, Mask, ipv4, ipv6, netmask, prefix}
use quincy_tun.Linux.{
  Io, sys, Deps, DeviceImpl, IpNet, ip_net, IfAddr, inet6, siocsifaddr_in6, siocdifaddr_in6,
  try_from_index, net_addresses, net_remove_address, net_add_address, getifaddrs,
}
use quincy_tun.Linux.Settings.{
  with_socket, name_impl, if_index, set_address_v4, set_netmask, set_destination,
}

-- `PartialEq` of an address and of a name.
abbrev pub eq_ip : IpAddr → IpAddr → Bool
eq_ip (v4 a) (v4 b) = a == b
eq_ip (v4 a) (v6 b) = false
eq_ip (v6 a) (v4 b) = false
eq_ip (v6 a) (v6 b) = a == b

unfoldable pub eq_text : Text → Text → Bool
eq_text [] [] = true
eq_text [] (c ∷ s) = false
eq_text (b ∷ r) [] = false
eq_text (b ∷ r) (c ∷ s) = let rest = eq_text r s in (b == c) && rest

-- The members of `IpNet`.
abbrev pub net_addr : IpNet → IpAddr
net_addr (ip_net ip len) = ip

abbrev pub is_ipv4 : IpAddr → Bool
is_ipv4 (v4 a) = true
is_ipv4 (v6 a) = false

-- The addresses of the list that pass a test are removed, one by one.
unfoldable pub remove_where : (IpNet → Bool) → ℕ → List IpNet → Io (Unit {0})
remove_where test interface [] = pure (ok tt)
remove_where test interface (x ∷ list) =
    let rest = remove_where test interface list in
    if test x then (sys (net_remove_address interface x) >>= λ _. rest) else rest

-- `get_if_addrs_by_name`
pub filter_by_name : Text → List IfAddr → List IfAddr
unfolding eq_text
filter_by_name if_name [] = []
filter_by_name if_name (x ∷ addrs) =
    let rest = filter_by_name if_name addrs in if eq_text x.name if_name then x ∷ rest else rest

pub filter_ip_addr : List IfAddr → List IpAddr
filter_ip_addr [] = []
filter_ip_addr (x ∷ addrs) = elim x.ip_addr [
  | some ip ↦ ip ∷ filter_ip_addr addrs
  | none ↦ filter_ip_addr addrs
]

abbrev pub is_addr : IpAddr → Option IpAddr → Bool
is_addr a none = false
is_addr a (some ip) = eq_ip ip a

module _ (deps : Deps) (dev : DeviceImpl) where
  abbrev pub interface_addresses : (ℕ → List IpNet → Io (Unit {0})) → Io (Unit {0})
  interface_addresses go = if_index deps dev >>= λ i. sys (try_from_index i) >>= λ interface.
      sys (net_addresses interface) >>= λ list. go interface list

  unfoldable pub remove_all_address_v4 : Io (Unit {0})
  unfolding if_index remove_where
  remove_all_address_v4 = interface_addresses (remove_where (λ x. is_ipv4 (net_addr x)))

  unfoldable pub destination_set : Option Address → Io (Unit {0})
  unfolding set_destination
  destination_set none = pure (ok tt)
  destination_set (some d) = pure (ipv4 deps.parsers d) >>= λ a. set_destination deps dev a

  unfoldable pub set_network_address : Address → Mask → Option Address → Io (Unit {0})
  unfolding remove_all_address_v4 set_address_v4 set_netmask destination_set
  set_network_address address value destination = remove_all_address_v4 >>= λ _.
      pure (ipv4 deps.parsers address) >>= λ a. set_address_v4 deps dev a >>= λ _.
      pure (netmask 32 deps.parsers.ipv4_from_str value) >>= λ m.
      set_netmask deps dev m >>= λ _. destination_set destination

  unfoldable pub add_address_v4 : Address → Mask → Io (Unit {0})
  unfolding if_index
  add_address_v4 address value = if_index deps dev >>= λ i. sys (try_from_index i) >>= λ interface.
      pure (ipv4 deps.parsers address) >>= λ a.
      pure (prefix 32 deps.parsers.ipv4_from_str value) >>= λ len.
      pure (deps.new_assert (v4 a) len) >>= λ net. sys (net_add_address interface net)

  unfoldable pub remove_address_v6_impl : ℕ → ℕ → Io (Unit {0})
  unfolding if_index with_socket
  remove_address_v6_impl ip len =
      if_index deps dev >>= λ i. with_socket inet6 (λ s. sys (siocdifaddr_in6 s i len ip))

  unfoldable pub add_address_v6 : Address → Mask → Io (Unit {0})
  unfolding if_index with_socket
  add_address_v6 address value = if_index deps dev >>= λ i. with_socket inet6 (λ s.
      pure (prefix 128 deps.parsers.ipv6_from_str value) >>= λ len.
      pure (ipv6 deps.parsers address) >>= λ a. sys (siocsifaddr_in6 s i len a))

  abbrev pub if_addrs : Io (List IfAddr)
  if_addrs = name_impl deps dev >>= λ n. sys getifaddrs >>= λ all. pure (ok (filter_by_name n all))

  -- `ip_mask_to_prefix(netmask).unwrap_or(0)`
  abbrev pub prefix_or_0 : IpAddr → ℕ
  prefix_or_0 ip = elim (deps.ip_mask_to_prefix ip) [ some len ↦ len | none ↦ 0 ]

  -- An address without a mask stays.
  unfoldable pub remove_masked : ℕ → Option IpAddr → Io (Unit {0}) → Io (Unit {0})
  unfolding remove_address_v6_impl
  remove_masked ip none rest = rest
  remove_masked ip (some value) rest = remove_address_v6_impl ip (prefix_or_0 value) >>= λ _. rest

  unfoldable pub remove_v6_in : ℕ → List IfAddr → Io (Unit {0})
  unfolding remove_masked
  remove_v6_in ip [] = pure (ok tt)
  remove_v6_in ip (x ∷ addrs) =
      let rest = remove_v6_in ip addrs in
      if is_addr (v6 ip) x.ip_addr then remove_masked ip x.netmask rest else rest

  unfoldable pub remove_address : IpAddr → Io (Unit {0})
  unfolding if_index remove_where remove_v6_in name_impl filter_by_name
  remove_address (v4 ip) = interface_addresses (remove_where (λ x. eq_ip (net_addr x) (v4 ip)))
  remove_address (v6 ip) = if_addrs >>= λ addrs. remove_v6_in ip addrs

  -- `addresses`
  unfoldable pub addresses : Io (List IpAddr)
  unfolding name_impl filter_by_name
  addresses = if_addrs >>= λ addrs. pure (ok (filter_ip_addr addrs))
