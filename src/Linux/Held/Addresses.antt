-- ===== src/Linux/Held/Addresses.antt =====
-- The operations on the addresses close every socket that they open.
use quincy_tun.Base.{
  ℕ, refl, List, [], ◌∷◌, Bool, true, false, Option, none, some, if◌then◌else◌, ok,
}
use quincy_tun.Host.{◌>>=◌}
use quincy_tun.Net.{IpAddr, v4, v6, Address, Mask, ipv4, ipv6, prefix}
use quincy_tun.Linux.{
  Io, sys, Deps, DeviceImpl, IpNet, IfAddr, inet6, siocsifaddr_in6, siocdifaddr_in6, try_from_index,
  net_addresses, net_remove_address, net_add_address, getifaddrs,
}
use quincy_tun.Linux.Settings.{set_address_v4, set_netmask, set_destination}
use quincy_tun.Linux.Addresses.{
  remove_where, interface_addresses, remove_all_address_v4, destination_set, set_network_address,
  add_address_v4, remove_address_v6_impl, add_address_v6, if_addrs, is_addr, prefix_or_0,
  remove_masked, remove_v6_in, remove_address, addresses,
}
use quincy_tun.Linux.Held.{Neutral, pure-Neutral, bind-Neutral, sys-Neutral, with_socket-Neutral}
use quincy_tun.Linux.Held.Settings.{name_impl-Neutral, if_index-Neutral, set_field-Neutral}

if-Neutral :
    {A : Type 0} (b : Bool) (m n : Io A) → Neutral m → Neutral n → Neutral (if b then m else n)
if-Neutral true m n k l = k
if-Neutral false m n k l = l

remove_where-Neutral :
    (test : IpNet → Bool) (i : ℕ) (list : List IpNet) → Neutral (remove_where test i list)
unfolding remove_where
remove_where-Neutral test i [] = pure-Neutral (ok tt)
remove_where-Neutral test i (x ∷ list) =
    let rest = remove_where-Neutral test i list in
    if-Neutral (test x) (sys (net_remove_address i x) >>= λ _. remove_where test i list) _
      (bind-Neutral _ _ (sys-Neutral (net_remove_address i x) (λ fds r. refl)) (λ u. rest)) rest

module _ (deps : Deps) (dev : DeviceImpl) where
  interface_addresses-Neutral :
      (go : ℕ → List IpNet → Io (Unit {0}))
      → ((i : ℕ) (list : List IpNet) → Neutral (go i list))
      → Neutral (interface_addresses deps dev go)
  interface_addresses-Neutral go k = bind-Neutral _ _ (if_index-Neutral deps dev) (λ n.
      bind-Neutral _ _ (sys-Neutral (try_from_index n) (λ fds r. refl))
        (λ i. bind-Neutral _ _ (sys-Neutral (net_addresses i) (λ fds r. refl)) (k i)))

  destination_set-Neutral : (d : Option Address) → Neutral (destination_set deps dev d)
  unfolding destination_set set_destination
  destination_set-Neutral none = pure-Neutral (ok tt)
  destination_set-Neutral (some d) =
      bind-Neutral _ _ (pure-Neutral _) (λ a. set_field-Neutral deps dev _)

  pub set_network_address-Neutral :
      (a : Address) (m : Mask) (d : Option Address) → Neutral (set_network_address deps dev a m d)
  unfolding set_network_address remove_all_address_v4 set_address_v4 set_netmask
  set_network_address-Neutral a m d =
      bind-Neutral _ _ (interface_addresses-Neutral _ (remove_where-Neutral _)) (λ u.
        bind-Neutral _ _ (pure-Neutral _) (λ ip.
          bind-Neutral _ _ (set_field-Neutral deps dev _) (λ u.
            bind-Neutral _ _ (pure-Neutral _) (λ m'.
              bind-Neutral _ _ (set_field-Neutral deps dev _) (λ u. destination_set-Neutral d)))))

  pub add_address_v6-Neutral : (a : Address) (m : Mask) → Neutral (add_address_v6 deps dev a m)
  unfolding add_address_v6
  add_address_v6-Neutral a m = bind-Neutral _ _ (if_index-Neutral deps dev) (λ i.
      with_socket-Neutral inet6 _ (λ s.
        bind-Neutral _ _ (pure-Neutral (prefix 128 deps.parsers.ipv6_from_str m)) (λ len.
          bind-Neutral _ _ (pure-Neutral (ipv6 deps.parsers a))
            (λ ip. sys-Neutral (siocsifaddr_in6 s i len ip) (λ fds r. refl)))))

  remove_address_v6_impl-Neutral : (ip len : ℕ) → Neutral (remove_address_v6_impl deps dev ip len)
  unfolding remove_address_v6_impl
  remove_address_v6_impl-Neutral ip len = bind-Neutral _ _ (if_index-Neutral deps dev) (λ i.
      with_socket-Neutral inet6 _ (λ s. sys-Neutral (siocdifaddr_in6 s i len ip) (λ fds r. refl)))

  remove_masked-Neutral :
      (ip : ℕ) (value : Option IpAddr) (rest : Io (Unit {0}))
      → Neutral rest
      → Neutral (remove_masked deps dev ip value rest)
  unfolding remove_masked
  remove_masked-Neutral ip none rest k = k
  remove_masked-Neutral ip (some value) rest k =
      bind-Neutral _ _ (remove_address_v6_impl-Neutral ip (prefix_or_0 deps dev value)) (λ u. k)

  remove_v6_in-Neutral : (ip : ℕ) (addrs : List IfAddr) → Neutral (remove_v6_in deps dev ip addrs)
  unfolding remove_v6_in
  remove_v6_in-Neutral ip [] = pure-Neutral (ok tt)
  remove_v6_in-Neutral ip (x ∷ addrs) =
      let rest = remove_v6_in-Neutral ip addrs in
      if-Neutral (is_addr (v6 ip) x.ip_addr) _ _
        (remove_masked-Neutral ip x.netmask (remove_v6_in deps dev ip addrs) rest) rest

  if_addrs-Neutral : Neutral (if_addrs deps dev)
  if_addrs-Neutral =
      bind-Neutral _ _ (name_impl-Neutral deps dev)
        (λ n. bind-Neutral _ _ (sys-Neutral getifaddrs (λ fds r. refl)) (λ all. pure-Neutral _))

  remove_address-Neutral : (ip : IpAddr) → Neutral (remove_address deps dev ip)
  unfolding remove_address
  remove_address-Neutral (v4 ip) = interface_addresses-Neutral _ (remove_where-Neutral _)
  remove_address-Neutral (v6 ip) = bind-Neutral _ _ if_addrs-Neutral (remove_v6_in-Neutral ip)

  -- Each operation on the addresses leaves open the descriptors that were open before, and no
  -- other, whatever the system answers and however the operation ends.
  pub addresses-Neutral :
      (ip : IpAddr) (a : Address) (m : Mask) (d : Option Address)
      → Neutral (set_network_address deps dev a m d)
        × Neutral (add_address_v4 deps dev a m)
        × Neutral (add_address_v6 deps dev a m)
        × Neutral (remove_address deps dev ip)
        × Neutral (addresses deps dev)
  unfolding add_address_v4 addresses
  addresses-Neutral ip a m d = (
    set_network_address-Neutral a m d,
    bind-Neutral _ _ (if_index-Neutral deps dev) (λ n.
        bind-Neutral _ _ (sys-Neutral (try_from_index n) (λ fds r. refl)) (λ i.
          bind-Neutral _ _ (pure-Neutral (ipv4 deps.parsers a)) (λ a'.
            bind-Neutral _ _ (pure-Neutral (prefix 32 deps.parsers.ipv4_from_str m)) (λ len.
              bind-Neutral _ _ (pure-Neutral (deps.new_assert (v4 a') len))
                (λ net. sys-Neutral (net_add_address i net) (λ fds r. refl)))))),
    add_address_v6-Neutral a m,
    remove_address-Neutral ip,
    bind-Neutral _ _ if_addrs-Neutral (λ all. pure-Neutral _),
  )
