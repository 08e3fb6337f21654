-- ===== src/Builder/Build/Order/Device.antt =====
-- The operations of a Linux device keep to the plans of the builder.
use quincy_tun.Base.{
  ℕ, refl, List, [], ◌∷◌, Bool, true, false, if◌then◌else◌, Option, none, some, Outcome, ok,
}
use quincy_tun.Host.{◌>>=◌}
use quincy_tun.Host.Laws.{Follows, pure-Follows, call-Follows, bind-Follows, after-Follows}
use quincy_tun.Net.{IpAddr, v4, Address, Mask, prefix_len, prefix, ipv4, ipv6}
use quincy_tun.Linux.{
  IpNet, net_remove_address, net_addresses, try_from_index, if_nametoindex, Io, sys, Deps,
  DeviceImpl, Field, mtu, dstaddr, inet6, siocsifaddr_in6,
}
use quincy_tun.Linux.Sockaddr.{ipaddr_to_sockaddr, overwrite_size}
use quincy_tun.Linux.Name.{c_string}
use quincy_tun.Linux.Settings.{if_index, set_address_v4, set_netmask, set_destination, set_mtu}
use quincy_tun.Linux.Addresses.{
  remove_where, remove_all_address_v4, destination_set, set_network_address, add_address_v6,
}
use quincy_tun.Builder.Plan.{Plans, planned, planned-Follows, Obeys}
use quincy_tun.Builder.Build.{as_addresses, linux_device}
use quincy_tun.Builder.Build.Order.{
  Setting, member, in6, switched, view, name_impl-Follows, with_socket-Follows, set_field-Follows,
  enabled-Follows,
}

if-Follows :
    {A : Type 0} {p : List (Outcome Setting)} (b : Bool) (m n : Io A)
    → Follows view p m
    → Follows view p n
    → Follows view p (if b then m else n)
if-Follows true m n k l = k
if-Follows false m n k l = l

-- Removing an address is no setting.
remove_where-Follows :
    (test : IpNet → Bool) (i : ℕ) (list : List IpNet) → Follows view [] (remove_where test i list)
unfolding remove_where
remove_where-Follows test i [] = pure-Follows view (ok tt)
remove_where-Follows test i (x ∷ list) =
    let rest = remove_where-Follows test i list in
    if-Follows (test x) (sys (net_remove_address i x) >>= λ _. remove_where test i list) _
      (after-Follows view _ _ (call-Follows view (net_remove_address i x) [] (λ r. refl))
        (λ u. rest))
      rest

abbrev sockaddr_of : ℕ → List ℕ
sockaddr_of a = ipaddr_to_sockaddr (v4 a) 0 overwrite_size

abbrev destination_plan : Option ℕ → List (Outcome Setting)
destination_plan none = []
destination_plan (some d) = ok (member (dstaddr (sockaddr_of d))) ∷ []

-- What the operations of a Linux device are to do. An IPv4 address comes before its netmask, and
-- that before the destination.
abbrev pub linux_plans : Deps → Plans Setting
linux_plans deps = record {
  mtu_plan = λ n. ok (member (mtu n)) ∷ [];
  address_plan = λ a len d.
      ok (member (Field.addr (sockaddr_of a)))
      ∷ planned (quincy_tun.Net.netmask 32 deps.parsers.ipv4_from_str (prefix_len len))
          (λ m. ok (member (Field.netmask (sockaddr_of m))) ∷ destination_plan d);
  v6_plan = λ a len.
      planned (prefix 128 deps.parsers.ipv6_from_str (prefix_len len)) (λ l. ok (in6 a l) ∷ []);
  enabled_plan = λ e. ok (switched e) ∷ [];
}

module _ (deps : Deps) (dev : DeviceImpl) where
  if_index-Follows : Follows view [] (if_index deps dev)
  unfolding if_index
  if_index-Follows = after-Follows view _ _ (name_impl-Follows deps dev) (λ n.
      after-Follows view _ _ (pure-Follows view (c_string n))
        (λ c. call-Follows view (if_nametoindex c) [] (λ r. refl)))

  remove_all-Follows : Follows view [] (remove_all_address_v4 deps dev)
  unfolding remove_all_address_v4
  remove_all-Follows = after-Follows view _ _ if_index-Follows (λ n.
      after-Follows view _ _ (call-Follows view (try_from_index n) [] (λ r. refl)) (λ i.
        after-Follows view _ _ (call-Follows view (net_addresses i) [] (λ r. refl))
          (remove_where-Follows _ i)))

  destination_set-Follows :
      (d : Option ℕ) → Follows view (destination_plan d) (destination_set deps dev (as_addresses d))
  unfolding destination_set set_destination ipv4
  destination_set-Follows none = pure-Follows view (ok tt)
  destination_set-Follows (some d) = set_field-Follows deps dev (dstaddr (sockaddr_of d))

  set_network_address-Follows :
      (a len : ℕ) (d : Option ℕ)
      → Follows view
          ((linux_plans deps).address_plan a len d)
          (set_network_address deps dev (Address.addr a) (prefix_len len) (as_addresses d))
  unfolding set_network_address set_address_v4 set_netmask ipv4
  set_network_address-Follows a len d = after-Follows view _ _ remove_all-Follows (λ u.
      bind-Follows view (ok (member (Field.addr (sockaddr_of a))) ∷ []) _ _ _
        (set_field-Follows deps dev (Field.addr (sockaddr_of a)))
        (λ u.
          planned-Follows view
            (quincy_tun.Net.netmask 32 deps.parsers.ipv4_from_str (prefix_len len)) _ _
            (λ m.
              bind-Follows view (ok (member (Field.netmask (sockaddr_of m))) ∷ []) _ _ _
                (set_field-Follows deps dev (Field.netmask (sockaddr_of m)))
                (λ u. destination_set-Follows d))))

  add_address_v6-Follows :
      (a len : ℕ)
      → Follows view
          ((linux_plans deps).v6_plan a len)
          (add_address_v6 deps dev (Address.addr a) (prefix_len len))
  unfolding add_address_v6 ipv6
  add_address_v6-Follows a len = after-Follows view _ _ if_index-Follows (λ i.
      with_socket-Follows deps dev inet6 _ (λ s.
        planned-Follows view (prefix 128 deps.parsers.ipv6_from_str (prefix_len len)) _ _
          (λ l. call-Follows view (siocsifaddr_in6 s i l a) (ok (in6 a l) ∷ []) (λ r. refl))))

  -- The operations of a Linux device do what its plans say, and nothing else that is seen.
  pub linux_device-Obeys : Obeys view (linux_plans deps) (linux_device deps dev)
  unfolding set_mtu
  linux_device-Obeys = record {
    set_mtu-Follows = λ n. set_field-Follows deps dev (mtu n);
    set_network_address-Follows = set_network_address-Follows;
    add_address_v6-Follows = add_address_v6-Follows;
    set_enabled-Follows = enabled-Follows deps dev;
  }
