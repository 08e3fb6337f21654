-- ===== src/Builder/Build/Success.antt =====
-- Where the system refuses nothing, the operations that a builder calls succeed.
pub mod Whole
pub mod Asserts
use quincy_tun.Base.{
  ℕ, ◌≤◌, ◌<◌, ◌≡◌, refl, sym, ap, ◌∙◌, arith, List, [], ◌∷◌, Bool, true, false, if◌then◌else◌,
  Option, none, some, Outcome, ok, err, panic, bit_or, Returns, ltb-false,
}
use mathlib.Core.Path.{subst}
use quincy_tun.Host.{Host, Event, M, call, pure, next, ◌>>=◌, attempt}
use quincy_tun.Host.Answers.{
  IsValue, Obliging, Succeeds, pure-Succeeds, bind-Succeeds, value-Succeeds, returns-Succeeds,
  finally-Succeeds, attempt-Succeeds, call-Succeeds,
}
use quincy_tun.Net.{
  Text, v4, Address, addr, Mask, prefix_len, prefix, prefix_of_len, netmask, ipv4, ipv6,
}
use quincy_tun.Linux.{
  Sys, Reply, Io, sys, Deps, DeviceImpl, IpNet, Field, Family, inet, inet6, set, get, get_flags,
  socket, close, tungetiff, if_nametoindex, try_from_index, net_addresses, net_remove_address,
  siocsifaddr_in6, exists, open_tun, tunsetiff, tunsetoffload,
}
use quincy_tun.Linux.Sockaddr.{ipaddr_to_sockaddr, overwrite_size}
use quincy_tun.Linux.Name.{c_string, config_name}
use quincy_tun.Linux.Settings.{
  with_socket, name_impl, set_field, set_mtu, set_address_v4, set_netmask, set_destination, enabled,
  if_index,
}
use quincy_tun.Linux.Addresses.{
  remove_where, remove_all_address_v4, destination_set, set_network_address, add_address_v6,
}
use quincy_tun.Linux.Open.{
  create_node_if, create_node, tcp_answer, offloads, drop_on_err, open_fd, new, DeviceConfig, is_ok,
  tun_tcp_offloads, tun_udp_offloads,
}
use quincy_tun.Builder.{
  DeviceBuilder, Ipv4Setting, Ipv6Setting, transpose, build_config, config_mtu, config_ipv4,
  config_each, config_ipv6, config_enabled, config,
}
use quincy_tun.Builder.Build.{linux_device, as_addresses, configured, build_sync}

-- The name of an interface is read up to its NUL, so that it has none.
abbrev pub NamesPass : Deps → Type 0
NamesPass deps = (n : Text) → IsValue (c_string (deps.to_string_lossy n))

prefix-ok : (w n : ℕ) (from_str : Text → Option ℕ) → n ≤ w → prefix w from_str (prefix_len n) ≡ ok n
unfolding prefix prefix_of_len
prefix-ok w n from_str small = simp (ltb-false w n small) refl

module _ (h : Host Reply) (o : Obliging h) where
  pub sys-Succeeds : (c : Sys) → Succeeds h (sys c)
  sys-Succeeds c = call-Succeeds h o c

  if-Succeeds :
      {A : Type 0} (b : Bool) (m n : Io A)
      → Succeeds h m
      → Succeeds h n
      → Succeeds h (if b then m else n)
  if-Succeeds true m n k l = k
  if-Succeeds false m n k l = l

  remove_where-Succeeds :
      (test : IpNet → Bool) (i : ℕ) (list : List IpNet) → Succeeds h (remove_where test i list)
  unfolding remove_where
  remove_where-Succeeds test i [] = pure-Succeeds h (ok tt) tt
  remove_where-Succeeds test i (x ∷ list) =
      let rest = remove_where-Succeeds test i list in
      if-Succeeds (test x) (sys (net_remove_address i x) >>= λ _. remove_where test i list) _
        (bind-Succeeds h _ _ (sys-Succeeds _) (λ u. rest)) rest

  with_socket-Succeeds :
      {A : Type 0} (f : Family) (use_fd : ℕ → Io A)
      → ((s : ℕ) → Succeeds h (use_fd s))
      → Succeeds h (with_socket f use_fd)
  unfolding with_socket
  with_socket-Succeeds f use_fd k =
      bind-Succeeds h _ _ (sys-Succeeds (socket f))
        (λ s. finally-Succeeds h (use_fd s) (sys (close s)) (k s))

  module _ (deps : Deps) (names : NamesPass deps) (dev : DeviceImpl) where
    name_impl-Succeeds : Succeeds h (name_impl deps dev)
    unfolding name_impl
    name_impl-Succeeds =
        bind-Succeeds h _ _ (sys-Succeeds (tungetiff dev.fd))
          (λ n. pure-Succeeds h (ok (deps.to_string_lossy n)) tt)

    lossy-Returns :
        (log : List (Event Reply)) (r : Outcome Text)
        → IsValue r
        → Returns
            (next (λ n. pure (ok (deps.to_string_lossy n))) h log r).1
            (λ n. IsValue (c_string n))
    lossy-Returns log (ok n) v = names n
    lossy-Returns log (err e) v = v
    lossy-Returns log panic v = v

    pub if_index-Succeeds : Succeeds h (if_index deps dev)
    unfolding if_index name_impl
    if_index-Succeeds =
        returns-Succeeds h (λ n. IsValue (c_string n)) (name_impl deps dev) _
          (λ log. lossy-Returns _ (h log (tungetiff dev.fd)) (o log (tungetiff dev.fd)))
          (λ n v. value-Succeeds h (c_string n) _ v (λ c e. sys-Succeeds (if_nametoindex c)))

    pub set_field-Succeeds : (f : Field) → Succeeds h (set_field deps dev f)
    unfolding set_field
    set_field-Succeeds f =
        bind-Succeeds h _ _ name_impl-Succeeds
          (λ n. with_socket-Succeeds inet _ (λ s. sys-Succeeds (set s n f)))

    pub enabled-Succeeds : (value : Bool) → Succeeds h (enabled deps dev value)
    unfolding enabled
    enabled-Succeeds value = with_socket-Succeeds inet _ (λ s.
        bind-Succeeds h _ _ name_impl-Succeeds (λ n.
          bind-Succeeds h _ _ (sys-Succeeds (get s n get_flags)) (λ f. sys-Succeeds (set s n _))))

    remove_all-Succeeds : Succeeds h (remove_all_address_v4 deps dev)
    unfolding remove_all_address_v4
    remove_all-Succeeds = bind-Succeeds h _ _ if_index-Succeeds (λ n.
        bind-Succeeds h _ _ (sys-Succeeds (try_from_index n))
          (λ i. bind-Succeeds h _ _ (sys-Succeeds (net_addresses i)) (remove_where-Succeeds _ i)))

    destination_set-Succeeds :
        (d : Option ℕ) → Succeeds h (destination_set deps dev (as_addresses d))
    unfolding destination_set set_destination ipv4
    destination_set-Succeeds none = pure-Succeeds h (ok tt) tt
    destination_set-Succeeds (some d) = set_field-Succeeds _

    pub set_network_address-Succeeds :
        (a len : ℕ) (d : Option ℕ)
        → len ≤ 32
        → Succeeds h (set_network_address deps dev (addr a) (prefix_len len) (as_addresses d))
    unfolding set_network_address set_address_v4 set_netmask ipv4 netmask
    set_network_address-Succeeds a len d small = bind-Succeeds h _ _ remove_all-Succeeds (λ u.
        bind-Succeeds h _ _ (set_field-Succeeds _) (λ u.
          value-Succeeds h (netmask 32 deps.parsers.ipv4_from_str (prefix_len len)) _
            (rw (prefix-ok 32 len deps.parsers.ipv4_from_str small) tt)
            (λ m e.
              bind-Succeeds h _ _
                (set_field-Succeeds (Field.netmask (ipaddr_to_sockaddr (v4 m) 0 overwrite_size)))
                (λ u. destination_set-Succeeds d))))

    pub add_address_v6-Succeeds :
        (a len : ℕ) → len ≤ 128 → Succeeds h (add_address_v6 deps dev (addr a) (prefix_len len))
    unfolding add_address_v6 ipv6
    add_address_v6-Succeeds a len small = bind-Succeeds h _ _ if_index-Succeeds (λ i.
        with_socket-Succeeds inet6 _ (λ s.
          value-Succeeds h (prefix 128 deps.parsers.ipv6_from_str (prefix_len len)) _
            (rw (prefix-ok 128 len deps.parsers.ipv6_from_str small) tt)
            (λ l e. sys-Succeeds (siocsifaddr_in6 s i l a))))
