-- ===== src/Builder/Build/Success/Whole.antt =====
-- Where the system refuses nothing and the builder holds no bad value, there is a device.
use quincy_tun.Base.{
  ℕ, ◌≤◌, ◌≡◌, List, [], ◌∷◌, Bool, true, false, Option, none, some, Outcome, ok, err, panic,
  bit_or,
}
use mathlib.Core.Path.{subst}
use quincy_tun.Host.{Host, ◌>>=◌, attempt}
use quincy_tun.Host.Answers.{
  IsValue, Obliging, Succeeds, pure-Succeeds, bind-Succeeds, value-Succeeds, returns-Succeeds,
  attempt-Succeeds,
}
use quincy_tun.Net.{Text}
use quincy_tun.Linux.{
  Sys, create_dir_all, mknod, Reply, Io, sys, Deps, DeviceImpl, exists, open_tun, tunsetiff,
  tunsetoffload,
}
use quincy_tun.Linux.Name.{config_name}
use quincy_tun.Linux.Settings.{set_mtu}
use quincy_tun.Linux.Open.{
  create_node_if, create_node, tcp_answer, offloads, drop_on_err, open_fd, new, DeviceConfig, is_ok,
  tun_tcp_offloads, tun_udp_offloads,
}
use quincy_tun.Builder.{
  DeviceBuilder, Ipv4Setting, Ipv6Setting, transpose, build_config, config_mtu, config_ipv4,
  config_each, config_ipv6, config_enabled, config,
}
use quincy_tun.Builder.Build.{linux_device, configured, build_sync}
use quincy_tun.Builder.Build.Success.{
  NamesPass, sys-Succeeds, set_field-Succeeds, enabled-Succeeds, set_network_address-Succeeds,
  add_address_v6-Succeeds,
}

abbrev pub IsLen : ℕ → Outcome ℕ → Type 0
IsLen w (ok n) = n ≤ w
IsLen w (err e) = ⊥
IsLen w panic = ⊥

abbrev pub IsIpv4 : Option Ipv4Setting → Type 0
IsIpv4 none = Unit
IsIpv4 (some s) = IsLen 32 s.len × IsValue s.address × IsValue (transpose s.destination)

abbrev pub IsIpv6 : List Ipv6Setting → Type 0
IsIpv6 [] = Unit
IsIpv6 (s ∷ v) = (IsLen 128 s.len × IsValue s.address) × IsIpv6 v

abbrev ipv6_list : Option (List Ipv6Setting) → List Ipv6Setting
ipv6_list none = []
ipv6_list (some v) = v

-- A name that fits, and addresses and prefix lengths whose conversions succeeded.
pub record IsReady (b : DeviceBuilder) : Type 0 where
  pub named : IsValue (config_name b.dev_name)
  pub ipv4_good : IsIpv4 b.ipv4
  pub ipv6_good : IsIpv6 (ipv6_list b.ipv6)

IsLen-IsValue : (w : ℕ) (r : Outcome ℕ) → IsLen w r → IsValue r
IsLen-IsValue w (ok n) l = tt
IsLen-IsValue w (err e) l = l
IsLen-IsValue w panic l = l

IsLen-le : (w n : ℕ) (r : Outcome ℕ) → IsLen w r → r ≡ ok n → n ≤ w
IsLen-le w n r l e = subst (IsLen w) e l

module _ (h : Host Reply) (o : Obliging h) where
  -- A request whose answer is not passed on, and one that is looked at.
  tried-Succeeds :
      {B : Type 0} (c : Sys) (f : Outcome (Reply c) → Io B)
      → ((r : Outcome (Reply c)) → Succeeds h (f r))
      → Succeeds h (attempt (sys c) >>= f)
  tried-Succeeds c f k = bind-Succeeds h _ _ (attempt-Succeeds h (sys c)) k

  settled-Succeeds :
      {A B : Type 0} (m : Io A) (f : Outcome A → Io B)
      → Succeeds h m
      → ((r : Outcome A) → IsValue r → Succeeds h (f r))
      → Succeeds h (attempt m >>= f)
  settled-Succeeds m f k g = returns-Succeeds h IsValue (attempt m) f (λ log. k.succeeds log) g

  module _ (deps : Deps) (names : NamesPass deps) (dev : DeviceImpl) where
    config_mtu-Succeeds : (n : Option ℕ) → Succeeds h (config_mtu (linux_device deps dev) n)
    unfolding config_mtu set_mtu
    config_mtu-Succeeds none = pure-Succeeds h (ok tt) tt
    config_mtu-Succeeds (some n) = set_field-Succeeds h o deps names dev _

    config_ipv4-Succeeds :
        (s : Option Ipv4Setting) → IsIpv4 s → Succeeds h (config_ipv4 (linux_device deps dev) s)
    unfolding config_ipv4
    config_ipv4-Succeeds none g = pure-Succeeds h (ok tt) tt
    config_ipv4-Succeeds (some s) g =
        value-Succeeds h s.len _ (IsLen-IsValue 32 s.len g.0) (λ len e.
          value-Succeeds h s.address _ g.1 (λ a e'.
            value-Succeeds h (transpose s.destination) _ g.2 (λ d e''.
              set_network_address-Succeeds h o deps names dev a len d
                (IsLen-le 32 len s.len g.0 e))))

    config_each-Succeeds :
        (v : List Ipv6Setting) → IsIpv6 v → Succeeds h (config_each (linux_device deps dev) v)
    unfolding config_each
    config_each-Succeeds [] g = pure-Succeeds h (ok tt) tt
    config_each-Succeeds (s ∷ v) g =
        let rest = config_each-Succeeds v g.1 in
        value-Succeeds h s.len _ (IsLen-IsValue 128 s.len g.0.0) (λ len e.
          value-Succeeds h s.address _ g.0.1 (λ a e'.
            bind-Succeeds h _ _
              (add_address_v6-Succeeds h o deps names dev a len (IsLen-le 128 len s.len g.0.0 e))
              (λ u. rest)))

    config_ipv6-Succeeds :
        (v : Option (List Ipv6Setting))
        → IsIpv6 (ipv6_list v)
        → Succeeds h (config_ipv6 (linux_device deps dev) v)
    unfolding config_ipv6
    config_ipv6-Succeeds none g = pure-Succeeds h (ok tt) tt
    config_ipv6-Succeeds (some v) g = config_each-Succeeds v g

    config_enabled-Succeeds :
        (e : Option Bool) → Succeeds h (config_enabled (linux_device deps dev) e)
    unfolding config_enabled
    config_enabled-Succeeds none = pure-Succeeds h (ok tt) tt
    config_enabled-Succeeds (some e) = enabled-Succeeds h o deps names dev e

    config-Succeeds :
        (b : DeviceBuilder)
        → IsIpv4 b.ipv4
        → IsIpv6 (ipv6_list b.ipv6)
        → Succeeds h (config (linux_device deps dev) b)
    unfolding config
    config-Succeeds b g4 g6 = bind-Succeeds h _ _ (config_mtu-Succeeds b.mtu) (λ u.
        bind-Succeeds h _ _ (config_ipv4-Succeeds b.ipv4 g4) (λ u.
          bind-Succeeds h _ _ (config_ipv6-Succeeds b.ipv6 g6)
            (λ u. config_enabled-Succeeds b.enabled)))

  create_node_if-Succeeds : (r : Outcome Bool) → Succeeds h (create_node_if r)
  unfolding create_node_if
  create_node_if-Succeeds (ok true) = pure-Succeeds h (ok tt) tt
  create_node_if-Succeeds (ok false) =
      tried-Succeeds create_dir_all _
        (λ u. tried-Succeeds mknod _ (λ v. pure-Succeeds h (ok tt) tt))
  create_node_if-Succeeds (err e) = pure-Succeeds h (ok tt) tt
  create_node_if-Succeeds panic = pure-Succeeds h (ok tt) tt

  create_node-Succeeds : Succeeds h create_node
  unfolding create_node
  create_node-Succeeds = tried-Succeeds exists _ create_node_if-Succeeds

  drop_on_err-Succeeds :
      {A : Type 0} (fd : ℕ) (r : Outcome A) → IsValue r → Succeeds h (drop_on_err fd r)
  drop_on_err-Succeeds fd (ok a) v = pure-Succeeds h (ok a) tt
  drop_on_err-Succeeds fd (err e) v = absurd v
  drop_on_err-Succeeds fd panic v = absurd v

  tcp_answer-Succeeds : (fd : ℕ) (r : Outcome (Unit {0})) → Succeeds h (tcp_answer fd r)
  unfolding tcp_answer
  tcp_answer-Succeeds fd (ok u) =
      tried-Succeeds (tunsetoffload fd (bit_or tun_tcp_offloads tun_udp_offloads)) _
        (λ rs. pure-Succeeds h (ok (true, is_ok rs)) tt)
  tcp_answer-Succeeds fd (err e) = pure-Succeeds h (ok (false, false)) tt
  tcp_answer-Succeeds fd panic = pure-Succeeds h (ok (false, false)) tt

  offloads-Succeeds : (fd : ℕ) (offload : Bool) → Succeeds h (offloads fd offload)
  unfolding offloads
  offloads-Succeeds fd true =
      tried-Succeeds (tunsetoffload fd tun_tcp_offloads) _ (tcp_answer-Succeeds fd)
  offloads-Succeeds fd false =
      tried-Succeeds (tunsetoffload fd 0) _ (λ u. pure-Succeeds h (ok (false, false)) tt)

  open_fd-Succeeds : (name : Text) (flags : ℕ) → Succeeds h (open_fd name flags)
  unfolding open_fd
  open_fd-Succeeds name flags = bind-Succeeds h _ _ (sys-Succeeds h o open_tun) (λ fd.
      settled-Succeeds (sys (tunsetiff fd name flags)) _
        (sys-Succeeds h o (tunsetiff fd name flags))
        (λ r v.
          bind-Succeeds h _ _ (drop_on_err-Succeeds fd r v) (λ u. pure-Succeeds h (ok fd) tt)))

  new-Succeeds : (c : DeviceConfig) → IsValue (config_name c.dev_name) → Succeeds h (new c)
  unfolding new
  new-Succeeds c named = value-Succeeds h (config_name c.dev_name) _ named (λ name e.
      bind-Succeeds h _ _ create_node-Succeeds (λ u.
        bind-Succeeds h _ _ (open_fd-Succeeds _ _) (λ fd.
          bind-Succeeds h _ _ (offloads-Succeeds fd _)
            (λ p. pure-Succeeds h (ok (record { fd = fd; vnet_hdr = p.0; udp_gso = p.1 })) tt))))

  -- Where the system answers every request with a value, and the builder has a name that fits and
  -- addresses and prefix lengths whose conversions succeeded, building a device returns one.
  pub build_sync-Succeeds :
      (deps : Deps) (b : DeviceBuilder)
      → NamesPass deps
      → IsReady b
      → Succeeds h (build_sync deps b)
  unfolding build_sync build_config configured
  build_sync-Succeeds deps b names g =
      bind-Succeeds h _ _ (new-Succeeds (build_config b).0 g.named) (λ dev.
        settled-Succeeds (config (linux_device deps dev) (build_config b).1) _
          (config-Succeeds deps names dev (build_config b).1 g.ipv4_good g.ipv6_good)
          (λ r v.
            bind-Succeeds h _ _ (drop_on_err-Succeeds dev.fd r v)
              (λ u. pure-Succeeds h (ok dev) tt)))
