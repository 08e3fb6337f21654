-- ===== src/Builder/Build/Drops.antt =====
-- Building a device leaves no descriptor open but the device's own.
use quincy_tun.Base.{ℕ, ◌≡◌, ◌∙◌, List, [], ◌∷◌, Bool, Option, none, some, ok}
use quincy_tun.Host.{Host, Event, pure}
use quincy_tun.Net.{addr, prefix_len}
use quincy_tun.Linux.{Reply, Deps, DeviceImpl}
use quincy_tun.Linux.Settings.{set_mtu}
use quincy_tun.Linux.Open.{new, drop_on_err}
use quincy_tun.Linux.Held.{Neutral, held, pure-Neutral, bind-Neutral}
use quincy_tun.Linux.Held.Settings.{set_field-Neutral, enabled-Neutral}
use quincy_tun.Linux.Held.Addresses.{set_network_address-Neutral, add_address_v6-Neutral}
use quincy_tun.Linux.Held.Open.{Holds, next-Holds_keep, drop_on_err-Holds, new-Holds}
use quincy_tun.Builder.{
  DeviceBuilder, Ipv4Setting, Ipv6Setting, transpose, build_config, config_mtu, config_ipv4,
  config_each, config_ipv6, config_enabled, config,
}
use quincy_tun.Builder.Build.{linux_device, as_addresses, configured, build_sync}

module _ (deps : Deps) (dev : DeviceImpl) where
  config_mtu-Neutral : (n : Option ℕ) → Neutral (config_mtu (linux_device deps dev) n)
  unfolding config_mtu set_mtu
  config_mtu-Neutral none = pure-Neutral (ok tt)
  config_mtu-Neutral (some n) = set_field-Neutral deps dev _

  config_ipv4-Neutral : (s : Option Ipv4Setting) → Neutral (config_ipv4 (linux_device deps dev) s)
  unfolding config_ipv4
  config_ipv4-Neutral none = pure-Neutral (ok tt)
  config_ipv4-Neutral (some s) = bind-Neutral _ _ (pure-Neutral s.len) (λ len.
      bind-Neutral _ _ (pure-Neutral s.address) (λ a.
        bind-Neutral _ _ (pure-Neutral (transpose s.destination))
          (λ d. set_network_address-Neutral deps dev (addr a) (prefix_len len) (as_addresses d))))

  config_each-Neutral : (v : List Ipv6Setting) → Neutral (config_each (linux_device deps dev) v)
  unfolding config_each
  config_each-Neutral [] = pure-Neutral (ok tt)
  config_each-Neutral (s ∷ v) =
      let rest = config_each-Neutral v in
      bind-Neutral _ _ (pure-Neutral s.len) (λ len. bind-Neutral _ _ (pure-Neutral s.address) (λ a.
        bind-Neutral _ _ (add_address_v6-Neutral deps dev (addr a) (prefix_len len)) (λ u. rest)))

  config_ipv6-Neutral :
      (s : Option (List Ipv6Setting)) → Neutral (config_ipv6 (linux_device deps dev) s)
  unfolding config_ipv6
  config_ipv6-Neutral none = pure-Neutral (ok tt)
  config_ipv6-Neutral (some v) = config_each-Neutral v

  config_enabled-Neutral : (e : Option Bool) → Neutral (config_enabled (linux_device deps dev) e)
  unfolding config_enabled
  config_enabled-Neutral none = pure-Neutral (ok tt)
  config_enabled-Neutral (some e) = enabled-Neutral deps dev e

  config-Neutral : (b : DeviceBuilder) → Neutral (config (linux_device deps dev) b)
  unfolding config
  config-Neutral b = bind-Neutral _ _ (config_mtu-Neutral b.mtu) (λ u.
      bind-Neutral _ _ (config_ipv4-Neutral b.ipv4) (λ u.
        bind-Neutral _ _ (config_ipv6-Neutral b.ipv6) (λ u. config_enabled-Neutral b.enabled)))

abbrev pub fd_of : DeviceImpl → ℕ
fd_of dev = dev.fd

configured-Holds :
    (deps : Deps) (b : DeviceBuilder) (fds : List ℕ) (h : Host Reply) (log : List (Event Reply))
    (dev : DeviceImpl)
    → held log ≡ dev.fd ∷ fds
    → Holds fd_of fds (configured deps b dev h log)
unfolding configured
configured-Holds deps b fds h log dev e =
    let r = config (linux_device deps dev) b h log in
    let dropped = drop_on_err dev.fd r.1 h r.0 in
    next-Holds_keep (λ (u : Unit {0}). dev.fd) fd_of fds (λ u. pure (ok dev)) h dropped.0 dropped.1
      (drop_on_err-Holds dev.fd fds r.1 h r.0 ((config-Neutral deps dev b).keeps h log ∙ e))
      (λ u k. k)

-- Whatever the system answers, a device that `build_sync` returns has the one descriptor that is
-- open besides those that were open before, and where it fails those alone are open.
pub build_sync-Holds :
    (deps : Deps) (b : DeviceBuilder) (h : Host Reply) (log : List (Event Reply))
    → Holds fd_of (held log) (build_sync deps b h log)
unfolding build_sync build_config
build_sync-Holds deps b h log =
    let c = build_config b in
    let opened = new c.0 h log in
    next-Holds_keep fd_of fd_of (held log) (configured deps c.1) h opened.0 opened.1
      (new-Holds c.0 h log) (λ dev e. configured-Holds deps c.1 (held log) h opened.0 dev e)
