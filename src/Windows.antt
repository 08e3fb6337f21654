-- ===== src/Windows.antt =====
-- src/platform/windows/netsh.rs and dns.rs: the DNS servers of an interface. A command line of `netsh`
-- is the data that it is printed from; running it, and the calls of the Windows API, are requests.
pub mod Order
pub mod Wintun
pub mod Orphans
pub mod Names
pub mod Ffi
pub mod Device
pub mod Create
use quincy_tun.Base.{
  ℕ, zero, suc, ◌+◌, ◌*◌, ◌%◌, ◌^◌, List, [], ◌∷◌, ◌++◌, Bool, true, false, not, ◌&&◌,
  if◌then◌else◌, Option, none, some, Outcome, ok, err, panic, ErrorKind, invalid_input, bit_or,
}
use quincy_tun.Host.{Host, Event, M, call, pure, next, ◌>>=◌, ◌>>◌, attempt}
use quincy_tun.Net.{Text, IpAddr, v4, v6}
use quincy_tun.Linux.Addresses.{is_ipv4}

-- A command, after its family and interface.
pub data Command : Type 0 where
  set_primary : ℕ → IpAddr → Command
  add_secondary : ℕ → IpAddr → ℕ → Command
  clear : ℕ → Bool → Command
  rename : Text → Text → Command

-- The flags `DNS_SETTING_NAMESERVER` and `DNS_SETTING_IPV6`.
pub data DnsSetting : Type 0 where
  dns_setting_nameserver dns_setting_ipv6 : DnsSetting

pub data Win : Type 0 where
  exe_cmd : Command → Win
  -- whether `SetInterfaceDnsSettings` is there
  dns_api : Win
  luid_to_guid : ℕ → Win
  -- the interface, the flags, and the servers of the comma-separated list
  set_interface_dns_settings : ℕ → List DnsSetting → List IpAddr → Win
  flush_resolver_cache : Win

abbrev pub WinReply : Win → Type 0
WinReply dns_api = Bool
WinReply (luid_to_guid luid) = ℕ
WinReply _ = Unit

abbrev pub win : (c : Win) → M WinReply (WinReply c)
win c = call WinReply c

abbrev pub eqb : Bool → Bool → Bool
eqb true b = b
eqb false b = not b

-- `all(|addr| addr.is_ipv4() == is_ipv4)`
unfoldable pub same_family : Bool → List IpAddr → Bool
same_family v [] = true
same_family v (a ∷ servers) = eqb (is_ipv4 a) v && same_family v servers

-- The list, and whether it is of IPv4; an empty or a mixed list is refused.
unfoldable pub checked_servers : List IpAddr → Outcome Bool
unfolding same_family
checked_servers [] = err invalid_input
checked_servers (a ∷ servers) =
    if same_family (is_ipv4 a) (a ∷ servers) then ok (is_ipv4 a) else err invalid_input

unfoldable pub set_interface_name : Text → Text → M WinReply (Unit {0})
set_interface_name old_name new_name = win (exe_cmd (rename old_name new_name))

module _ (index : ℕ) where
  -- From the second server on, each with its place.
  unfoldable pub add_from : ℕ → List IpAddr → M WinReply (Unit {0})
  add_from i [] = pure (ok tt)
  add_from i (a ∷ servers) =
      win (exe_cmd (add_secondary index a (i % 2 ^ 32))) >>= λ _. add_from (i + 1) servers

  unfoldable pub set_all : List IpAddr → M WinReply (Unit {0})
  unfolding add_from
  set_all [] = pure panic
  set_all (a ∷ servers) = win (exe_cmd (set_primary index a)) >>= λ _. add_from 2 servers

  -- `netsh::set_dns_servers`
  unfoldable pub netsh_set_dns_servers : List IpAddr → M WinReply (Unit {0})
  unfolding checked_servers set_all
  netsh_set_dns_servers servers =
      pure (checked_servers servers) >>= λ v. win (exe_cmd (clear index v)) >>= λ _. set_all servers

  -- `netsh::clear_dns_servers`
  unfoldable pub netsh_clear_dns_servers : Bool → M WinReply (Unit {0})
  netsh_clear_dns_servers v = win (exe_cmd (clear index v))

abbrev pub dns_flags : Bool → List DnsSetting
dns_flags true = dns_setting_nameserver ∷ []
dns_flags false = dns_setting_nameserver ∷ dns_setting_ipv6 ∷ []

unfoldable pub apply : ℕ → List IpAddr → Bool → M WinReply (Unit {0})
apply guid servers v = win (set_interface_dns_settings guid (dns_flags v) servers)

-- By the API where it is there, else by `netsh`.
unfoldable pub by_api :
    Bool → ℕ → List IpAddr → Bool → M WinReply (Unit {0}) → M WinReply (Unit {0})
unfolding apply
by_api true luid servers v fallback = win (luid_to_guid luid) >>= λ guid. apply guid servers v
by_api false luid servers v fallback = fallback

module _ (index luid : ℕ) where
  -- A failure to flush the cache is only logged.
  unfoldable pub set_dns_servers : List IpAddr → M WinReply (Unit {0})
  unfolding checked_servers by_api netsh_set_dns_servers
  set_dns_servers servers = pure (checked_servers servers) >>= λ v. win dns_api >>= λ api.
      by_api api luid servers v (netsh_set_dns_servers index servers) >>= λ _.
      attempt (win flush_resolver_cache) >>= λ _. pure (ok tt)

  unfoldable pub clear_dns_servers : Bool → M WinReply (Unit {0})
  unfolding by_api netsh_clear_dns_servers
  clear_dns_servers v = win dns_api >>= λ api.
      by_api api luid [] v (netsh_clear_dns_servers index v) >>= λ _.
      attempt (win flush_resolver_cache) >>= λ _. pure (ok tt)
