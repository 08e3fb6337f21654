-- ===== src/Windows/Order.antt =====
-- The order in which the DNS servers of an interface are set.
use quincy_tun.Base.{
  get_elem?, some, not, ◌&&◌, zero, suc, ℕ, ◌+◌, ◌%◌, ◌^◌, ◌≡◌, refl, List, [], ◌∷◌, ◌++◌, Bool,
  true, false, ok, err, invalid_input,
}
use quincy_tun.Host.{Host, Event, M, pure, ◌>>=◌, attempt}
use quincy_tun.Host.Laws.{View}
use quincy_tun.Net.{IpAddr, v4, v6}
use quincy_tun.Linux.Addresses.{is_ipv4}
use quincy_tun.Windows.{
  Win, Command, set_primary, add_secondary, clear, DnsSetting, exe_cmd, set_interface_dns_settings,
  flush_resolver_cache, WinReply, win, same_family, eqb, checked_servers, netsh_set_dns_servers,
  dns_flags, by_api, set_dns_servers,
}

-- What changes: a command that is run, settings that are applied, the cache.
pub data Step : Type 0 where
  ran : Command → Step
  applied : List DnsSetting → List IpAddr → Step
  flushed : Step

abbrev pub shown : Event WinReply → List Step
shown (exe_cmd c, r) = ran c ∷ []
shown (set_interface_dns_settings guid f servers, r) = applied f servers ∷ []
shown (flush_resolver_cache, r) = flushed ∷ []
shown _ = []

-- All requests have to succeed but that to flush the cache.
abbrev pub has_to : Win → Bool
has_to flush_resolver_cache = false
has_to _ = true

abbrev pub view : View WinReply Step
view = record { shows = shown; must = has_to }

-- The other servers, with the places that they get.
abbrev pub others : ℕ → ℕ → List IpAddr → List Step
others index i [] = []
others index i (a ∷ servers) =
    ran (add_secondary index a (i % 2 ^ 32)) ∷ others index (i + 1) servers

-- The list is cleared, the first server becomes the primary one, the others follow from place 2 on.
abbrev pub netsh_plan : ℕ → Bool → List IpAddr → List Step
netsh_plan index v [] = ran (clear index v) ∷ []
netsh_plan index v (a ∷ servers) =
    ran (clear index v) ∷ ran (set_primary index a) ∷ others index 2 servers

abbrev pub dns_plan : Bool → ℕ → Bool → List IpAddr → List Step
dns_plan true index v servers = applied (dns_flags v) servers ∷ flushed ∷ []
dns_plan false index v servers = netsh_plan index v servers ++ flushed ∷ []

-- What follows once it is known whether the API is there.
rest : ℕ → ℕ → Bool → List IpAddr → Bool → M WinReply (Unit {0})
unfolding by_api
rest index luid v servers api =
    by_api api luid servers v (netsh_set_dns_servers index servers) >>= λ _.
    attempt (win flush_resolver_cache) >>= λ _. pure (ok tt)

refused :
    (servers : List IpAddr)
    → same_family true servers ≡ false
    → same_family false servers ≡ false
    → checked_servers servers ≡ err invalid_input
unfolding checked_servers
refused [] n m = refl
refused (v4 a ∷ servers) n m = rw n refl
refused (v6 a ∷ servers) n m = rw m refl

-- An address of the other family, at any place, is seen.
same_family-other :
    (v : Bool) (servers : List IpAddr) (i : ℕ) (x : IpAddr)
    → get_elem? servers i ≡ some x
    → is_ipv4 x ≡ not v
    → same_family v servers ≡ false
unfolding same_family
same_family-other v [] i x at e = absurd (cc)
same_family-other v (y ∷ servers) zero x at e =
    let here : is_ipv4 y ≡ not v = cc in differs v (is_ipv4 y) _ here
  where
    differs : (v b rest : Bool) → b ≡ not v → (eqb b v && rest) ≡ false
    differs true b rest h = rw h refl
    differs false b rest h = rw h refl
same_family-other v (y ∷ servers) (suc i) x at e =
    let rest = same_family-other v servers i x at e in both (eqb (is_ipv4 y) v) _ rest
  where
    both : (b c : Bool) → c ≡ false → (b && c) ≡ false
    both true c h = h
    both false c h = refl

-- A list that has an IPv4 address at one place and an IPv6 address at another is refused as invalid
-- input, and nothing is asked of the system, whether or not the API is there.
pub set_dns_servers-refuses :
    (index luid : ℕ) (servers : List IpAddr) (i j a b : ℕ) (h : Host WinReply)
    (log : List (Event WinReply))
    → get_elem? servers i ≡ some (v4 a)
    → get_elem? servers j ≡ some (v6 b)
    → (set_dns_servers index luid servers h log ≡ (log, err invalid_input))
      × (netsh_set_dns_servers index servers h log ≡ (log, err invalid_input))
unfolding set_dns_servers netsh_set_dns_servers
set_dns_servers-refuses index luid servers i j a b h log four six =
    let e =
      refused servers (same_family-other true servers j (v6 b) six refl)
        (same_family-other false servers i (v4 a) four refl) in
    (rw e refl, rw e refl)
