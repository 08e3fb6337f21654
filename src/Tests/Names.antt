-- ===== src/Tests/Names.antt =====
-- Inputs for the theorems on the DNS servers and on the setters of the builder.
use quincy_tun.Base.{◌≡◌, refl, List, [], ◌∷◌, true, false, none, Outcome, ok, err, invalid_input}
use quincy_tun.Host.{Host}
use quincy_tun.Net.{IpAddr, v4, v6, Parsers, addr, prefix_len, prefix, ipv4}
use quincy_tun.Windows.{
  Win, WinReply, dns_api, luid_to_guid, set_dns_servers, netsh_set_dns_servers,
}
use quincy_tun.Windows.Order.{set_dns_servers-refuses}
use quincy_tun.Linux.{ip_net, Deps, Reply}
use quincy_tun.Host.{pure, ◌>>=◌}
use quincy_tun.Builder.{Device, new, with_mtu, with_ipv4, config}
use quincy_tun.Builder.Setters.{with_all, adds, config-setters}
use quincy_tun.Builder.Build.{linux_device}

abbrev old_windows : (c : Win) → Outcome (WinReply c)
old_windows dns_api = ok false
old_windows (luid_to_guid luid) = ok 9
old_windows _ = ok tt

abbrev old_host : Host WinReply
old_host log c = old_windows c

abbrev two_servers : List IpAddr
two_servers = v4 0x01010101 ∷ v4 0x08080808 ∷ []

abbrev mixed : List IpAddr
mixed = v4 0x01010101 ∷ v6 1 ∷ []

set_dns_servers-refuses_example :
    (set_dns_servers 7 9 mixed old_host [] ≡ ([], err invalid_input))
    × (netsh_set_dns_servers 7 mixed old_host [] ≡ ([], err invalid_input))
set_dns_servers-refuses_example =
    set_dns_servers-refuses 7 9 mixed 0 1 0x01010101 1 old_host [] refl refl

abbrev std : Parsers
std = record { ipv4_from_str = λ s. none; ipv6_from_str = λ s. none }

abbrev named_deps : Deps
named_deps = record {
  parsers = std;
  to_string_lossy = λ s. s;
  new_assert = λ ip len. ok (ip_net ip len);
  ip_mask_to_prefix = λ ip. none;
}

abbrev named_dev : Device Reply
named_dev = linux_device named_deps (record { fd = 3; vnet_hdr = false; udp_gso = false })

config-setters_example :
    config named_dev (
      with_all std
        ((addr 1, prefix_len 64) ∷ (addr 2, prefix_len 64) ∷ [])
        (with_ipv4 std (addr 5) (prefix_len 24) none (with_mtu 1400 new)))
    ≡ (named_dev.set_mtu 1400 >>= λ _.
        (pure (prefix 32 std.ipv4_from_str (prefix_len 24)) >>= λ len.
        pure (ipv4 std (addr 5)) >>= λ address.
        pure (ok none) >>= λ destination. named_dev.set_network_address address len destination)
        >>= λ _.
            adds std named_dev ((addr 1, prefix_len 64) ∷ (addr 2, prefix_len 64) ∷ []) >>= λ _.
            named_dev.set_enabled true)
config-setters_example =
    config-setters std named_dev 1400 (addr 5) (prefix_len 24) none (addr 1, prefix_len 64)
      ((addr 2, prefix_len 64) ∷ [])
