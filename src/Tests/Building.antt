-- ===== src/Tests/Building.antt =====
-- A system that refuses nothing, and a builder, for the theorems on the requests.
use quincy_tun.Base.{◌≡◌, refl, arith, [], ◌∷◌, true, false, none, some, replicate, Outcome, ok}
use quincy_tun.Host.{Host}
use quincy_tun.Host.Answers.{Obliging, Succeeds}
use quincy_tun.Net.{mask, Text, IpAddr, v4, v6, Address, addr, Mask, prefix_len, mask, Parsers}
use quincy_tun.Linux.{
  Sys, Reply, Query, get_flags, get_mtu, get_metric, get_broadaddr, get_hwaddr, Deps, DeviceImpl,
  IpNet, ip_net, exists, open_tun, socket, tungetiff, if_nametoindex, get, try_from_index,
  net_addresses, getifaddrs,
}
use quincy_tun.Linux.Name.{has_nul, c_string, checked_name, config_name}
use quincy_tun.Linux.Open.{DeviceConfig, unwrap_or}
use quincy_tun.Linux.Open.Results.{OnOk, IsOffer, new-IsOffer}
use quincy_tun.Linux.Settings.{
  set_tx_queue_len, tx_queue_len, persist, user, group, set_broadcast, broadcast, set_name,
  is_running, enabled, mtu_of, set_mtu, set_mac_address, mac_address, if_index,
}
use quincy_tun.Linux.Addresses.{
  set_network_address, add_address_v4, add_address_v6, remove_address, addresses,
}
use quincy_tun.Linux.Held.{Neutral, held}
use quincy_tun.Linux.Held.Settings.{settings-Neutral}
use quincy_tun.Linux.Held.Addresses.{addresses-Neutral}
use quincy_tun.Linux.Held.Open.{Holds}
use quincy_tun.Builder.{DeviceBuilder}
use quincy_tun.Builder.Build.{build_sync}
use quincy_tun.Builder.Build.Drops.{fd_of, build_sync-Holds}
use quincy_tun.Builder.Build.Success.{NamesPass}
use quincy_tun.Builder.Build.Success.Asserts.{add_address_v4-Succeeds}
use quincy_tun.Builder.Build.Success.Whole.{IsReady, build_sync-Succeeds}

abbrev value : (q : Query) → Outcome (Reply (get 0 [] q))
value get_broadaddr = ok (replicate 16 0)
value get_hwaddr = ok (replicate 14 0)
value get_flags = ok 0
value get_mtu = ok 1500
value get_metric = ok 500

abbrev kind : (c : Sys) → Outcome (Reply c)
kind exists = ok true
kind open_tun = ok 3
kind (socket f) = ok 4
kind (tungetiff fd) = ok (116 ∷ 48 ∷ [])
kind (if_nametoindex name) = ok 7
kind (get fd name q) = value q
kind (try_from_index i) = ok i
kind (net_addresses i) = ok (ip_net (v4 0x0A000001) 24 ∷ [])
kind getifaddrs = ok []
kind _ = ok tt

abbrev kind_host : Host Reply
kind_host log c = kind c

abbrev deps : Deps
deps = record {
  parsers = record { ipv4_from_str = λ s. none; ipv6_from_str = λ s. none };
  to_string_lossy = λ s. 116 ∷ 48 ∷ [];
  new_assert = λ ip len. ok (ip_net ip len);
  ip_mask_to_prefix = λ ip. none;
}

abbrev dev : DeviceImpl
dev = record { fd = 3; vnet_hdr = true; udp_gso = false }

abbrev two_addresses : DeviceBuilder
two_addresses = record {
  dev_name = some (116 ∷ 48 ∷ []);
  enabled = some true;
  mtu = some 1400;
  ipv4 = some (record { address = ok 0x0A000001; len = ok 24; destination = none });
  ipv6 =
      some (record { address = ok 1; len = ok 64 } ∷ record { address = ok 2; len = ok 64 } ∷ []);
  packet_information = none;
  offload = some true;
}

abbrev offering : DeviceConfig
offering = record {
  dev_name = some (116 ∷ 48 ∷ []);
  packet_information = none;
  offload = some true;
}

abbrev long_name : Text
long_name = replicate 16 97

obliging : Obliging kind_host
obliging log (get fd name get_flags) = tt
obliging log (get fd name get_mtu) = tt
obliging log (get fd name get_metric) = tt
obliging log (get fd name get_broadaddr) = tt
obliging log (get fd name get_hwaddr) = tt
obliging log _ = tt

names_pass : NamesPass deps
unfolding c_string has_nul
names_pass n = tt

two_addresses-IsReady : IsReady two_addresses
unfolding config_name checked_name c_string has_nul
two_addresses-IsReady = record {
  named = tt;
  ipv4_good = (omega arith, tt, tt);
  ipv6_good = ((omega arith, tt), ((omega arith, tt), tt));
}

build_sync-Succeeds_example : Succeeds kind_host (build_sync deps two_addresses)
build_sync-Succeeds_example =
    build_sync-Succeeds kind_host obliging deps two_addresses names_pass two_addresses-IsReady

build_sync-Holds_example : Holds fd_of (held []) (build_sync deps two_addresses kind_host [])
build_sync-Holds_example = build_sync-Holds deps two_addresses kind_host []

new-IsOffer_example :
    OnOk
      (IsOffer (unwrap_or offering.offload false))
      (quincy_tun.Linux.Open.new offering kind_host []).1
new-IsOffer_example = new-IsOffer offering kind_host []

abbrev too_long : DeviceConfig
too_long = record { dev_name = some long_name; packet_information = none; offload = none }

settings-Neutral_example :
    Neutral (set_tx_queue_len deps dev 500)
    × Neutral (tx_queue_len deps dev)
    × Neutral (persist deps dev)
    × Neutral (user deps dev 500)
    × Neutral (group deps dev 500)
    × Neutral (set_broadcast deps dev (v4 0))
    × Neutral (broadcast deps dev)
    × Neutral (set_name deps dev long_name)
    × Neutral (is_running deps dev)
    × Neutral (enabled deps dev true)
    × Neutral (mtu_of deps dev)
    × Neutral (set_mtu deps dev 500)
    × Neutral (set_mac_address deps dev [])
    × Neutral (mac_address deps dev)
    × Neutral (if_index deps dev)
settings-Neutral_example = settings-Neutral deps dev 500 long_name (v4 0) [] true

addresses-Neutral_example :
    Neutral (set_network_address deps dev (addr 1) (prefix_len 24) none)
    × Neutral (add_address_v4 deps dev (addr 1) (prefix_len 24))
    × Neutral (add_address_v6 deps dev (addr 1) (prefix_len 24))
    × Neutral (remove_address deps dev (v6 1))
    × Neutral (addresses deps dev)
addresses-Neutral_example = addresses-Neutral deps dev (v6 1) (addr 1) (prefix_len 24) none

-- A run: the requests of a build, and the device that it gives.
built :
    (build_sync deps two_addresses kind_host []).1
    ≡ ok (record { fd = 3; vnet_hdr = true; udp_gso = true })
unfolding build_sync quincy_tun.Linux.Open.new config_name checked_name set_mtu set_network_address
    quincy_tun.Net.ipv4 quincy_tun.Net.netmask quincy_tun.Net.prefix quincy_tun.Net.prefix_of_len
    add_address_v6 quincy_tun.Net.ipv6 enabled
built = refl

add_address_v4-Succeeds_example :
    Succeeds kind_host (add_address_v4 deps dev (addr 0x0A000001) (mask 0xFFFFFF00))
unfolding quincy_tun.Net.ipv4 quincy_tun.Net.prefix quincy_tun.Net.prefix_of_mask
    quincy_tun.Net.leading_ones quincy_tun.Net.count_ones
add_address_v4-Succeeds_example =
    add_address_v4-Succeeds kind_host deps dev (addr 0x0A000001) (mask 0xFFFFFF00) obliging
      names_pass (λ a len l. tt) tt tt
