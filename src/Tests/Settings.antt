-- ===== src/Tests/Settings.antt =====
-- Inputs for the theorems on addresses, on the requests to the system and on the builder.
use quincy_tun.Base.{ℕ, ◌≡◌, refl, arith, Option, none, some, ok}
use quincy_tun.Net.{
  Text, v4, mask, prefix_len, prefix, netmask, netmask_of, prefix_of_mask, leading_ones, count_ones,
}
use quincy_tun.Net.Masks.{IsMask, netmask-prefix, prefix-netmask}
use quincy_tun.Linux.Sockaddr.{
  socket_addr, rs_addr_to_sockaddr, sockaddr_to_rs_addr, ipaddr_to_sockaddr, overwrite_size,
  sockaddr_to_rs_addr-ipaddr_to_sockaddr,
}

abbrev no_text : Text → Option ℕ
no_text s = none

netmask-prefix_example :
    (netmask 32 no_text (mask 0xFFFFFF00) ≡ ok (netmask_of 32 24))
    × IsMask 32 24 (netmask_of 32 24)
    × (prefix 32 no_text (mask (netmask_of 32 24)) ≡ ok 24)
unfolding prefix prefix_of_mask leading_ones count_ones
netmask-prefix_example = netmask-prefix 32 24 no_text (mask 0xFFFFFF00) (omega arith) refl

prefix-netmask_example : netmask 32 no_text (prefix_len 24) ≡ ok 0xFFFFFF00
unfolding prefix prefix_of_mask leading_ones count_ones
prefix-netmask_example = prefix-netmask 32 24 0xFFFFFF00 no_text (omega arith) (omega arith) refl

sockaddr_to_rs_addr-ipaddr_to_sockaddr_example :
    (sockaddr_to_rs_addr (rs_addr_to_sockaddr (socket_addr (v4 0x7F000001) 520))
      ≡ some (socket_addr (v4 0x7F000001) 520))
    × (sockaddr_to_rs_addr (ipaddr_to_sockaddr (v4 0x7F000001) 520 overwrite_size)
        ≡ some (socket_addr (v4 0x7F000001) 520))
sockaddr_to_rs_addr-ipaddr_to_sockaddr_example =
    sockaddr_to_rs_addr-ipaddr_to_sockaddr (v4 0x7F000001) 520 (omega arith, omega arith)
