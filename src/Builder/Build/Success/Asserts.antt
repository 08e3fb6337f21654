-- ===== src/Builder/Build/Success/Asserts.antt =====
-- The assertion in `IpNet::new_assert` does not fail where `add_address_v4` calls it.
use quincy_tun.Base.{ℕ, ◌≤◌, arith}
use quincy_tun.Host.{Host}
use quincy_tun.Host.Answers.{IsValue, Obliging, Succeeds, bind-Succeeds, value-Succeeds}
use quincy_tun.Net.{v4, Address, Mask, ipv4, prefix}
use quincy_tun.Net.Masks.{prefix-le}
use quincy_tun.Linux.{Reply, Deps, DeviceImpl, net_add_address, try_from_index}
use quincy_tun.Linux.Addresses.{add_address_v4}
use quincy_tun.Builder.Build.Success.{NamesPass, sys-Succeeds, if_index-Succeeds}

-- The documented condition of `new_assert`: a prefix length of up to 32 is good for an IPv4 address.
abbrev pub Asserts : Deps → Type 0
Asserts deps = (a len : ℕ) → len ≤ 32 → IsValue (deps.new_assert (v4 a) len)

-- If the system answers every request with a value, and the address and the netmask convert,
-- `add_address_v4` succeeds: the prefix length that it hands to the assertion is always good.
pub add_address_v4-Succeeds :
    (h : Host Reply) (deps : Deps) (dev : DeviceImpl) (a : Address) (m : Mask)
    → Obliging h
    → NamesPass deps
    → Asserts deps
    → IsValue (ipv4 deps.parsers a)
    → IsValue (prefix 32 deps.parsers.ipv4_from_str m)
    → Succeeds h (add_address_v4 deps dev a m)
unfolding add_address_v4
add_address_v4-Succeeds h deps dev a m o names asserts good_a good_m =
    bind-Succeeds h _ _ (if_index-Succeeds h o deps names dev) (λ n.
      bind-Succeeds h _ _ (sys-Succeeds h o (try_from_index n)) (λ i.
        value-Succeeds h (ipv4 deps.parsers a) _ good_a (λ ip e.
          value-Succeeds h (prefix 32 deps.parsers.ipv4_from_str m) _ good_m (λ len e'.
            value-Succeeds h (deps.new_assert (v4 ip) len) _
              (asserts ip len (prefix-le 32 len deps.parsers.ipv4_from_str m (omega arith) e'))
              (λ net e''. sys-Succeeds h o (net_add_address i net))))))
