-- ===== src/Net.antt =====
-- src/builder.rs, the conversions: addresses and netmasks given as an address, a number or a text.
-- An address is the number that its bytes spell, the first byte highest.
pub mod Masks
use quincy_tun.Base.{
  ℕ, zero, suc, ◌+◌, ◌-◌, ◌*◌, ◌%◌, ◌^◌, List, Bool, true, false, ltb, leb, ◌==◌, if◌then◌else◌,
  Option, none, some, Outcome, ok, err, invalid_data, ◌>>=◌,
}

-- The bytes of a text.
abbrev pub Text : Type 0
Text = List ℕ

pub data IpAddr : Type 0 where
  v4 : ℕ → IpAddr
  v6 : ℕ → IpAddr

-- The standard library's parsers of an address, `Ipv4Addr::from_str` and `Ipv6Addr::from_str`.
pub record Parsers : Type 0 where
  pub ipv4_from_str : Text → Option ℕ
  pub ipv6_from_str : Text → Option ℕ

-- The types that implement `ToIpv4Address` and `ToIpv6Address`.
pub data Address : Type 0 where
  addr : ℕ → Address
  ip_addr : IpAddr → Address
  text : Text → Address

-- The types that implement `ToIpv4Netmask` and `ToIpv6Netmask`.
pub data Mask : Type 0 where
  prefix_len : ℕ → Mask
  mask : ℕ → Mask
  mask_text : Text → Mask

abbrev pub parsed : Option ℕ → Outcome ℕ
parsed (some a) = ok a
parsed none = err invalid_data

unfoldable pub ipv4 : Parsers → Address → Outcome ℕ
ipv4 std (addr a) = ok a
ipv4 std (ip_addr (v4 a)) = ok a
ipv4 std (ip_addr (v6 a)) = err invalid_data
ipv4 std (text s) = parsed (std.ipv4_from_str s)

unfoldable pub ipv6 : Parsers → Address → Outcome ℕ
ipv6 std (addr a) = ok a
ipv6 std (ip_addr (v4 a)) = err invalid_data
ipv6 std (ip_addr (v6 a)) = ok a
ipv6 std (text s) = parsed (std.ipv6_from_str s)

-- `leading_ones` and `count_ones` of a number of `w` bits
unfoldable pub leading_ones : ℕ → ℕ → ℕ
leading_ones zero x = 0
leading_ones (suc w) x = if leb (2 ^ w) x then suc (leading_ones w (x - 2 ^ w)) else 0

unfoldable pub count_ones : ℕ → ℕ → ℕ
count_ones zero x = 0
count_ones (suc w) x =
    let rest = count_ones w (x - 2 ^ w) in
    let same = count_ones w x in if leb (2 ^ w) x then suc rest else same

-- `ToIpv4Netmask` for `w` = 32 and `ToIpv6Netmask` for `w` = 128.
module _ (w : ℕ) where
  unfoldable pub prefix_of_len : ℕ → Outcome ℕ
  prefix_of_len n = if ltb w n then err invalid_data else ok n

  unfoldable pub prefix_of_mask : ℕ → Outcome ℕ
  unfolding leading_ones count_ones
  prefix_of_mask ip =
      if leading_ones w ip == count_ones w ip
      then ok (leading_ones w ip % 256)
      else err invalid_data

  -- `from_str` is the parser of the address family.
  unfoldable pub prefix : (Text → Option ℕ) → Mask → Outcome ℕ
  prefix from_str (prefix_len n) = prefix_of_len n
  prefix from_str (mask ip) = prefix_of_mask ip
  prefix from_str (mask_text s) = parsed (from_str s) >>= λ ip. prefix_of_mask ip

  -- `MAX.checked_shl(w - prefix).unwrap_or(0)`: the shift by all `w` bits is refused.
  unfoldable pub netmask_of : ℕ → ℕ
  netmask_of n = if ltb (w - n) w then (2 ^ w - 1) * 2 ^ (w - n) % 2 ^ w else 0

  unfoldable pub netmask : (Text → Option ℕ) → Mask → Outcome ℕ
  netmask from_str m = prefix from_str m >>= λ n. ok (netmask_of n)
