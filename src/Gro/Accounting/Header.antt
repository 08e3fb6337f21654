-- ===== src/Gro/Accounting/Header.antt =====
-- The IP header of a merged packet.
use quincy_tun.Base.{
  ℕ, ◌-◌, ◌/◌, ◌%◌, ◌^◌, ◌≤◌, ◌<◌, ◌≡◌, ◌∙◌, arith, List, [], ◌∷◌, length, Bool, true, false,
  if◌then◌else◌, take, drop, overwrite, Returns, Returns-mono, IsByte, IsBytes, get16, be16,
  All-overwrite, clear_u16-ok, write_u16-ok, length-overwrite, drop-overwrite, get16-overwrite,
  IsBytes-be16,
}
use quincy_tun.Checksum.{checksum}
use quincy_tun.Offload.Ipv4.{IsIpv4, finish-IsIpv4}
use quincy_tun.Gro.Accounting.{write_ip_len, sub_u16}

-- What the IP header of `o` says, after the lengths of `pkt` were written.
pub record IsMeasured (pkt : List ℕ) (iph_len : ℕ) (is_v6 : Bool) (o : List ℕ) : Type 0 where
  pub same_length : length o ≡ length pkt
  pub bytes : IsBytes o
  pub ipv4_len : is_v6 ≡ false → get16 o 2 ≡ length pkt
  pub ipv4_sum : is_v6 ≡ false → checksum (take iph_len o) 0 ≡ 0xFFFF
  pub ipv6_len : is_v6 ≡ true → get16 o 4 ≡ length pkt - iph_len
  pub behind : drop 12 o ≡ drop 12 pkt

measured4 :
    (pkt : List ℕ) (iph_len : ℕ)
    → IsBytes pkt
    → length pkt < 2 ^ 16
    → 20 ≤ iph_len
    → iph_len ≤ length pkt
    → Returns (write_ip_len pkt iph_len false) (IsMeasured pkt iph_len false)
unfolding write_ip_len
measured4 pkt iph_len hb hl h20 h =
    let z : List ℕ = 0 ∷ 0 ∷ [] in
    let c = overwrite pkt 10 z in
    let lc = length-overwrite pkt 10 z in
    rw (clear_u16-ok pkt 10 (omega arith)) (
      Returns-mono _ (IsIpv4 iph_len 0 (length pkt) c) _
        (finish-IsIpv4 iph_len (length pkt) c h20 (omega arith) (omega arith)
          (All-overwrite IsByte pkt 10 z hb (omega arith))
          (get16-overwrite pkt 10 0 0 (omega arith)) hl)
        (λ o v. record {
          same_length = v.same_length ∙ lc;
          bytes = v.bytes;
          ipv4_len = λ e. v.total_field;
          ipv4_sum = λ e. v.header_sum;
          ipv6_len = λ e. cc;
          behind = v.rest ∙ drop-overwrite 12 pkt 10 z (omega arith);
        }))

measured6 :
    (pkt : List ℕ) (iph_len : ℕ)
    → IsBytes pkt
    → length pkt < 2 ^ 16
    → 40 ≤ iph_len
    → iph_len ≤ length pkt
    → Returns (write_ip_len pkt iph_len true) (IsMeasured pkt iph_len true)
unfolding write_ip_len
measured6 pkt iph_len hb hl h40 h =
    let n = sub_u16 (length pkt % 2 ^ 16) iph_len in
    rw (write_u16-ok pkt 4 n (omega arith)) (record {
      same_length = length-overwrite pkt 4 (be16 n);
      bytes = All-overwrite IsByte pkt 4 (be16 n) hb (IsBytes-be16 n);
      ipv4_len = λ e. cc;
      ipv4_sum = λ e. cc;
      ipv6_len = λ e. get16-overwrite pkt 4 (n / 256 % 256) (n % 256) (omega arith) ∙ omega arith;
      behind = drop-overwrite 12 pkt 4 (be16 n) (omega arith);
    })

-- For a merged packet of bytes that is shorter than 2^16 and longer than its IP header, the lengths
-- are written without a panic: the IPv4 total length is the packet's and the header checksum
-- verifies; the IPv6 payload length is what follows the header; nothing changes from byte 12 on.
pub write_ip_len-IsMeasured :
    (pkt : List ℕ) (iph_len : ℕ) (is_v6 : Bool)
    → IsBytes pkt
    → length pkt < 2 ^ 16
    → (if is_v6 then 40 else 20) ≤ iph_len
    → iph_len ≤ length pkt
    → Returns (write_ip_len pkt iph_len is_v6) (IsMeasured pkt iph_len is_v6)
write_ip_len-IsMeasured pkt iph_len true hb hl hi h = measured6 pkt iph_len hb hl hi h
write_ip_len-IsMeasured pkt iph_len false hb hl hi h = measured4 pkt iph_len hb hl hi h
