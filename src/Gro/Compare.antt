-- ===== src/Gro/Compare.antt =====
-- Whether two packets may be merged, and whether a packet's transport checksum is right.
use quincy_tun.Base.{
  ℕ, ◌+◌, ◌-◌, ◌*◌, ◌/◌, ◌%◌, ◌^◌, List, Bool, true, false, not, ◌&&◌, ◌||◌, ltb, ◌==◌,
  if◌then◌else◌,
}
use quincy_tun.Base.{Outcome, ok, panic, ◌>>=◌, length, get_or, slice, slice_from}
use quincy_tun.Checksum.{checksum, not_u16, pseudo_header_checksum_no_fold}
use quincy_tun.Offload.{ipv4_src_addr_offset, ipv6_src_addr_offset, udp_h_len}
use quincy_tun.Gro.{Buf, buf_at, list_eq, TcpGroItem, UdpGroItem}

pub data CanCoalesce : Type 0 where
  prepend unavailable append : CanCoalesce

-- The length check keeps every index below the lengths.
unfoldable pub ip_headers_can_coalesce : List ℕ → List ℕ → Bool
ip_headers_can_coalesce pkt_a pkt_b =
    if ltb (length pkt_a) 9 || ltb (length pkt_b) 9
    then false
    else if get_or pkt_a 0 0 / 16 == 6
    then (if not (get_or pkt_a 0 0 == get_or pkt_b 0 0)
          || not (get_or pkt_a 1 0 / 16 == get_or pkt_b 1 0 / 16)
        then false
        else if not (get_or pkt_a 7 0 == get_or pkt_b 7 0)
        then false
        else true)
    else if not (get_or pkt_a 1 0 == get_or pkt_b 1 0)
    then false
    else if not (get_or pkt_a 6 0 / 32 == get_or pkt_b 6 0 / 32)
    then false
    else if not (get_or pkt_a 8 0 == get_or pkt_b 8 0)
    then false
    else true

-- `a % b`, which panics at 0
unfoldable pub rem : ℕ → ℕ → Outcome ℕ
rem a b = if b == 0 then panic else ok (a % b)

-- The bytes of the item's buffer from the offset on.
unfoldable pub pkt_of : List Buf → ℕ → ℕ → Outcome (List ℕ)
unfolding buf_at
pkt_of bufs index bufs_offset = buf_at bufs index >>= λ b. slice_from bufs_offset b.bytes

unfoldable pub udp_packets_can_coalesce :
    List ℕ → ℕ → ℕ → UdpGroItem → List Buf → ℕ → Outcome CanCoalesce
udp_packets_can_coalesce pkt iph_len gso_size item bufs bufs_offset = do
  pkt_target ← pkt_of bufs item.bufs_index bufs_offset
  if not (ip_headers_can_coalesce pkt pkt_target) then ok unavailable else (do
    payload ← slice_from (iph_len + udp_h_len) pkt_target
    tail ← rem (length payload) item.gso_size
    if not (tail == 0)
        then ok unavailable
        else if ltb item.gso_size gso_size
        then ok unavailable
        else ok append)

-- Unequal TCP options
options_differ : List ℕ → ℕ → ℕ → TcpGroItem → List ℕ → Outcome Bool
options_differ pkt iph_len tcph_len item pkt_target =
    if ltb 20 tcph_len
    then (do
      a ← slice (iph_len + 20) (iph_len + tcph_len) pkt
      b ← slice (item.iph_len + 20) (item.iph_len + tcph_len) pkt_target
      ok (not (list_eq a b)))
    else ok false

-- The packet follows the item: `lhs_len` bytes of payload behind its first sequence number.
append_case : List ℕ → ℕ → ℕ → ℕ → TcpGroItem → Outcome CanCoalesce
append_case pkt_target iph_len tcph_len gso_size item = if item.psh_set then ok unavailable else (do
  payload ← slice_from (iph_len + tcph_len) pkt_target
  tail ← rem (length payload) item.gso_size
  if not (tail == 0)
      then ok unavailable
      else if ltb item.gso_size gso_size
      then ok unavailable
      else ok append)

-- The packet stands in front of the item.
prepend_case : Bool → ℕ → TcpGroItem → CanCoalesce
prepend_case psh_set gso_size item =
    if psh_set
    then unavailable
    else if ltb gso_size item.gso_size
    then unavailable
    else if ltb item.gso_size gso_size && ltb 0 item.num_merged
    then unavailable
    else prepend

abbrev pub lhs_len : TcpGroItem → ℕ
lhs_len item = item.gso_size + item.num_merged * item.gso_size

unfoldable pub tcp_packets_can_coalesce :
    List ℕ → ℕ → ℕ → ℕ → Bool → ℕ → TcpGroItem → List Buf → ℕ → Outcome CanCoalesce
unfolding options_differ append_case prepend_case
tcp_packets_can_coalesce pkt iph_len tcph_len seq psh_set gso_size item bufs bufs_offset = do
  pkt_target ← pkt_of bufs item.bufs_index bufs_offset
  if not (tcph_len == item.tcph_len) then ok unavailable else (do
    differ ← options_differ pkt iph_len tcph_len item pkt_target
    if differ
        then ok unavailable
        else if not (ip_headers_can_coalesce pkt pkt_target)
        then ok unavailable
        else if seq == (item.sent_seq + lhs_len item % 2 ^ 32) % 2 ^ 32
        then append_case pkt_target iph_len tcph_len gso_size item
        else if (seq + gso_size) % 2 ^ 32 == item.sent_seq
        then ok (prepend_case psh_set gso_size item)
        else ok unavailable)

-- `saturating_sub` is the subtraction of ℕ.
unfoldable pub checksum_valid : List ℕ → ℕ → ℕ → Bool → Outcome Bool
checksum_valid pkt iph_len proto is_v6 = do
  let src_addr_at = if is_v6 then ipv6_src_addr_offset else ipv4_src_addr_offset
  let addr_size = if is_v6 then 16 else 4
  let len_for_pseudo = length pkt % 2 ^ 16 - iph_len
  src ← slice src_addr_at (src_addr_at + addr_size) pkt
  dst ← slice (src_addr_at + addr_size) (src_addr_at + addr_size * 2) pkt
  region ← slice_from iph_len pkt
  ok (not_u16 (checksum region (pseudo_header_checksum_no_fold proto src dst len_for_pseudo)) == 0)
