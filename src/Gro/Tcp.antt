-- ===== src/Gro/Tcp.antt =====
-- `tcp_gro`: one TCP packet against the items of its flow.
use quincy_tun.Base.{
  ℕ, zero, suc, ◌+◌, ◌-◌, ◌*◌, ◌/◌, ◌%◌, ◌^◌, List, [], ◌∷◌, Bool, false, not, ◌&&◌, ◌||◌, ltb, leb,
  ◌==◌, if◌then◌else◌, Option, none, some,
}
use quincy_tun.Base.{
  Outcome, ok, panic, ◌>>=◌, length, get_elem?, set, replicate, slice, slice_from, byte_at,
  read_u16, read_u32, write_at,
}
use quincy_tun.Offload.{
  virtio_net_hdr_len, ipv4_src_addr_offset, ipv6_src_addr_offset, tcp_flags_offset, tcp_flag_ack,
}
use quincy_tun.Gro.{
  Buf, buf_at, sub_usize, TcpGroItem, TcpGroTable, tcp_insert, tcp_lookup_or_insert, update,
  tcp_key_eq,
}
use quincy_tun.Gro.Compare.{unavailable, tcp_packets_can_coalesce}
use quincy_tun.Gro.Coalesce.{
  insufficient_cap, psh_ending, item_invalid_csum, pkt_invalid_csum, success, coalesce_tcp_packets,
}

pub data GroResult : Type 0 where
  noop table_insert coalesced : GroResult

-- `items.remove(i)`
abbrev pub remove {ℓ} : {A : Type ℓ} → ℕ → List A → List A
remove i [] = []
remove zero (x ∷ xs) = xs
remove (suc i) (x ∷ xs) = x ∷ remove i xs

-- The virtio header in front of a packet: `[offset - VIRTIO_NET_HDR_LEN..offset].fill(0)`.
unfoldable pub zero_hdr : List Buf → ℕ → ℕ → Outcome (List Buf)
zero_hdr bufs index offset = do
  buf ← buf_at bufs index
  window ← slice (sub_usize offset virtio_net_hdr_len) offset buf.bytes
  bytes ← write_at buf.bytes (sub_usize offset virtio_net_hdr_len) (replicate (length window) 0)
  ok (set bufs index (record buf { bytes = bytes }))

-- The packet under evaluation.
pub record TcpPacket : Type 0 where
  pub pkt : List ℕ
  pub pkt_i : ℕ
  pub iph_len : ℕ
  pub tcph_len : ℕ
  pub seq : ℕ
  pub psh_set : Bool
  pub gso_size : ℕ

-- How the loop over the items ends: merged, given up, or no item took the packet.
pub data TcpEnd : Type 0 where
  merged dropped unmatched : TcpEnd

module _ (p : TcpPacket) (offset : ℕ) (is_v6 : Bool) where
  -- `for i in (0..items.len()).rev()`, with the rounds that are left.
  pub tcp_items : ℕ → List TcpGroItem → List Buf → Outcome (TcpEnd × List TcpGroItem × List Buf)
  tcp_items zero items bufs = ok (unmatched, items, bufs)
  tcp_items (suc i) items bufs = elim (get_elem? items i) [
    | none ↦ panic
    | some item ↦
        tcp_packets_can_coalesce p.pkt (p.iph_len % 2 ^ 8) (p.tcph_len % 2 ^ 8) p.seq p.psh_set
          p.gso_size item bufs offset
        >>= λ can. elim can [
          | unavailable ↦ tcp_items i items bufs
          | mode ↦
              coalesce_tcp_packets mode p.pkt p.pkt_i p.gso_size p.seq p.psh_set item bufs offset
                is_v6
              >>= λ m. elim m.0 [
                | success ↦ ok (merged, set items i m.1, m.2)
                | item_invalid_csum ↦ zero_hdr m.2 item.bufs_index offset >>= λ bufs'.
                    tcp_items i (remove i items) bufs'
                | pkt_invalid_csum ↦ ok (dropped, items, m.2)
                | insufficient_cap ↦ tcp_items i items m.2
                | psh_ending ↦ tcp_items i items m.2
              ]
        ]
  ]

abbrev pub src_addr_at : Bool → ℕ
src_addr_at is_v6 = if is_v6 then ipv6_src_addr_offset else ipv4_src_addr_offset

abbrev pub dst_addr_at : Bool → ℕ
dst_addr_at is_v6 = src_addr_at is_v6 + (if is_v6 then 16 else 4)

-- The length that the IP header states is the packet's.
unfoldable pub ip_len_matches : List ℕ → Bool → Outcome Bool
ip_len_matches pkt is_v6 =
    if is_v6
    then (read_u16 pkt 4 >>= λ payload_len. ok (payload_len == sub_usize (length pkt) 40))
    else (read_u16 pkt 2 >>= λ total_len. ok (total_len == length pkt))

-- MF, the fragment offset and the bits about them: no fragment is merged.
unfoldable pub is_fragment : List ℕ → Bool → Outcome Bool
is_fragment pkt is_v6 = if is_v6 then ok false else (do
  flags ← byte_at pkt 6
  low ← byte_at pkt 7
  ok (not (flags / 32 % 2 == 0) || (not (flags * 8 % 2 ^ 8 == 0) || not (low == 0))))

-- The checks of `tcp_gro`: `none` where the packet is left as it is.
unfoldable pub tcp_candidate : List ℕ → ℕ → Bool → Outcome (Option TcpPacket)
unfolding ip_len_matches is_fragment
tcp_candidate pkt pkt_i is_v6 = if ltb 0xFFFF (length pkt) then ok none else (do
  first ← byte_at pkt 0
  matches ← ip_len_matches pkt is_v6
  let iph_len = if is_v6 then 40 else first % 16 * 4
  if not matches || (ltb (length pkt) iph_len || ltb (length pkt) (iph_len + tcp_flags_offset + 1))
      then ok none
      else (do
        data_offset ← byte_at pkt (iph_len + 12)
        let tcph_len = data_offset / 16 * 4
        if not (leb 20 tcph_len && leb tcph_len 60) || ltb (length pkt) (iph_len + tcph_len)
            then ok none
            else (do
              fragment ← is_fragment pkt is_v6
              tcp_flags ← byte_at pkt (iph_len + tcp_flags_offset)
              seq ← read_u32 pkt (iph_len + 4)
              let gso_size = (length pkt - tcph_len - iph_len) % 2 ^ 16
              if fragment
                    || (not (tcp_flags == tcp_flag_ack) && not (tcp_flags == 0x18)
                        || ltb gso_size 1)
                  then ok none
                  else ok (
                      some (record {
                        pkt = pkt;
                        pkt_i = pkt_i;
                        iph_len = iph_len;
                        tcph_len = tcph_len;
                        seq = seq;
                        psh_set = not (tcp_flags == tcp_flag_ack);
                        gso_size = gso_size;
                      })))))

-- The packet becomes an item of its own.
tcp_store : TcpPacket → Bool → TcpGroTable → Outcome TcpGroTable
tcp_store p is_v6 table =
    tcp_insert table p.pkt (src_addr_at is_v6) (dst_addr_at is_v6) p.iph_len p.tcph_len p.pkt_i

-- A candidate against the table.
unfoldable pub tcp_merge :
    TcpPacket → ℕ → Bool → List Buf → TcpGroTable → Outcome (GroResult × List Buf × TcpGroTable)
unfolding tcp_items update tcp_store
tcp_merge p offset is_v6 bufs table = do
  found ←
      tcp_lookup_or_insert table p.pkt (src_addr_at is_v6) (dst_addr_at is_v6) p.iph_len p.tcph_len
        p.pkt_i
  elim found.2 [
    | none ↦ ok (table_insert, bufs, found.1)
    | some items ↦ tcp_items p offset is_v6 (length items) items bufs >>= λ loop.
        let kept : TcpGroTable = record table {
          items_by_flow = update tcp_key_eq found.0 loop.1 table.items_by_flow;
        } in
        elim loop.0 [
          | merged ↦ ok (coalesced, loop.2, kept)
          | dropped ↦ ok (noop, loop.2, kept)
          | unmatched ↦ tcp_store p is_v6 kept >>= λ table'. ok (table_insert, loop.2, table')
        ]
  ]

unfoldable pub tcp_gro :
    List Buf → ℕ → ℕ → TcpGroTable → Bool → Outcome (GroResult × List Buf × TcpGroTable)
tcp_gro bufs offset pkt_i table is_v6 = do
  buf ← buf_at bufs pkt_i
  pkt ← slice_from offset buf.bytes
  candidate ← tcp_candidate pkt pkt_i is_v6
  elim candidate [ none ↦ ok (noop, bufs, table) | some p ↦ tcp_merge p offset is_v6 bufs table ]
