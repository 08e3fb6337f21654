-- ===== src/Gro/Coalesce.antt =====
-- Merging a packet into the buffer of an item of its flow.
pub mod Append
pub mod AppendTcp
use quincy_tun.Base.{
  ℕ, ◌+◌, ◌*◌, ◌%◌, ◌^◌, List, [], ◌∷◌, Bool, true, false, not, ltb, ◌==◌, if◌then◌else◌, bit_or,
}
use quincy_tun.Base.{Outcome, ok, ◌>>=◌, length, slice, slice_from, byte_at, write_at, set}
use quincy_tun.Offload.{udp_h_len, ipproto_tcp, ipproto_udp, tcp_flags_offset, tcp_flag_psh}
use quincy_tun.Gro.{
  Buf, buf_at, swap, sub_usize, buf_extend_from_slice, buf_resize, TcpGroItem, UdpGroItem,
}
use quincy_tun.Gro.Compare.{CanCoalesce, prepend, pkt_of, checksum_valid}

pub data CoalesceResult : Type 0 where
  insufficient_cap psh_ending item_invalid_csum pkt_invalid_csum success : CoalesceResult

-- What a merge hands back: its result, the item and the buffers.
abbrev pub Merge : Type 0 → Type 0
Merge I = Outcome (CoalesceResult × I × List Buf)

-- The checksum of an item is checked before its first merge.
abbrev first_sum_bad : ℕ → Bool → ℕ → ℕ → Bool → List ℕ → Outcome Bool
first_sum_bad num_merged known_invalid iph_len proto is_v6 item_pkt =
    if num_merged == 0
    then (if known_invalid
        then ok true
        else (checksum_valid item_pkt iph_len proto is_v6 >>= λ valid. ok (not valid)))
    else ok false

unfoldable pub coalesce_udp_packets : List ℕ → UdpGroItem → List Buf → ℕ → Bool → Merge UdpGroItem
coalesce_udp_packets pkt item bufs bufs_offset is_v6 = do
  buf ← buf_at bufs item.bufs_index
  item_pkt ← slice_from bufs_offset buf.bytes
  let headers_len = item.iph_len + udp_h_len
  let coalesced_len = sub_usize (length item_pkt + length pkt) headers_len
  if ltb buf.capacity (bufs_offset * 2 + coalesced_len)
      then ok (insufficient_cap, item, bufs)
      else (do
        bad ←
            first_sum_bad item.num_merged item.c_sum_known_invalid item.iph_len ipproto_udp is_v6
              item_pkt
        if bad then ok (item_invalid_csum, item, bufs) else (do
          valid ← checksum_valid pkt item.iph_len ipproto_udp is_v6
          if not valid then ok (pkt_invalid_csum, item, bufs) else (do
            payload ← slice_from headers_len pkt
            ok (
              success,
              record item { num_merged = (item.num_merged + 1) % 2 ^ 16 },
              set bufs item.bufs_index (buf_extend_from_slice buf payload),
            ))))

-- `if gso_size > item.gso_size { item.gso_size = gso_size; } item.num_merged += 1;`
abbrev merged : ℕ → TcpGroItem → TcpGroItem
merged gso_size item = record item {
  gso_size = if ltb item.gso_size gso_size then gso_size else item.gso_size;
  num_merged = (item.num_merged + 1) % 2 ^ 16;
}

-- The item's payload goes behind the packet, and the two buffers change places.
unfoldable pub prepend_tcp :
    List ℕ → ℕ → ℕ → ℕ → Bool → TcpGroItem → List Buf → ℕ → Bool → ℕ → ℕ → Merge TcpGroItem
prepend_tcp pkt pkt_bufs_index gso_size seq psh_set item bufs bufs_offset is_v6 headers_len
      coalesced_len =
    do
      own ← buf_at bufs pkt_bufs_index
      if ltb own.capacity (2 * bufs_offset + coalesced_len)
          then ok (insufficient_cap, item, bufs)
          else if psh_set
          then ok (psh_ending, item, bufs)
          else (do
            item_pkt ← pkt_of bufs item.bufs_index bufs_offset
            bad ← first_sum_bad item.num_merged false item.iph_len ipproto_tcp is_v6 item_pkt
            if bad then ok (item_invalid_csum, item, bufs) else (do
              valid ← checksum_valid pkt item.iph_len ipproto_tcp is_v6
              if not valid then ok (pkt_invalid_csum, item, bufs) else (do
                let extend_by = sub_usize coalesced_len (length pkt)
                let grown = buf_resize own (length own.bytes + extend_by) 0
                item_buf ← buf_at bufs item.bufs_index
                src ←
                    slice (bufs_offset + headers_len) (bufs_offset + headers_len + extend_by)
                      item_buf.bytes
                filled ← write_at grown.bytes (bufs_offset + length pkt) src
                bufs' ←
                    swap (set bufs pkt_bufs_index (record grown { bytes = filled })) item.bufs_index
                      pkt_bufs_index
                ok (success, merged gso_size (record item { sent_seq = seq }), bufs'))))

-- PSH of the packet is kept in the flags of the item's header.
mark_psh : Bool → ℕ → TcpGroItem → List ℕ → Outcome (List ℕ)
mark_psh psh_set bufs_offset item bytes =
    if psh_set
    then (do
      flags ← byte_at bytes (bufs_offset + item.iph_len + tcp_flags_offset)
      write_at bytes (bufs_offset + item.iph_len + tcp_flags_offset)
          (bit_or flags tcp_flag_psh ∷ []))
    else ok bytes

-- The packet's payload goes behind the item.
unfoldable pub append_tcp :
    List ℕ → ℕ → Bool → TcpGroItem → List Buf → ℕ → Bool → ℕ → ℕ → Merge TcpGroItem
unfolding mark_psh
append_tcp pkt gso_size psh_set item bufs bufs_offset is_v6 headers_len coalesced_len = do
  buf ← buf_at bufs item.bufs_index
  if ltb buf.capacity (2 * bufs_offset + coalesced_len)
      then ok (insufficient_cap, item, bufs)
      else (do
        item_pkt ← slice_from bufs_offset buf.bytes
        bad ← first_sum_bad item.num_merged false item.iph_len ipproto_tcp is_v6 item_pkt
        if bad then ok (item_invalid_csum, item, bufs) else (do
          valid ← checksum_valid pkt item.iph_len ipproto_tcp is_v6
          if not valid then ok (pkt_invalid_csum, item, bufs) else (do
            marked ← mark_psh psh_set bufs_offset item buf.bytes
            payload ← slice_from headers_len pkt
            ok (
              success,
              merged gso_size (record item { psh_set = if psh_set then psh_set else item.psh_set }),
              set bufs item.bufs_index
                  (buf_extend_from_slice (record buf { bytes = marked }) payload),
            ))))

-- The headers' length is a sum of two `u8`.
unfoldable pub coalesce_tcp_packets :
    CanCoalesce → List ℕ → ℕ → ℕ → ℕ → Bool → TcpGroItem → List Buf → ℕ → Bool → Merge TcpGroItem
coalesce_tcp_packets mode pkt pkt_bufs_index gso_size seq psh_set item bufs bufs_offset is_v6 = do
  let headers_len = (item.iph_len + item.tcph_len) % 2 ^ 8
  item_pkt ← pkt_of bufs item.bufs_index bufs_offset
  let coalesced_len = sub_usize (length item_pkt + length pkt) headers_len
  elim mode [
    | prepend ↦
        prepend_tcp pkt pkt_bufs_index gso_size seq psh_set item bufs bufs_offset is_v6 headers_len
          coalesced_len
    | _ ↦ append_tcp pkt gso_size psh_set item bufs bufs_offset is_v6 headers_len coalesced_len
  ]
