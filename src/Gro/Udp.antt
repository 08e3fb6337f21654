-- ===== src/Gro/Udp.antt =====
-- `udp_gro`: one UDP packet against the last item of its flow.
use quincy_tun.Base.{
  ℕ, ◌+◌, ◌-◌, ◌*◌, ◌%◌, ◌^◌, List, Bool, true, false, not, ◌||◌, ltb, if◌then◌else◌, Option, none,
  some,
}
use quincy_tun.Base.{Outcome, ok, panic, ◌>>=◌, length, get_elem?, set, slice_from, byte_at}
use quincy_tun.Offload.{udp_h_len}
use quincy_tun.Gro.{Buf, buf_at, UdpGroTable, udp_insert, udp_lookup_or_insert, update, udp_key_eq}
use quincy_tun.Gro.Compare.{append, udp_packets_can_coalesce}
use quincy_tun.Gro.Coalesce.{pkt_invalid_csum, success, coalesce_udp_packets}
use quincy_tun.Gro.Tcp.{
  GroResult, noop, table_insert, coalesced, src_addr_at, dst_addr_at, ip_len_matches, is_fragment,
}

pub record UdpPacket : Type 0 where
  pub pkt : List ℕ
  pub pkt_i : ℕ
  pub iph_len : ℕ
  pub gso_size : ℕ

-- The checks of `udp_gro`: `none` where the packet is left as it is.
unfoldable pub udp_candidate : List ℕ → ℕ → Bool → Outcome (Option UdpPacket)
unfolding ip_len_matches is_fragment
udp_candidate pkt pkt_i is_v6 = if ltb 0xFFFF (length pkt) then ok none else (do
  first ← byte_at pkt 0
  matches ← ip_len_matches pkt is_v6
  let iph_len = if is_v6 then 40 else first % 16 * 4
  if not matches || (ltb (length pkt) iph_len || ltb (length pkt) (iph_len + udp_h_len))
      then ok none
      else (do
        fragment ← is_fragment pkt is_v6
        let gso_size = (length pkt - udp_h_len - iph_len) % 2 ^ 16
        if fragment || ltb gso_size 1
            then ok none
            else ok (
                some
                  (record { pkt = pkt; pkt_i = pkt_i; iph_len = iph_len; gso_size = gso_size }))))

-- The packet becomes an item of its own.
udp_store : UdpPacket → ℕ → Bool → Bool → List Buf → UdpGroTable → Outcome UdpGroTable
udp_store p offset is_v6 known_invalid bufs table = do
  buf ← buf_at bufs p.pkt_i
  pkt ← slice_from offset buf.bytes
  udp_insert table pkt (src_addr_at is_v6) (dst_addr_at is_v6) p.iph_len p.pkt_i known_invalid

-- A candidate against the last item of its flow; earlier items are not looked at, so that no packet
-- of a flow is reordered.
unfoldable pub udp_merge :
    UdpPacket → ℕ → Bool → List Buf → UdpGroTable → Outcome (GroResult × List Buf × UdpGroTable)
unfolding update udp_store
udp_merge p offset is_v6 bufs table = do
  found ← udp_lookup_or_insert table p.pkt (src_addr_at is_v6) (dst_addr_at is_v6) p.iph_len p.pkt_i
  elim found.2 [
    | none ↦ ok (table_insert, bufs, found.1)
    | some items ↦ elim (get_elem? items (length items - 1)) [
      | none ↦ panic
      | some item ↦
          let kept : List Buf → Bool → Outcome (GroResult × List Buf × UdpGroTable) =
            λ bufs' known_invalid. udp_store p offset is_v6 known_invalid bufs' table >>= λ table'.
            ok (table_insert, bufs', table') in
          udp_packets_can_coalesce p.pkt (p.iph_len % 2 ^ 8) p.gso_size item bufs offset >>= λ can.
          elim can [
            | append ↦ coalesce_udp_packets p.pkt item bufs offset is_v6 >>= λ m. elim m.0 [
              | success ↦ ok (
                coalesced,
                m.2,
                record table {
                  items_by_flow =
                      update udp_key_eq found.0 (set items (length items - 1) m.1)
                        table.items_by_flow;
                },
              )
              | pkt_invalid_csum ↦ kept m.2 true
              | _ ↦ kept m.2 false
            ]
            | _ ↦ kept bufs false
          ]
    ]
  ]

unfoldable pub udp_gro :
    List Buf → ℕ → ℕ → UdpGroTable → Bool → Outcome (GroResult × List Buf × UdpGroTable)
udp_gro bufs offset pkt_i table is_v6 = do
  buf ← buf_at bufs pkt_i
  pkt ← slice_from offset buf.bytes
  candidate ← udp_candidate pkt pkt_i is_v6
  elim candidate [ none ↦ ok (noop, bufs, table) | some p ↦ udp_merge p offset is_v6 bufs table ]
