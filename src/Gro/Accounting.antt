-- ===== src/Gro/Accounting.antt =====
-- `apply_tcp_coalesce_accounting` and `apply_udp_coalesce_accounting`: the virtio header in front of
-- each tracked packet, and the header fields of the merged ones.
pub mod Header
pub mod Virtio
pub mod Sums
pub mod Merged
use quincy_tun.Base.{
  ℕ, ◌+◌, ◌-◌, ◌%◌, ◌^◌, List, [], ◌∷◌, ◌++◌, Bool, true, false, ltb, if◌then◌else◌,
}
use quincy_tun.Base.{Outcome, ok, ◌>>=◌, length, set, take, slice, slice_from, write_u16, clear_u16}
use quincy_tun.Checksum.{checksum, not_u16, pseudo_header_checksum_no_fold}
use quincy_tun.Offload.{
  VirtioNetHdr, Endian, encode, default_hdr, virtio_net_hdr_len, virtio_net_hdr_f_needs_csum,
  virtio_net_hdr_gso_tcpv4, virtio_net_hdr_gso_tcpv6, virtio_net_hdr_gso_udp_l4, ipproto_tcp,
  ipproto_udp, udp_h_len,
}
use quincy_tun.Gro.{Buf, buf_at, sub_usize, TcpGroItem, UdpGroItem, TcpGroTable, UdpGroTable}
use quincy_tun.Gro.Tcp.{src_addr_at, dst_addr_at}

-- `u16` subtraction of a release build
abbrev pub sub_u16 : ℕ → ℕ → ℕ
sub_u16 a b = (a + 2 ^ 16 - b) % 2 ^ 16

-- The IP length, and the IPv4 header checksum over the header of `iph_len` bytes.
unfoldable pub write_ip_len : List ℕ → ℕ → Bool → Outcome (List ℕ)
write_ip_len pkt iph_len is_v6 =
    if is_v6 then write_u16 pkt 4 (sub_u16 (length pkt % 2 ^ 16) iph_len) else (do
      cleared ← clear_u16 pkt 10
      sized ← write_u16 cleared 2 (length pkt % 2 ^ 16)
      iph ← slice 0 iph_len sized
      write_u16 sized 10 (not_u16 (checksum iph 0)))

-- `hdr.encode(&mut buf[offset - VIRTIO_NET_HDR_LEN..])`
unfoldable pub put_hdr : Endian → VirtioNetHdr → ℕ → List ℕ → Outcome (List ℕ)
put_hdr e hdr offset buf = do
  let at = sub_usize offset virtio_net_hdr_len
  room ← slice_from at buf
  encoded ← encode e hdr room
  ok (take at buf ++ encoded)

-- The UDP length, and the folded pseudo-header sum at the transport checksum.
abbrev pub write_sums : Bool → ℕ → ℕ → ℕ → ℕ → List ℕ → Outcome (List ℕ)
write_sums udp iph_len transport_len csum_at psum pkt = do
  measured ← if udp then write_u16 pkt (iph_len + 4) transport_len else ok pkt
  write_u16 measured csum_at (checksum [] psum)

-- One merged packet: the pseudo-header sum goes where the kernel expects it.
unfoldable pub account : Endian → VirtioNetHdr → ℕ → ℕ → Bool → Bool → ℕ → List ℕ → Outcome (List ℕ)
account e hdr iph_len protocol is_v6 udp offset buf = do
  pkt ← slice_from offset buf
  src ← slice (src_addr_at is_v6) (dst_addr_at is_v6) pkt
  dst ← slice (dst_addr_at is_v6) (dst_addr_at is_v6 + (if is_v6 then 16 else 4)) pkt
  sized ← write_ip_len pkt iph_len is_v6
  buf' ← put_hdr e hdr offset (take offset buf ++ sized)
  pkt' ← slice_from offset buf'
  let transport_len = sub_u16 (length pkt % 2 ^ 16) iph_len
  let psum = pseudo_header_checksum_no_fold protocol src dst transport_len
  summed ←
      write_sums udp iph_len transport_len ((hdr.csum_start + hdr.csum_offset) % 2 ^ 16) psum pkt'
  ok (take offset buf' ++ summed)

abbrev pub tcp_hdr : TcpGroItem → VirtioNetHdr
tcp_hdr item = record {
  flags = virtio_net_hdr_f_needs_csum;
  gso_type = if item.key.is_v6 then virtio_net_hdr_gso_tcpv6 else virtio_net_hdr_gso_tcpv4;
  hdr_len = (item.iph_len + item.tcph_len) % 2 ^ 8;
  gso_size = item.gso_size;
  csum_start = item.iph_len;
  csum_offset = 16;
}

abbrev pub udp_hdr : UdpGroItem → VirtioNetHdr
udp_hdr item = record {
  flags = virtio_net_hdr_f_needs_csum;
  gso_type = virtio_net_hdr_gso_udp_l4;
  hdr_len = (item.iph_len + udp_h_len) % 2 ^ 16;
  gso_size = item.gso_size;
  csum_start = item.iph_len;
  csum_offset = 6;
}

-- A function of one buffer's bytes, on the buffer of an index.
abbrev on_buf : List Buf → ℕ → (List ℕ → Outcome (List ℕ)) → Outcome (List Buf)
on_buf bufs index change = buf_at bufs index >>= λ buf.
    change buf.bytes >>= λ bytes. ok (set bufs index (record buf { bytes = bytes }))

module _ (e : Endian) (offset : ℕ) where
  unfoldable pub account_tcp : TcpGroItem → List Buf → Outcome (List Buf)
  account_tcp item bufs =
      if ltb 0 item.num_merged
      then on_buf bufs item.bufs_index
          (account e (tcp_hdr item) item.iph_len ipproto_tcp item.key.is_v6 false offset)
      else on_buf bufs item.bufs_index (put_hdr e default_hdr offset)

  unfoldable pub account_udp : UdpGroItem → List Buf → Outcome (List Buf)
  account_udp item bufs =
      if ltb 0 item.num_merged
      then on_buf bufs item.bufs_index
          (account e (udp_hdr item) item.iph_len ipproto_udp item.key.is_v6 true offset)
      else on_buf bufs item.bufs_index (put_hdr e default_hdr offset)

  module _ {I : Type 0} (one : I → List Buf → Outcome (List Buf)) where
    pub account_items : List I → List Buf → Outcome (List Buf)
    account_items [] bufs = ok bufs
    account_items (item ∷ items) bufs = one item bufs >>= λ bufs'. account_items items bufs'

    pub account_flows : {K : Type 0} → List (K × List I) → List Buf → Outcome (List Buf)
    account_flows [] bufs = ok bufs
    account_flows ((k, items) ∷ flows) bufs =
        account_items items bufs >>= λ bufs'. account_flows flows bufs'

  unfoldable pub apply_tcp_coalesce_accounting : List Buf → TcpGroTable → Outcome (List Buf)
  unfolding account_tcp account_items account_flows
  apply_tcp_coalesce_accounting bufs table = account_flows account_tcp table.items_by_flow bufs

  unfoldable pub apply_udp_coalesce_accounting : List Buf → UdpGroTable → Outcome (List Buf)
  unfolding account_udp account_items account_flows
  apply_udp_coalesce_accounting bufs table = account_flows account_udp table.items_by_flow bufs
