-- ===== src/Offload/Split.antt =====
-- `gso_split` of src/platform/linux/offload.rs: one GSO packet cut into packets of at most
-- `gso_size` payload bytes. A buffer is the list of its bytes; on an error only the error is kept.
pub mod Writes
pub mod Head
pub mod Start
pub mod Segment
pub mod Loop
pub mod Guards
pub mod Whole
use quincy_tun.Base.{
  ℕ, zero, suc, ◌+◌, ◌-◌, ◌*◌, ◌/◌, ◌%◌, ◌^◌, ◌≡◌, List, [], ◌∷◌, ◌++◌, Bool, true, false, not,
  ◌&&◌, ◌||◌, ltb, leb, ◌==◌, if◌then◌else◌, bit_and,
}
use quincy_tun.Base.{
  Outcome, ok, err, panic, ◌>>=◌, ◌>>◌, guard, invalid_input, length, get_or, get32, byte_at, slice,
  slice_from, read_u16, read_u32, write_u16, write_u32, write_at, clear_u16, take, drop,
}
use quincy_tun.Checksum.{checksum, not_u16, pseudo_header_checksum_no_fold}
use quincy_tun.Offload.{
  VirtioNetHdr, virtio_net_hdr_gso_tcpv4, virtio_net_hdr_gso_tcpv6, tcp_flags_offset, tcp_flag_fin,
  tcp_flag_psh, udp_h_len, ipv4_src_addr_offset, ipv6_src_addr_offset, ipproto_tcp, ipproto_udp,
}

-- What the loop of `gso_split` reads and does not change.
pub record Frame : Type 0 where
  pub input : List ℕ
  pub hdr : VirtioNetHdr
  pub out_offset : ℕ
  pub is_v6 : Bool
  pub src : List ℕ
  pub dst : List ℕ
  pub protocol : ℕ
  pub first_tcp_seq_num : ℕ

abbrev pub is_tcp_gso : VirtioNetHdr → Bool
is_tcp_gso hdr =
    hdr.gso_type == virtio_net_hdr_gso_tcpv4 || hdr.gso_type == virtio_net_hdr_gso_tcpv6

module _ (f : Frame) where
  open f use {input, hdr, out_offset, is_v6, src, dst, protocol, first_tcp_seq_num}

  abbrev pub transport_csum_at : ℕ
  transport_csum_at = hdr.csum_start + hdr.csum_offset

  -- The payload of the segment that begins at `at`: the last one may be short.
  abbrev pub segment_data_len : ℕ → ℕ
  segment_data_len at =
      if ltb (length input) (at + hdr.gso_size) then length input - at else hdr.gso_size

  abbrev pub total_len : ℕ → ℕ
  total_len at = hdr.hdr_len + segment_data_len at

  abbrev pub transport_csum_no_fold : ℕ → ℕ
  transport_csum_no_fold at =
      pseudo_header_checksum_no_fold protocol src dst
        ((hdr.hdr_len - hdr.csum_start + segment_data_len at) % 2 ^ 16)

  -- IPv4: the identification, the total length and the header checksum.
  pub write_ipv4 : ℕ → ℕ → List ℕ → Outcome (List ℕ)
  write_ipv4 i total out = do
    out1 ←
        if ltb 0 i
        then (do id ← read_u16 out 4; write_u16 out 4 ((id + i % 2 ^ 16) % 2 ^ 16))
        else ok out
    out2 ← write_u16 out1 2 (total % 2 ^ 16)
    iph ← slice 0 hdr.csum_start out2
    write_u16 out2 10 (not_u16 (checksum iph 0))

  -- IPv6: the payload length.
  pub write_ipv6 : ℕ → List ℕ → Outcome (List ℕ)
  write_ipv6 total out = write_u16 out 4 ((total - 40) % 2 ^ 16)

  -- TCP: the sequence number; FIN and PSH stay on the last segment only.
  pub write_tcp : ℕ → ℕ → List ℕ → Outcome (List ℕ)
  write_tcp at i out = do
    let tcp_seq = (first_tcp_seq_num + hdr.gso_size * i % 2 ^ 32) % 2 ^ 32
    out1 ← write_u32 out ((hdr.csum_start + 4) % 2 ^ 16) tcp_seq
    if not (at + segment_data_len at == length input)
        then (do
          flags ← byte_at out1 (hdr.csum_start + tcp_flags_offset)
          write_at out1 (hdr.csum_start + tcp_flags_offset) (bit_and flags 0xF6 ∷ []))
        else ok out1

  -- UDP: the length.
  pub write_udp : ℕ → List ℕ → Outcome (List ℕ)
  write_udp at out =
      write_u16 out ((hdr.csum_start + 4) % 2 ^ 16)
        ((segment_data_len at + (hdr.hdr_len - hdr.csum_start)) % 2 ^ 16)

  -- One round of the loop, on `out_bufs[i][out_offset..]`.
  pub write_segment : ℕ → ℕ → List ℕ → Outcome (List ℕ)
  write_segment at i out0 = do
    iph ← slice 0 hdr.csum_start input
    out1 ← write_at out0 0 iph
    out2 ← if not is_v6 then write_ipv4 i (total_len at) out1 else write_ipv6 (total_len at) out1
    transport ← slice hdr.csum_start hdr.hdr_len input
    out3 ← write_at out2 hdr.csum_start transport
    out4 ← if protocol == ipproto_tcp then write_tcp at i out3 else write_udp at out3
    payload ← slice at (at + segment_data_len at) input
    out5 ← write_at out4 hdr.hdr_len payload
    region ← slice hdr.csum_start (total_len at) out5
    write_u16 out5 transport_csum_at (not_u16 (checksum region (transport_csum_no_fold at)))

  -- The buffer behind `out_offset` is written; what stands before it is not touched.
  pub fill_buf : ℕ → ℕ → List ℕ → Outcome (List ℕ)
  fill_buf at i buf = do
    guard (not (ltb (length buf) out_offset || ltb (length buf - out_offset) (total_len at)))
        invalid_input
    out ← write_segment at i (drop out_offset buf)
    ok (take out_offset buf ++ out)

  -- The `while` loop from round `i` on, over the output buffers and sizes that are left.
  pub split_loop : ℕ → ℕ → List (List ℕ) → List ℕ → Outcome (ℕ × List (List ℕ) × List ℕ)
  split_loop at i [] sizes = if ltb at (length input) then err invalid_input else ok (i, [], sizes)
  split_loop at i (buf ∷ bufs) [] = if ltb at (length input) then panic else ok (i, buf ∷ bufs, [])
  split_loop at i (buf ∷ bufs) (size ∷ sizes) =
      let round : Outcome (ℕ × List (List ℕ) × List ℕ) = fill_buf at i buf >>= λ filled.
      split_loop (at + hdr.gso_size) (i + 1) bufs sizes >>= λ rest.
      ok (rest.0, filled ∷ rest.1, total_len at ∷ rest.2) in
      if ltb at (length input) then round else ok (i, buf ∷ bufs, size ∷ sizes)

pub record Split : Type 0 where
  pub count : ℕ
  pub input : List ℕ
  pub out_bufs : List (List ℕ)
  pub sizes : List ℕ

-- The sequence number of the first byte and the protocol, if the transport header has room.
unfoldable pub transport : VirtioNetHdr → List ℕ → Outcome (ℕ × ℕ)
transport hdr input =
    if is_tcp_gso hdr
    then (do
      guard
          (not (
            ltb hdr.hdr_len (hdr.csum_start + 20)
            || ltb (length input) (hdr.csum_start + tcp_flags_offset + 1)))
          invalid_input
      seq ← read_u32 input (hdr.csum_start + 4)
      ok (seq, ipproto_tcp))
    else (do
      guard (not (ltb hdr.hdr_len (hdr.csum_start + udp_h_len))) invalid_input
      ok (0, ipproto_udp))

-- The IPv4 header checksum is cleared, after the check that the IP header is there.
unfoldable pub clear_ip : Bool → List ℕ → Outcome (List ℕ)
clear_ip is_v6 input =
    if is_v6
    then (do guard (not (ltb (length input) 40)) invalid_input; ok input)
    else (do guard (not (ltb (length input) 20)) invalid_input; clear_u16 input 10)

abbrev pub src_addr_offset : Bool → ℕ
src_addr_offset is_v6 = if is_v6 then ipv6_src_addr_offset else ipv4_src_addr_offset

abbrev pub addr_len : Bool → ℕ
addr_len is_v6 = if is_v6 then 16 else 4

pub gso_split : List ℕ → VirtioNetHdr → List (List ℕ) → List ℕ → ℕ → Bool → Outcome Split
gso_split input hdr out_bufs sizes out_offset is_v6 = do
  guard (not (ltb (length sizes) (length out_bufs))) invalid_input
  guard (leb (length out_bufs) 0xFFFF) invalid_input
  guard (not (hdr.gso_size == 0)) invalid_input
  guard (not (ltb hdr.hdr_len hdr.csum_start)) invalid_input
  guard (not (ltb hdr.csum_start (if is_v6 then 40 else 20))) invalid_input
  guard (not (ltb (length input) hdr.hdr_len)) invalid_input
  cleared ← clear_ip is_v6 input
  guard (ltb (hdr.csum_start + hdr.csum_offset + 1) (length cleared)) invalid_input
  packet ← clear_u16 cleared (hdr.csum_start + hdr.csum_offset)
  seq_protocol ← transport hdr packet
  let src_at = src_addr_offset is_v6
  let len = addr_len is_v6
  guard (leb (src_at + 2 * len) (length packet)) invalid_input
  src ← slice src_at (src_at + len) packet
  dst ← slice (src_at + len) (src_at + 2 * len) packet
  let frame : Frame = record {
    input = packet;
    hdr = hdr;
    out_offset = out_offset;
    is_v6 = is_v6;
    src = src;
    dst = dst;
    protocol = seq_protocol.1;
    first_tcp_seq_num = seq_protocol.0;
  }
  done ← split_loop frame hdr.hdr_len 0 out_bufs sizes
  ok (record { count = done.0; input = packet; out_bufs = done.1; sizes = done.2 })
