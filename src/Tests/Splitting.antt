-- ===== src/Tests/Splitting.antt =====
-- `gso_split` and the virtio header on the example frame.
use quincy_tun.Base.{
  ◌+◌, ◌*◌, ◌≤◌, ◌<◌, ◌≡◌, refl, [], ◌∷◌, arith, ok, ◌>>=◌, Returns, Ends, drop, length, take,
  false, ◌⊎◌, ◌-◌, overwrite,
}
use quincy_tun.Checksum.{checksum}
use quincy_tun.Offload.{little, big, encode, decode, gso_none_checksum, virtio_net_hdr_len}
use quincy_tun.Offload.Header.{IsHdr, decode-encode, encode-decode}
use quincy_tun.Offload.Plain.{gso_none_checksum-verifies}
use quincy_tun.Offload.Split.{Frame, gso_split}
use quincy_tun.Offload.Split.Guards.{IsGso, frame_of, frame-IsFrame}
use quincy_tun.Offload.Split.Head.{IsFrame}
use quincy_tun.Offload.Split.Loop.{LacksRoom}
use quincy_tun.Offload.Split.Whole.{gso_split-IsSplit, gso_split-payloads, IsSplit, payloads}
use quincy_tun.Tests.Packets.{tcp_packet, tcp_gso, out_bufs, sizes}

tcp_packet-IsGso : IsGso tcp_packet tcp_gso false
tcp_packet-IsGso = omega arith

abbrev f : Frame
f = frame_of tcp_packet tcp_gso 1 false

abbrev w : IsFrame f
w = frame-IsFrame tcp_packet tcp_gso false tcp_packet-IsGso 1

gso_split-IsSplit_example :
    Ends
      (gso_split tcp_packet tcp_gso out_bufs sizes 1 false)
      (IsSplit tcp_packet tcp_gso false tcp_packet-IsGso out_bufs sizes 1
        (omega arith)
        (omega arith))
      (LacksRoom f w 40 out_bufs)
gso_split-IsSplit_example =
    gso_split-IsSplit tcp_packet tcp_gso false tcp_packet-IsGso out_bufs sizes 1 (omega arith)
      (omega arith) (omega arith)

gso_split-payloads_example : Returns (gso_split tcp_packet tcp_gso out_bufs sizes 1 false) (λ r.
    (payloads 1 40 r.count r.out_bufs r.sizes ≡ 1 ∷ 2 ∷ 3 ∷ 4 ∷ 5 ∷ [])
    × (45 ≤ 40 + 2 * r.count)
    × ((r.count ≡ 0) ⊎ (40 + 2 * (r.count - 1) < 45)))
unfolding overwrite tcp_packet-IsGso
gso_split-payloads_example =
    gso_split-payloads tcp_packet tcp_gso false tcp_packet-IsGso out_bufs sizes 1 (omega arith)
      (omega arith) (omega arith) (omega arith)

tcp_gso-IsHdr : IsHdr tcp_gso
tcp_gso-IsHdr = record {
  flags_byte = omega arith;
  gso_type_byte = omega arith;
  hdr_len_word = omega arith;
  gso_size_word = omega arith;
  csum_start_word = omega arith;
  csum_offset_word = omega arith;
}

decode-encode_example : Returns (encode little tcp_gso tcp_packet) (λ o.
    (decode little o ≡ ok tcp_gso)
    × (length o ≡ 45)
    × (drop virtio_net_hdr_len o ≡ drop virtio_net_hdr_len tcp_packet))
decode-encode_example = decode-encode little tcp_gso tcp_packet tcp_gso-IsHdr (omega arith)

encode-decode_example : (decode big tcp_packet >>= λ h. encode big h tcp_packet) ≡ ok tcp_packet
encode-decode_example = encode-decode big tcp_packet (omega arith) (omega arith)

gso_none_checksum-verifies_example : Returns (gso_none_checksum tcp_packet 20 16) (λ o.
    (checksum (drop 20 o) 0 ≡ 0xFFFF)
    × (length o ≡ 45)
    × (take 36 o ≡ take 36 tcp_packet)
    × (drop 38 o ≡ drop 38 tcp_packet))
gso_none_checksum-verifies_example =
    gso_none_checksum-verifies tcp_packet 20 16 (omega arith) (omega arith) refl (omega arith)
