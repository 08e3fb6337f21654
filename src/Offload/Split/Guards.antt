-- ===== src/Offload/Split/Guards.antt =====
-- The checks of `gso_split` before its loop, and the frame that they establish.
use quincy_tun.Base.{
  ℕ, ◌+◌, ◌*◌, ◌^◌, ◌≤◌, ◌<◌, ◌≡◌, refl, sym, ◌∙◌, arith, List, [], ◌∷◌, length, ok, ◌>>=◌, Bool,
  true, false, ◌==◌, if◌then◌else◌, Bool-cases, inl, inr, take, drop, IsBytes, IsByte, overwrite,
  get16, get32, clear_u16-ok, slice-add, read_u32-ok, ltb-false, ltb-true, leb-true, eq_zero-false,
}
use quincy_tun.Base.{
  All-overwrite, All-take, All-drop, length-overwrite, length-take, get16-overwrite,
  get16-overwrite_lt, drop-overwrite,
}
use quincy_tun.Offload.{VirtioNetHdr, ipproto_tcp, ipproto_udp}
use quincy_tun.Offload.Split.{
  Frame, split_loop, clear_ip, transport, is_tcp_gso, src_addr_offset, addr_len, gso_split,
}
use quincy_tun.Offload.Split.Head.{IsFrame}

abbrev zeros : List ℕ
zeros = 0 ∷ 0 ∷ []

-- The input with the checksum fields cleared.
abbrev cleared_ip : Bool → List ℕ → List ℕ
cleared_ip is_v6 input = if is_v6 then input else overwrite input 10 zeros

abbrev pub packet_of : List ℕ → VirtioNetHdr → Bool → List ℕ
packet_of input hdr is_v6 =
    overwrite (cleared_ip is_v6 input) (hdr.csum_start + hdr.csum_offset) zeros

abbrev pub protocol_of : VirtioNetHdr → ℕ
protocol_of hdr = if is_tcp_gso hdr then ipproto_tcp else ipproto_udp

-- The frame of the loop.
abbrev pub frame_of : List ℕ → VirtioNetHdr → ℕ → Bool → Frame
frame_of input hdr out_offset is_v6 = record {
  input = packet_of input hdr is_v6;
  hdr = hdr;
  out_offset = out_offset;
  is_v6 = is_v6;
  src = take (addr_len is_v6) (drop (src_addr_offset is_v6) (packet_of input hdr is_v6));
  dst =
      take (addr_len is_v6)
        (drop (src_addr_offset is_v6 + addr_len is_v6) (packet_of input hdr is_v6));
  protocol = protocol_of hdr;
  first_tcp_seq_num =
      if is_tcp_gso hdr then get32 (packet_of input hdr is_v6) (hdr.csum_start + 4) else 0;
}

-- A GSO packet as `handle_virtio_read` hands it over: whole headers, and the checksum field of the
-- transport protocol.
pub record IsGso (input : List ℕ) (hdr : VirtioNetHdr) (is_v6 : Bool) : Type 0 where
  pub bytes : IsBytes input
  pub small : length input < 2 ^ 16
  pub gso_pos : 0 < hdr.gso_size
  pub start_room : (if is_v6 then 40 else 20) ≤ hdr.csum_start
  pub transport_room : hdr.csum_start + (if is_tcp_gso hdr then 20 else 8) ≤ hdr.hdr_len
  pub hdr_room : hdr.hdr_len ≤ length input
  pub csum_field : hdr.csum_offset ≡ (if is_tcp_gso hdr then 16 else 6)

cleared_ip-length : (b : Bool) (input : List ℕ) → length (cleared_ip b input) ≡ length input
cleared_ip-length true input = refl
cleared_ip-length false input = length-overwrite input 10 zeros

cleared_ip-IsBytes : (b : Bool) (input : List ℕ) → IsBytes input → IsBytes (cleared_ip b input)
cleared_ip-IsBytes true input h = h
cleared_ip-IsBytes false input h = All-overwrite IsByte input 10 zeros h (omega arith)

clear_ip-ok :
    (b : Bool) (input : List ℕ)
    → (if b then 40 else 20) ≤ length input
    → clear_ip b input ≡ ok (cleared_ip b input)
unfolding clear_ip
clear_ip-ok true input h = rw (ltb-false (length input) 40 h)
clear_ip-ok false input h = rw (ltb-false (length input) 20 h, clear_u16-ok input 10 (omega arith))

module _ (input : List ℕ) (hdr : VirtioNetHdr) (is_v6 : Bool) (v : IsGso input hdr is_v6) where
  abbrev csum_at : ℕ
  csum_at = hdr.csum_start + hdr.csum_offset

  abbrev packet : List ℕ
  packet = packet_of input hdr is_v6

  pub length-packet : length packet ≡ length input
  length-packet =
      length-overwrite (cleared_ip is_v6 input) csum_at zeros ∙ cleared_ip-length is_v6 input

  csum_room : csum_at + 2 ≤ hdr.hdr_len
  csum_room = elim (Bool-cases (is_tcp_gso hdr)) [
    | inl e ↦
        let room : hdr.csum_start + 20 ≤ hdr.hdr_len = simp e at v.transport_room in
        let off : hdr.csum_offset ≡ 16 = simp e at v.csum_field in omega arith
    | inr e ↦
        let room : hdr.csum_start + 8 ≤ hdr.hdr_len = simp e at v.transport_room in
        let off : hdr.csum_offset ≡ 6 = simp e at v.csum_field in omega arith
  ]

  transport-ok :
      transport hdr packet
      ≡ ok (if is_tcp_gso hdr then get32 packet (hdr.csum_start + 4) else 0, protocol_of hdr)
  unfolding transport
  transport-ok = elim (Bool-cases (is_tcp_gso hdr)) [
    | inl e ↦
        let room : hdr.csum_start + 20 ≤ hdr.hdr_len = simp e at v.transport_room in
        let l = length-packet in
        simp (
          e,
          ltb-false hdr.hdr_len (hdr.csum_start + 20) room,
          ltb-false (length packet) (hdr.csum_start + 13 + 1) (omega (arith, v.hdr_room)),
          read_u32-ok packet (hdr.csum_start + 4) (omega (arith, v.hdr_room)),
        )
    | inr e ↦
        let room : hdr.csum_start + 8 ≤ hdr.hdr_len = simp e at v.transport_room in
        simp (e, ltb-false hdr.hdr_len (hdr.csum_start + 8) room)
  ]

  start-le : (if is_v6 then 40 else 20) ≤ length input
  start-le = omega (arith, v.start_room, v.transport_room, v.hdr_room)

  addr_room : src_addr_offset is_v6 + 2 * addr_len is_v6 ≤ length packet
  addr_room = elim (Bool-cases is_v6) [
    | inl e ↦
        let room : 40 ≤ length input = simp e at start-le in
        simp e (omega (arith, rw e at length-packet))
    | inr e ↦
        let room : 20 ≤ length input = simp e at start-le in
        simp e (omega (arith, rw e at length-packet))
  ]

  abbrev frame : ℕ → Frame
  frame out_offset = frame_of input hdr out_offset is_v6

  -- With the checks passed `gso_split` is its loop.
  pub gso_split-eq :
      (bs : List (List ℕ)) (ss : List ℕ) (out_offset : ℕ)
      → length bs ≤ length ss
      → length bs ≤ 0xFFFF
      → gso_split input hdr bs ss out_offset is_v6 ≡ (
          split_loop (frame out_offset) hdr.hdr_len 0 bs ss >>= λ done. ok (record {
            count = done.0;
            input = packet_of input hdr is_v6;
            out_bufs = done.1;
            sizes = done.2;
          }))
  unfolding gso_split
  gso_split-eq bs ss off h k =
      let l = length-packet in
      let room = csum_room in
      let src_at = src_addr_offset is_v6 in
      let len = addr_len is_v6 in
      let e1 : src_at + len + len ≡ src_at + 2 * len = omega arith in
      rw
        (
          ltb-false (length ss) (length bs) h,
          leb-true (length bs) 0xFFFF k,
          eq_zero-false hdr.gso_size v.gso_pos,
          ltb-false hdr.hdr_len hdr.csum_start (omega (arith, v.transport_room)),
          ltb-false hdr.csum_start (if is_v6 then 40 else 20) v.start_room,
          ltb-false (length input) hdr.hdr_len v.hdr_room,
          clear_ip-ok is_v6 input start-le,
          ltb-true (csum_at + 1) (length (cleared_ip is_v6 input))
              (omega (arith, cleared_ip-length is_v6 input, v.hdr_room)),
          clear_u16-ok (cleared_ip is_v6 input) csum_at
              (omega (arith, cleared_ip-length is_v6 input, v.hdr_room)),
          transport-ok,
          leb-true (src_at + 2 * len) (length packet) addr_room,
          slice-add src_at len (src_at + len) packet refl (omega (arith, addr_room)),
          slice-add (src_at + len) len (src_at + 2 * len) packet e1 addr_room,
        )
        refl

  -- The field of the IPv4 header checksum is cleared, and stays so.
  ip_cleared : (b : Bool) → b ≡ is_v6 → b ≡ false → get16 packet 10 ≡ 0
  ip_cleared b e four =
      let e6 : is_v6 ≡ false = sym e ∙ four in
      let room : 20 ≤ hdr.csum_start = simp e6 at v.start_room in
      get16-overwrite_lt (cleared_ip is_v6 input) csum_at zeros 10 (omega arith)
      ∙ simp e6 (get16-overwrite input 10 0 0 (omega (arith, v.transport_room, v.hdr_room)))

  packet-IsBytes : IsBytes packet
  packet-IsBytes =
      All-overwrite IsByte (cleared_ip is_v6 input) csum_at zeros
        (cleared_ip-IsBytes is_v6 input v.bytes) (omega arith)

  addr-le : (b : Bool) → addr_len b ≤ 16
  addr-le true = omega arith
  addr-le false = omega arith

  is_tcp-eq : (b : Bool) → ((if b then ipproto_tcp else ipproto_udp) == ipproto_tcp) ≡ b
  is_tcp-eq true = refl
  is_tcp-eq false = refl

  protocol-lt : (b : Bool) → (if b then ipproto_tcp else ipproto_udp) < 256
  protocol-lt true = omega arith
  protocol-lt false = omega arith

  -- The frame meets what the loop relies on.
  pub frame-IsFrame : (out_offset : ℕ) → IsFrame (frame out_offset)
  frame-IsFrame off =
      let l = length-packet in
      let src_at = src_addr_offset is_v6 in
      let len = addr_len is_v6 in
      let le = addr-le is_v6 in
      let t = is_tcp-eq (is_tcp_gso hdr) in
      record {
        start_room = v.start_room;
        transport_room = simp t v.transport_room;
        hdr_room = omega (arith, v.hdr_room);
        hdr_word = omega (arith, v.hdr_room, v.small);
        gso_pos = v.gso_pos;
        csum_field = simp t v.csum_field;
        bytes = packet-IsBytes;
        small = omega (arith, v.small);
        transport_cleared =
            get16-overwrite (cleared_ip is_v6 input) csum_at 0 0
              (omega (arith, cleared_ip-length is_v6 input, csum_room, v.hdr_room));
        ip_cleared = ip_cleared is_v6 refl;
        protocol_byte = protocol-lt (is_tcp_gso hdr);
        src_bytes =
            All-take IsByte len (drop src_at packet) (All-drop IsByte src_at packet packet-IsBytes);
        dst_bytes =
            All-take IsByte len (drop (src_at + len) packet)
              (All-drop IsByte (src_at + len) packet packet-IsBytes);
        src_len = omega (arith, length-take len (drop src_at packet));
        dst_len = omega (arith, length-take len (drop (src_at + len) packet));
      }

  -- Clearing the fields leaves the payload.
  pub drop-packet : drop hdr.hdr_len packet ≡ drop hdr.hdr_len input
  drop-packet =
      drop-overwrite hdr.hdr_len (cleared_ip is_v6 input) csum_at zeros csum_room
      ∙ drop-cleared is_v6 refl
    where
      drop-cleared :
          (b : Bool) → b ≡ is_v6 → drop hdr.hdr_len (cleared_ip b input) ≡ drop hdr.hdr_len input
      drop-cleared true e = refl
      drop-cleared false e =
          let room : 20 ≤ hdr.csum_start = simp (sym e) at v.start_room in
          drop-overwrite hdr.hdr_len input 10 zeros (omega (arith, v.transport_room))
