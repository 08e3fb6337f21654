-- ===== src/Offload/Split/Segment.antt =====
-- One round of the loop of `gso_split`: what the packet that it writes is.
use quincy_tun.Base.{
  ℕ, ◌+◌, ◌-◌, ◌*◌, ◌%◌, ◌^◌, ◌≤◌, ◌<◌, ◌≡◌, refl, ap, ◌∙◌, arith, List, length, ◌>>=◌, true, false,
  if◌then◌else◌, Bool-cases, inl, inr,
}
use quincy_tun.Base.{
  take, drop, overwrite, Returns, Returns-bind, Returns-if, IsByte, IsBytes, get16, get32, be16,
  All-take, All-drop, All-overwrite, IsBytes-be16, slice, slice-ok, slice-zero, write_u16-ok,
  write_at-ok, length-overwrite, length-take, length-drop, drop-overwrite, take-overwrite,
  take-overwrite_in, drop-overwrite_in, take-drop-overwrite, get16-overwrite_lt, get16-take,
  get16-drop, write_at, slice-add, get32-overwrite_lt, write_u16, drop_of_drop, get16_of_take,
}
use quincy_tun.Checksum.{checksum, not_u16}
use quincy_tun.Checksum.Words.{pseudo_header-Same}
use quincy_tun.Checksum.Verify.{checksum-written}
use quincy_tun.Offload.Split.{
  Frame, write_tcp, write_udp, write_segment, segment_data_len, total_len, transport_csum_at,
  transport_csum_no_fold,
}
use quincy_tun.Offload.Split.Head.{is_tcp, IsFrame, IsHead, write_ip-IsHead}
use quincy_tun.Offload.Split.Start.{IsStart, length-transport, write_tcp-IsStart, write_udp-IsStart}

module _ (f : Frame) (v : IsFrame f) where
  open f use {input, hdr, is_v6}

  abbrev cs : ℕ
  cs = hdr.csum_start

  -- A finished segment of `gso_split`, in the bytes behind the offset of its buffer.
  pub record IsSegment (at i : ℕ) (out o : List ℕ) : Type 0 where
    pub same_length : length o ≡ length out
    pub bytes : IsBytes o
    pub payload :
        take (segment_data_len f at) (drop hdr.hdr_len o)
        ≡ take (segment_data_len f at) (drop at input)
    pub behind : drop (total_len f at) o ≡ drop (total_len f at) out
    pub transport_sum :
        checksum (take (total_len f at - cs) (drop cs o)) (transport_csum_no_fold f at) ≡ 0xFFFF
    pub ipv4_sum : is_v6 ≡ false → checksum (take cs o) 0 ≡ 0xFFFF
    pub ipv4_len : is_v6 ≡ false → get16 o 2 ≡ total_len f at
    pub ipv4_id : is_v6 ≡ false → get16 o 4 ≡ (get16 input 4 + i) % 2 ^ 16
    pub ipv6_len : is_v6 ≡ true → get16 o 4 ≡ total_len f at - 40
    pub tcp_seq :
        is_tcp f ≡ true
        → get32 o (cs + 4) ≡ (f.first_tcp_seq_num + hdr.gso_size * i % 2 ^ 32) % 2 ^ 32
    pub udp_len :
        is_tcp f ≡ false → get16 o (cs + 4) ≡ (segment_data_len f at + (hdr.hdr_len - cs)) % 2 ^ 16

  -- The length of a segment: it lies in the input, is not empty, and no more than `gso_size`.
  pub segment_data_len_bounds :
      (at : ℕ)
      → at < length input
      → (at + segment_data_len f at ≤ length input)
        × (0 < segment_data_len f at)
        × (segment_data_len f at ≤ hdr.gso_size)
  segment_data_len_bounds at h = ground (arith, v.gso_pos)

  csum_room : (hdr.csum_offset % 2 ≡ 0) × (transport_csum_at f + 2 ≤ hdr.hdr_len)
  csum_room = elim (Bool-cases (is_tcp f)) [
    | inl e ↦
        let room : cs + 20 ≤ hdr.hdr_len = rw e at v.transport_room in
        let off : hdr.csum_offset ≡ 16 = rw e at v.csum_field in omega arith
    | inr e ↦
        let room : cs + 8 ≤ hdr.hdr_len = rw e at v.transport_room in
        let off : hdr.csum_offset ≡ 6 = rw e at v.csum_field in omega arith
  ]

  tcp_room : is_tcp f ≡ true → hdr.csum_offset ≡ 16
  tcp_room e = rw e at v.csum_field

  udp_room : is_tcp f ≡ false → hdr.csum_offset ≡ 6
  udp_room e = rw e at v.csum_field

  pseudo-le : (at : ℕ) → transport_csum_no_fold f at ≤ 2 ^ 38
  pseudo-le at =
      (pseudo_header-Same f.protocol f.src f.dst
        ((hdr.hdr_len - cs + segment_data_len f at) % 2 ^ 16) v.protocol_byte (omega arith)
        v.src_bytes v.dst_bytes v.src_len v.dst_len).1

  start4 : is_v6 ≡ false → 20 ≤ cs
  start4 e = rw e at v.start_room

  start6 : is_v6 ≡ true → 40 ≤ cs
  start6 e = rw e at v.start_room

  -- The payload and the transport checksum, over a packet that is ready for them.
  finish :
      (at i : ℕ) (out o2 o4 : List ℕ)
      → at < length input
      → total_len f at < 2 ^ 16
      → total_len f at ≤ length out
      → IsHead f i (total_len f at) out o2
      → IsStart f v at i o2 o4
      → Returns
          (slice at (at + segment_data_len f at) input >>= λ payload.
            write_at o4 hdr.hdr_len payload >>= λ out5.
            slice hdr.csum_start (total_len f at) out5 >>= λ region.
            write_u16 out5
              (transport_csum_at f)
              (not_u16 (checksum region (transport_csum_no_fold f at))))
          (IsSegment at i out)
  finish at i out o2 o4 hat ht hl a s =
      let seg = segment_data_len f at in
      let total = total_len f at in
      let bounds = segment_data_len_bounds at hat in
      let p = take seg (drop at input) in
      let lp : length p ≡ seg =
        omega (arith, length-take seg (drop at input), length-drop at input, bounds) in
      let o5 = overwrite o4 hdr.hdr_len p in
      let l5 = length-overwrite o4 hdr.hdr_len p in
      let region = take (total - cs) (drop cs o5) in
      let c = not_u16 (checksum region (transport_csum_no_fold f at)) in
      let o = overwrite o5 (transport_csum_at f) (be16 c) in
      let room = csum_room in
      let l2 = a.same_length in
      let l4 = s.same_length in
      let e : cs + (total - cs) ≡ total = omega (arith, v.transport_room) in
      let d : cs + hdr.csum_offset - cs ≡ hdr.csum_offset = omega arith in
      let b5 : IsBytes o5 =
        All-overwrite IsByte o4 hdr.hdr_len p s.bytes
          (All-take IsByte seg (drop at input) (All-drop IsByte at input v.bytes)) in
      let br : IsBytes region =
        All-take IsByte (total - cs) (drop cs o5) (All-drop IsByte cs o5 b5) in
      let lr : length region ≡ total - cs =
        omega (arith, length-take (total - cs) (drop cs o5), length-drop cs o5) in
      let z : get16 region hdr.csum_offset ≡ 0 =
        get16-take (total - cs) (drop cs o5) hdr.csum_offset (omega (arith, v.transport_room))
        ∙ get16-drop cs o5 hdr.csum_offset
        ∙ get16-overwrite_lt o4 hdr.hdr_len p (transport_csum_at f) room.1
        ∙ s.cleared in
      let front : take cs o ≡ take cs o2 =
        take-overwrite cs o5 (transport_csum_at f) (be16 c) (omega arith)
        ∙ take-overwrite cs o4 hdr.hdr_len p (omega (arith, v.transport_room))
        ∙ s.front in
      let window : take (total - cs) (drop cs o) ≡ overwrite region hdr.csum_offset (be16 c) =
        ap (take (total - cs)) (
          drop-overwrite_in cs o5 (transport_csum_at f) (be16 c) (omega arith)
          ∙ ap (λ k. overwrite (drop cs o5) k (be16 c)) d)
        ∙ take-overwrite_in (total - cs) (drop cs o5) hdr.csum_offset (be16 c)
            (omega (arith, v.transport_room)) in
      let body : drop hdr.hdr_len o ≡ drop hdr.hdr_len o5 =
        drop-overwrite hdr.hdr_len o5 (transport_csum_at f) (be16 c) room.1 in
      rw
        (
          slice-add at seg (at + seg) input refl bounds.0,
          write_at-ok o4 hdr.hdr_len p (omega arith),
          slice-add cs (total - cs) total o5 e (omega arith),
          write_u16-ok o5 (transport_csum_at f) c (omega arith),
        )
        (record {
          same_length = length-overwrite o5 (transport_csum_at f) (be16 c) ∙ l5 ∙ l4 ∙ l2;
          bytes = All-overwrite IsByte o5 (transport_csum_at f) (be16 c) b5 (IsBytes-be16 c);
          payload =
              ap (take seg) body ∙ rw lp at (take-drop-overwrite o4 hdr.hdr_len p (omega arith));
          behind =
              drop_of_drop hdr.hdr_len total o o5 (omega arith) body
              ∙ drop-overwrite total o4 hdr.hdr_len p (omega arith)
              ∙ drop_of_drop hdr.hdr_len total o4 o2 (omega arith) s.behind
              ∙ drop_of_drop cs total o2 out (omega arith) a.behind;
          transport_sum =
              ap (λ t. checksum t (transport_csum_no_fold f at)) window
              ∙ checksum-written region hdr.csum_offset (transport_csum_no_fold f at) br
                  (omega (arith, pseudo-le at)) room.0 (omega (arith, v.transport_room)) z;
          ipv4_sum = λ four. ap (λ t. checksum t 0) front ∙ a.ipv4_sum four;
          ipv4_len =
              λ four. get16_of_take cs o o2 2 (omega (arith, start4 four)) front ∙ a.ipv4_len four;
          ipv4_id =
              λ four. get16_of_take cs o o2 4 (omega (arith, start4 four)) front ∙ a.ipv4_id four;
          ipv6_len =
              λ six. get16_of_take cs o o2 4 (omega (arith, start6 six)) front ∙ a.ipv6_len six;
          tcp_seq = λ tcp.
              get32-overwrite_lt o5 (transport_csum_at f) (be16 c) (cs + 4)
                (omega (arith, tcp_room tcp))
              ∙ get32-overwrite_lt o4 hdr.hdr_len p (cs + 4) (omega (arith, tcp_room tcp))
              ∙ s.tcp_seq tcp;
          udp_len = λ udp.
              get16-overwrite_lt o5 (transport_csum_at f) (be16 c) (cs + 4)
                (omega (arith, udp_room udp))
              ∙ get16-overwrite_lt o4 hdr.hdr_len p (cs + 4) (omega (arith, udp_room udp))
              ∙ s.udp_len udp;
        })

  -- Everything behind the IP header.
  after_head :
      (at i : ℕ) (out o2 : List ℕ)
      → at < length input
      → total_len f at < 2 ^ 16
      → total_len f at ≤ length out
      → IsHead f i (total_len f at) out o2
      → Returns
          (slice hdr.csum_start hdr.hdr_len input >>= λ transport.
            write_at o2 hdr.csum_start transport >>= λ out3.
            (if is_tcp f then write_tcp f at i out3 else write_udp f at out3) >>= λ out4.
            slice at (at + segment_data_len f at) input >>= λ payload.
            write_at out4 hdr.hdr_len payload >>= λ out5.
            slice hdr.csum_start (total_len f at) out5 >>= λ region.
            write_u16 out5
              (transport_csum_at f)
              (not_u16 (checksum region (transport_csum_no_fold f at))))
          (IsSegment at i out)
  after_head at i out o2 hat ht hl a =
      let l2 = a.same_length in
      rw
        (
          slice-ok cs hdr.hdr_len input (omega (arith, v.transport_room)) v.hdr_room,
          write_at-ok o2 cs (take (hdr.hdr_len - cs) (drop cs input))
              (omega (arith, length-transport f v, v.transport_room)),
        )
        (Returns-bind _ _ (IsStart f v at i o2) _
          (Returns-if (is_tcp f) _ _ _
            (λ tcp. write_tcp-IsStart f v at i o2 tcp (omega arith) a.bytes)
            (λ udp. write_udp-IsStart f v at i o2 udp (omega arith) a.bytes))
          (λ o4 s. finish at i out o2 o4 hat ht hl a s))

  -- A round whose packet fits the buffer and the 16-bit length fields writes a segment, without a
  -- panic.
  pub write_segment-IsSegment :
      (at i : ℕ) (out : List ℕ)
      → at < length input
      → total_len f at < 2 ^ 16
      → total_len f at ≤ length out
      → length out ≤ 2 ^ 31
      → IsBytes out
      → Returns (write_segment f at i out) (IsSegment at i out)
  unfolding write_segment
  write_segment-IsSegment at i out hat ht hl hb ho =
      let room : cs ≤ length out = omega (arith, v.transport_room) in
      let lh : length (take cs input) ≡ cs =
        omega (arith, length-take cs input, v.hdr_room, v.transport_room) in
      rw
        (
          slice-zero cs input (omega (arith, v.hdr_room, v.transport_room)),
          write_at-ok out 0 (take cs input) (omega arith),
        )
        (Returns-bind _ _ (IsHead f i (total_len f at) out) _
          (write_ip-IsHead f v i (total_len f at) out room hb ho ht)
          (λ o2 a. after_head at i out o2 hat ht hl a))
