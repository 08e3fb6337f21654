-- ===== src/Gro/Accounting/Merged.antt =====
-- A merged packet as it goes to the kernel: a GSO frame whose transport checksum is left to it.
use quincy_tun.Base.{
  ℕ, ◌+◌, ◌-◌, ◌%◌, ◌^◌, ◌≤◌, ◌≡◌, refl, sym, ap, ◌∙◌, arith, List, [], ◌++◌, length, ok, ◌>>=◌,
  Bool, true, false, if◌then◌else◌, Bool-cases, inl, inr, take, drop, Returns, Returns-bind, IsByte,
  get16, All-drop, slice_from, slice_from-ok, slice-add, length-take, length-drop, length-append,
  drop-length-append, take-length-append, get16_of_take, drop-take, take_of_take, drop_of_drop,
}
use quincy_tun.Checksum.{checksum, pseudo_header_checksum_no_fold}
use quincy_tun.Offload.{VirtioNetHdr, Endian, decode, virtio_net_hdr_len}
use quincy_tun.Offload.Header.{decode-take}
use quincy_tun.Gro.Tcp.{src_addr_at, dst_addr_at}
use quincy_tun.Gro.Accounting.{account, put_hdr, write_ip_len, sub_u16}
use quincy_tun.Gro.Accounting.Header.{IsMeasured, write_ip_len-IsMeasured}
use quincy_tun.Gro.Accounting.Virtio.{HasHdr, put_hdr-HasHdr}
use quincy_tun.Gro.Accounting.Sums.{IsMerged, IsSummed, write_sum, write_sum-IsSummed}

module _ (e : Endian) (hdr : VirtioNetHdr) (iph_len protocol : ℕ) (is_v6 udp : Bool) (offset : ℕ)
    (buf : List ℕ) where
  abbrev pkt : List ℕ
  pkt = drop offset buf

  abbrev csum_at : ℕ
  csum_at = hdr.csum_start + hdr.csum_offset

  abbrev addr_len : ℕ
  addr_len = if is_v6 then 16 else 4

  -- The sum of the pseudo-header over the packet's addresses and its transport length.
  abbrev pub pseudo : ℕ
  pseudo =
      pseudo_header_checksum_no_fold protocol (take addr_len (drop (src_addr_at is_v6) pkt))
        (take addr_len (drop (dst_addr_at is_v6) pkt)) (length pkt - iph_len)

  -- What the kernel gets.
  pub record IsAccounted (o : List ℕ) : Type 0 where
    pub same_length : length o ≡ length buf
    pub header : decode e (drop (offset - virtio_net_hdr_len) o) ≡ ok hdr
    pub front : take (offset - virtio_net_hdr_len) o ≡ take (offset - virtio_net_hdr_len) buf
    pub ipv4_len : is_v6 ≡ false → get16 (drop offset o) 2 ≡ length pkt
    pub ipv4_sum : is_v6 ≡ false → checksum (take iph_len (drop offset o)) 0 ≡ 0xFFFF
    pub ipv6_len : is_v6 ≡ true → get16 (drop offset o) 4 ≡ length pkt - iph_len
    pub udp_len : udp ≡ true → get16 (drop offset o) (iph_len + 4) ≡ length pkt - iph_len
    pub sum : get16 (drop offset o) csum_at ≡ checksum [] pseudo
    pub behind : drop (csum_at + 2) (drop offset o) ≡ drop (csum_at + 2) pkt

  module _ (v : IsMerged e hdr iph_len protocol is_v6 udp offset buf) where
    ip_room20 : 20 ≤ iph_len
    ip_room20 = elim (Bool-cases is_v6) [
      | inl six ↦ let r : 40 ≤ iph_len = simp six at v.ip_room in omega arith
      | inr four ↦ let r : 20 ≤ iph_len = simp four at v.ip_room in r
    ]

    -- The header that stands in front of the packet is still there when the packet is replaced.
    header-kept :
        (b o : List ℕ)
        → length b ≡ length buf
        → length o ≡ length pkt
        → decode e (drop (offset - virtio_net_hdr_len) b) ≡ ok hdr
        → (decode e (drop (offset - virtio_net_hdr_len) (take offset b ++ o)) ≡ ok hdr)
          × (length (take offset b ++ o) ≡ length buf)
          × (drop offset (take offset b ++ o) ≡ o)
          × (take offset (take offset b ++ o) ≡ take offset b)
    header-kept b o lb lo h =
        let at = offset - virtio_net_hdr_len in
        let w = take offset b ++ o in
        let lt : length (take offset b) ≡ offset =
          omega (arith, length-take offset b, lb, v.room) in
        let lw : length w ≡ length buf =
          omega (arith, length-append (take offset b) o, lt, lo, length-drop offset buf, v.room) in
        let tw : take offset w ≡ take offset b = rw lt at (take-length-append (take offset b) o) in
        let dw : drop offset w ≡ o = rw lt at (drop-length-append (take offset b) o) in
        let eo : at + virtio_net_hdr_len ≡ offset = omega (arith, v.low) in
        let same : take virtio_net_hdr_len (drop at w) ≡ take virtio_net_hdr_len (drop at b) =
          sym (drop-take at virtio_net_hdr_len w)
          ∙ (rw eo (ap (drop at) tw))
          ∙ drop-take at virtio_net_hdr_len b in
        (
          sym (decode-take e (drop at w) (omega (arith, length-drop at w, lw, v.low, v.room)))
              ∙ ap (decode e) same
              ∙ decode-take e (drop at b) (omega (arith, length-drop at b, lb, v.low, v.room))
              ∙ h,
          lw,
          dw,
          tw,
        )

    assemble :
        (sized joined b o : List ℕ)
        → IsMeasured pkt iph_len is_v6 sized
        → drop offset joined ≡ sized
        → length joined ≡ length buf
        → take offset joined ≡ take offset buf
        → HasHdr e hdr offset joined b
        → IsSummed e hdr iph_len protocol is_v6 udp offset buf sized o
        → IsAccounted (take offset b ++ o)
    assemble sized joined b o m dj lj tj h r =
        let at = offset - virtio_net_hdr_len in
        let w = take offset b ++ o in
        let k = header-kept b o (h.same_length ∙ lj) (r.same_length ∙ m.same_length) h.header in
        let short : at ≤ offset = omega arith in
        record {
          same_length = k.1;
          header = k.0;
          front =
              take_of_take at offset w b short k.3
              ∙ h.front
              ∙ take_of_take at offset joined buf short tj;
          ipv4_len = λ four.
              rw k.2
                (get16_of_take iph_len o sized 2 (omega (arith, ip_room20)) r.ip ∙ m.ipv4_len four);
          ipv4_sum = λ four. rw k.2 (ap (λ t. checksum t 0) r.ip ∙ m.ipv4_sum four);
          ipv6_len = λ six.
              rw k.2
                (get16_of_take iph_len o sized 4 (omega (arith, ip_room20)) r.ip ∙ m.ipv6_len six);
          udp_len = λ u. rw k.2 (r.udp_len u);
          sum = rw k.2 r.sum;
          behind = rw k.2 (
              r.behind
              ∙ drop_of_drop 12 (csum_at + 2) sized pkt (omega (arith, ip_room20, v.start))
                  m.behind);
        }

    -- From the measured packet on: the virtio header, then the transport header.
    finish :
        (sized : List ℕ)
        → IsMeasured pkt iph_len is_v6 sized
        → Returns
            (put_hdr e hdr offset (take offset buf ++ sized) >>= λ buf'.
              slice_from offset buf' >>= λ pkt'.
              write_sum e hdr iph_len protocol is_v6 udp offset buf v pkt' >>= λ summed.
              ok (take offset buf' ++ summed))
            IsAccounted
    finish sized m =
        let joined = take offset buf ++ sized in
        let lt : length (take offset buf) ≡ offset =
          omega (arith, length-take offset buf, v.room) in
        let lj : length joined ≡ length buf = omega (
          arith,
          length-append (take offset buf) sized,
          lt,
          m.same_length,
          length-drop offset buf,
          v.room,
        ) in
        let dj : drop offset joined ≡ sized =
          rw lt at (drop-length-append (take offset buf) sized) in
        let tj : take offset joined ≡ take offset buf =
          rw lt at (take-length-append (take offset buf) sized) in
        Returns-bind (put_hdr e hdr offset joined) _ (HasHdr e hdr offset joined) IsAccounted
          (put_hdr-HasHdr e hdr offset joined v.hdr_ranges v.low v.wide (omega (arith, lj, v.room)))
          (λ b h.
            let lb : length b ≡ length buf = h.same_length ∙ lj in
            let db : drop offset b ≡ sized = h.packet ∙ dj in
            rw (slice_from-ok offset b (omega (arith, lb, v.room)), db)
              (Returns-bind (write_sum e hdr iph_len protocol is_v6 udp offset buf v sized) _
                (IsSummed e hdr iph_len protocol is_v6 udp offset buf sized) IsAccounted
                (write_sum-IsSummed e hdr iph_len protocol is_v6 udp offset buf v sized
                  m.same_length)
                (λ o r. assemble sized joined b o m dj lj tj h r)))

    addresses :
        (src_addr_at is_v6 + addr_len ≡ dst_addr_at is_v6)
        × (dst_addr_at is_v6 + addr_len ≤ length pkt)
    addresses = elim (Bool-cases is_v6) [
      | inl six ↦
          let r : 40 ≤ iph_len = simp six at v.ip_room in
          simp six (refl, omega (arith, v.csum_room, v.start))
      | inr four ↦
          let r : 20 ≤ iph_len = simp four at v.ip_room in
          simp four (refl, omega (arith, v.csum_room, v.start))
    ]

    -- For a tracked packet of bytes with whole headers, shorter than 2^16, with ten bytes of room before
    -- it, and a virtio header that points at its transport header and that protocol's checksum, the
    -- accounting of a merged packet succeeds: the virtio header decodes to the item's, the IP and UDP
    -- length fields state the packet's length, the IPv4 header verifies, the checksum field holds the
    -- folded pseudo-header sum, and the bytes before the virtio header and behind the checksum field
    -- stay.
    pub account-IsAccounted :
        Returns (account e hdr iph_len protocol is_v6 udp offset buf) IsAccounted
    unfolding account
    account-IsAccounted =
        let n : sub_u16 (length pkt % 2 ^ 16) iph_len ≡ length pkt - iph_len =
          omega (arith, v.small, v.csum_room, v.start) in
        let a = addresses in
        rw
          (
            slice_from-ok offset buf v.room,
            slice-add (src_addr_at is_v6) addr_len (dst_addr_at is_v6) pkt a.0 (omega (arith, a.1)),
            slice-add (dst_addr_at is_v6) addr_len (dst_addr_at is_v6 + addr_len) pkt refl a.1,
            n,
          )
          (Returns-bind (write_ip_len pkt iph_len is_v6) _ (IsMeasured pkt iph_len is_v6)
            IsAccounted
            (write_ip_len-IsMeasured pkt iph_len is_v6 (All-drop IsByte offset buf v.bytes) v.small
              v.ip_room (omega (arith, v.csum_room, v.start)))
            finish)
