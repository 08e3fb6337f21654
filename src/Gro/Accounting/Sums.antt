-- ===== src/Gro/Accounting/Sums.antt =====
-- The transport header of a merged packet: the UDP length, and the sum that the kernel completes.
use quincy_tun.Base.{
  ℕ, ◌+◌, ◌-◌, ◌/◌, ◌%◌, ◌^◌, ◌≤◌, ◌<◌, ◌≡◌, refl, ◌∙◌, arith, List, [], length, Outcome, ok, ◌>>=◌,
  Bool, true, false, if◌then◌else◌, Bool-cases, inl, inr, take, drop, overwrite, Returns, IsBytes,
  get16, be16, write_u16, write_u16-ok, length-overwrite, drop-overwrite, take-overwrite,
  get16-overwrite, get16-overwrite_lt,
}
use quincy_tun.Checksum.{checksum, pseudo_header_checksum_no_fold}
use quincy_tun.Checksum.Fold.{checksum-lt}
use quincy_tun.Offload.{VirtioNetHdr, Endian, virtio_net_hdr_len}
use quincy_tun.Offload.Header.{IsHdr}
use quincy_tun.Gro.Tcp.{src_addr_at, dst_addr_at}

module _ (e : Endian) (hdr : VirtioNetHdr) (iph_len protocol : ℕ) (is_v6 udp : Bool) (offset : ℕ)
    (buf : List ℕ) where
  abbrev pkt : List ℕ
  pkt = drop offset buf

  abbrev csum_at : ℕ
  csum_at = hdr.csum_start + hdr.csum_offset

  abbrev addr_len : ℕ
  addr_len = if is_v6 then 16 else 4

  -- The sum of the pseudo-header over the packet's addresses and its transport length.
  abbrev pub pseudo : ℕ
  pseudo =
      pseudo_header_checksum_no_fold protocol (take addr_len (drop (src_addr_at is_v6) pkt))
        (take addr_len (drop (dst_addr_at is_v6) pkt)) (length pkt - iph_len)

  -- The buffer holds a packet whose headers are whole.
  pub record IsMerged : Type 0 where
    pub hdr_ranges : IsHdr hdr
    pub low : virtio_net_hdr_len ≤ offset
    pub wide : offset < 2 ^ 64
    pub room : offset ≤ length buf
    pub bytes : IsBytes buf
    pub small : length pkt < 2 ^ 16
    pub ip_room : (if is_v6 then 40 else 20) ≤ iph_len
    pub start : hdr.csum_start ≡ iph_len
    pub csum_place : hdr.csum_offset ≡ (if udp then 6 else 16)
    pub csum_room : csum_at + 2 ≤ length pkt

  -- The transport header: the UDP length, and the sum that the kernel completes.
  pub record IsSummed (p o : List ℕ) : Type 0 where
    pub same_length : length o ≡ length p
    pub ip : take iph_len o ≡ take iph_len p
    pub udp_len : udp ≡ true → get16 o (iph_len + 4) ≡ length pkt - iph_len
    pub sum : get16 o csum_at ≡ checksum [] pseudo
    pub behind : drop (csum_at + 2) o ≡ drop (csum_at + 2) p

  module _ (v : IsMerged) where
    udp_place : udp ≡ true → csum_at ≡ iph_len + 6
    udp_place u =
        let c : hdr.csum_offset ≡ 6 = v.csum_place ∙ simp u refl in omega (arith, v.start, c)

    plain-IsSummed :
        (p : List ℕ)
        → udp ≡ false
        → length p ≡ length pkt
        → IsSummed p (overwrite p csum_at (be16 (checksum [] pseudo)))
    plain-IsSummed p u l = record {
      same_length = length-overwrite p csum_at _;
      ip = take-overwrite iph_len p csum_at _ (omega (arith, v.start));
      udp_len = λ t. cc;
      sum =
          get16-overwrite p csum_at (checksum [] pseudo / 256 % 256) (checksum [] pseudo % 256)
            (omega (arith, v.csum_room))
          ∙ omega (arith, checksum-lt [] pseudo);
      behind = drop-overwrite (csum_at + 2) p csum_at _ (omega arith);
    }

    udp-IsSummed :
        (p : List ℕ) (n : ℕ)
        → udp ≡ true
        → length p ≡ length pkt
        → n ≡ length pkt - iph_len
        → let measured = overwrite p (iph_len + 4) (be16 n) in
          IsSummed p (overwrite measured csum_at (be16 (checksum [] pseudo)))
    udp-IsSummed p n u l en =
        let m = overwrite p (iph_len + 4) (be16 n) in
        let lm = length-overwrite p (iph_len + 4) (be16 n) in
        let s = be16 (checksum [] pseudo) in
        let place : csum_at ≡ iph_len + 6 = udp_place u in
        record {
          same_length = length-overwrite m csum_at s ∙ lm;
          ip =
              take-overwrite iph_len m csum_at s (omega (arith, place))
              ∙ take-overwrite iph_len p (iph_len + 4) (be16 n) (omega arith);
          udp_len = λ t.
              get16-overwrite_lt m csum_at s (iph_len + 4) (omega (arith, place))
              ∙ get16-overwrite p (iph_len + 4) (n / 256 % 256) (n % 256)
                  (omega (arith, v.csum_room, place))
              ∙ omega (arith, v.small);
          sum =
              get16-overwrite m csum_at (checksum [] pseudo / 256 % 256) (checksum [] pseudo % 256)
                (omega (arith, v.csum_room))
              ∙ omega (arith, checksum-lt [] pseudo);
          behind =
              drop-overwrite (csum_at + 2) m csum_at s (omega arith)
              ∙ drop-overwrite (csum_at + 2) p (iph_len + 4) (be16 n) (omega (arith, place));
        }

    -- The last two writes of `account`.
    abbrev pub write_sum : List ℕ → Outcome (List ℕ)
    write_sum p =
        (if udp then write_u16 p (iph_len + 4) (length pkt - iph_len) else ok p) >>= λ measured.
        write_u16 measured (csum_at % 2 ^ 16) (checksum [] pseudo)

    csum_word : csum_at % 2 ^ 16 ≡ csum_at
    csum_word = omega (arith, v.csum_room, v.small)

    write_sum-udp :
        (p : List ℕ)
        → udp ≡ true
        → length p ≡ length pkt
        → write_sum p
          ≡ ok (
              overwrite
                (overwrite p (iph_len + 4) (be16 (length pkt - iph_len)))
                csum_at
                (be16 (checksum [] pseudo)))
    write_sum-udp p u l =
        let n = length pkt - iph_len in
        simp
          (
            u,
            csum_word,
            write_u16-ok p (iph_len + 4) n (omega (arith, v.csum_room, udp_place u)),
            write_u16-ok (overwrite p (iph_len + 4) (be16 n)) csum_at (checksum [] pseudo)
                (omega (arith, v.csum_room, length-overwrite p (iph_len + 4) (be16 n))),
          )
          refl

    write_sum-plain :
        (p : List ℕ)
        → udp ≡ false
        → length p ≡ length pkt
        → write_sum p ≡ ok (overwrite p csum_at (be16 (checksum [] pseudo)))
    write_sum-plain p u l =
        simp
          (u, csum_word, write_u16-ok p csum_at (checksum [] pseudo) (omega (arith, v.csum_room)))
          refl

    pub write_sum-IsSummed :
        (p : List ℕ) → length p ≡ length pkt → Returns (write_sum p) (IsSummed p)
    write_sum-IsSummed p l = elim (Bool-cases udp) [
      | inl u ↦ rw (write_sum-udp p u l) (udp-IsSummed p (length pkt - iph_len) u l refl)
      | inr u ↦ rw (write_sum-plain p u l) (plain-IsSummed p u l)
    ]
