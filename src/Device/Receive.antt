-- ===== src/Device/Receive.antt =====
-- `handle_virtio_read`: which header length a GSO frame is split with.
use quincy_tun.Base.{
  ℕ, ◌+◌, ◌*◌, ◌/◌, ◌%◌, ◌^◌, ◌≤◌, ◌<◌, ◌≡◌, refl, ap, ◌∙◌, arith, List, [], ◌∷◌, length, ok, Bool,
  Bool-cases, ◌||◌, true, false, if◌then◌else◌, ◌==◌, ltb-false, ltb-true, leb-true, eq_zero-false,
  leb-false, byte_at-ok, get_or-lt, ◌⊎◌, inl, inr, All, get_or,
}
use quincy_tun.Offload.{
  VirtioNetHdr, virtio_net_hdr_gso_tcpv4, virtio_net_hdr_gso_tcpv6, virtio_net_hdr_gso_udp_l4,
}
use quincy_tun.Offload.Split.{gso_split, is_tcp_gso}
use quincy_tun.Offload.Split.Guards.{IsGso}
use quincy_tun.Device.{handle_virtio_read, read_gso, real_hdr_len, version_fits, all_reach}

-- The length of the transport header, as the packet states it.
abbrev pub transport_len : List ℕ → VirtioNetHdr → ℕ
transport_len input hdr =
    if hdr.gso_type == virtio_net_hdr_gso_udp_l4
    then 8
    else get_or input (hdr.csum_start + 12) 0 / 16 * 4

-- A GSO packet of TCP or UDP whose headers end where the packet says.
pub record IsReceived (input : List ℕ) (hdr : VirtioNetHdr) (is_v6 : Bool) : Type 0 where
  pub gso : IsGso input hdr is_v6
  pub version : get_or input 0 0 / 16 ≡ (if is_v6 then 6 else 4)
  pub kind :
      (hdr.gso_type ≡ virtio_net_hdr_gso_udp_l4)
      ⊎ (hdr.gso_type ≡ (if is_v6 then virtio_net_hdr_gso_tcpv6 else virtio_net_hdr_gso_tcpv4))
  pub headers : hdr.hdr_len ≡ hdr.csum_start + transport_len input hdr

all_reach-true :
    (offset : ℕ) (bs : List (List ℕ)) → All (λ b. offset ≤ length b) bs → all_reach offset bs ≡ true
unfolding all_reach
all_reach-true offset [] h = refl
all_reach-true offset (b ∷ bs) h =
    rw (leb-true offset (length b) h.0, all_reach-true offset bs h.1) refl

module _ (input : List ℕ) (hdr : VirtioNetHdr) (is_v6 : Bool) (v : IsReceived input hdr is_v6) where
  g : IsGso input hdr is_v6
  g = v.gso

  -- What the two kinds of frames say about the header's numbers.
  udp_facts :
      hdr.gso_type ≡ virtio_net_hdr_gso_udp_l4
      → (hdr.hdr_len ≡ hdr.csum_start + 8)
        × (hdr.csum_offset ≡ 6)
        × (hdr.hdr_len < 2 ^ 16)
        × (hdr.hdr_len ≤ length input)
  udp_facts udp =
      let t : transport_len input hdr ≡ 8 = simp udp refl in
      let c : hdr.csum_offset ≡ 6 = v.gso.csum_field ∙ simp udp refl in
      (omega (arith, v.headers, t), c, omega (arith, v.gso.hdr_room, v.gso.small), v.gso.hdr_room)

  tcp_len : ℕ
  tcp_len = get_or input (hdr.csum_start + 12) 0 / 16 * 4

  tcp_facts :
      is_tcp_gso hdr ≡ true
      → (hdr.gso_type == virtio_net_hdr_gso_udp_l4) ≡ false
      → (hdr.hdr_len ≡ hdr.csum_start + tcp_len)
        × (20 ≤ tcp_len)
        × (tcp_len ≤ 60)
        × (hdr.csum_offset ≡ 16)
        × (hdr.hdr_len < 2 ^ 16)
        × (hdr.hdr_len ≤ length input)
  unfolding tcp_len
  tcp_facts tcp not_udp =
      let t : transport_len input hdr ≡ tcp_len = simp not_udp refl in
      let c : hdr.csum_offset ≡ 16 = v.gso.csum_field ∙ simp tcp refl in
      let r : hdr.csum_start + 20 ≤ hdr.hdr_len = simp tcp at v.gso.transport_room in
      (
        v.headers ∙ ap (λ k. hdr.csum_start + k) t,
        omega (arith, r, v.headers, t),
        omega (arith, get_or-lt input (hdr.csum_start + 12) v.gso.bytes),
        c,
        omega (arith, v.gso.hdr_room, v.gso.small),
        v.gso.hdr_room,
      )

  -- The header length of the packet takes the place of the one that the kernel gave.
  real_hdr_len-udp :
      (kernel_len : ℕ)
      → hdr.gso_type ≡ virtio_net_hdr_gso_udp_l4
      → real_hdr_len (record hdr { hdr_len = kernel_len }) input ≡ ok hdr.hdr_len
  unfolding real_hdr_len
  real_hdr_len-udp kernel_len udp =
      let f = udp_facts udp in
      let e : (hdr.csum_start + 8) % 2 ^ 16 ≡ hdr.hdr_len = omega (arith, f) in simp (udp, e) refl

  real_hdr_len-tcp :
      (kernel_len : ℕ)
      → is_tcp_gso hdr ≡ true
      → (hdr.gso_type == virtio_net_hdr_gso_udp_l4) ≡ false
      → real_hdr_len (record hdr { hdr_len = kernel_len }) input ≡ ok hdr.hdr_len
  unfolding real_hdr_len tcp_len
  real_hdr_len-tcp kernel_len tcp not_udp =
      let f = tcp_facts tcp not_udp in
      let e : (hdr.csum_start + tcp_len) % 2 ^ 16 ≡ hdr.hdr_len = omega (arith, f) in
      simp
        (
          not_udp,
          leb-false (length input) (hdr.csum_start + 12) (omega (arith, f)),
          byte_at-ok input (hdr.csum_start + 12) (omega (arith, f)),
          leb-true 20 tcp_len f.1,
          leb-true tcp_len 60 f.2,
          e,
        )
        refl

  -- The checks that stand around the header length.
  record Passes : Type 0 where
    csum_room : hdr.csum_start + hdr.csum_offset + 1 < length input
    not_none : (hdr.gso_type == 0) ≡ false
    known :
        (hdr.gso_type == 1 || (hdr.gso_type == 4 || hdr.gso_type == virtio_net_hdr_gso_udp_l4))
        ≡ true
    fits : version_fits (get_or input 0 0 / 16) hdr.gso_type ≡ true
    six : (get_or input 0 0 / 16 == 6) ≡ is_v6

  read_gso_lem :
      (kernel_len : ℕ) (bs : List (List ℕ)) (ss : List ℕ) (offset : ℕ)
      → Passes
      → real_hdr_len (record hdr { hdr_len = kernel_len }) input ≡ ok hdr.hdr_len
      → read_gso (record hdr { hdr_len = kernel_len }) input bs ss offset
        ≡ gso_split input hdr bs ss offset is_v6
  unfolding read_gso
  read_gso_lem kernel_len bs ss offset p e =
      simp
        (
          eq_zero-false hdr.gso_size v.gso.gso_pos,
          p.known,
          byte_at-ok input 0 (omega (arith, p.csum_room)),
          p.fits,
          e,
          ltb-false (length input) hdr.hdr_len v.gso.hdr_room,
          ltb-false hdr.hdr_len hdr.csum_start (omega (arith, v.gso.transport_room)),
          ltb-true (hdr.csum_start + hdr.csum_offset + 1) (length input) p.csum_room,
          p.six,
        )
        refl

  udp-Passes : hdr.gso_type ≡ virtio_net_hdr_gso_udp_l4 → Passes
  unfolding version_fits
  udp-Passes udp =
      let f = udp_facts udp in
      let r : hdr.csum_start + hdr.csum_offset + 1 < length input =
        omega (arith, f, v.gso.transport_room) in
      elim (Bool-cases is_v6) [
        | inl six ↦
            let n : get_or input 0 0 / 16 ≡ 6 = v.version ∙ simp six refl in
            record {
              csum_room = r;
              not_none = simp udp refl;
              known = simp udp refl;
              fits = simp (udp, n) refl;
              six = simp (n, six) refl;
            }
        | inr four ↦
            let n : get_or input 0 0 / 16 ≡ 4 = v.version ∙ simp four refl in
            record {
              csum_room = r;
              not_none = simp udp refl;
              known = simp udp refl;
              fits = simp (udp, n) refl;
              six = simp (n, four) refl;
            }
      ]

  -- The TCP frames: their type follows the IP version.
  tcp_kind :
      hdr.gso_type ≡ (if is_v6 then virtio_net_hdr_gso_tcpv6 else virtio_net_hdr_gso_tcpv4)
      → (is_tcp_gso hdr ≡ true) × ((hdr.gso_type == virtio_net_hdr_gso_udp_l4) ≡ false) × Passes
  unfolding version_fits
  tcp_kind t = elim (Bool-cases is_v6) [
    | inl six ↦
        let k : hdr.gso_type ≡ 4 = t ∙ simp six refl in
        let n : get_or input 0 0 / 16 ≡ 6 = v.version ∙ simp six refl in
        let tcp : is_tcp_gso hdr ≡ true = simp k refl in
        let not_udp : (hdr.gso_type == virtio_net_hdr_gso_udp_l4) ≡ false = simp k refl in
        (
          tcp,
          not_udp,
          record {
            csum_room = omega (arith, tcp_facts tcp not_udp);
            not_none = simp k refl;
            known = simp k refl;
            fits = simp (k, n) refl;
            six = simp (n, six) refl;
          },
        )
    | inr four ↦
        let k : hdr.gso_type ≡ 1 = t ∙ simp four refl in
        let n : get_or input 0 0 / 16 ≡ 4 = v.version ∙ simp four refl in
        let tcp : is_tcp_gso hdr ≡ true = simp k refl in
        let not_udp : (hdr.gso_type == virtio_net_hdr_gso_udp_l4) ≡ false = simp k refl in
        (
          tcp,
          not_udp,
          record {
            csum_room = omega (arith, tcp_facts tcp not_udp);
            not_none = simp k refl;
            known = simp k refl;
            fits = simp (k, n) refl;
            six = simp (n, four) refl;
          },
        )
  ]

  read_gso-gso_split :
      (kernel_len : ℕ) (bs : List (List ℕ)) (ss : List ℕ) (offset : ℕ)
      → ((hdr.gso_type == 0) ≡ false)
        × (read_gso (record hdr { hdr_len = kernel_len }) input bs ss offset
            ≡ gso_split input hdr bs ss offset is_v6)
  read_gso-gso_split kernel_len bs ss offset = elim v.kind [
    | inl udp ↦
        let p = udp-Passes udp in
        (p.not_none, read_gso_lem kernel_len bs ss offset p (real_hdr_len-udp kernel_len udp))
    | inr tcp ↦
        let k = tcp_kind tcp in
        (
          k.2.not_none,
          read_gso_lem kernel_len bs ss offset k.2 (real_hdr_len-tcp kernel_len k.0 k.1),
        )
  ]

-- A TCP or UDP GSO frame whose headers end where the packet says is split with that header length,
-- whatever `hdr_len` the kernel gave, when there are at most 65535 buffers, no fewer size slots, and
-- the offset lies in each buffer.
pub handle_virtio_read-gso_split :
    (input : List ℕ) (hdr : VirtioNetHdr) (is_v6 : Bool)
    → IsReceived input hdr is_v6
    → (kernel_len : ℕ) (bs : List (List ℕ)) (ss : List ℕ) (offset : ℕ) → length bs ≤ length ss
    → length bs ≤ 0xFFFF
    → All (λ b. offset ≤ length b) bs
    → handle_virtio_read (record hdr { hdr_len = kernel_len }) input bs ss offset
      ≡ gso_split input hdr bs ss offset is_v6
unfolding handle_virtio_read
handle_virtio_read-gso_split input hdr is_v6 v kernel_len bs ss offset room few reach =
    let r = read_gso-gso_split input hdr is_v6 v kernel_len bs ss offset in
    simp
      (
        ltb-false (length ss) (length bs) room,
        leb-true (length bs) 0xFFFF few,
        all_reach-true offset bs reach,
        r.0,
      )
      r.1
