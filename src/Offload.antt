-- ===== src/Offload.antt =====
-- src/platform/linux/offload.rs, the parts that are about one packet: the virtio-net header, the
-- checksum of a packet that is no GSO frame, and which packets may be coalesced at all.
pub mod Header
pub mod Plain
pub mod Ipv4
pub mod Split
use quincy_tun.Base.{
  ℕ, zero, suc, ◌+◌, ◌-◌, ◌*◌, ◌/◌, ◌%◌, ◌^◌, ◌≡◌, List, [], ◌∷◌, ◌++◌, Bool, true, false, not,
  ◌&&◌, ltb, leb, ◌==◌, if◌then◌else◌,
}
use quincy_tun.Base.{
  Outcome, ok, err, panic, ◌>>=◌, ◌>>◌, guard, invalid_input, length, get_or, byte_at, slice_from,
  read_u16, write_u16, write_at, clear_u16, take,
}
use quincy_tun.Checksum.{checksum, not_u16}

abbrev pub virtio_net_hdr_gso_none : ℕ
virtio_net_hdr_gso_none = 0

abbrev pub virtio_net_hdr_f_needs_csum : ℕ
virtio_net_hdr_f_needs_csum = 1

abbrev pub virtio_net_hdr_gso_tcpv4 : ℕ
virtio_net_hdr_gso_tcpv4 = 1

abbrev pub virtio_net_hdr_gso_tcpv6 : ℕ
virtio_net_hdr_gso_tcpv6 = 4

abbrev pub virtio_net_hdr_gso_udp_l4 : ℕ
virtio_net_hdr_gso_udp_l4 = 5

abbrev pub tcp_flags_offset : ℕ
tcp_flags_offset = 13

abbrev pub tcp_flag_fin : ℕ
tcp_flag_fin = 0x01

abbrev pub tcp_flag_psh : ℕ
tcp_flag_psh = 0x08

abbrev pub tcp_flag_ack : ℕ
tcp_flag_ack = 0x10

abbrev pub udp_h_len : ℕ
udp_h_len = 8

abbrev pub ipv4_src_addr_offset : ℕ
ipv4_src_addr_offset = 12

abbrev pub ipv6_src_addr_offset : ℕ
ipv6_src_addr_offset = 8

-- `IPPROTO_TCP` and `IPPROTO_UDP` of libc
abbrev pub ipproto_tcp : ℕ
ipproto_tcp = 6

abbrev pub ipproto_udp : ℕ
ipproto_udp = 17

-- `#[repr(C)]`: two bytes and four `u16`, with no padding.
pub record VirtioNetHdr : Type 0 where
  pub flags : ℕ
  pub gso_type : ℕ
  pub hdr_len : ℕ
  pub gso_size : ℕ
  pub csum_start : ℕ
  pub csum_offset : ℕ

-- `size_of::<VirtioNetHdr>()`
abbrev pub virtio_net_hdr_len : ℕ
virtio_net_hdr_len = 10

-- `VirtioNetHdr::default()`
abbrev pub default_hdr : VirtioNetHdr
default_hdr = record {
  flags = 0;
  gso_type = 0;
  hdr_len = 0;
  gso_size = 0;
  csum_start = 0;
  csum_offset = 0;
}

-- The byte order of the machine: the header's `u16` fields are copied as they lie in memory.
pub data Endian : Type 0 where
  little big : Endian

abbrev pub ne16 : Endian → ℕ → List ℕ
ne16 little v = v % 256 ∷ v / 256 % 256 ∷ []
ne16 big v = v / 256 % 256 ∷ v % 256 ∷ []

abbrev pub of_ne16 : Endian → ℕ → ℕ → ℕ
of_ne16 little x y = y * 256 + x
of_ne16 big x y = x * 256 + y

abbrev pub hdr_bytes : Endian → VirtioNetHdr → List ℕ
hdr_bytes e h =
    h.flags
    ∷ h.gso_type
    ∷ (ne16 e h.hdr_len ++ (ne16 e h.gso_size ++ (ne16 e h.csum_start ++ ne16 e h.csum_offset)))

abbrev hdr_of_bytes : Endian → List ℕ → VirtioNetHdr
hdr_of_bytes e b = record {
  flags = get_or b 0 0;
  gso_type = get_or b 1 0;
  hdr_len = of_ne16 e (get_or b 2 0) (get_or b 3 0);
  gso_size = of_ne16 e (get_or b 4 0) (get_or b 5 0);
  csum_start = of_ne16 e (get_or b 6 0) (get_or b 7 0);
  csum_offset = of_ne16 e (get_or b 8 0) (get_or b 9 0);
}

unfoldable pub decode : Endian → List ℕ → Outcome VirtioNetHdr
decode e buf =
    if ltb (length buf) virtio_net_hdr_len then err invalid_input else ok (hdr_of_bytes e buf)

unfoldable pub encode : Endian → VirtioNetHdr → List ℕ → Outcome (List ℕ)
encode e h buf =
    if ltb (length buf) virtio_net_hdr_len
    then err invalid_input
    else write_at buf 0 (hdr_bytes e h)

-- `usize` is 64 bits wide, so `csum_at.checked_add(2)` of two `u16` is never `none`.
unfoldable pub gso_none_checksum : List ℕ → ℕ → ℕ → Outcome (List ℕ)
gso_none_checksum in_buf csum_start csum_offset = do
  let csum_at = csum_start + csum_offset
  guard (leb csum_start (length in_buf) && leb (csum_at + 2) (length in_buf)) invalid_input
  initial ← read_u16 in_buf csum_at
  cleared ← clear_u16 in_buf csum_at
  region ← slice_from csum_start cleared
  write_u16 cleared csum_at (not_u16 (checksum region initial))

pub data GroCandidateType : Type 0 where
  not_gro tcp4_gro tcp6_gro udp4_gro udp6_gro : GroCandidateType

-- The first test keeps every index below the length.
unfoldable pub packet_is_gro_candidate : List ℕ → Bool → GroCandidateType
packet_is_gro_candidate b can_udp_gro =
    if ltb (length b) 28
    then not_gro
    else if get_or b 0 0 / 16 == 4
    then (if not (get_or b 0 0 % 16 == 5)
        then not_gro
        else if get_or b 9 0 == 6 && leb 40 (length b)
        then tcp4_gro
        else if get_or b 9 0 == 17 && can_udp_gro
        then udp4_gro
        else not_gro)
    else if get_or b 0 0 / 16 == 6
    then (if get_or b 6 0 == 6 && leb 60 (length b)
        then tcp6_gro
        else if get_or b 6 0 == 17 && (leb 48 (length b) && can_udp_gro)
        then udp6_gro
        else not_gro)
    else not_gro
