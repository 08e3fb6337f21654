-- ===== src/Device.antt =====
-- The batch operations of src/platform/linux/device.rs: `recv_multiple0` with `handle_virtio_read`,
-- and `send_multiple0`. The file descriptor enters as a parameter.
pub mod Receive
pub mod Send
use quincy_tun.Base.{
  ℕ, zero, suc, ◌+◌, ◌-◌, ◌*◌, ◌/◌, ◌%◌, ◌^◌, List, [], ◌∷◌, ◌++◌, Bool, true, false, not, ◌&&◌,
  ◌||◌, ltb, leb, ◌==◌, if◌then◌else◌, Option, none, some,
}
use quincy_tun.Base.{
  Outcome, ok, err, panic, ErrorKind, invalid_input, other, os, ◌>>=◌, ◌>>◌, guard, length,
  get_elem?, byte_at, slice, slice_from, write_at, drop,
}
use quincy_tun.Offload.{
  VirtioNetHdr, Endian, decode, virtio_net_hdr_len, virtio_net_hdr_gso_none,
  virtio_net_hdr_gso_tcpv4, virtio_net_hdr_gso_tcpv6, virtio_net_hdr_gso_udp_l4, gso_none_checksum,
}
use quincy_tun.Offload.Split.{Split, gso_split}
use quincy_tun.Gro.{Buf, sub_usize}
use quincy_tun.Gro.Handle.{GroTable, reset_gro, handle_gro}

-- The transport header length, read from the packet: the kernel's `hdr_len` is not relied on.
unfoldable pub real_hdr_len : VirtioNetHdr → List ℕ → Outcome ℕ
real_hdr_len hdr input =
    if hdr.gso_type == virtio_net_hdr_gso_udp_l4 then ok ((hdr.csum_start + 8) % 2 ^ 16) else (do
      guard (not (leb (length input) (hdr.csum_start + 12))) other
      data_offset ← byte_at input (hdr.csum_start + 12)
      let tcp_h_len = data_offset / 16 * 4
      guard (leb 20 tcp_h_len && leb tcp_h_len 60) other
      ok ((hdr.csum_start + tcp_h_len) % 2 ^ 16))

-- The IP version against the GSO type.
unfoldable pub version_fits : ℕ → ℕ → Bool
version_fits ip_version gso_type =
    if ip_version == 4
    then gso_type == virtio_net_hdr_gso_tcpv4 || gso_type == virtio_net_hdr_gso_udp_l4
    else if ip_version == 6
    then gso_type == virtio_net_hdr_gso_tcpv6 || gso_type == virtio_net_hdr_gso_udp_l4
    else false

all_reach : ℕ → List (List ℕ) → Bool
all_reach offset [] = true
all_reach offset (b ∷ bs) = leb offset (length b) && all_reach offset bs

-- A packet that is no GSO frame goes to the first buffer.
unfoldable pub read_plain : VirtioNetHdr → List ℕ → List (List ℕ) → List ℕ → ℕ → Outcome Split
read_plain hdr input bufs sizes offset = do
  packet ←
      if not (hdr.flags % 2 == 0)
      then gso_none_checksum input hdr.csum_start hdr.csum_offset
      else ok input
  elim bufs [
    | [] ↦ panic
    | first ∷ rest ↦ elim sizes [
      | [] ↦ slice_from offset first >>= λ room.
          guard (not (ltb (length room) (length input))) other >> panic
      | _ ∷ sizes' ↦ slice_from offset first >>= λ room.
          guard (not (ltb (length room) (length input))) other
          >> (write_at first offset packet >>= λ filled. ok (record {
            count = 1;
            input = packet;
            out_bufs = filled ∷ rest;
            sizes = length input ∷ sizes';
          }))
    ]
  ]

-- A GSO frame is split.
unfoldable pub read_gso : VirtioNetHdr → List ℕ → List (List ℕ) → List ℕ → ℕ → Outcome Split
read_gso hdr0 input bufs sizes offset = do
  guard (not (hdr0.gso_size == 0)) invalid_input
  guard
      (hdr0.gso_type == virtio_net_hdr_gso_tcpv4
        || (hdr0.gso_type == virtio_net_hdr_gso_tcpv6
            || hdr0.gso_type == virtio_net_hdr_gso_udp_l4))
      other
  first ← byte_at input 0
  let ip_version = first / 16
  guard (version_fits ip_version hdr0.gso_type) other
  hdr_len ← real_hdr_len hdr0 input
  let hdr : VirtioNetHdr = record hdr0 { hdr_len = hdr_len }
  guard (not (ltb (length input) hdr.hdr_len)) other
  guard (not (ltb hdr.hdr_len hdr.csum_start)) other
  guard (ltb (hdr.csum_start + hdr.csum_offset + 1) (length input)) other
  gso_split input hdr bufs sizes offset (ip_version == 6)

unfoldable pub handle_virtio_read :
    VirtioNetHdr → List ℕ → List (List ℕ) → List ℕ → ℕ → Outcome Split
unfolding all_reach
handle_virtio_read hdr input bufs sizes offset = do
  guard (not (ltb (length sizes) (length bufs))) other
  guard (leb (length bufs) 0xFFFF) invalid_input
  guard (all_reach offset bufs) invalid_input
  if hdr.gso_type == virtio_net_hdr_gso_none
      then read_plain hdr input bufs sizes offset
      else read_gso hdr input bufs sizes offset

-- `DeviceImpl` without its descriptor and lock.
pub record DeviceImpl : Type 0 where
  pub vnet_hdr : Bool
  pub udp_gso : Bool

-- What a read gives: the bytes that the descriptor put into the buffer, or an error.
abbrev pub ReadResult : Type 0
ReadResult = Outcome (List ℕ)

-- `recv_multiple0`, for a read that fills the front of the buffer it is given: `read_f` maps the
-- room to the bytes read.
unfoldable pub recv_multiple0 :
    Endian → DeviceImpl → (ℕ → ReadResult) → List ℕ → List (List ℕ) → List ℕ → ℕ → Outcome Split
recv_multiple0 e dev read_f original_buffer bufs sizes offset = do
  guard (not (length bufs == 0 || not (length bufs == length sizes))) other
  if dev.vnet_hdr
      then (do
        got ← read_f (length original_buffer)
        buffer ← write_at original_buffer 0 got
        guard (not (leb (length got) virtio_net_hdr_len)) other
        front ← slice 0 virtio_net_hdr_len buffer
        hdr ← decode e front
        input ← slice virtio_net_hdr_len (length got) buffer
        handle_virtio_read hdr input bufs sizes offset)
      else elim bufs [
        | [] ↦ panic
        | first ∷ rest ↦ elim sizes [
          | [] ↦ panic
          | _ ∷ sizes' ↦
              guard (leb offset (length first)) invalid_input
              >> (read_f (length first - offset) >>= λ got. write_at first offset got >>= λ filled.
                  ok (record {
                    count = 1;
                    input = original_buffer;
                    out_bufs = filled ∷ rest;
                    sizes = length got ∷ sizes';
                  }))
        ]
      ]

-- `EBADFD`: the descriptor is gone, and the batch is given up.
abbrev pub ebadfd : ℕ
ebadfd = 77

abbrev pub is_ebadfd : ErrorKind → Bool
is_ebadfd (os n) = n == ebadfd
is_ebadfd _ = false

-- What a send of a batch hands back: the result of the call, and the packets that went to the
-- descriptor, in order.
pub record Sent : Type 0 where
  pub result : Outcome ℕ
  pub written : List (List ℕ)

-- The loop over `to_write`. Errors but `EBADFD` do not stop it; the last one is the result.
module _ (write_f : ℕ → List ℕ → Outcome ℕ) (bufs : List Buf) (offset : ℕ) where
  pub write_all : List ℕ → ℕ → Option ErrorKind → List (List ℕ) → Sent
  write_all [] total failed written = record {
    result = elim failed [ none ↦ ok total | some e ↦ err e ];
    written = written;
  }
  write_all (i ∷ is) total failed written = elim (get_elem? bufs i) [
    | none ↦ record { result = panic; written = written }
    | some buf ↦ elim (leb offset (length buf.bytes)) [
      | false ↦ record { result = err invalid_input; written = written }
      | true ↦
          let pkt = drop offset buf.bytes in
          elim (write_f (length written) pkt) [
            | ok n ↦ write_all is (total + n) failed (written ++ pkt ∷ [])
            | err e ↦ elim (is_ebadfd e) [
              | true ↦ record { result = err e; written = written ++ pkt ∷ [] }
              | false ↦ write_all is total (some e) (written ++ pkt ∷ [])
            ]
            | panic ↦ record { result = panic; written = written ++ pkt ∷ [] }
          ]
    ]
  ]

abbrev pub indices : ℕ → ℕ → List ℕ
indices zero i = []
indices (suc n) i = i ∷ indices n (i + 1)

unfoldable pub send_multiple0 :
    Endian → DeviceImpl → (ℕ → List ℕ → Outcome ℕ) → GroTable → List Buf → ℕ → Sent
unfolding write_all
send_multiple0 e dev write_f gro_table bufs offset =
    let fresh = reset_gro gro_table in
    if length bufs == 0
    then record { result = ok 0; written = [] }
    else if ltb 0xFFFF (length bufs)
    then record { result = err invalid_input; written = [] }
    else if dev.vnet_hdr
    then elim (handle_gro e offset dev.udp_gso (record {
      bufs = bufs;
      tcp_table = fresh.tcp_gro_table;
      udp_table = fresh.udp_gro_table;
      to_write = fresh.to_write;
    })) [
      | ok g ↦ write_all write_f g.bufs (sub_usize offset virtio_net_hdr_len) g.to_write 0 none []
      | err k ↦ record { result = err k; written = [] }
      | panic ↦ record { result = panic; written = [] }
    ]
    else write_all write_f bufs offset (indices (length bufs) 0) 0 none []
