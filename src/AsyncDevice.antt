-- ===== src/AsyncDevice.antt =====
-- src/async_device/unix/mod.rs: the batch operations of `AsyncDevice`, which repeat those of the
-- device with a `recv` and a `send` that wait. What an awaited call gives is a parameter.
pub mod Poll
use quincy_tun.Base.{
  ℕ, zero, suc, ◌+◌, ◌-◌, ◌≤◌, ◌≡◌, refl, List, [], ◌∷◌, ◌++◌, Bool, true, false, not, ◌||◌, ltb,
  leb, ◌==◌, if◌then◌else◌, Option, none, some, Bool-cases, inl, inr, Outcome, ok, err, panic,
  ErrorKind, invalid_input, other, ◌>>=◌, ◌>>◌, guard, length, slice, write_at,
}
use quincy_tun.Offload.{Endian, decode, virtio_net_hdr_len}
use quincy_tun.Offload.Split.{Split}
use quincy_tun.Gro.{Buf, sub_usize}
use quincy_tun.Gro.Handle.{GroTable, reset_gro, handle_gro}
use quincy_tun.Device.{
  DeviceImpl, ReadResult, handle_virtio_read, recv_multiple0, send_multiple0, write_all, indices,
  Sent,
}

-- `recv` gives the bytes that were read into a room of the given length.
pub recv_multiple :
    Endian → DeviceImpl → (ℕ → ReadResult) → List ℕ → List (List ℕ) → List ℕ → ℕ → Outcome Split
recv_multiple e tun recv original_buffer bufs sizes offset = do
  guard (not (length bufs == 0 || not (length bufs == length sizes))) other
  guard (leb (length bufs) 0xFFFF) invalid_input
  if tun.vnet_hdr
      then (do
        got ← recv (length original_buffer)
        buffer ← write_at original_buffer 0 got
        guard (not (leb (length got) virtio_net_hdr_len)) other
        front ← slice 0 virtio_net_hdr_len buffer
        hdr ← decode e front
        input ← slice virtio_net_hdr_len (length got) buffer
        handle_virtio_read hdr input bufs sizes offset)
      else elim bufs [
        | [] ↦ panic
        | first ∷ rest ↦ elim sizes [
          | [] ↦ panic
          | _ ∷ sizes' ↦
              guard (leb offset (length first)) invalid_input
              >> (recv (length first - offset) >>= λ got. write_at first offset got >>= λ filled.
                  ok (record {
                    count = 1;
                    input = original_buffer;
                    out_bufs = filled ∷ rest;
                    sizes = length got ∷ sizes';
                  }))
        ]
      ]

-- `send` gives the result of the write of one packet, after as many as its first argument says.
pub send_multiple : Endian → DeviceImpl → (ℕ → List ℕ → Outcome ℕ) → GroTable → List Buf → ℕ → Sent
send_multiple e tun send gro_table bufs offset =
    let fresh = reset_gro gro_table in
    if length bufs == 0
    then record { result = ok 0; written = [] }
    else if ltb 0xFFFF (length bufs)
    then record { result = err invalid_input; written = [] }
    else if tun.vnet_hdr
    then elim (handle_gro e offset tun.udp_gso (record {
      bufs = bufs;
      tcp_table = fresh.tcp_gro_table;
      udp_table = fresh.udp_gro_table;
      to_write = fresh.to_write;
    })) [
      | ok g ↦ write_all send g.bufs (sub_usize offset virtio_net_hdr_len) g.to_write 0 none []
      | err k ↦ record { result = err k; written = [] }
      | panic ↦ record { result = panic; written = [] }
    ]
    else write_all send bufs offset (indices (length bufs) 0) 0 none []

guarded_twice :
    {A : Type 0} (b c : Bool) (k : ErrorKind) (m : Outcome A)
    → (guard b other >> (guard c k >> m))
      ≡ (if c then (guard b other >> m) else (guard b other >> err k))
guarded_twice true true k m = refl
guarded_twice true false k m = refl
guarded_twice false true k m = refl
guarded_twice false false k m = refl

-- With waiting calls in the place of its own, a batch operation of the device gives what that of the
-- async device gives, but for a receive into more than 65535 buffers: the async device refuses it
-- before anything is read.
pub multiple-multiple0 :
    (e : Endian) (dev : DeviceImpl) (recv : ℕ → ReadResult) (send : ℕ → List ℕ → Outcome ℕ)
    (t : GroTable) (original_buffer : List ℕ) (bufs : List (List ℕ)) (sizes : List ℕ)
    (pkts : List Buf) (offset : ℕ)
    → (recv_multiple e dev recv original_buffer bufs sizes offset ≡ (
        if leb (length bufs) 0xFFFF
        then recv_multiple0 e dev recv original_buffer bufs sizes offset
        else (guard (not (length bufs == 0 || not (length bufs == length sizes))) other
            >> err invalid_input)))
      × (send_multiple e dev send t pkts offset ≡ send_multiple0 e dev send t pkts offset)
unfolding recv_multiple recv_multiple0 send_multiple send_multiple0
multiple-multiple0 e dev recv send t original_buffer bufs sizes pkts offset = (
  guarded_twice (not (length bufs == 0 || not (length bufs == length sizes)))
      (leb (length bufs) 0xFFFF) invalid_input _,
  refl,
)
