-- ===== src/Offload/Header.antt =====
-- The virtio-net header: encode and decode.
use quincy_tun.Base.{
  ℕ, ◌^◌, ◌≤◌, ◌<◌, ◌≡◌, arith, List, ◌∷◌, length, take, ok, ◌>>=◌, drop, overwrite, write_at,
  overwrite-nil, Returns, IsBytes, ltb-false, write_at-ok, length-overwrite, drop-overwrite,
}
use quincy_tun.Offload.{
  VirtioNetHdr, Endian, little, big, decode, encode, hdr_bytes, virtio_net_hdr_len,
}

-- The fields lie in the ranges of their types.
pub record IsHdr (h : VirtioNetHdr) : Type 0 where
  pub flags_byte : h.flags < 256
  pub gso_type_byte : h.gso_type < 256
  pub hdr_len_word : h.hdr_len < 2 ^ 16
  pub gso_size_word : h.gso_size < 2 ^ 16
  pub csum_start_word : h.csum_start < 2 ^ 16
  pub csum_offset_word : h.csum_offset < 2 ^ 16

overwrite_ten :
    (e : Endian) (h : VirtioNetHdr) (b : List ℕ)
    → virtio_net_hdr_len ≤ length b
    → IsHdr h
    → decode e (overwrite b 0 (hdr_bytes e h)) ≡ ok h
unfolding decode overwrite
overwrite_ten little h (x0 ∷ x1 ∷ x2 ∷ x3 ∷ x4 ∷ x5 ∷ x6 ∷ x7 ∷ x8 ∷ x9 ∷ r) k v = ground arith
overwrite_ten big h (x0 ∷ x1 ∷ x2 ∷ x3 ∷ x4 ∷ x5 ∷ x6 ∷ x7 ∷ x8 ∷ x9 ∷ r) k v = ground arith
overwrite_ten e h b k v = absurd (omega arith)

-- A header with its fields in the range of their types that is encoded into a buffer with room for it is decoded again, in either byte order,
-- and the bytes behind it stay.
pub decode-encode :
    (e : Endian) (h : VirtioNetHdr) (b : List ℕ)
    → IsHdr h
    → virtio_net_hdr_len ≤ length b
    → Returns (encode e h b) (λ o.
      (decode e o ≡ ok h)
      × (length o ≡ length b)
      × (drop virtio_net_hdr_len o ≡ drop virtio_net_hdr_len b))
unfolding encode
decode-encode little h b v k =
    rw (ltb-false (length b) 10 k, write_at-ok b 0 (hdr_bytes little h) k)
      (overwrite_ten little h b k v, length-overwrite b 0 _, drop-overwrite 10 b 0 _ (omega arith))
decode-encode big h b v k =
    rw (ltb-false (length b) 10 k, write_at-ok b 0 (hdr_bytes big h) k)
      (overwrite_ten big h b k v, length-overwrite b 0 _, drop-overwrite 10 b 0 _ (omega arith))

-- Decoding loses nothing: the header read from a buffer of at least ten bytes encodes to the same buffer.
pub encode-decode :
    (e : Endian) (b : List ℕ)
    → IsBytes b
    → virtio_net_hdr_len ≤ length b
    → (decode e b >>= λ h. encode e h b) ≡ ok b
unfolding decode encode write_at overwrite
encode-decode little (x0 ∷ x1 ∷ x2 ∷ x3 ∷ x4 ∷ x5 ∷ x6 ∷ x7 ∷ x8 ∷ x9 ∷ r) v k =
    ground (arith, overwrite-nil r 0)
encode-decode big (x0 ∷ x1 ∷ x2 ∷ x3 ∷ x4 ∷ x5 ∷ x6 ∷ x7 ∷ x8 ∷ x9 ∷ r) v k =
    ground (arith, overwrite-nil r 0)
encode-decode e b v k = absurd (omega arith)

-- The header is read from the first ten bytes.
pub decode-take :
    (e : Endian) (b : List ℕ)
    → virtio_net_hdr_len ≤ length b
    → decode e (take virtio_net_hdr_len b) ≡ decode e b
unfolding decode
decode-take e (x0 ∷ x1 ∷ x2 ∷ x3 ∷ x4 ∷ x5 ∷ x6 ∷ x7 ∷ x8 ∷ x9 ∷ r) k = ground arith
decode-take e b k = absurd (omega arith)
