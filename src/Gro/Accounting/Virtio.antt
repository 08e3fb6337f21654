-- ===== src/Gro/Accounting/Virtio.antt =====
-- The virtio-net header in front of a packet.
use quincy_tun.Base.{
  ℕ, ◌+◌, ◌-◌, ◌^◌, ◌≤◌, ◌<◌, ◌≡◌, sym, ap, ◌∙◌, arith, List, ◌++◌, length, ok, take, drop, Returns,
  Returns-bind, slice_from-ok, length-take, length-drop, length-append, drop-length-append,
  take-length-append, drop-drop,
}
use quincy_tun.Offload.{VirtioNetHdr, Endian, decode, encode, virtio_net_hdr_len}
use quincy_tun.Offload.Header.{IsHdr, decode-encode}
use quincy_tun.Gro.{sub_usize}
use quincy_tun.Gro.Accounting.{put_hdr}

-- `o` is `buf` with the header `h` in the ten bytes before `offset`.
pub record HasHdr (e : Endian) (h : VirtioNetHdr) (offset : ℕ) (buf o : List ℕ) : Type 0 where
  pub header : decode e (drop (offset - virtio_net_hdr_len) o) ≡ ok h
  pub front : take (offset - virtio_net_hdr_len) o ≡ take (offset - virtio_net_hdr_len) buf
  pub packet : drop offset o ≡ drop offset buf
  pub same_length : length o ≡ length buf

-- A header with its fields in range goes into the ten bytes before the packet, and nothing else
-- changes, when those bytes lie in the buffer.
pub put_hdr-HasHdr :
    (e : Endian) (h : VirtioNetHdr) (offset : ℕ) (buf : List ℕ)
    → IsHdr h
    → virtio_net_hdr_len ≤ offset
    → offset < 2 ^ 64
    → offset ≤ length buf
    → Returns (put_hdr e h offset buf) (HasHdr e h offset buf)
unfolding put_hdr
put_hdr-HasHdr e h offset buf v low wide room =
    let at = offset - virtio_net_hdr_len in
    let ea : sub_usize offset virtio_net_hdr_len ≡ at = omega arith in
    let lt : length (take at buf) ≡ at = omega (arith, length-take at buf) in
    rw (ea, slice_from-ok at buf (omega arith))
      (Returns-bind (encode e h (drop at buf)) (λ encoded. ok (take at buf ++ encoded)) _
        (HasHdr e h offset buf)
        (decode-encode e h (drop at buf) v (omega (arith, length-drop at buf)))
        (λ o r.
          let d : drop at (take at buf ++ o) ≡ o = rw lt at (drop-length-append (take at buf) o) in
          let t : take at (take at buf ++ o) ≡ take at buf =
            rw lt at (take-length-append (take at buf) o) in
          let eo : at + virtio_net_hdr_len ≡ offset = omega arith in
          let after : (b : List ℕ) → drop offset b ≡ drop virtio_net_hdr_len (drop at b) =
            λ b. sym (drop-drop virtio_net_hdr_len at b ∙ ap (λ k. drop k b) eo) in
          record {
            header = rw d r.0;
            front = t;
            packet =
                after (take at buf ++ o) ∙ ap (drop virtio_net_hdr_len) d ∙ r.2 ∙ sym (after buf);
            same_length = omega (arith, length-append (take at buf) o, lt, r.1, length-drop at buf);
          }))
