-- ===== src/Offload/Split/Start.antt =====
-- The transport header that a round of the loop of `gso_split` writes.
use quincy_tun.Base.{ℕ, ◌+◌, ◌-◌, ◌*◌, ◌%◌, ◌^◌, ◌≤◌, ◌≡◌, ◌∙◌, arith, List, length, true, false}
use quincy_tun.Base.{
  take, drop, overwrite, Returns, Returns-mono, IsByte, IsBytes, get16, get32, All-take, All-drop,
  All-overwrite, length-overwrite, length-take, length-drop, drop-overwrite, take-overwrite,
  get16-take, get16-drop, take_of_take, drop_of_drop, get16_of_drop, get16-overwrite_in,
}
use quincy_tun.Offload.Split.{Frame, write_tcp, write_udp, segment_data_len, transport_csum_at}
use quincy_tun.Offload.Split.Writes.{IsTcp, IsUdp, write_tcp-IsTcp, write_udp-IsUdp}
use quincy_tun.Offload.Split.Head.{is_tcp, IsFrame}

module _ (f : Frame) (v : IsFrame f) where
  open f use {input, hdr, is_v6}

  abbrev cs : ℕ
  cs = hdr.csum_start

  -- The transport header of the input, copied behind the IP header.
  abbrev pub copied_transport : List ℕ → List ℕ
  copied_transport out = overwrite out cs (take (hdr.hdr_len - cs) (drop cs input))

  -- The packet up to its payload, the checksum field still cleared.
  pub record IsStart (at i : ℕ) (out o : List ℕ) : Type 0 where
    pub same_length : length o ≡ length out
    pub bytes : IsBytes o
    pub front : take cs o ≡ take cs out
    pub behind : drop hdr.hdr_len o ≡ drop hdr.hdr_len out
    pub cleared : get16 o (transport_csum_at f) ≡ 0
    pub tcp_seq :
        is_tcp f ≡ true
        → get32 o (cs + 4) ≡ (f.first_tcp_seq_num + hdr.gso_size * i % 2 ^ 32) % 2 ^ 32
    pub udp_len :
        is_tcp f ≡ false → get16 o (cs + 4) ≡ (segment_data_len f at + (hdr.hdr_len - cs)) % 2 ^ 16

  pub length-transport : length (take (hdr.hdr_len - cs) (drop cs input)) ≡ hdr.hdr_len - cs
  length-transport =
      omega
        (arith, length-take (hdr.hdr_len - cs) (drop cs input), length-drop cs input, v.hdr_room)

  cleared_copied :
      (out : List ℕ)
      → hdr.hdr_len ≤ length out
      → hdr.csum_offset + 2 ≤ hdr.hdr_len - cs
      → get16 (copied_transport out) (transport_csum_at f) ≡ 0
  cleared_copied out h k =
      let src = take (hdr.hdr_len - cs) (drop cs input) in
      get16-overwrite_in out cs src hdr.csum_offset (omega (arith, length-transport))
        (omega (arith, length-transport))
      ∙ get16-take (hdr.hdr_len - cs) (drop cs input) hdr.csum_offset k
      ∙ get16-drop cs input hdr.csum_offset
      ∙ v.transport_cleared

  transport-IsBytes : (out : List ℕ) → IsBytes out → IsBytes (copied_transport out)
  transport-IsBytes out hb =
      All-overwrite IsByte out cs _ hb
        (All-take IsByte (hdr.hdr_len - cs) (drop cs input) (All-drop IsByte cs input v.bytes))

  pub write_tcp-IsStart :
      (at i : ℕ) (out : List ℕ)
      → is_tcp f ≡ true
      → hdr.hdr_len ≤ length out
      → IsBytes out
      → Returns (write_tcp f at i (copied_transport out)) (IsStart at i out)
  write_tcp-IsStart at i out e h hb =
      let c = copied_transport out in
      let src = take (hdr.hdr_len - cs) (drop cs input) in
      let lc = length-overwrite out cs src in
      let room : cs + 20 ≤ hdr.hdr_len = rw e at v.transport_room in
      let off : hdr.csum_offset ≡ 16 = rw e at v.csum_field in
      Returns-mono _ (IsTcp cs _ _ c) _
        (write_tcp-IsTcp f at i c (omega (arith, v.hdr_word)) (omega arith)
          (transport-IsBytes out hb))
        (λ o w. record {
          same_length = w.same_length ∙ lc;
          bytes = w.bytes;
          front =
              take_of_take cs (cs + 4) o c (omega arith) w.before
              ∙ take-overwrite cs out cs src (omega arith);
          behind =
              drop_of_drop (cs + 14) hdr.hdr_len o c (omega arith) w.after
              ∙ drop-overwrite hdr.hdr_len out cs src (omega (arith, length-transport));
          cleared =
              get16_of_drop (cs + 14) o c (transport_csum_at f) (omega arith) w.after
              ∙ cleared_copied out h (omega arith);
          tcp_seq = λ _. w.seq_field;
          udp_len = λ e'. cc;
        })

  pub write_udp-IsStart :
      (at i : ℕ) (out : List ℕ)
      → is_tcp f ≡ false
      → hdr.hdr_len ≤ length out
      → IsBytes out
      → Returns (write_udp f at (copied_transport out)) (IsStart at i out)
  write_udp-IsStart at i out e h hb =
      let c = copied_transport out in
      let src = take (hdr.hdr_len - cs) (drop cs input) in
      let lc = length-overwrite out cs src in
      let room : cs + 8 ≤ hdr.hdr_len = rw e at v.transport_room in
      let off : hdr.csum_offset ≡ 6 = rw e at v.csum_field in
      Returns-mono _ (IsUdp cs _ c) _
        (write_udp-IsUdp f at c (omega (arith, v.hdr_word)) (omega arith)
          (transport-IsBytes out hb))
        (λ o w. record {
          same_length = w.same_length ∙ lc;
          bytes = w.bytes;
          front =
              take_of_take cs (cs + 4) o c (omega arith) w.before
              ∙ take-overwrite cs out cs src (omega arith);
          behind =
              drop_of_drop (cs + 6) hdr.hdr_len o c (omega arith) w.after
              ∙ drop-overwrite hdr.hdr_len out cs src (omega (arith, length-transport));
          cleared =
              get16_of_drop (cs + 6) o c (transport_csum_at f) (omega arith) w.after
              ∙ cleared_copied out h (omega arith);
          tcp_seq = λ e'. cc;
          udp_len = λ _. w.len_field;
        })
