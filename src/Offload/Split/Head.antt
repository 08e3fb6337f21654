-- ===== src/Offload/Split/Head.antt =====
-- The frame that a round of the loop of `gso_split` reads, and the IP header that it writes.
use quincy_tun.Base.{
  ℕ, ◌+◌, ◌-◌, ◌/◌, ◌%◌, ◌^◌, ◌≤◌, ◌<◌, ◌≡◌, sym, ap, ◌∙◌, arith, List, length, Bool, true, false,
  not, ◌==◌, if◌then◌else◌,
}
use quincy_tun.Base.{
  take, drop, overwrite, Returns, Returns-mono, Returns-not, IsByte, IsBytes, get16, be16, All-take,
  All-overwrite, IsBytes-be16, write_u16-ok, length-overwrite, length-take, drop-overwrite,
  take-drop-overwrite, get16-overwrite, get16-take, drop_of_drop,
}
use quincy_tun.Checksum.{checksum}
use quincy_tun.Offload.{ipproto_tcp}
use quincy_tun.Offload.Split.{Frame, write_ipv4, write_ipv6}
use quincy_tun.Offload.Ipv4.{IsIpv4}
use quincy_tun.Offload.Split.Writes.{write_ipv4-IsIpv4}

abbrev pub is_tcp : Frame → Bool
is_tcp f = f.protocol == ipproto_tcp

-- What `gso_split` has established when its loop begins, for a header whose checksum offset is the
-- one of the transport protocol.
pub record IsFrame (f : Frame) : Type 0 where
  pub start_room : (if f.is_v6 then 40 else 20) ≤ f.hdr.csum_start
  pub transport_room : f.hdr.csum_start + (if is_tcp f then 20 else 8) ≤ f.hdr.hdr_len
  pub hdr_room : f.hdr.hdr_len ≤ length f.input
  pub hdr_word : f.hdr.hdr_len < 2 ^ 16
  pub gso_pos : 0 < f.hdr.gso_size
  pub csum_field : f.hdr.csum_offset ≡ (if is_tcp f then 16 else 6)
  pub bytes : IsBytes f.input
  pub small : length f.input < 2 ^ 16
  pub transport_cleared : get16 f.input (f.hdr.csum_start + f.hdr.csum_offset) ≡ 0
  pub ip_cleared : f.is_v6 ≡ false → get16 f.input 10 ≡ 0
  pub protocol_byte : f.protocol < 256
  pub src_bytes : IsBytes f.src
  pub dst_bytes : IsBytes f.dst
  pub src_len : length f.src ≤ 16
  pub dst_len : length f.dst ≤ 16

-- The IP header of segment `i`, written over the first bytes of `out`.
pub record IsHead (f : Frame) (i total : ℕ) (out o : List ℕ) : Type 0 where
  pub same_length : length o ≡ length out
  pub bytes : IsBytes o
  pub ipv4_sum : f.is_v6 ≡ false → checksum (take f.hdr.csum_start o) 0 ≡ 0xFFFF
  pub ipv4_len : f.is_v6 ≡ false → get16 o 2 ≡ total
  pub ipv4_id : f.is_v6 ≡ false → get16 o 4 ≡ (get16 f.input 4 + i) % 2 ^ 16
  pub ipv6_len : f.is_v6 ≡ true → get16 o 4 ≡ total - 40
  pub behind : drop f.hdr.csum_start o ≡ drop f.hdr.csum_start out

module _ (f : Frame) (v : IsFrame f) where
  open f use {input, hdr, is_v6}

  abbrev cs : ℕ
  cs = hdr.csum_start

  -- The IP header of the input, copied to the front of the output.
  abbrev pub copied : List ℕ → List ℕ
  copied out = overwrite out 0 (take cs input)

  get16-copied :
      (out : List ℕ) (j : ℕ) → cs ≤ length out → j + 2 ≤ cs → get16 (copied out) j ≡ get16 input j
  get16-copied out j h k =
      sym (get16-take cs (copied out) j k) ∙ ap (λ t. get16 t j) whole ∙ get16-take cs input j k
    where
      lt : length (take cs input) ≡ cs
      lt = omega (arith, length-take cs input, v.hdr_room, v.transport_room)

      whole : take cs (copied out) ≡ take cs input
      whole = rw lt at (take-drop-overwrite out 0 (take cs input) (omega (arith, lt)))

  length-copied : (out : List ℕ) → length (copied out) ≡ length out
  length-copied out = length-overwrite out 0 (take cs input)

  copied-IsBytes : (out : List ℕ) → IsBytes out → IsBytes (copied out)
  copied-IsBytes out hb =
      All-overwrite IsByte out 0 (take cs input) hb (All-take IsByte cs input v.bytes)

  drop-copied : (n : ℕ) (out : List ℕ) → cs ≤ n → drop n (copied out) ≡ drop n out
  drop-copied n out h =
      drop-overwrite n out 0 (take cs input) (omega (arith, length-take cs input, v.hdr_room))

  head6 :
      (i total : ℕ) (out : List ℕ)
      → is_v6 ≡ true
      → cs ≤ length out
      → IsBytes out
      → total < 2 ^ 16
      → Returns (write_ipv6 f total (copied out)) (IsHead f i total out)
  unfolding write_ipv6
  head6 i total out six h hb ht =
      let c = copied out in
      let b = be16 ((total - 40) % 2 ^ 16) in
      let room : 40 ≤ cs = rw six at v.start_room in
      rw (write_u16-ok c 4 ((total - 40) % 2 ^ 16) (omega (arith, length-copied out))) (record {
        same_length = length-overwrite c 4 b ∙ length-copied out;
        bytes = All-overwrite IsByte c 4 b (copied-IsBytes out hb) (IsBytes-be16 _);
        ipv4_sum = λ e. cc;
        ipv4_len = λ e. cc;
        ipv4_id = λ e. cc;
        ipv6_len = λ e.
            get16-overwrite c 4 ((total - 40) % 2 ^ 16 / 256 % 256) ((total - 40) % 2 ^ 16 % 256)
              (omega (arith, length-copied out))
            ∙ omega arith;
        behind = drop-overwrite cs c 4 b (omega arith) ∙ drop-copied cs out (omega arith);
      })

  head4 :
      (i total : ℕ) (out : List ℕ)
      → is_v6 ≡ false
      → cs ≤ length out
      → length out ≤ 2 ^ 31
      → IsBytes out
      → total < 2 ^ 16
      → Returns (write_ipv4 f i total (copied out)) (IsHead f i total out)
  head4 i total out four h hl hb ht =
      let room : 20 ≤ cs = rw four at v.start_room in
      let lc = length-copied out in
      Returns-mono _ (IsIpv4 cs i total (copied out)) _
        (write_ipv4-IsIpv4 f i total (copied out) room (omega (arith, lc)) (omega (arith, lc))
          (copied-IsBytes out hb) (get16-copied out 10 h (omega arith) ∙ v.ip_cleared four) ht)
        (λ o w. record {
          same_length = w.same_length ∙ lc;
          bytes = w.bytes;
          ipv4_sum = λ e. w.header_sum;
          ipv4_len = λ e. w.total_field;
          ipv4_id = λ e.
              w.id_field ∙ ap (λ (x : ℕ). (x + i) % 2 ^ 16) (get16-copied out 4 h (omega arith));
          ipv6_len = λ e. cc;
          behind =
              drop_of_drop 12 cs o (copied out) (omega arith) w.rest
              ∙ drop-copied cs out (omega arith);
        })

  pub write_ip-IsHead :
      (i total : ℕ) (out : List ℕ)
      → cs ≤ length out
      → length out ≤ 2 ^ 31
      → IsBytes out
      → total < 2 ^ 16
      → Returns
          (if not is_v6 then write_ipv4 f i total (copied out) else write_ipv6 f total (copied out))
          (IsHead f i total out)
  write_ip-IsHead i total out h hl hb ht =
      Returns-not is_v6 _ _ _ (λ six. head6 i total out six h hb ht)
        (λ four. head4 i total out four h hl hb ht)
