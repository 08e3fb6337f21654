-- ===== src/Offload/Split/Writes.antt =====
-- What the single writes of a round do to the output buffer, and that none of them panics.
use quincy_tun.Base.{
  ℕ, ◌+◌, ◌-◌, ◌*◌, ◌/◌, ◌%◌, ◌^◌, ◌≤◌, ◌<◌, ◌≡◌, ap, ◌∙◌, arith, List, [], ◌∷◌, length, Bool, ltb,
  if◌then◌else◌, Bool-cases, inl, inr,
}
use quincy_tun.Base.{
  take, drop, overwrite, Returns, Returns-mono, IsByte, IsBytes, get16, be16, All-overwrite,
  IsBytes-be16, write_u16-ok, read_u16-ok, length-overwrite, drop-overwrite, get16-overwrite,
  get16-overwrite_ge,
}
use quincy_tun.Base.{
  get32, be32, get_or, bit_and, get_or-lt, get_or-overwrite_ge, get_or-overwrite_in, clear_flags-lt,
  IsBytes-be32, get32-overwrite, get32-overwrite_lt, take-overwrite, write_u32-ok, write_at-ok,
  byte_at-ok, ◌==◌,
}
use quincy_tun.Offload.Ipv4.{IsIpv4, finish-IsIpv4}
use quincy_tun.Offload.Split.{Frame, write_ipv4, write_tcp, write_udp, segment_data_len}

module _ (f : Frame) where
  open f use {hdr}

  -- The identification goes up by the number of the segment.
  pub write_ipv4-IsIpv4 :
      (i total : ℕ) (out : List ℕ)
      → 20 ≤ hdr.csum_start
      → hdr.csum_start ≤ length out
      → length out ≤ 2 ^ 31
      → IsBytes out
      → get16 out 10 ≡ 0
      → total < 2 ^ 16
      → Returns (write_ipv4 f i total out) (IsIpv4 hdr.csum_start i total out)
  unfolding write_ipv4
  write_ipv4-IsIpv4 i total out h20 hcs hl hb hz ht = elim (Bool-cases (ltb 0 i)) [
    | inr zero_i ↦ rw zero_i (
        Returns-mono _ (IsIpv4 hdr.csum_start 0 total out) _
          (finish-IsIpv4 hdr.csum_start total out h20 hcs hl hb hz ht)
          (λ o v. record {
            same_length = v.same_length;
            bytes = v.bytes;
            total_field = v.total_field;
            id_field = ground (arith, v.id_field);
            header_sum = v.header_sum;
            rest = v.rest;
          }))
    | inl pos_i ↦
        let id = (get16 out 4 + i % 2 ^ 16) % 2 ^ 16 in
        let out1 = overwrite out 4 (be16 id) in
        let l1 = length-overwrite out 4 (be16 id) in
        rw (pos_i, read_u16-ok out 4 (omega arith), write_u16-ok out 4 id (omega arith))
          (Returns-mono _ (IsIpv4 hdr.csum_start 0 total out1) _
            (finish-IsIpv4 hdr.csum_start total out1 h20 (omega arith) (omega arith)
              (All-overwrite IsByte out 4 (be16 id) hb (IsBytes-be16 id))
              (get16-overwrite_ge out 4 (be16 id) 10 (omega arith) ∙ hz) ht)
            (λ o v. record {
              same_length = v.same_length ∙ l1;
              bytes = v.bytes;
              total_field = v.total_field;
              id_field = omega (
                arith,
                v.id_field,
                get16-overwrite out 4 (id / 256 % 256) (id % 256) (omega arith),
              );
              header_sum = v.header_sum;
              rest = v.rest ∙ drop-overwrite 12 out 4 (be16 id) (omega arith);
            }))
  ]

-- The TCP header of segment `i` at `cs`: only the sequence number and the flags differ.
pub record IsTcp (cs seq : ℕ) (last : Bool) (out o : List ℕ) : Type 0 where
  pub same_length : length o ≡ length out
  pub bytes : IsBytes o
  pub seq_field : get32 o (cs + 4) ≡ seq
  pub flags_field :
      get_or o (cs + 13) 0
      ≡ (if last then get_or out (cs + 13) 0 else bit_and (get_or out (cs + 13) 0) 0xF6)
  pub before : take (cs + 4) o ≡ take (cs + 4) out
  pub after : drop (cs + 14) o ≡ drop (cs + 14) out

-- The UDP header: only the length differs.
pub record IsUdp (cs len : ℕ) (out o : List ℕ) : Type 0 where
  pub same_length : length o ≡ length out
  pub bytes : IsBytes o
  pub len_field : get16 o (cs + 4) ≡ len
  pub before : take (cs + 4) o ≡ take (cs + 4) out
  pub after : drop (cs + 6) o ≡ drop (cs + 6) out

module _ (f : Frame) where
  open f use {input, hdr, first_tcp_seq_num}

  pub write_tcp-IsTcp :
      (at i : ℕ) (out : List ℕ)
      → hdr.csum_start + 20 < 2 ^ 16
      → hdr.csum_start + 20 ≤ length out
      → IsBytes out
      → Returns (write_tcp f at i out) (
          IsTcp hdr.csum_start
            ((first_tcp_seq_num + hdr.gso_size * i % 2 ^ 32) % 2 ^ 32)
            (at + segment_data_len f at == length input)
            out)
  unfolding write_tcp
  write_tcp-IsTcp at i out hc hl hb =
      let cs = hdr.csum_start in
      let seq = (first_tcp_seq_num + hdr.gso_size * i % 2 ^ 32) % 2 ^ 32 in
      let e : (cs + 4) % 2 ^ 16 ≡ cs + 4 = omega arith in
      let out1 = overwrite out (cs + 4) (be32 seq) in
      let l1 = length-overwrite out (cs + 4) (be32 seq) in
      let b1 : IsBytes out1 = All-overwrite IsByte out (cs + 4) _ hb (IsBytes-be32 seq) in
      let fl = get_or out1 (cs + 13) 0 in
      let fe : fl ≡ get_or out (cs + 13) 0 =
        get_or-overwrite_ge out (cs + 4) (be32 seq) (cs + 13) 0 (omega arith) in
      let mask = bit_and fl 0xF6 ∷ [] in
      let o = overwrite out1 (cs + 13) mask in
      let lt = clear_flags-lt fl (get_or-lt out1 (cs + 13) b1) in
      elim (Bool-cases (at + segment_data_len f at == length input)) [
        | inl last ↦
            rw (e, write_u32-ok out (cs + 4) seq (omega arith), last)
              (record {
                same_length = l1;
                bytes = b1;
                seq_field = get32-overwrite out (cs + 4) seq (omega arith) (omega arith);
                flags_field = fe;
                before = take-overwrite (cs + 4) out (cs + 4) (be32 seq) (omega arith);
                after = drop-overwrite (cs + 14) out (cs + 4) (be32 seq) (omega arith);
              })
        | inr more ↦
            let z : cs + 13 + 0 ≡ cs + 13 = omega arith in
            rw
              (
                e,
                write_u32-ok out (cs + 4) seq (omega arith),
                more,
                byte_at-ok out1 (cs + 13) (omega arith),
                write_at-ok out1 (cs + 13) mask (omega arith),
              )
              (record {
                same_length = length-overwrite out1 (cs + 13) mask ∙ l1;
                bytes = All-overwrite IsByte out1 (cs + 13) mask b1 (omega arith);
                seq_field =
                    get32-overwrite_lt out1 (cs + 13) mask (cs + 4) (omega arith)
                    ∙ get32-overwrite out (cs + 4) seq (omega arith) (omega arith);
                flags_field =
                    rw z at
                      (get_or-overwrite_in out1 (cs + 13) mask 0 0 (omega arith) (omega arith))
                    ∙ ap (λ x. bit_and x 0xF6) fe;
                before =
                    take-overwrite (cs + 4) out1 (cs + 13) mask (omega arith)
                    ∙ take-overwrite (cs + 4) out (cs + 4) (be32 seq) (omega arith);
                after =
                    drop-overwrite (cs + 14) out1 (cs + 13) mask (omega arith)
                    ∙ drop-overwrite (cs + 14) out (cs + 4) (be32 seq) (omega arith);
              })
      ]

  pub write_udp-IsUdp :
      (at : ℕ) (out : List ℕ)
      → hdr.csum_start + 8 < 2 ^ 16
      → hdr.csum_start + 8 ≤ length out
      → IsBytes out
      → Returns (write_udp f at out) (
          IsUdp hdr.csum_start
            ((segment_data_len f at + (hdr.hdr_len - hdr.csum_start)) % 2 ^ 16)
            out)
  unfolding write_udp
  write_udp-IsUdp at out hc hl hb =
      let cs = hdr.csum_start in
      let len = (segment_data_len f at + (hdr.hdr_len - cs)) % 2 ^ 16 in
      let e : (cs + 4) % 2 ^ 16 ≡ cs + 4 = omega arith in
      rw (e, write_u16-ok out (cs + 4) len (omega arith))
        (record {
          same_length = length-overwrite out (cs + 4) (be16 len);
          bytes = All-overwrite IsByte out (cs + 4) (be16 len) hb (IsBytes-be16 len);
          len_field =
              get16-overwrite out (cs + 4) (len / 256 % 256) (len % 256) (omega arith)
              ∙ omega arith;
          before = take-overwrite (cs + 4) out (cs + 4) (be16 len) (omega arith);
          after = drop-overwrite (cs + 6) out (cs + 4) (be16 len) (omega arith);
        })
