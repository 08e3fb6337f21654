-- ===== src/Offload/Ipv4.antt =====
-- The end of every IPv4 header that the code writes: the total length and the header checksum.
use quincy_tun.Base.{
  ℕ, ◌+◌, ◌/◌, ◌%◌, ◌^◌, ◌≤◌, ◌<◌, ◌≡◌, refl, ap, ◌∙◌, arith, List, length, ◌>>=◌,
}
use quincy_tun.Base.{
  take, drop, overwrite, Returns, IsByte, IsBytes, get16, be16, All-take, All-overwrite, get16-lt,
  IsBytes-be16, slice, slice-zero, write_u16-ok, length-overwrite, length-take, drop-overwrite,
  take-overwrite_in, get16-overwrite, get16-overwrite_lt, get16-overwrite_ge, get16-take, write_u16,
}
use quincy_tun.Checksum.{checksum, not_u16}
use quincy_tun.Checksum.Verify.{checksum-written}

-- What a finished IPv4 header of `len` bytes says, against the bytes `out` it was written over.
pub record IsIpv4 (len i total : ℕ) (out o : List ℕ) : Type 0 where
  pub same_length : length o ≡ length out
  pub bytes : IsBytes o
  pub total_field : get16 o 2 ≡ total
  pub id_field : get16 o 4 ≡ (get16 out 4 + i) % 2 ^ 16
  pub header_sum : checksum (take len o) 0 ≡ 0xFFFF
  pub rest : drop 12 o ≡ drop 12 out

-- The total length, and then the checksum over a header whose checksum field is clear.
pub finish-IsIpv4 :
    (cs total : ℕ) (out : List ℕ)
    → 20 ≤ cs
    → cs ≤ length out
    → length out ≤ 2 ^ 31
    → IsBytes out
    → get16 out 10 ≡ 0
    → total < 2 ^ 16
    → Returns
        (write_u16 out 2 (total % 2 ^ 16) >>= λ out2.
          slice 0 cs out2 >>= λ iph. write_u16 out2 10 (not_u16 (checksum iph 0)))
        (IsIpv4 cs 0 total out)
finish-IsIpv4 cs total out h20 hcs hl hb hz ht =
    let out2 = overwrite out 2 (be16 (total % 2 ^ 16)) in
    let l2 = length-overwrite out 2 (be16 (total % 2 ^ 16)) in
    let b2 : IsBytes out2 = All-overwrite IsByte out 2 _ hb (IsBytes-be16 (total % 2 ^ 16)) in
    let iph = take cs out2 in
    let li = length-take cs out2 in
    let c = not_u16 (checksum iph 0) in
    let o = overwrite out2 10 (be16 c) in
    let z : get16 iph 10 ≡ 0 =
      get16-take cs out2 10 (omega arith)
      ∙ get16-overwrite_ge out 2 (be16 (total % 2 ^ 16)) 10 (omega arith)
      ∙ hz in
    rw
      (
        write_u16-ok out 2 (total % 2 ^ 16) (omega arith),
        slice-zero cs out2 (omega arith),
        write_u16-ok out2 10 c (omega arith),
      )
      (record {
        same_length = omega (arith, length-overwrite out2 10 (be16 c));
        bytes = All-overwrite IsByte out2 10 (be16 c) b2 (IsBytes-be16 c);
        total_field =
            get16-overwrite_lt out2 10 (be16 c) 2 (omega arith)
            ∙ get16-overwrite out 2 (total % 2 ^ 16 / 256 % 256) (total % 2 ^ 16 % 256)
                (omega arith)
            ∙ omega arith;
        id_field =
            get16-overwrite_lt out2 10 (be16 c) 4 (omega arith)
            ∙ get16-overwrite_ge out 2 (be16 (total % 2 ^ 16)) 4 (omega arith)
            ∙ omega (arith, get16-lt out 4 hb);
        header_sum =
            ap (λ t. checksum t 0) (take-overwrite_in cs out2 10 (be16 c) (omega arith))
            ∙ checksum-written iph 10 0 (All-take IsByte cs out2 b2) (omega arith) refl
                (omega arith) z;
        rest =
            drop-overwrite 12 out2 10 (be16 c) (omega arith)
            ∙ drop-overwrite 12 out 2 (be16 (total % 2 ^ 16)) (omega arith);
      })
