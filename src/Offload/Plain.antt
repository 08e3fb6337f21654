-- ===== src/Offload/Plain.antt =====
-- `gso_none_checksum`: a packet whose transport checksum the kernel left to us.
use quincy_tun.Base.{
  ℕ, ◌+◌, ◌-◌, ◌%◌, ◌^◌, ◌≤◌, ◌<◌, ◌≡◌, refl, ap, ◌∙◌, arith, List, [], ◌∷◌, length, ok, err,
  invalid_input, take, drop, overwrite, Returns, IsBytes, get16, be16, leb-true,
}
use quincy_tun.Base.{
  read_u16-ok, clear_u16-ok, slice_from-ok, write_u16-ok, length-overwrite, drop-overwrite,
  take-overwrite, drop-overwrite_in, All-overwrite, get16-overwrite, length-drop, All-drop, IsByte,
  get16-lt,
}
use quincy_tun.Checksum.{checksum, not_u16}
use quincy_tun.Checksum.Verify.{checksum-written}
use quincy_tun.Offload.{gso_none_checksum}

-- Where the checksum field lies in the packet, the call is the plain computation: clear the field,
-- sum from `csum_start`, write the complement.
gso_none_checksum-ok :
    (b : List ℕ) (csum_start csum_offset : ℕ)
    → csum_start + csum_offset + 2 ≤ length b
    → let csum_at = csum_start + csum_offset in
      let cleared = overwrite b csum_at (0 ∷ 0 ∷ []) in
      gso_none_checksum b csum_start csum_offset
      ≡ ok (
          overwrite cleared csum_at
            (be16 (not_u16 (checksum (drop csum_start cleared) (get16 b csum_at)))))
unfolding gso_none_checksum
gso_none_checksum-ok b cs co h =
    let at = cs + co in
    let cleared = overwrite b at (0 ∷ 0 ∷ []) in
    rw
      (
        leb-true cs (length b) (omega arith),
        leb-true (at + 2) (length b) h,
        read_u16-ok b at h,
        clear_u16-ok b at h,
        slice_from-ok cs cleared (omega (arith, length-overwrite b at (0 ∷ 0 ∷ []))),
        write_u16-ok cleared at (not_u16 (checksum (drop cs cleared) (get16 b at)))
            (omega (arith, length-overwrite b at (0 ∷ 0 ∷ []))),
      )
      refl

-- For a packet of at most 2^31 bytes whose checksum field lies inside it, at an even offset from `csum_start`,
-- the call succeeds; from `csum_start` on the packet then verifies under the sum that stood in the
-- field, and no byte outside the field changes.
pub gso_none_checksum-verifies :
    (b : List ℕ) (csum_start csum_offset : ℕ)
    → IsBytes b
    → length b ≤ 2 ^ 31
    → csum_offset % 2 ≡ 0
    → csum_start + csum_offset + 2 ≤ length b
    → let csum_at = csum_start + csum_offset in
      Returns (gso_none_checksum b csum_start csum_offset) (λ o.
        (checksum (drop csum_start o) (get16 b csum_at) ≡ 0xFFFF)
        × (length o ≡ length b)
        × (take csum_at o ≡ take csum_at b)
        × (drop (csum_at + 2) o ≡ drop (csum_at + 2) b))
gso_none_checksum-verifies b cs co hb hl he h =
    let at = cs + co in
    let z : List ℕ = 0 ∷ 0 ∷ [] in
    let cleared = overwrite b at z in
    let init = get16 b at in
    let v = not_u16 (checksum (drop cs cleared) init) in
    let r = drop cs cleared in
    let w = overwrite cleared at (be16 v) in
    let e1 : at - cs ≡ co = omega arith in
    let rr : r ≡ overwrite (drop cs b) co z =
      drop-overwrite_in cs b at z (omega arith) ∙ ap (λ k. overwrite (drop cs b) k z) e1 in
    let ww : drop cs w ≡ overwrite r co (be16 v) =
      drop-overwrite_in cs cleared at (be16 v) (omega arith)
      ∙ ap (λ k. overwrite r k (be16 v)) e1 in
    let lr : length r ≡ length b - cs =
      omega (arith, ap length rr, length-overwrite (drop cs b) co z, length-drop cs b) in
    let zero_field : get16 r co ≡ 0 =
      rw rr (get16-overwrite (drop cs b) co 0 0 (omega (arith, length-drop cs b))) in
    let bytes : IsBytes r =
      All-drop IsByte cs cleared (All-overwrite IsByte b at z hb (omega arith)) in
    let ini : init < 65536 = get16-lt b at hb in
    rw (gso_none_checksum-ok b cs co h) (
      rw ww (checksum-written r co init bytes (omega arith) he (omega arith) zero_field),
      length-overwrite cleared at (be16 v) ∙ length-overwrite b at z,
      take-overwrite at cleared at (be16 v) (omega arith) ∙ take-overwrite at b at z (omega arith),
      drop-overwrite (at + 2) cleared at (be16 v) (omega arith)
          ∙ drop-overwrite (at + 2) b at z (omega arith),
    )

-- A packet that ends before its checksum field does is refused as invalid input.
pub gso_none_checksum-refuses :
    (b : List ℕ) (csum_start csum_offset : ℕ)
    → length b < csum_start + csum_offset + 2
    → gso_none_checksum b csum_start csum_offset ≡ err invalid_input
unfolding gso_none_checksum
gso_none_checksum-refuses b cs co h = ground arith
