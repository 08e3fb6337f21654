-- ===== src/Offload/Split/Loop.antt =====
-- The loop of `gso_split`: the segments that it writes, and when it gives up.
use quincy_tun.Base.{
  ℕ, zero, suc, ◌+◌, ◌-◌, ◌*◌, ◌^◌, ◌≤◌, ◌<◌, ◌≡◌, refl, arith, List, [], ◌∷◌, ◌++◌, length, ok,
  ErrorKind, invalid_input, ◌||◌, ltb, Bool-cases, ltb→lt, inl, inr, All, take, drop, IsBytes,
  IsByte, All-drop, length-take, length-drop, drop-length-append, take-length-append, Returns-bind,
  Ends, Ends-bind, Ends-of_Returns,
}
use quincy_tun.Offload.Split.{Frame, fill_buf, split_loop, total_len}
use quincy_tun.Offload.Split.Head.{IsFrame}
use quincy_tun.Offload.Split.Segment.{IsSegment, write_segment-IsSegment, segment_data_len_bounds}

-- What the loop hands back: the round it stopped at, the buffers and the sizes.
abbrev Cuts : Type 0
Cuts = ℕ × List (List ℕ) × List ℕ

module _ (f : Frame) (v : IsFrame f) where
  open f use {input, hdr, out_offset}

  -- Buffer `o` is buffer `b` with segment `i` written behind the offset.
  pub record IsFilled (at i : ℕ) (b o : List ℕ) : Type 0 where
    pub segment : IsSegment f v at i (drop out_offset b) (drop out_offset o)
    pub front : take out_offset o ≡ take out_offset b

  -- The buffers `bs` became `os`, with their sizes: `n` segments from `at` on, numbered from `i`,
  -- that use up the input; the buffers behind them stay.
  abbrev pub Cut : ℕ → ℕ → ℕ → List (List ℕ) → List (List ℕ) → List ℕ → Type 0
  Cut at i zero bs os ss = (length input ≤ at) × (os ≡ bs)
  Cut at i (suc n) (b ∷ bs) (o ∷ os) (s ∷ ss) =
      (at < length input)
      × IsFilled at i b o
      × (s ≡ total_len f at)
      × Cut (at + hdr.gso_size) (i + 1) n bs os ss
  Cut at i (suc n) _ _ _ = ⊥

  -- The buffers have room for every segment of the input from `at` on.
  pub record HasRoom (at : ℕ) (bs : List (List ℕ)) : Type 0 where
    pub enough : length input - at ≤ hdr.gso_size * length bs
    pub wide : All (λ b. out_offset + (hdr.hdr_len + hdr.gso_size) ≤ length b) bs

  abbrev pub IsCut : ℕ → ℕ → List (List ℕ) → ℕ × List (List ℕ) × List ℕ → Type 0
  IsCut at i bs r = (n : ℕ) × (r.0 ≡ i + n) × Cut at i n bs r.1 r.2

  abbrev pub LacksRoom : ℕ → List (List ℕ) → ErrorKind → Type 0
  LacksRoom at bs e = (e ≡ invalid_input) × (HasRoom at bs → ⊥)

  abbrev pub IsBuf : List ℕ → Type 0
  IsBuf b = IsBytes b × (length b ≤ 2 ^ 31)

  put_back-IsFilled :
      (at i : ℕ) (b o : List ℕ)
      → out_offset ≤ length b
      → IsSegment f v at i (drop out_offset b) o
      → IsFilled at i b (take out_offset b ++ o)
  put_back-IsFilled at i b o h s =
      let l : length (take out_offset b) ≡ out_offset = omega (arith, length-take out_offset b) in
      let d : drop out_offset (take out_offset b ++ o) ≡ o =
        rw l at (drop-length-append (take out_offset b) o) in
      let t : take out_offset (take out_offset b ++ o) ≡ take out_offset b =
        rw l at (take-length-append (take out_offset b) o) in
      record { segment = rw d s; front = t }

  fill_buf-IsFilled :
      (at i : ℕ) (b : List ℕ)
      → hdr.hdr_len ≤ at
      → at < length input
      → IsBuf b
      → Ends
          (fill_buf f at i b)
          (IsFilled at i b)
          (λ e. (e ≡ invalid_input) × (length b < out_offset + (hdr.hdr_len + hdr.gso_size)))
  unfolding fill_buf
  fill_buf-IsFilled at i b hp hat hb =
      elim (Bool-cases
        (ltb (length b) out_offset || ltb (length b - out_offset) (total_len f at))) [
          | inl small ↦ rw small (refl, ground (arith, segment_data_len_bounds f v at hat))
          | inr wide ↦
              let fits : (out_offset ≤ length b) × (total_len f at ≤ length b - out_offset) =
                ground arith in
              rw wide (
                Ends-of_Returns _ (IsFilled at i b) _ (
                  Returns-bind _ _ (IsSegment f v at i (drop out_offset b)) _
                    (write_segment-IsSegment f v at i (drop out_offset b) hat
                      (omega (arith, v.small, (segment_data_len_bounds f v at hat).0))
                      (omega (arith, length-drop out_offset b))
                      (omega (arith, length-drop out_offset b)) (All-drop IsByte out_offset b hb.0))
                    (λ o s. put_back-IsFilled at i b o fits.0 s)))
        ]

  -- The loop never panics. It writes segments until the input is used up, or reports invalid input
  -- for want of room.
  pub split_loop-Cut :
      (bs : List (List ℕ)) (ss : List ℕ) (at i : ℕ)
      → length bs ≤ length ss
      → hdr.hdr_len ≤ at
      → All IsBuf bs
      → Ends (split_loop f at i bs ss) (IsCut at i bs) (LacksRoom at bs)
  unfolding split_loop
  split_loop-Cut [] ss at i h hp hb = elim (Bool-cases (ltb at (length input))) [
    | inl more ↦ rw more (refl, λ r. ground (arith, r.enough))
    | inr done ↦ rw done (0, omega arith, (ground arith, refl))
  ]
  split_loop-Cut (b ∷ bs) [] at i h hp hb = absurd (omega arith)
  split_loop-Cut (b ∷ bs) (s ∷ ss) at i h hp hb = elim (Bool-cases (ltb at (length input))) [
    | inr done ↦ rw done (0, omega arith, (ground arith, refl))
    | inl more ↦ rw more (
        Ends-bind {B = Cuts} _ _ (IsFilled at i b) _ (LacksRoom at (b ∷ bs)) (IsCut at i (b ∷ bs))
          (fill_buf-IsFilled at i b hp (ltb→lt _ _ more) hb.0)
          (λ o w.
            Ends-bind {B = Cuts} _ (λ x. ok (x.0, o ∷ x.1, total_len f at ∷ x.2))
              (IsCut (at + hdr.gso_size) (i + 1) bs) (LacksRoom (at + hdr.gso_size) bs)
              (LacksRoom at (b ∷ bs)) (IsCut at i (b ∷ bs))
              (split_loop-Cut bs ss (at + hdr.gso_size) (i + 1) (omega arith) (omega arith) hb.1)
              (λ r c. (suc c.0, omega (arith, c.1), (ltb→lt _ _ more, w, refl, c.2)))
              (λ e k.
                (k.0, λ r. k.1 (record { enough = omega (arith, r.enough); wide = r.wide.1 }))))
          (λ e k. (k.0, λ r. omega (arith, k.1, r.wide.0))))
  ]
