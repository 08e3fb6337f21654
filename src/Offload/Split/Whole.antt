-- ===== src/Offload/Split/Whole.antt =====
-- `gso_split` as a whole: the segments are the packet again.
use quincy_tun.Base.{
  ℕ, zero, suc, ◌+◌, ◌-◌, ◌*◌, ◌≤◌, ◌<◌, ◌≡◌, refl, sym, ◌∙◌, arith, List, [], ◌∷◌, ◌++◌, length,
  Bool, All, take, drop, Returns, Ends, Ends-bind, Returns-of_Ends, Returns-mono, take-append-drop,
  drop-drop, drop_all, take_all, length-drop, ltb, Bool-cases, inl, inr, ltb→lt, append-nil, ◌⊎◌,
}
use quincy_tun.Offload.{VirtioNetHdr}
use quincy_tun.Offload.Split.{Frame, Split, gso_split, segment_data_len}
use quincy_tun.Offload.Split.Head.{IsFrame}
use quincy_tun.Offload.Split.Loop.{Cut, IsCut, HasRoom, LacksRoom, IsBuf, split_loop-Cut}
use quincy_tun.Offload.Split.Guards.{
  IsGso, frame_of, packet_of, gso_split-eq, frame-IsFrame, drop-packet, length-packet,
}

-- The payloads of the first `n` packets, one after the other: a packet of `size` bytes begins at
-- `out_offset` of its buffer, and its payload at `hdr_len` of the packet.
abbrev pub payloads : ℕ → ℕ → ℕ → List (List ℕ) → List ℕ → List ℕ
payloads out_offset hdr_len zero bufs sizes = []
payloads out_offset hdr_len (suc n) (buf ∷ bufs) (size ∷ sizes) =
    take (size - hdr_len) (drop (out_offset + hdr_len) buf)
    ++ payloads out_offset hdr_len n bufs sizes
payloads out_offset hdr_len (suc n) _ _ = []

module _ (f : Frame) (v : IsFrame f) where
  open f use {input, hdr, out_offset}

  -- A segment and what follows the next one's begin is the rest of the input.
  take-segment :
      (at : ℕ)
      → at < length input
      → take (segment_data_len f at) (drop at input) ++ drop (at + hdr.gso_size) input
        ≡ drop at input
  take-segment at h = elim (Bool-cases (ltb (length input) (at + hdr.gso_size))) [
    | inl short ↦
        let lt = ltb→lt _ _ short in
        simp (
          short,
          drop_all (at + hdr.gso_size) input (omega arith),
          append-nil,
          take_all (length input - at) (drop at input) (omega (arith, length-drop at input)),
        )
    | inr full ↦ simp (full, sym (drop-drop hdr.gso_size at input), take-append-drop)
  ]

  -- Nothing is lost, doubled or moved.
  payloads-Cut :
      (n at i : ℕ) (bs os : List (List ℕ)) (ss : List ℕ)
      → Cut f v at i n bs os ss
      → payloads out_offset hdr.hdr_len n os ss ≡ drop at input
  payloads-Cut zero at i bs os ss c = sym (drop_all at input c.0)
  payloads-Cut (suc n) at i (b ∷ bs) (o ∷ os) (s ∷ ss) c =
      let e : hdr.hdr_len + segment_data_len f at - hdr.hdr_len ≡ segment_data_len f at =
        omega arith in
      let own : take (s - hdr.hdr_len) (drop (out_offset + hdr.hdr_len) o)
          ≡ take (segment_data_len f at) (drop at input) =
        rw (c.2, e, sym (drop-drop hdr.hdr_len out_offset o)) c.1.segment.payload in
      rw (own, payloads-Cut n (at + hdr.gso_size) (i + 1) bs os ss c.3) (take-segment at c.0)
  payloads-Cut (suc n) at i [] os ss c = absurd c
  payloads-Cut (suc n) at i (b ∷ bs) [] ss c = absurd c
  payloads-Cut (suc n) at i (b ∷ bs) (o ∷ os) [] c = absurd c

  -- The number of segments is the payload's length over `gso_size`, rounded up.
  count-Cut :
      (n at i : ℕ) (bs os : List (List ℕ)) (ss : List ℕ)
      → Cut f v at i n bs os ss
      → (length input ≤ at + hdr.gso_size * n)
        × ((k : ℕ) → n ≡ suc k → at + hdr.gso_size * k < length input)
  count-Cut zero at i bs os ss c = (omega (arith, c.0), λ k e. absurd (omega arith))
  count-Cut (suc n) at i (b ∷ bs) (o ∷ os) (s ∷ ss) c =
      let ih = count-Cut n (at + hdr.gso_size) (i + 1) bs os ss c.3 in
      (omega (arith, ih.0), below n ih.1)
    where
      below :
          (n : ℕ)
          → ((k : ℕ) → n ≡ suc k → at + hdr.gso_size + hdr.gso_size * k < length input)
          → (k : ℕ) → suc n ≡ suc k
          → at + hdr.gso_size * k < length input
      below n ih zero e = omega (arith, c.0)
      below zero ih (suc k) e = absurd (omega arith)
      below (suc n) ih (suc k) e = omega (arith, ih k (omega arith))
  count-Cut (suc n) at i [] os ss c = absurd c
  count-Cut (suc n) at i (b ∷ bs) [] ss c = absurd c
  count-Cut (suc n) at i (b ∷ bs) (o ∷ os) [] c = absurd c

module _ (input : List ℕ) (hdr : VirtioNetHdr) (is_v6 : Bool) (v : IsGso input hdr is_v6)
    (bs : List (List ℕ)) (ss : List ℕ) (out_offset : ℕ) (sizes_room : length bs ≤ length ss)
    (few : length bs ≤ 0xFFFF) where
  abbrev f : Frame
  f = frame_of input hdr out_offset is_v6

  abbrev w : IsFrame (frame_of input hdr out_offset is_v6)
  w = frame-IsFrame input hdr is_v6 v out_offset

  abbrev pub IsSplit : Split → Type 0
  IsSplit r = Cut f w hdr.hdr_len 0 r.count bs r.out_bufs r.sizes

  -- For a GSO packet of bytes with whole headers and the checksum offset of its protocol, at most
  -- 65535 output buffers of at most 2^31 bytes and a size slot for each, `gso_split` never panics. It
  -- succeeds with each output buffer it counts holding a finished segment (payload, lengths,
  -- identification, sequence number, both checksums, nothing written outside it) and the others
  -- untouched, or reports invalid input because the buffers lack room.
  pub gso_split-IsSplit :
      All (IsBuf f w) bs
      → Ends (gso_split input hdr bs ss out_offset is_v6) IsSplit (LacksRoom f w hdr.hdr_len bs)
  gso_split-IsSplit hb = rw (gso_split-eq input hdr is_v6 v bs ss out_offset sizes_room few) (
      Ends-bind _ _ (IsCut f w hdr.hdr_len 0 bs) (LacksRoom f w hdr.hdr_len bs)
        (LacksRoom f w hdr.hdr_len bs) IsSplit
        (split_loop-Cut f w bs ss hdr.hdr_len 0 sizes_room (omega arith) hb)
        (λ r c. let e : r.0 ≡ c.0 = omega (arith, c.1) in rw e c.2) (λ e k. k))

  -- For a GSO packet of bytes with whole headers and the checksum offset of its protocol, at most
  -- 65535 output buffers of at most 2^31 bytes with room for all segments and a size slot for each,
  -- `gso_split` succeeds: the payloads of the segments one after the other are the payload of the
  -- packet, and there are as many segments as its length over `gso_size`, rounded up.
  pub gso_split-payloads :
      All (IsBuf f w) bs
      → HasRoom f w hdr.hdr_len bs
      → Returns (gso_split input hdr bs ss out_offset is_v6) (λ r.
        (payloads out_offset hdr.hdr_len r.count r.out_bufs r.sizes ≡ drop hdr.hdr_len input)
        × (length input ≤ hdr.hdr_len + hdr.gso_size * r.count)
        × ((r.count ≡ 0) ⊎ (hdr.hdr_len + hdr.gso_size * (r.count - 1) < length input)))
  gso_split-payloads hb room =
      let ll : length (packet_of input hdr is_v6) ≡ length input =
        length-packet input hdr is_v6 v in
      Returns-mono _ IsSplit _
        (Returns-of_Ends _ IsSplit (LacksRoom f w hdr.hdr_len bs) (gso_split-IsSplit hb)
          (λ e k. k.1 room))
        (λ r c.
          let count = count-Cut f w r.count hdr.hdr_len 0 bs r.out_bufs r.sizes c in
          (
            payloads-Cut f w r.count hdr.hdr_len 0 bs r.out_bufs r.sizes c
                ∙ drop-packet input hdr is_v6 v,
            omega (arith, count.0),
            last r.count count.1,
          ))
    where
      last :
          (n : ℕ)
          → ((k : ℕ)
              → n ≡ suc k
              → hdr.hdr_len + hdr.gso_size * k < length (packet_of input hdr is_v6))
          → (n ≡ 0) ⊎ (hdr.hdr_len + hdr.gso_size * (n - 1) < length input)
      last zero h = inl refl
      last (suc k) h = inr (omega (arith, h k refl, length-packet input hdr is_v6 v))
