-- ===== src/Device/Send.antt =====
-- `send_multiple0` on a device without virtio headers: what goes to the descriptor.
use quincy_tun.Base.{
  ℕ, zero, suc, ◌+◌, ◌≤◌, ◌<◌, ◌≡◌, refl, sym, ap, ◌∙◌, arith, List, [], ◌∷◌, ◌++◌, map,
  append_assoc, append-nil, Bool, false, Option, none, some, Outcome, ok, err, panic, ErrorKind,
  Ends, All, length, get_elem?, drop, leb-true, ltb-false, eq_zero-false,
}
use quincy_tun.Offload.{Endian}
use quincy_tun.Gro.{Buf}
use quincy_tun.Gro.Handle.{GroTable}
use quincy_tun.Device.{is_ebadfd, write_all, indices, send_multiple0}

-- Every write returns, and none reports that the descriptor is gone; other errors may come.
abbrev pub Lasts : (ℕ → List ℕ → Outcome ℕ) → Type 0
Lasts write_f = (n : ℕ) (pkt : List ℕ) → Ends (write_f n pkt) (λ _. Unit) (λ e. is_ebadfd e ≡ false)

get_elem?-drop :
    (bufs : List Buf) (i : ℕ) (b : Buf) (rest : List Buf)
    → drop i bufs ≡ b ∷ rest
    → (get_elem? bufs i ≡ some b) × (drop (i + 1) bufs ≡ rest)
get_elem?-drop [] zero b rest h = cc
get_elem?-drop [] (suc i) b rest h = cc
get_elem?-drop (x ∷ xs) zero b rest h =
    let e : x ≡ b = cc in let es : xs ≡ rest = cc in (ap some e, es)
get_elem?-drop (x ∷ xs) (suc i) b rest h =
    let r = get_elem?-drop xs i b rest h in
    let e : suc i + 1 ≡ suc (i + 1) = omega arith in (r.0, rw e r.1)

module _ (write_f : ℕ → List ℕ → Outcome ℕ) (lasts : Lasts write_f) (bufs : List Buf)
    (offset : ℕ) where
  abbrev packet : Buf → List ℕ
  packet b = drop offset b.bytes

  -- One packet goes out, and the loop goes on.
  write_all-cons :
      (i : ℕ) (b : Buf) (is : List ℕ) (total : ℕ) (failed : Option ErrorKind)
      (written : List (List ℕ))
      → get_elem? bufs i ≡ some b
      → offset ≤ length b.bytes
      → (total' : ℕ) × (failed' : Option ErrorKind) × (write_all write_f bufs offset
            (i ∷ is)
            total
            failed
            written
          ≡ write_all write_f bufs offset is total' failed' (written ++ packet b ∷ []))
  unfolding write_all
  write_all-cons i b is total failed written e h =
      go (write_f (length written) (packet b)) refl (lasts (length written) (packet b))
    where
      go :
          (r : Outcome ℕ)
          → write_f (length written) (packet b) ≡ r
          → Ends r (λ _. Unit) (λ k. is_ebadfd k ≡ false)
          → (total' : ℕ) × (failed' : Option ErrorKind) × (write_all write_f bufs offset
                (i ∷ is)
                total
                failed
                written
              ≡ write_all write_f bufs offset is total' failed' (written ++ packet b ∷ []))
      go (ok n) w l =
          (total + n, failed, simp (write_all, e, leb-true offset (length b.bytes) h, w) refl)
      go (err k) w l =
          (total, some k, simp (write_all, e, leb-true offset (length b.bytes) h, w, l) refl)
      go panic w l = absurd l

  -- The loop over the buffers from the `i`-th on writes their packets in order.
  write_all-indices :
      (i : ℕ) (rest : List Buf) (total : ℕ) (failed : Option ErrorKind) (written : List (List ℕ))
      → drop i bufs ≡ rest
      → All (λ b. offset ≤ length b.bytes) rest
      → (write_all write_f bufs offset (indices (length rest) i) total failed written).written
        ≡ written ++ map packet rest
  unfolding write_all
  write_all-indices i [] total failed written e h = sym (append-nil written)
  write_all-indices i (b ∷ rest) total failed written e h =
      let g = get_elem?-drop bufs i b rest e in
      let c = write_all-cons i b (indices (length rest) (i + 1)) total failed written g.0 h.0 in
      ap (λ s. s.written) c.2
      ∙ write_all-indices (i + 1) rest c.0 c.1 (written ++ packet b ∷ []) g.1 h.1
      ∙ append_assoc written (packet b ∷ []) (map packet rest)

-- On a device without virtio headers, a batch of one to 65535 buffers that all reach to the offset is
-- written whole and in order, each buffer from the offset on, when every write returns and none
-- reports that the descriptor is gone: an error of one packet does not hold up the ones behind it.
pub send_multiple0-in_order :
    (e : Endian) (udp_gso : Bool) (write_f : ℕ → List ℕ → Outcome ℕ) (t : GroTable)
    (bufs : List Buf) (offset : ℕ)
    → Lasts write_f
    → 0 < length bufs
    → length bufs ≤ 0xFFFF
    → All (λ b. offset ≤ length b.bytes) bufs
    → (send_multiple0 e
        (record { vnet_hdr = false; udp_gso = udp_gso })
        write_f
        t
        bufs
        offset).written
      ≡ map (λ (b : Buf). drop offset b.bytes) bufs
unfolding send_multiple0
send_multiple0-in_order e udp_gso write_f t bufs offset lasts some_bufs few reach =
    simp (eq_zero-false (length bufs) some_bufs, ltb-false 0xFFFF (length bufs) few)
      (write_all-indices write_f lasts bufs offset 0 bufs 0 none [] refl reach)
