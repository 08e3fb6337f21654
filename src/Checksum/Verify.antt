-- ===== src/Checksum/Verify.antt =====
-- A checksum field that is filled with the complement of the checksum makes the region verify.
use quincy_tun.Base.{
  ℕ, zero, suc, ◌+◌, ◌%◌, ◌^◌, ◌≤◌, ◌<◌, ◌≡◌, arith, List, [], ◌∷◌, length, IsBytes, be16, get16,
  overwrite, overwrite-nil, All-overwrite, length-overwrite, IsBytes-be16,
}
use quincy_tun.Checksum.{checksum, fold, not_u16}
use quincy_tun.Checksum.Fold.{fold_lem, fold_all_ones}
use quincy_tun.Checksum.Words.{words, Fits, checksum-words}

-- A word written at an even offset takes the place of the word that stood there.
words-overwrite :
    (b : List ℕ) (i v : ℕ)
    → i % 2 ≡ 0
    → i + 2 ≤ length b
    → v < 2 ^ 16
    → words (overwrite b i (be16 v)) + get16 b i ≡ words b + v
unfolding overwrite
words-overwrite [] i v e h k = absurd (omega arith)
words-overwrite (x ∷ []) i v e h k = absurd (omega arith)
words-overwrite (x ∷ y ∷ r) zero v e h k = rw (overwrite-nil r zero) (omega arith)
words-overwrite (x ∷ y ∷ r) (suc zero) v e h k = absurd (omega arith)
words-overwrite (x ∷ y ∷ r) (suc (suc i)) v e h k =
    omega (arith, words-overwrite r i v (omega arith) (omega arith) k)

-- The region `b` of bytes with its cleared checksum field at the even offset `i` filled in with the
-- complement of the checksum verifies under the same initial sum, where the accumulator has room.
pub checksum-written :
    (b : List ℕ) (i initial : ℕ)
    → IsBytes b
    → Fits b (initial + 65536)
    → i % 2 ≡ 0
    → i + 2 ≤ length b
    → get16 b i ≡ 0
    → checksum (overwrite b i (be16 (not_u16 (checksum b initial)))) initial ≡ 0xFFFF
checksum-written b i initial hb f e h z =
    let s = initial + words b in
    let c = checksum-words b initial hb (omega arith) in
    let fl = fold_lem s in
    let v = not_u16 (checksum b initial) in
    let b' = overwrite b i (be16 v) in
    let w = words-overwrite b i v e h (omega arith) in
    let c' =
      checksum-words b' initial (All-overwrite _ b i (be16 v) hb (IsBytes-be16 v))
        (omega (arith, length-overwrite b i (be16 v))) in
    let t : fold (initial + words b') ≡ 0xFFFF =
      fold_all_ones (initial + words b') (omega arith) (omega arith) in
    omega arith
