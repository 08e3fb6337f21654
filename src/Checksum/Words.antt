-- ===== src/Checksum/Words.antt =====
-- The checksum against RFC 1071: the sum of the big-endian 16-bit words, an odd byte at the end
-- taken as the high byte of a word.
use quincy_tun.Base.{
  ℕ, ◌+◌, ◌*◌, ◌%◌, ◌^◌, ◌≤◌, ◌<◌, ◌≡◌, arith, List, [], ◌∷◌, length, IsBytes, be16,
}
use quincy_tun.Checksum.{
  checksum_no_fold_scalar, checksum_no_fold, checksum, pseudo_header_checksum_no_fold, fold,
}
use quincy_tun.Checksum.Fold.{Same, Same-trans, Same-add, fold_congr, fold_lem}

abbrev pub words : List ℕ → ℕ
words [] = 0
words (a ∷ []) = a * 256
words (a ∷ b ∷ r) = a * 256 + b + words r

-- Room for the bytes of `b` in the `u64` accumulator.
abbrev pub Fits : List ℕ → ℕ → Type 0
Fits b acc = acc + 2 ^ 32 * length b < 2 ^ 64

pub scalar-Same :
    (b : List ℕ) (acc : ℕ)
    → IsBytes b
    → Fits b acc
    → Same (checksum_no_fold_scalar b acc) (acc + words b)
      × (checksum_no_fold_scalar b acc ≤ acc + 2 ^ 32 * length b)
unfolding checksum_no_fold_scalar
scalar-Same [] acc h f = omega arith
scalar-Same (a ∷ []) acc h f = omega arith
scalar-Same (a ∷ b ∷ []) acc h f = omega arith
scalar-Same (a ∷ b ∷ c ∷ []) acc h f = omega arith
scalar-Same (a ∷ b ∷ c ∷ d ∷ r) acc h f =
    let x = a * 2 ^ 24 + b * 2 ^ 16 + c * 256 + d in
    let ih = scalar-Same r ((acc + x) % 2 ^ 64) h.1.1.1.1 (omega arith) in
    (
      (
        omega (arith, ih.0.0),
        λ p. omega (arith, ih.0.1 p),
        λ p. omega (arith, ih.0.2 (omega arith)),
      ),
      omega (arith, ih.1),
    )

-- For bytes, and where the 64-bit accumulator has room, `checksum` is the fold of the RFC 1071 sum of
-- 16-bit words on top of the initial value, though the code adds 32-bit words.
pub checksum-words :
    (b : List ℕ) (initial : ℕ)
    → IsBytes b
    → Fits b initial
    → checksum b initial ≡ fold (initial + words b)
unfolding checksum checksum_no_fold
checksum-words b initial h f =
    let e =
      fold_congr (checksum_no_fold_scalar b initial) (initial + words b)
        (scalar-Same b initial h f).0 in
    omega (arith, e, fold_lem (initial + words b))

pub no_fold-Same :
    (b : List ℕ) (acc : ℕ)
    → IsBytes b
    → Fits b acc
    → Same (checksum_no_fold b acc) (acc + words b)
      × (checksum_no_fold b acc ≤ acc + 2 ^ 32 * length b)
unfolding checksum_no_fold
no_fold-Same b acc h f = scalar-Same b acc h f

-- The sum of the pseudo-header's words.
abbrev pub pseudo_words : ℕ → List ℕ → List ℕ → ℕ → ℕ
pseudo_words protocol src dst len = words src + words dst + protocol + len

-- The pseudo-header sum of the addresses, the protocol and the length.
pub pseudo_header-Same :
    (protocol : ℕ) (src dst : List ℕ) (len : ℕ)
    → protocol < 256
    → len < 2 ^ 16
    → IsBytes src
    → IsBytes dst
    → length src ≤ 16
    → length dst ≤ 16
    → Same (pseudo_header_checksum_no_fold protocol src dst len) (pseudo_words protocol src dst len)
      × (pseudo_header_checksum_no_fold protocol src dst len ≤ 2 ^ 38)
unfolding pseudo_header_checksum_no_fold
pseudo_header-Same protocol src dst len hp hl hs hd ls ld =
    let s1 = checksum_no_fold src 0 in
    let s2 = checksum_no_fold dst s1 in
    let t = 0 ∷ protocol ∷ be16 len in
    let r1 = no_fold-Same src 0 hs (omega arith) in
    let r2 = no_fold-Same dst s1 hd (omega (arith, r1.1)) in
    let r3 = no_fold-Same t s2 (omega arith) (omega (arith, r1.1, r2.1)) in
    let e : s1 + words dst + words t ≡ s1 + (words dst + words t) = omega arith in
    let e' : 0 + words src + (words dst + words t) ≡ pseudo_words protocol src dst len =
      omega arith in
    let q = Same-add s1 (0 + words src) (words dst + words t) r1.0 in
    (
      Same-trans r3.0
          (Same-trans (Same-add s2 (s1 + words dst) (words t) r2.0) (rw e (rw e' at q))),
      omega (arith, r1.1, r2.1, r3.1),
    )
