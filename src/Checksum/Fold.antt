-- ===== src/Checksum/Fold.antt =====
-- What the folding loop of `checksum` computes: a remainder by 65535, with 65535 for the zero of a
-- sum that is not 0.
use quincy_tun.Base.{List, ℕ, zero, suc, ◌+◌, ◌/◌, ◌%◌, ◌^◌, ◌≤◌, ◌<◌, ◌≡◌, ◌≢◌, refl, ◌∙◌, arith}
use native.Mathlib.Decide.{ℕ_discrete as dec_eq}
use quincy_tun.Checksum.{fold_loop, fold, checksum}

fold_loop_lem :
    (fuel acc : ℕ)
    → acc ≤ fuel
    → (fold_loop fuel acc < 2 ^ 16)
      × (fold_loop fuel acc % 65535 ≡ acc % 65535)
      × (acc ≢ 0 → fold_loop fuel acc ≢ 0)
      × (fold_loop fuel acc ≤ acc)
unfolding fold_loop
fold_loop_lem zero acc h = (omega arith, refl, λ p. p, omega arith)
fold_loop_lem (suc fuel) acc h = ground (arith, fold_loop_lem fuel (acc / 2 ^ 16 + acc % 2 ^ 16))

-- The loop ends below 2^16 for every accumulator, keeps its value modulo 65535, and gives 0 for
-- the sum 0 alone.
pub fold_lem :
    (acc : ℕ)
    → (fold acc < 2 ^ 16)
      × (fold acc % 65535 ≡ acc % 65535)
      × (acc ≢ 0 → fold acc ≢ 0)
      × (fold acc ≤ acc)
unfolding fold
fold_lem acc = fold_loop_lem acc acc (omega arith)

-- Equal modulo 65535, and 0 together: what decides the value of `fold`.
abbrev pub Same : ℕ → ℕ → Type 0
Same a b = (a % 65535 ≡ b % 65535) × (a ≢ 0 → b ≢ 0) × (b ≢ 0 → a ≢ 0)

pub Same-trans : {a b c : ℕ} → Same a b → Same b c → Same a c
Same-trans h k = (h.0 ∙ k.0, λ p. k.1 (h.1 p), λ p. h.2 (k.2 p))

pub Same-add : (a b c : ℕ) → Same a b → Same (a + c) (b + c)
Same-add a b c h = elim (dec_eq a 0) [
  | yes e ↦ elim (dec_eq b 0) [ yes f ↦ omega arith | no f ↦ absurd (h.2 f e) ]
  | no e ↦ (omega (arith, h.0), λ p. omega (arith, h.1 e), λ p. omega arith)
]

fold_congr_pos : (a b : ℕ) → a % 65535 ≡ b % 65535 → a ≢ 0 → b ≢ 0 → fold a ≡ fold b
fold_congr_pos a b h p q = omega (arith, fold_lem a, fold_lem b, (fold_lem a).2 p, (fold_lem b).2 q)

pub fold_congr : (a b : ℕ) → Same a b → fold a ≡ fold b
fold_congr a b h = elim (dec_eq a 0) [
  | yes e ↦ elim (dec_eq b 0) [ yes f ↦ cc | no f ↦ absurd (h.2 f e) ]
  | no e ↦ fold_congr_pos a b h.0 e (h.1 e)
]

pub fold_all_ones : (t : ℕ) → t % 65535 ≡ 0 → t ≢ 0 → fold t ≡ 0xFFFF
fold_all_ones t h p = omega (arith, fold_lem t, (fold_lem t).2 p)

pub checksum-lt : (b : List ℕ) (initial : ℕ) → checksum b initial < 2 ^ 16
unfolding checksum
checksum-lt b initial = omega arith
