-- ===== src/Net/Masks.antt =====
-- Prefix lengths and netmasks are two spellings of the same thing.
use quincy_tun.Base.{
  ℕ, zero, suc, ◌+◌, ◌-◌, ◌*◌, ◌%◌, ◌^◌, ◌≤◌, ◌<◌, ◌≡◌, refl, sym, ap, ◌∙◌, arith, ltb, leb, ◌==◌,
  leb-true, ltb-true, ltb-false, leb-false, leb→le, Bool-cases, inl, inr, ==_iff, Outcome, ok,
  panic, ◌>>=◌, ErrorKind, err, invalid_data, Option, false,
}
use quincy_tun.Net.{
  leading_ones, count_ones, netmask_of, prefix_of_len, prefix_of_mask, Mask, prefix_len, mask,
  netmask, prefix, Text, parsed, mask_text,
}

pow-suc : (w : ℕ) → 2 ^ suc w ≡ 2 * 2 ^ w
pow-suc w = omega arith

pow_pos : (w : ℕ) → 0 < 2 ^ w
pow_pos zero = omega arith
pow_pos (suc w) = omega (arith, pow-suc w, pow_pos w)

-- `x` has `k` ones at the top of `w` bits and zeros below.
abbrev pub IsMask : ℕ → ℕ → ℕ → Type 0
IsMask w k x = (k ≤ w) × (x + 2 ^ (w - k) ≡ 2 ^ w)

leb-gt : (a b : ℕ) → leb a b ≡ false → b < a
leb-gt a b h = ground (arith, h)

ltb-false_le : (a b : ℕ) → ltb a b ≡ false → b ≤ a
ltb-false_le a b h = ground (arith, h)

count_zero : (w x : ℕ) → x < 2 ^ w → count_ones w x ≡ 0 → x ≡ 0
unfolding count_ones
count_zero zero x h e = omega arith
count_zero (suc w) x h e = elim (Bool-cases (leb (2 ^ w) x)) [
  | inl top ↦ let c : suc (count_ones w (x - 2 ^ w)) ≡ 0 = simp top at e in absurd (omega arith)
  | inr low ↦ count_zero w x (leb-gt _ _ low) (simp low at e)
]

panic_not_ok : {A : Type 0} (a : A) → Outcome.panic ≡ ok a → ⊥
panic_not_ok a e = cc

suc_minus_0 : (w : ℕ) → suc w - 0 ≡ suc w
suc_minus_0 w = omega arith

-- A number whose ones are all leading is a mask.
leading_ones-IsMask :
    (w x : ℕ) → x < 2 ^ w → leading_ones w x ≡ count_ones w x → IsMask w (leading_ones w x) x
unfolding leading_ones count_ones
leading_ones-IsMask zero x h e = (omega arith, omega arith)
leading_ones-IsMask (suc w) x h e = elim (Bool-cases (leb (2 ^ w) x)) [
  | inl top ↦
      let c : suc (leading_ones w (x - 2 ^ w)) ≡ suc (count_ones w (x - 2 ^ w)) = simp top at e in
      let above = leb→le (2 ^ w) x top in
      let ih = leading_ones-IsMask w (x - 2 ^ w) (omega (arith, h, pow-suc w)) (omega (arith, c)) in
      let k : suc w - suc (leading_ones w (x - 2 ^ w)) ≡ w - leading_ones w (x - 2 ^ w) =
        omega arith in
      simp (top, k) (omega (arith, ih.0), omega (arith, ih.1, pow-suc w))
  | inr low ↦
      let c : 0 ≡ count_ones w x = simp low at e in
      let z = count_zero w x (leb-gt _ _ low) (sym c) in
      let small = leb-false (2 ^ w) 0 (pow_pos w) in
      simp (z, small, suc_minus_0 w) (omega arith, omega arith)
]

pow-le : (w k : ℕ) → 2 ^ (w - k) ≤ 2 ^ w
pow-le w zero = let e : w - 0 ≡ w = omega arith in rw e (omega arith)
pow-le zero (suc k) = let e : 0 - suc k ≡ 0 = omega arith in rw e (omega arith)
pow-le (suc w) (suc k) =
    let e : suc w - suc k ≡ w - k = omega arith in rw e (omega (arith, pow-le w k, pow-suc w))

count_ones-zero : (w : ℕ) → count_ones w 0 ≡ 0
unfolding count_ones
count_ones-zero zero = refl
count_ones-zero (suc w) = simp (leb-false (2 ^ w) 0 (pow_pos w)) (count_ones-zero w)

-- A mask has its ones at the top, and no others.
IsMask-ones : (w k x : ℕ) → IsMask w k x → (leading_ones w x ≡ k) × (count_ones w x ≡ k)
unfolding leading_ones count_ones
IsMask-ones zero k x m = (omega (arith, m.0), omega (arith, m.0))
IsMask-ones (suc w) zero x m =
    let all : suc w - 0 ≡ suc w = omega arith in
    let z : x ≡ 0 = let m' : x + 2 ^ suc w ≡ 2 ^ suc w = rw all at m.1 in omega arith in
    simp (z, leb-false (2 ^ w) 0 (pow_pos w)) (refl, count_ones-zero w)
IsMask-ones (suc w) (suc k) x m =
    let e : suc w - suc k ≡ w - k = omega arith in
    let m' : x + 2 ^ (w - k) ≡ 2 ^ suc w = rw e at m.1 in
    let above : 2 ^ w ≤ x = omega (arith, pow-le w k, pow-suc w) in
    let ih = IsMask-ones w k (x - 2 ^ w) (omega (arith, m.0), omega (arith, m', pow-suc w)) in
    simp (leb-true (2 ^ w) x above) (ap suc ih.0, ap suc ih.1)

mul_below : (v q : ℕ) → q ≤ v → v * suc q ≡ (v - q) + q * suc v
mul_below v q h = grind (arith, h)

shifted_ones : (v q : ℕ) → q ≤ v → v * suc q % suc v ≡ v - q
shifted_ones v q h = grind (arith, h, mul_below v q h)

top_ones : (n p : ℕ) → 0 < p → p ≤ n → (n - 1) * p % n + p ≡ n
top_ones zero p l h = omega (arith, l, h)
top_ones (suc v) zero l h = omega (arith, l)
top_ones (suc v) (suc q) l h =
    let below : q ≤ v = omega (arith, h) in
    let e : suc v - 1 ≡ v = omega arith in rw e (omega (arith, shifted_ones v q below, below))

netmask_of-IsMask : (w n : ℕ) → n ≤ w → IsMask w n (netmask_of w n)
unfolding netmask_of
netmask_of-IsMask w zero h =
    let all : w - 0 ≡ w = omega arith in
    simp (all, ltb-false w w (omega arith)) (omega arith, omega arith)
netmask_of-IsMask w (suc n) h =
    simp (ltb-true (w - suc n) w (omega (arith, h)))
      (h, top_ones (2 ^ w) (2 ^ (w - suc n)) (pow_pos (w - suc n)) (pow-le w (suc n)))

leading_ones-le : (w x : ℕ) → leading_ones w x ≤ w
unfolding leading_ones
leading_ones-le zero x = omega arith
leading_ones-le (suc w) x =
    let ih = leading_ones-le w (x - 2 ^ w) in
    elim (Bool-cases (leb (2 ^ w) x)) [
      | inl top ↦ simp top (omega (arith, ih))
      | inr low ↦ simp low (omega arith)
    ]

prefix_of_mask-IsMask : (w n x : ℕ) → w < 256 → IsMask w n x → prefix_of_mask w x ≡ ok n
unfolding prefix_of_mask
prefix_of_mask-IsMask w n x small m =
    let ones = IsMask-ones w n x m in
    let fits : n % 256 ≡ n = omega (arith, m.0, small) in
    simp (ones.0, ones.1, (==_iff n n).1 refl, fits) refl

ok-inj : (a b : ℕ) → Outcome.ok a ≡ ok b → a ≡ b
ok-inj a b e = cc

err_not_ok : {A : Type 0} (k : ErrorKind) (a : A) → Outcome.err k ≡ ok a → ⊥
err_not_ok k a e = cc

accepted :
    (w n x : ℕ)
    → w < 256
    → prefix_of_mask w x ≡ ok n
    → (leading_ones w x ≡ n) × (count_ones w x ≡ n)
unfolding prefix_of_mask
accepted w n x small e = elim (Bool-cases (leading_ones w x == count_ones w x)) [
  | inl same ↦
      let fits = leading_ones-le w x in
      let e' : ok (leading_ones w x % 256) ≡ ok n = simp same at e in
      let e'' = ok-inj (leading_ones w x % 256) n e' in
      let all = (==_iff (leading_ones w x) (count_ones w x)).0 same in
      (omega (arith, fits, small, e''), omega (arith, fits, small, e'', all))
  | inr other ↦
      let e' : Outcome.err invalid_data ≡ ok n = simp other at e in
      absurd (err_not_ok invalid_data n e')
]

prefix_of_mask-le : (w n x : ℕ) → w < 256 → prefix_of_mask w x ≡ ok n → n ≤ w
prefix_of_mask-le w n x small e =
    let k = accepted w n x small e in omega (arith, k.0, leading_ones-le w x)

prefix_of_len-le : (w k n : ℕ) → prefix_of_len w k ≡ ok n → n ≤ w
unfolding prefix_of_len
prefix_of_len-le w k n e = elim (Bool-cases (ltb w k)) [
  | inl big ↦
      let e' : Outcome.err invalid_data ≡ ok n = simp big at e in
      absurd (err_not_ok invalid_data n e')
  | inr small ↦
      let e' : ok k ≡ ok n = simp small at e in omega (arith, ok-inj k n e', ltb-false_le w k small)
]

prefix_of_text-le :
    (w n : ℕ) (r : Outcome ℕ) → w < 256 → (r >>= λ x. prefix_of_mask w x) ≡ ok n → n ≤ w
prefix_of_text-le w n (ok x) small e = prefix_of_mask-le w n x small e
prefix_of_text-le w n (err k) small e = absurd (err_not_ok k n e)
prefix_of_text-le w n panic small e = absurd (panic_not_ok n e)

-- A prefix length that is accepted is no more than the bits of an address, in each spelling.
pub prefix-le :
    (w n : ℕ) (from_str : Text → Option ℕ) (m : Mask) → w < 256 → prefix w from_str m ≡ ok n → n ≤ w
unfolding prefix
prefix-le w n from_str (prefix_len k) small e = prefix_of_len-le w k n e
prefix-le w n from_str (mask x) small e = prefix_of_mask-le w n x small e
prefix-le w n from_str (mask_text s) small e = prefix_of_text-le w n (parsed (from_str s)) small e

-- Where a netmask, in any of its spellings, has the prefix length `n`, `netmask` gives the mask of
-- that length, which has `n` leading ones and zeros below, and whose prefix length is `n` again.
pub netmask-prefix :
    (w n : ℕ) (from_str : Text → Option ℕ) (m : Mask)
    → w < 256
    → prefix w from_str m ≡ ok n
    → (netmask w from_str m ≡ ok (netmask_of w n))
      × IsMask w n (netmask_of w n)
      × (prefix w from_str (mask (netmask_of w n)) ≡ ok n)
unfolding netmask prefix prefix_of_mask
netmask-prefix w n from_str m small e =
    let k = netmask_of-IsMask w n (prefix-le w n from_str m small e) in
    (rw e refl, k, prefix_of_mask-IsMask w n (netmask_of w n) small k)

-- A mask of `w` bits whose prefix length is `n` is the netmask of the length `n`.
pub prefix-netmask :
    (w n x : ℕ) (from_str : Text → Option ℕ)
    → w < 256
    → x < 2 ^ w
    → prefix w from_str (mask x) ≡ ok n
    → netmask w from_str (prefix_len n) ≡ ok x
unfolding netmask prefix prefix_of_len
prefix-netmask w n x from_str small h e =
    let k = accepted w n x small e in
    let l : n ≤ w = omega (arith, k.0, leading_ones-le w x) in
    let m = leading_ones-IsMask w x h (k.0 ∙ sym k.1) in
    let m' : x + 2 ^ (w - n) ≡ 2 ^ w = rw (k.0) at m.1 in
    let same : netmask_of w n ≡ x = omega (arith, m', (netmask_of-IsMask w n l).1) in
    simp (ltb-false w n l, same) refl
