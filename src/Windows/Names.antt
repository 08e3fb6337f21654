-- ===== src/Windows/Names.antt =====
-- The names `tun0`, `tun1`, … that src/platform/windows/device.rs tries, and sets of names.
use quincy_tun.Base.{
  ℕ, zero, suc, ◌+◌, ◌-◌, ◌*◌, ◌/◌, ◌%◌, ◌≤◌, ◌<◌, ◌≡◌, ◌≢◌, refl, sym, ap, ◌∙◌, arith, List, [],
  ◌∷◌, ◌++◌, Bool, true, false, ltb, ◌==◌, ==_iff, if◌then◌else◌, length, drop, Bool-cases, inl,
  inr,
}
use quincy_tun.Net.{Text}
use quincy_tun.Linux.Addresses.{eq_text}

-- The decimal digits of a number.
unfoldable pub digits : ℕ → ℕ → Text
digits zero n = []
digits (suc fuel) n =
    let rest = digits fuel (n / 10) in
    if ltb n 10 then (48 + n) ∷ [] else rest ++ (48 + n % 10) ∷ []

-- `format!("tun{count}")`
unfoldable pub default_name : ℕ → Text
unfolding digits
default_name count = 116 ∷ 117 ∷ 110 ∷ digits (suc count) count

-- `HashSet::contains`
unfoldable pub contains : List Text → Text → Bool
unfolding eq_text
contains [] name = false
contains (x ∷ names) name = let rest = contains names name in if eq_text x name then true else rest

value : ℕ → Text → ℕ
value high [] = high
value high (c ∷ s) = value (high * 10 + (c - 48)) s

value-snoc : (s : Text) (high c : ℕ) → value high (s ++ c ∷ []) ≡ value high s * 10 + (c - 48)
unfolding value
value-snoc [] high c = refl
value-snoc (d ∷ s) high c = value-snoc s (high * 10 + (d - 48)) c

last_digit : (n : ℕ) → 0 * 10 + (48 + n - 48) ≡ n
last_digit n = omega arith

value-digits : (fuel n : ℕ) → n < fuel → value 0 (digits fuel n) ≡ n
unfolding digits value
value-digits zero n h = absurd (omega (arith, h))
value-digits (suc fuel) n h = elim (Bool-cases (ltb n 10)) [
  | inl small ↦ simp small (last_digit n)
  | inr big ↦
      let ten : 10 ≤ n = ground arith in
      let down : n / 10 < fuel = omega (arith, h, ten) in
      let e = value-snoc (digits fuel (n / 10)) 0 (48 + n % 10) in
      let ih = value-digits fuel (n / 10) down in simp big (e ∙ omega (arith, ih))
]

-- Two numbers have different names.
pub default_name_injective : (a b : ℕ) → default_name a ≡ default_name b → a ≡ b
unfolding default_name
default_name_injective a b e =
    let number : Text → ℕ = λ s. value 0 (drop 3 s) in
    sym (value-digits (suc a) a (omega arith)) ∙ ap number e ∙ value-digits (suc b) b (omega arith)

pub eq_text_sound : (r s : Text) → eq_text r s ≡ true → r ≡ s
unfolding eq_text
eq_text_sound [] [] e = refl
eq_text_sound [] (c ∷ s) e = absurd (cc)
eq_text_sound (b ∷ r) [] e = absurd (cc)
eq_text_sound (b ∷ r) (c ∷ s) e = elim (Bool-cases (b == c)) [
  | inl same ↦
      let rest : eq_text r s ≡ true = simp same at e in
      ap (λ x. x ∷ r) ((==_iff b c).0 same) ∙ ap (λ t. c ∷ t) (eq_text_sound r s rest)
  | inr other ↦ let no : false ≡ true = simp other at e in absurd (cc)
]

-- The set without one occurrence of a name.
pub remove : Text → List Text → List Text
unfolding eq_text
remove name [] = []
remove name (x ∷ names) = let rest = remove name names in if eq_text x name then names else x ∷ rest

pub length-remove :
    (name : Text) (names : List Text)
    → contains names name ≡ true
    → length (remove name names) + 1 ≡ length names
unfolding contains remove
length-remove name [] e = absurd (cc)
length-remove name (x ∷ names) e = elim (Bool-cases (eq_text x name)) [
  | inl same ↦ simp same (omega arith)
  | inr other ↦
      let rest : contains names name ≡ true = simp other at e in
      let ih = length-remove name names rest in simp other (omega (arith, ih))
]

pub contains-remove :
    (name other : Text) (names : List Text)
    → name ≢ other
    → contains names other ≡ true
    → contains (remove name names) other ≡ true
unfolding contains remove
contains-remove name other [] n e = absurd (cc)
contains-remove name other (x ∷ names) n e = elim (Bool-cases (eq_text x name)) [
  | inl same ↦ elim (Bool-cases (eq_text x other)) [
    | inl too ↦ absurd (n (sym (eq_text_sound x name same) ∙ eq_text_sound x other too))
    | inr not_it ↦ let rest : contains names other ≡ true = simp not_it at e in simp same rest
  ]
  | inr differs ↦ elim (Bool-cases (eq_text x other)) [
    | inl it ↦ simp (differs, it) refl
    | inr not_it ↦
        let rest : contains names other ≡ true = simp not_it at e in
        simp (differs, not_it) (contains-remove name other names n rest)
  ]
]
