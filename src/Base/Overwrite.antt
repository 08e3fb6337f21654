-- ===== src/Base/Overwrite.antt =====
-- `buf[at..at + src.len()].copy_from_slice(src)` and what it leaves alone.
use Prim.Native.Nat.{ℕ, zero, suc, ◌+◌, ◌-◌, ◌<◌, ◌≤◌}
use mathlib.Core.Path.{◌≡◌, refl, sym, ap, ◌∙◌}
use mathlib.Core.List.{List, [], ◌∷◌}
use native.Mathlib.Omega.{arith}
use quincy_tun.Base.Lists.{length, take, drop, get_or, All, take-take, drop-drop}

module _ {ℓ} {A : Type ℓ} where
  -- What does not fit is dropped: `Bytes.write_at` panics there.
  unfoldable pub overwrite : List A → ℕ → List A → List A
  overwrite [] i src = []
  overwrite (x ∷ xs) zero [] = x ∷ xs
  overwrite (x ∷ xs) zero (v ∷ src) = v ∷ overwrite xs zero src
  overwrite (x ∷ xs) (suc i) src = x ∷ overwrite xs i src

  pub length-overwrite :
      (xs : List A) (i : ℕ) (src : List A) → length (overwrite xs i src) ≡ length xs
  unfolding overwrite
  length-overwrite [] i src = refl
  length-overwrite (x ∷ xs) zero [] = refl
  length-overwrite (x ∷ xs) zero (v ∷ src) = ap suc (length-overwrite xs zero src)
  length-overwrite (x ∷ xs) (suc i) src = ap suc (length-overwrite xs i src)

  pub overwrite-nil : (xs : List A) (i : ℕ) → overwrite xs i [] ≡ xs
  unfolding overwrite
  overwrite-nil [] i = refl
  overwrite-nil (x ∷ xs) zero = refl
  overwrite-nil (x ∷ xs) (suc i) = ap (λ t. x ∷ t) (overwrite-nil xs i)

  pub take-overwrite :
      (n : ℕ) (xs : List A) (i : ℕ) (src : List A) → n ≤ i → take n (overwrite xs i src) ≡ take n xs
  unfolding overwrite
  take-overwrite zero xs i src h = refl
  take-overwrite (suc n) [] i src h = refl
  take-overwrite (suc n) (x ∷ xs) zero src h = absurd (omega arith)
  take-overwrite (suc n) (x ∷ xs) (suc i) src h =
      ap (λ t. x ∷ t) (take-overwrite n xs i src (omega arith))

  pub drop-overwrite :
      (n : ℕ) (xs : List A) (i : ℕ) (src : List A)
      → i + length src ≤ n
      → drop n (overwrite xs i src) ≡ drop n xs
  unfolding overwrite
  drop-overwrite n [] i src h = refl
  drop-overwrite n (x ∷ xs) zero [] h = refl
  drop-overwrite zero (x ∷ xs) zero (v ∷ src) h = absurd (omega arith)
  drop-overwrite (suc n) (x ∷ xs) zero (v ∷ src) h = drop-overwrite n xs zero src (omega arith)
  drop-overwrite zero (x ∷ xs) (suc i) src h = absurd (omega arith)
  drop-overwrite (suc n) (x ∷ xs) (suc i) src h = drop-overwrite n xs i src (omega arith)

  -- A write inside a window is a write to the window.
  pub drop-overwrite_in :
      (n : ℕ) (xs : List A) (i : ℕ) (src : List A)
      → n ≤ i
      → drop n (overwrite xs i src) ≡ overwrite (drop n xs) (i - n) src
  unfolding overwrite
  drop-overwrite_in zero xs i src h = ap (λ (k : ℕ). overwrite xs k src) (omega arith)
  drop-overwrite_in (suc n) [] i src h = refl
  drop-overwrite_in (suc n) (x ∷ xs) zero src h = absurd (omega arith)
  drop-overwrite_in (suc n) (x ∷ xs) (suc i) src h =
      drop-overwrite_in n xs i src (omega arith)
      ∙ ap (λ (k : ℕ). overwrite (drop n xs) k src) (omega arith)

  pub take-overwrite_in :
      (n : ℕ) (xs : List A) (i : ℕ) (src : List A)
      → i + length src ≤ n
      → take n (overwrite xs i src) ≡ overwrite (take n xs) i src
  unfolding overwrite
  take-overwrite_in zero [] i src h = refl
  take-overwrite_in (suc n) [] i src h = refl
  take-overwrite_in n (x ∷ xs) zero [] h = sym (overwrite-nil (take n (x ∷ xs)) zero)
  take-overwrite_in zero (x ∷ xs) zero (v ∷ src) h = absurd (omega arith)
  take-overwrite_in (suc n) (x ∷ xs) zero (v ∷ src) h =
      ap (λ t. v ∷ t) (take-overwrite_in n xs zero src (omega arith))
  take-overwrite_in zero (x ∷ xs) (suc i) src h = absurd (omega arith)
  take-overwrite_in (suc n) (x ∷ xs) (suc i) src h =
      ap (λ t. x ∷ t) (take-overwrite_in n xs i src (omega arith))

  -- What was written is read back.
  pub take-drop-overwrite :
      (xs : List A) (i : ℕ) (src : List A)
      → i + length src ≤ length xs
      → take (length src) (drop i (overwrite xs i src)) ≡ src
  unfolding overwrite
  take-drop-overwrite [] i [] h = refl
  take-drop-overwrite [] i (v ∷ src) h = absurd (omega arith)
  take-drop-overwrite (x ∷ xs) zero [] h = refl
  take-drop-overwrite (x ∷ xs) zero (v ∷ src) h =
      ap (λ t. v ∷ t) (take-drop-overwrite xs zero src (omega arith))
  take-drop-overwrite (x ∷ xs) (suc i) src h = take-drop-overwrite xs i src (omega arith)

  pub All-overwrite {κ} :
      (P : A → Type κ) (xs : List A) (i : ℕ) (src : List A)
      → All P xs
      → All P src
      → All P (overwrite xs i src)
  unfolding overwrite
  All-overwrite P [] i src h k = h
  All-overwrite P (x ∷ xs) zero [] h k = h
  All-overwrite P (x ∷ xs) zero (v ∷ src) h k = (k.0, All-overwrite P xs zero src h.1 k.1)
  All-overwrite P (x ∷ xs) (suc i) src h k = (h.0, All-overwrite P xs i src h.1 k)

  pub get_or-overwrite_lt :
      (xs : List A) (i : ℕ) (src : List A) (j : ℕ) (d : A)
      → j < i
      → get_or (overwrite xs i src) j d ≡ get_or xs j d
  unfolding overwrite
  get_or-overwrite_lt [] i src j d h = refl
  get_or-overwrite_lt (x ∷ xs) zero src j d h = absurd (omega arith)
  get_or-overwrite_lt (x ∷ xs) (suc i) src zero d h = refl
  get_or-overwrite_lt (x ∷ xs) (suc i) src (suc j) d h =
      get_or-overwrite_lt xs i src j d (omega arith)

  pub get_or-overwrite_ge :
      (xs : List A) (i : ℕ) (src : List A) (j : ℕ) (d : A)
      → i + length src ≤ j
      → get_or (overwrite xs i src) j d ≡ get_or xs j d
  unfolding overwrite
  get_or-overwrite_ge [] i src j d h = refl
  get_or-overwrite_ge (x ∷ xs) zero [] j d h = refl
  get_or-overwrite_ge (x ∷ xs) zero (v ∷ src) zero d h = absurd (omega arith)
  get_or-overwrite_ge (x ∷ xs) zero (v ∷ src) (suc j) d h =
      get_or-overwrite_ge xs zero src j d (omega arith)
  get_or-overwrite_ge (x ∷ xs) (suc i) src zero d h = refl
  get_or-overwrite_ge (x ∷ xs) (suc i) src (suc j) d h =
      get_or-overwrite_ge xs i src j d (omega arith)

  -- Inside the window the source shows.
  pub get_or-overwrite_in :
      (xs : List A) (i : ℕ) (src : List A) (j : ℕ) (d : A)
      → j < length src
      → i + length src ≤ length xs
      → get_or (overwrite xs i src) (i + j) d ≡ get_or src j d
  unfolding overwrite
  get_or-overwrite_in [] i src j d h k = absurd (omega arith)
  get_or-overwrite_in (x ∷ xs) zero [] j d h k = absurd (omega arith)
  get_or-overwrite_in (x ∷ xs) zero (v ∷ src) zero d h k = refl
  get_or-overwrite_in (x ∷ xs) zero (v ∷ src) (suc j) d h k =
      let e : zero + suc j ≡ suc (zero + j) = omega arith in
      rw e (get_or-overwrite_in xs zero src j d (omega arith) (omega arith))
  get_or-overwrite_in (x ∷ xs) (suc i) src j d h k =
      let e : suc i + j ≡ suc (i + j) = omega arith in
      rw e (get_or-overwrite_in xs i src j d h (omega arith))

  pub get_or-drop :
      (n : ℕ) (xs : List A) (j : ℕ) (d : A) → get_or (drop n xs) j d ≡ get_or xs (n + j) d
  get_or-drop zero xs j d = let e : zero + j ≡ j = omega arith in rw e refl
  get_or-drop (suc n) [] j d = refl
  get_or-drop (suc n) (x ∷ xs) j d =
      let e : suc n + j ≡ suc (n + j) = omega arith in rw e (get_or-drop n xs j d)

  pub get_or-take :
      (n : ℕ) (xs : List A) (j : ℕ) (d : A) → j < n → get_or (take n xs) j d ≡ get_or xs j d
  get_or-take zero xs j d h = absurd (omega arith)
  get_or-take (suc n) [] j d h = refl
  get_or-take (suc n) (x ∷ xs) zero d h = refl
  get_or-take (suc n) (x ∷ xs) (suc j) d h = get_or-take n xs j d (omega arith)

  -- Lists that agree on a window agree on a smaller one.
  pub take_of_take :
      (m n : ℕ) (xs ys : List A) → m ≤ n → take n xs ≡ take n ys → take m xs ≡ take m ys
  take_of_take m n xs ys h e = sym (take-take m n xs h) ∙ ap (take m) e ∙ take-take m n ys h

  pub drop_of_drop :
      (m n : ℕ) (xs ys : List A) → m ≤ n → drop m xs ≡ drop m ys → drop n xs ≡ drop n ys
  drop_of_drop m n xs ys h e =
      let s : m + (n - m) ≡ n = omega arith in
      rw s at (sym (drop-drop (n - m) m xs) ∙ ap (drop (n - m)) e ∙ drop-drop (n - m) m ys)
