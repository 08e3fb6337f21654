-- ===== src/Windows/Ffi/Tables.antt =====
-- Rows of a table: those of an interface are removed one by one.
use quincy_tun.Base.{
  ◌≡◌, refl, sym, ap, ◌∙◌, List, [], ◌∷◌, ◌++◌, append_assoc, Bool, true, false, not, if◌then◌else◌,
  Bool-cases, inl, inr, All,
}
use quincy_tun.Windows.Ffi.{filter}

-- `same d x`: to delete `d` removes `x`.
module _ {A : Type 0} (same : A → A → Bool) where
  pub any_same : List A → A → Bool
  any_same [] x = false
  any_same (d ∷ ds) x = let rest = any_same ds x in if same d x then true else rest

  -- What is left of the rows once `d` is deleted, or all of `ds`.
  unfoldable pub dropped : A → List A → List A
  unfolding filter
  dropped d rows = filter (λ x. not (same d x)) rows

  unfoldable pub purged : List A → List A → List A
  unfolding dropped
  purged [] rows = rows
  purged (d ∷ ds) rows = purged ds (dropped d rows)

  purged-nil : (ds : List A) → purged ds [] ≡ []
  unfolding purged dropped filter
  purged-nil [] = refl
  purged-nil (d ∷ ds) = purged-nil ds

  purged-cons :
      (ds : List A) (x : A) (rows : List A)
      → purged ds (x ∷ rows) ≡ (if any_same ds x then purged ds rows else x ∷ purged ds rows)
  unfolding purged dropped filter any_same
  purged-cons [] x rows = refl
  purged-cons (d ∷ ds) x rows = elim (Bool-cases (same d x)) [
    | inl hit ↦ simp hit refl
    | inr miss ↦ simp miss (purged-cons ds x (filter (λ y. not (same d y)) rows))
  ]

-- `mine`: the rows that are to go.
module _ {A : Type 0} (mine : A → Bool) where
  unfoldable pub outside : List A → List A
  unfolding filter
  outside rows = filter (λ x. not (mine x)) rows

  pub outside-append : (rows more : List A) → outside (rows ++ more) ≡ outside rows ++ outside more
  unfolding outside filter
  outside-append [] more = refl
  outside-append (x ∷ rows) more = elim (Bool-cases (mine x)) [
    | inl own ↦ simp own (outside-append rows more)
    | inr other ↦ simp other (ap (λ t. x ∷ t) (outside-append rows more))
  ]

  pub outside-outside : (rows : List A) → outside (outside rows) ≡ outside rows
  unfolding outside filter
  outside-outside [] = refl
  outside-outside (x ∷ rows) = elim (Bool-cases (mine x)) [
    | inl own ↦ simp own (outside-outside rows)
    | inr other ↦ simp other (ap (λ t. x ∷ t) (outside-outside rows))
  ]

  -- All rows of the list are of the interface.
  pub mine-filter : (rows : List A) → All (λ d. mine d ≡ true) (filter mine rows)
  unfolding filter
  mine-filter [] = tt
  mine-filter (x ∷ rows) = elim (Bool-cases (mine x)) [
    | inl own ↦ simp own (refl, mine-filter rows)
    | inr other ↦ simp other (mine-filter rows)
  ]

module _ {A : Type 0} (same : A → A → Bool) (mine : A → Bool) where
  -- To delete a row of the interface removes only rows of it.
  abbrev pub Within : A → Type 0
  Within d = (x : A) → same d x ≡ true → mine x ≡ true

  pub outside-dropped :
      (d : A) (rows : List A) → Within d → outside mine (dropped same d rows) ≡ outside mine rows
  unfolding outside dropped filter
  outside-dropped d [] w = refl
  outside-dropped d (x ∷ rows) w = elim (Bool-cases (same d x)) [
    | inl hit ↦ simp (hit, w x hit) (outside-dropped d rows w)
    | inr miss ↦ elim (Bool-cases (mine x)) [
      | inl own ↦ simp (miss, own) (outside-dropped d rows w)
      | inr other ↦ simp (miss, other) (ap (λ t. x ∷ t) (outside-dropped d rows w))
    ]
  ]

  -- What is outside has no row that a row of the interface would replace.
  pub any_same-outside :
      (d : A) (rows : List A)
      → ((x : A) → same x d ≡ true → mine x ≡ true)
      → any_same same (outside mine rows) d ≡ false
  unfolding outside filter any_same
  any_same-outside d [] w = refl
  any_same-outside d (x ∷ rows) w = elim (Bool-cases (mine x)) [
    | inl own ↦ simp own (any_same-outside d rows w)
    | inr other ↦ elim (Bool-cases (same x d)) [
      | inl hit ↦ let own = w x hit in absurd (cc)
      | inr miss ↦ simp (other, miss) (any_same-outside d rows w)
    ]
  ]

  -- Where deleting the rows of `ds` removes exactly the rows of the interface, what is left is outside.
  pub purged-outside :
      (ds rows : List A)
      → All (λ x. any_same same ds x ≡ mine x) rows
      → purged same ds rows ≡ outside mine rows
  unfolding outside filter
  purged-outside ds [] all = purged-nil same ds
  purged-outside ds (x ∷ rows) all = elim (Bool-cases (mine x)) [
    | inl own ↦ purged-cons same ds x rows ∙ simp (all.0, own) (purged-outside ds rows all.1)
    | inr other ↦
        purged-cons same ds x rows
        ∙ simp (all.0, other) (ap (λ t. x ∷ t) (purged-outside ds rows all.1))
  ]

  module _ (compat : (d x : A) → same d x ≡ true → mine d ≡ mine x)
      (same_refl : (x : A) → same x x ≡ true) where
    miss : (l : List A) (x : A) → mine x ≡ false → any_same same (filter mine l) x ≡ false
    unfolding any_same filter
    miss [] x e = refl
    miss (d ∷ l) x e = elim (Bool-cases (mine d)) [
      | inl own ↦ elim (Bool-cases (same d x)) [
        | inl hit ↦ let c = compat d x hit in absurd (cc)
        | inr differs ↦ simp (own, differs) (miss l x e)
      ]
      | inr other ↦ simp other (miss l x e)
    ]

    hit :
        (before rows : List A) (x : A)
        → mine x ≡ true
        → any_same same (filter mine (before ++ x ∷ rows)) x ≡ true
    unfolding any_same filter
    hit [] rows x e = simp (e, same_refl x) refl
    hit (d ∷ before) rows x e = elim (Bool-cases (mine d)) [
      | inl own ↦ elim (Bool-cases (same d x)) [
        | inl found ↦ simp (own, found) refl
        | inr differs ↦ simp (own, differs) (hit before rows x e)
      ]
      | inr other ↦ simp other (hit before rows x e)
    ]

    covered :
        (before rows : List A)
        → All (λ x. any_same same (filter mine (before ++ rows)) x ≡ mine x) rows
    covered before [] = tt
    covered before (x ∷ rows) = (
      elim (Bool-cases (mine x)) [
        | inl own ↦ hit before rows x own ∙ sym own
        | inr other ↦ miss (before ++ x ∷ rows) x other ∙ sym other
      ],
      rw (append_assoc before (x ∷ []) rows) at (covered (before ++ x ∷ []) rows),
    )

    -- To delete the rows of the interface, one by one, leaves those outside.
    pub purged-filter : (rows : List A) → purged same (filter mine rows) rows ≡ outside mine rows
    purged-filter rows = purged-outside (filter mine rows) rows (covered [] rows)
