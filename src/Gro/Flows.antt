-- ===== src/Gro/Flows.antt =====
-- The flow table: what a lookup finds after an insertion, and what a reset leaves.
use quincy_tun.Base.{
  ◌+◌, ◌≡◌, refl, sym, ap, ◌∙◌, arith, List, [], ◌∷◌, ◌++◌, Bool, true, false, Bool-cases, Option,
  Option-cases, none, some, inl, inr, All, length,
}
use quincy_tun.Gro.{Table, lookup, update, push_item, drain, reset}

-- A test that decides equality of keys.
pub record IsKeyEq {K : Type 0} (eq : K → K → Bool) : Type 0 where
  pub same : (k : K) → eq k k ≡ true
  pub sound : (j k : K) → eq j k ≡ true → j ≡ k

-- The vectors that wait for new flows are empty.
abbrev pub IsClean : {K I : Type 0} → Table K I → Type 0
IsClean t = All (λ vec. vec ≡ []) t.items_pool

-- The items of a flow; none for a flow that the table does not know.
abbrev pub or_empty : {I : Type 0} → Option (List I) → List I
or_empty none = []
or_empty (some items) = items

module _ {K I : Type 0} (eq : K → K → Bool) (law : IsKeyEq eq) where
  lookup-update :
      (k : K) (items old : List I) (m : List (K × List I))
      → lookup eq k m ≡ some old
      → lookup eq k (update eq k items m) ≡ some items
  unfolding lookup update
  lookup-update k items old [] h = cc
  lookup-update k items old ((j, l) ∷ m) h = elim (Bool-cases (eq j k)) [
    | inl e ↦ rw (e, e) refl
    | inr e ↦ rw (e, e) (lookup-update k items old m (simp e at h))
  ]

  lookup-update_other :
      (k j : K) (items : List I) (m : List (K × List I))
      → eq k j ≡ false
      → lookup eq j (update eq k items m) ≡ lookup eq j m
  unfolding lookup update
  lookup-update_other k j items [] h = refl
  lookup-update_other k j items ((i, l) ∷ m) h = elim (Bool-cases (eq i k)) [
    | inl e ↦ let ij : eq i j ≡ false = ap (λ x. eq x j) (law.sound i k e) ∙ h in simp (e, ij) refl
    | inr e ↦ simp (e, lookup-update_other k j items m h) refl
  ]

  lookup-append :
      (k : K) (items : List I) (m : List (K × List I))
      → lookup eq k m ≡ none
      → lookup eq k (m ++ (k, items) ∷ []) ≡ some items
  unfolding lookup
  lookup-append k items [] h = simp (law.same k) refl
  lookup-append k items ((j, l) ∷ m) h = elim (Bool-cases (eq j k)) [
    | inl e ↦ let found : some l ≡ none = simp e at h in cc
    | inr e ↦ simp (e, lookup-append k items m (simp e at h)) refl
  ]

  lookup-append_other :
      (k j : K) (items : List I) (m : List (K × List I))
      → eq k j ≡ false
      → lookup eq j (m ++ (k, items) ∷ []) ≡ lookup eq j m
  unfolding lookup
  lookup-append_other k j items [] h = simp h refl
  lookup-append_other k j items ((i, l) ∷ m) h = simp (lookup-append_other k j items m h) refl

  -- What a push of `item` to flow `k` does to the flows `k` and `j`.
  abbrev pub Pushed : K → K → I → Table K I → Table K I → Type 0
  Pushed k j item t t' =
      (lookup eq k t'.items_by_flow ≡ some (or_empty (lookup eq k t.items_by_flow) ++ item ∷ []))
      × (lookup eq j t'.items_by_flow ≡ lookup eq j t.items_by_flow)
      × IsClean t'

  -- The table after a push, where the flow is known and where it is new.
  push_item-some :
      (k : K) (item : I) (items : List I) (t : Table K I)
      → lookup eq k t.items_by_flow ≡ some items
      → push_item eq k item t
        ≡ record t { items_by_flow = update eq k (items ++ item ∷ []) t.items_by_flow }
  unfolding push_item
  push_item-some k item items t e = simp (push_item, e) refl

  push_item-none :
      (k : K) (item : I) (m : List (K × List I)) (pool : List (List I))
      → All (λ vec. vec ≡ []) pool
      → lookup eq k m ≡ none
      → (rest : List (List I)) × All (λ vec. vec ≡ []) rest
        × (push_item eq k item (record { items_by_flow = m; items_pool = pool })
            ≡ record { items_by_flow = m ++ (k, item ∷ []) ∷ []; items_pool = rest })
  unfolding push_item
  push_item-none k item m [] c e = ([], tt, simp (push_item, e) refl)
  push_item-none k item m (vec ∷ pool) c e = (pool, c.1, simp (push_item, e, c.0) refl)

  -- A pushed item stands behind the items that its flow had; any other flow keeps its items; and the
  -- waiting vectors stay empty, for a table whose waiting vectors are empty and a test that decides
  -- equality of keys.
  pub push_item-lookup :
      (k j : K) (item : I) (t : Table K I)
      → IsClean t
      → eq k j ≡ false
      → Pushed k j item t (push_item eq k item t)
  push_item-lookup k j item t c h = elim (Option-cases (lookup eq k t.items_by_flow)) [
    | inr found ↦ rw (push_item-some k item found.0 t found.1) (
      lookup-update k (found.0 ++ item ∷ []) found.0 t.items_by_flow found.1
          ∙ ap (λ x. some (or_empty x ++ item ∷ [])) (sym found.1),
      lookup-update_other k j (found.0 ++ item ∷ []) t.items_by_flow h,
      c,
    )
    | inl new ↦
        let p = push_item-none k item t.items_by_flow t.items_pool c new in
        rw p.2 (
          lookup-append k (item ∷ []) t.items_by_flow new
              ∙ ap (λ x. some (or_empty x ++ item ∷ [])) (sym new),
          lookup-append_other k j (item ∷ []) t.items_by_flow h,
          p.1,
        )
  ]

-- Every vector of a drained table waits, emptied.
drain_lem :
    {K I : Type 0} (m : List (K × List I)) (pool : List (List I))
    → All (λ vec. vec ≡ []) pool
    → All (λ vec. vec ≡ []) (drain m pool) × (length (drain m pool) ≡ length m + length pool)
unfolding drain
drain_lem [] pool c = (c, omega arith)
drain_lem ((k, items) ∷ m) pool c =
    let r = drain_lem m ([] ∷ pool) (refl, c) in (r.0, omega (arith, r.1))

-- A reset leaves no flow, and keeps the vectors of all flows, emptied, beside those that waited, for a
-- table whose waiting vectors are empty.
pub reset-IsClean :
    {K I : Type 0} (t : Table K I)
    → IsClean t
    → ((reset t).items_by_flow ≡ [])
      × IsClean (reset t)
      × (length (reset t).items_pool ≡ length t.items_by_flow + length t.items_pool)
unfolding reset
reset-IsClean t c = let r = drain_lem t.items_by_flow t.items_pool c in (refl, r.0, r.1)
