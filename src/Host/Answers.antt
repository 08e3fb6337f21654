-- ===== src/Host/Answers.antt =====
-- Computations that end with a value wherever the system answers each request with one.
use quincy_tun.Base.{◌≡◌, refl, List, Outcome, ok, err, panic, Returns}
use quincy_tun.Host.{Event, Host, M, call, pure, next, ◌>>=◌, finally, attempt}

abbrev pub IsValue : {A : Type 0} → Outcome A → Type 0
IsValue (ok a) = Unit
IsValue (err e) = ⊥
IsValue panic = ⊥

module _ {C : Type 0} {Reply : C → Type 0} where
  -- The system refuses nothing.
  abbrev pub Obliging : Host Reply → Type 0
  Obliging h = (log : List (Event Reply)) (c : C) → IsValue (h log c)

  pub record Succeeds (h : Host Reply) {A : Type 0} (m : M Reply A) : Type 0 where
    pub succeeds : (log : List (Event Reply)) → IsValue (m h log).1

module _ {C : Type 0} {Reply : C → Type 0} (h : Host Reply) where
  pub pure-Succeeds : {A : Type 0} (r : Outcome A) → IsValue r → Succeeds h (pure r)
  pure-Succeeds r v = record { succeeds = λ log. v }

  next-IsValue :
      {A B : Type 0} (f : A → M Reply B) (log : List (Event Reply)) (r : Outcome A)
      → IsValue r
      → ((a : A) → Succeeds h (f a))
      → IsValue (next f h log r).1
  next-IsValue f log (ok a) v k = (k a).succeeds log
  next-IsValue f log (err e) v k = absurd v
  next-IsValue f log panic v k = absurd v

  pub bind-Succeeds :
      {A B : Type 0} (m : M Reply A) (f : A → M Reply B)
      → Succeeds h m
      → ((a : A) → Succeeds h (f a))
      → Succeeds h (m >>= f)
  bind-Succeeds m f j k = record {
    succeeds = λ log. next-IsValue f (m h log).0 (m h log).1 (j.succeeds log) k;
  }

  -- A value that is known to be there is what goes on.
  pub value-Succeeds :
      {A B : Type 0} (r : Outcome A) (f : A → M Reply B)
      → IsValue r
      → ((a : A) → r ≡ ok a → Succeeds h (f a))
      → Succeeds h (pure r >>= f)
  value-Succeeds (ok a) f v k = record { succeeds = λ log. (k a refl).succeeds log }
  value-Succeeds (err e) f v k = absurd v
  value-Succeeds panic f v k = absurd v

  pub finally-Succeeds :
      {A B : Type 0} (m : M Reply A) (cleanup : M Reply B)
      → Succeeds h m
      → Succeeds h (finally m cleanup)
  finally-Succeeds m cleanup k = record { succeeds = λ log. k.succeeds log }

  pub attempt-Succeeds : {A : Type 0} (m : M Reply A) → Succeeds h (attempt m)
  attempt-Succeeds m = record { succeeds = λ log. tt }

  pub call-Succeeds : Obliging h → (c : C) → Succeeds h (call Reply c)
  call-Succeeds o c = record { succeeds = λ log. o log c }

  next-Returns :
      {A B : Type 0} (P : A → Type 0) (f : A → M Reply B) (log : List (Event Reply)) (r : Outcome A)
      → Returns r P
      → ((a : A) → P a → Succeeds h (f a))
      → IsValue (next f h log r).1
  next-Returns P f log (ok a) v k = (k a v).succeeds log
  next-Returns P f log (err e) v k = absurd v
  next-Returns P f log panic v k = absurd v

  -- What is known of the value of the first part helps the second.
  pub returns-Succeeds :
      {A B : Type 0} (P : A → Type 0) (m : M Reply A) (f : A → M Reply B)
      → ((log : List (Event Reply)) → Returns (m h log).1 P)
      → ((a : A) → P a → Succeeds h (f a))
      → Succeeds h (m >>= f)
  returns-Succeeds P m f v k = record {
    succeeds = λ log. next-Returns P f (m h log).0 (m h log).1 (v log) k;
  }
