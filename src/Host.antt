-- ===== src/Host.antt =====
-- Code that calls the system: each call is kept in a log with its answer, and the system answers a
-- call by what has been called before. The answers are a parameter, the calls and their order are
-- the code's.
pub mod Laws
pub mod Answers
pub mod Runs
pub mod Meets
use quincy_tun.Base.{List, [], ◌∷◌, ◌++◌, Outcome, ok, err, panic, Bool, ErrorKind, true, false}

module _ {C : Type 0} (Reply : C → Type 0) where
  -- A call that was made, and its answer.
  abbrev pub Event : Type 0
  Event = (c : C) × Outcome (Reply c)

  abbrev pub Host : Type 0
  Host = List Event → (c : C) → Outcome (Reply c)

  -- A computation reads the log so far, adds its calls to it, and ends.
  abbrev pub M : Type 0 → Type 0
  M A = Host → List Event → List Event × Outcome A

  abbrev pub call : (c : C) → M (Reply c)
  call c = λ h log. (log ++ (c, h log c) ∷ [], h log c)

module _ {C : Type 0} {Reply : C → Type 0} where
  abbrev pub pure : {A : Type 0} → Outcome A → M Reply A
  pure r = λ h log. (log, r)

  abbrev pub next :
      {A B : Type 0}
      → (A → M Reply B)
      → Host Reply
      → List (Event Reply)
      → Outcome A
      → List (Event Reply) × Outcome B
  next f h log (ok a) = f a h log
  next f h log (err e) = (log, err e)
  next f h log panic = (log, panic)

  infixl 5 ◌>>=◌ ◌>>◌
  abbrev pub ◌>>=◌ : {A B : Type 0} → M Reply A → (A → M Reply B) → M Reply B
  m >>= f = λ h log. next f h (m h log).0 (m h log).1

  abbrev pub ◌>>◌ : {B : Type 0} → M Reply (Unit {0}) → M Reply B → M Reply B
  m >> k = m >>= λ _. k

  -- `if !test { return Err(e) }`
  abbrev pub ensure : Bool → ErrorKind → M Reply (Unit {0})
  ensure true e = pure (ok tt)
  ensure false e = pure (err e)

  -- The result as a value: an error does not end the computation.
  abbrev pub attempt : {A : Type 0} → M Reply A → M Reply (Outcome A)
  attempt m = λ h log. ((m h log).0, ok (m h log).1)

  -- `cleanup` runs whatever the result, as a `drop` does, and its answer is not looked at.
  abbrev pub finally : {A B : Type 0} → M Reply A → M Reply B → M Reply A
  finally m cleanup = λ h log. ((cleanup h (m h log).0).0, (m h log).1)
