-- ===== src/Host/Runs.antt =====
-- What a computation does to a state that the log of calls determines: from the state at its start, its
-- result says the state at its end.
use quincy_tun.Base.{
  ◌≡◌, refl, ap, ◌∙◌, List, [], ◌∷◌, ◌++◌, Bool, true, false, Outcome, ok, err, panic, ErrorKind,
  if◌then◌else◌,
}
use quincy_tun.Host.{Event, Host, M, call, pure, next, ◌>>=◌, finally, attempt}

-- The state after `attempt`, whose value is the result of what it tried.
abbrev pub attempted {ℓ} : {S : Type ℓ} {A : Type 0} → S → (Outcome A → S) → Outcome (Outcome A) → S
attempted s q (ok r) = q r
attempted s q (err e) = s
attempted s q panic = s

module _ {C S : Type 0} {Reply : C → Type 0} (step : S → Event Reply → S) (start : S) where
  state_from : S → List (Event Reply) → S
  state_from s [] = s
  state_from s (e ∷ log) = state_from (step s e) log

  pub state : List (Event Reply) → S
  unfolding state_from
  state log = state_from start log

  state_from-snoc :
      (s : S) (log : List (Event Reply)) (e : Event Reply)
      → state_from s (log ++ e ∷ []) ≡ step (state_from s log) e
  unfolding state_from
  state_from-snoc s [] e = refl
  state_from-snoc s (d ∷ log) e = state_from-snoc (step s d) log e

  pub state-snoc :
      (log : List (Event Reply)) (e : Event Reply) → state (log ++ e ∷ []) ≡ step (state log) e
  unfolding state
  state-snoc log e = state_from-snoc start log e

  -- From the state `s` the computation ends in the state that `q` gives for its result.
  pub record Runs (s : S) {A : Type 0} (m : M Reply A) (q : Outcome A → S) : Type 0 where
    pub runs :
        (h : Host Reply) (log : List (Event Reply))
        → state log ≡ s
        → state (m h log).0 ≡ q (m h log).1

  pub pure-Runs : {A : Type 0} (s : S) (r : Outcome A) → Runs s (pure r) (λ _. s)
  pure-Runs s r = record { runs = λ h log e. e }

  pub call-Runs : (s : S) (c : C) → Runs s (call Reply c) (λ r. step s (c, r))
  call-Runs s c = record {
    runs = λ h log e. state-snoc log (c, h log c) ∙ ap (λ t. step t (c, h log c)) e;
  }

  pub same-Runs :
      {A : Type 0} (s : S) (m : M Reply A) (q p : Outcome A → S)
      → Runs s m q
      → ((r : Outcome A) → q r ≡ p r)
      → Runs s m p
  same-Runs s m q p k e = record { runs = λ h log at. k.runs h log at ∙ e (m h log).1 }

  -- A call that leaves the state as it is, whatever the answer.
  pub idle-Runs :
      (s : S) (c : C)
      → ((r : Outcome (Reply c)) → step s (c, r) ≡ s)
      → Runs s (call Reply c) (λ _. s)
  idle-Runs s c k = same-Runs s (call Reply c) (λ r. step s (c, r)) (λ _. s) (call-Runs s c) k

  next-Runs :
      {A B : Type 0} (q : Outcome A → S) (p : Outcome B → S) (f : A → M Reply B) (h : Host Reply)
      (log : List (Event Reply)) (r : Outcome A)
      → state log ≡ q r
      → ((a : A) → Runs (q (ok a)) (f a) p)
      → ((e : ErrorKind) → q (err e) ≡ p (err e))
      → (q panic ≡ p panic)
      → state (next f h log r).0 ≡ p (next f h log r).1
  next-Runs q p f h log (ok a) at k e g = (k a).runs h log at
  next-Runs q p f h log (err x) at k e g = at ∙ e x
  next-Runs q p f h log panic at k e g = at ∙ g

  pub bind-Runs :
      {A B : Type 0} (s : S) (q : Outcome A → S) (p : Outcome B → S) (m : M Reply A)
      (f : A → M Reply B)
      → Runs s m q
      → ((a : A) → Runs (q (ok a)) (f a) p)
      → ((e : ErrorKind) → q (err e) ≡ p (err e))
      → (q panic ≡ p panic)
      → Runs s (m >>= f) p
  bind-Runs s q p m f j k e g = record {
    runs = λ h log at. next-Runs q p f h (m h log).0 (m h log).1 (j.runs h log at) k e g;
  }

  -- A part that leaves the state as it is, and then the rest, where an error leaves it too.
  pub then-Runs :
      {A B : Type 0} (s : S) (p : Outcome B → S) (m : M Reply A) (f : A → M Reply B)
      → Runs s m (λ _. s)
      → ((a : A) → Runs s (f a) p)
      → ((e : ErrorKind) → s ≡ p (err e))
      → (s ≡ p panic)
      → Runs s (m >>= f) p
  then-Runs s p m f j k e g = bind-Runs s (λ _. s) p m f j k e g

  -- Both parts leave the state as it is.
  pub quiet-Runs :
      {A B : Type 0} (s : S) (m : M Reply A) (f : A → M Reply B)
      → Runs s m (λ _. s)
      → ((a : A) → Runs s (f a) (λ _. s))
      → Runs s (m >>= f) (λ _. s)
  quiet-Runs s m f j k = bind-Runs s (λ _. s) (λ _. s) m f j k (λ e. refl) refl

  pub attempt-Runs :
      {A : Type 0} (s : S) (q : Outcome A → S) (m : M Reply A)
      → Runs s m q
      → Runs s (attempt m) (attempted s q)
  attempt-Runs s q m k = record { runs = λ h log at. k.runs h log at }

  -- After an attempt, what its result calls for.
  pub tried-Runs :
      {A B : Type 0} (s : S) (q : Outcome A → S) (p : Outcome B → S) (m : M Reply A)
      (f : Outcome A → M Reply B)
      → Runs s m q
      → ((r : Outcome A) → Runs (q r) (f r) p)
      → Runs s (attempt m >>= f) p
  tried-Runs s q p m f j k = record {
    runs = λ h log at. (k (m h log).1).runs h (m h log).0 (j.runs h log at);
  }

  pub finally-Runs :
      {A B : Type 0} (s : S) (q p : Outcome A → S) (m : M Reply A) (cleanup : M Reply B)
      → Runs s m q
      → ((r : Outcome A) → Runs (q r) cleanup (λ _. p r))
      → Runs s (finally m cleanup) p
  finally-Runs s q p m cleanup j k = record {
    runs = λ h log at. (k (m h log).1).runs h (m h log).0 (j.runs h log at);
  }

  pub if-Runs :
      {A : Type 0} (s : S) (q : Outcome A → S) (b : Bool) (m n : M Reply A)
      → Runs s m q
      → Runs s n q
      → Runs s (if b then m else n) q
  if-Runs s q true m n j k = j
  if-Runs s q false m n j k = k
