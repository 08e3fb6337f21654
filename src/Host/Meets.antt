-- ===== src/Host/Meets.antt =====
-- What a computation does on one system, as a condition before and one after it: both are on a state that
-- the log determines, and the one after also on the result.
use quincy_tun.Base.{List, Outcome, ok, err, panic, ErrorKind}
use quincy_tun.Host.{Event, Host, M, call, pure, next, ◌>>=◌}
use quincy_tun.Host.Runs.{state, state-snoc}

module _ {C S : Type 0} {Reply : C → Type 0} (step : S → Event Reply → S) (start : S)
    (h : Host Reply) where
  pub record Meets (P : S → Type 0) {A : Type 0} (m : M Reply A) (Q : Outcome A → S → Type 0)
      : Type 0 where
    pub meets :
        (log : List (Event Reply))
        → P (state step start log)
        → Q (m h log).1 (state step start (m h log).0)

  pub pure-Meets :
      {A : Type 0} (P : S → Type 0) (Q : Outcome A → S → Type 0) (r : Outcome A)
      → ((s : S) → P s → Q r s)
      → Meets P (pure r) Q
  pure-Meets P Q r k = record { meets = λ log p. k (state step start log) p }

  pub call-Meets :
      (P : S → Type 0) (c : C) (Q : Outcome (Reply c) → S → Type 0)
      → ((log : List (Event Reply))
          → P (state step start log)
          → Q (h log c) (step (state step start log) (c, h log c)))
      → Meets P (call Reply c) Q
  call-Meets P c Q k = record {
    meets = λ log p. rw (state-snoc step start log (c, h log c)) (k log p);
  }

  next-Meets :
      {A B : Type 0} (Q : Outcome A → S → Type 0) (R : Outcome B → S → Type 0) (f : A → M Reply B)
      (log : List (Event Reply)) (r : Outcome A)
      → Q r (state step start log)
      → ((a : A) → Meets (Q (ok a)) (f a) R)
      → ((e : ErrorKind) (s : S) → Q (err e) s → R (err e) s)
      → ((s : S) → Q panic s → R panic s)
      → R (next f h log r).1 (state step start (next f h log r).0)
  next-Meets Q R f log (ok a) q k e p = (k a).meets log q
  next-Meets Q R f log (err x) q k e p = e x (state step start log) q
  next-Meets Q R f log panic q k e p = p (state step start log) q

  pub bind-Meets :
      {A B : Type 0} (P : S → Type 0) (Q : Outcome A → S → Type 0) (R : Outcome B → S → Type 0)
      (m : M Reply A) (f : A → M Reply B)
      → Meets P m Q
      → ((a : A) → Meets (Q (ok a)) (f a) R)
      → ((e : ErrorKind) (s : S) → Q (err e) s → R (err e) s)
      → ((s : S) → Q panic s → R panic s)
      → Meets P (m >>= f) R
  bind-Meets P Q R m f j k e p = record {
    meets = λ log at. next-Meets Q R f (m h log).0 (m h log).1 (j.meets log at) k e p;
  }

  pub weaker-Meets :
      {A : Type 0} (P : S → Type 0) (Q R : Outcome A → S → Type 0) (m : M Reply A)
      → Meets P m Q
      → ((r : Outcome A) (s : S) → Q r s → R r s)
      → Meets P m R
  weaker-Meets P Q R m j k = record {
    meets = λ log p. k (m h log).1 (state step start (m h log).0) (j.meets log p);
  }
