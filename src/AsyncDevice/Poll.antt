-- ===== src/AsyncDevice/Poll.antt =====
-- src/async_device/unix/tokio.rs: `poll_recv` and `poll_send`, which try again after a readiness that
-- was a false alarm. The readiness and the operation, at each attempt, are parameters.
use quincy_tun.Base.{
  refl, ErrorKind, ℕ, zero, suc, ◌+◌, ◌<◌, ◌≡◌, ap, ◌∙◌, arith, Option, none, some, Outcome, ok,
  err, panic,
}

pub data Poll (A : Type 0) : Type 0 where
  ready : A → Poll A
  pending : Poll A

-- What `try_io` gives: the result of the operation, or that it would have blocked.
pub data TryIo (A : Type 0) : Type 0 where
  done : Outcome A → TryIo A
  would_block : TryIo A

module _ {A : Type 0} (poll_ready : ℕ → Poll (Outcome (Unit {0}))) (try_io : ℕ → TryIo A) where
  -- An attempt ends the loop, with what it says, or has it go on.
  abbrev tried : TryIo A → Option (Poll (Outcome A))
  tried (done r) = some (ready r)
  tried would_block = none

  abbrev seen_ready : Poll (Outcome (Unit {0})) → TryIo A → Option (Poll (Outcome A))
  seen_ready (ready (ok u)) t = tried t
  seen_ready (ready (err e)) t = some (ready (err e))
  seen_ready (ready panic) t = some (ready panic)
  seen_ready pending t = some pending

  abbrev pub attempt_at : ℕ → Option (Poll (Outcome A))
  attempt_at i = seen_ready (poll_ready i) (try_io i)

  -- The loop from the `i`-th attempt on, for at most `fuel` of them.
  pub poll_io : ℕ → ℕ → Option (Poll (Outcome A))
  poll_io zero i = none
  poll_io (suc fuel) i =
      let rest = poll_io fuel (i + 1) in elim (attempt_at i) [ some r ↦ some r | none ↦ rest ]

  poll_io-go :
      (fuel i : ℕ) (a : Option (Poll (Outcome A)))
      → attempt_at i ≡ a
      → poll_io (suc fuel) i ≡ elim a [ some r ↦ some r | none ↦ poll_io fuel (i + 1) ]
  unfolding poll_io
  poll_io-go fuel i a e =
      ap
        (λ (t : Option (Poll (Outcome A))). elim t [
          | some r ↦ some r
          | none ↦ poll_io fuel (i + 1)
        ])
        e

  -- The descriptor was said to be ready, and the operation would have blocked.
  abbrev pub IsFalseAlarm : ℕ → Type 0
  IsFalseAlarm i = (poll_ready i ≡ ready (ok tt)) × (try_io i ≡ would_block)

  -- What the poll is to give after an attempt that is no false alarm: where it is not ready, pending;
  -- where the readiness fails, that; where the operation ran, its result.
  pub data Gives (i : ℕ) : Poll (Outcome A) → Type 0 where
    not_ready : poll_ready i ≡ pending → Gives i pending
    ready_err : {e : ErrorKind} → poll_ready i ≡ ready (err e) → Gives i (ready (err e))
    ready_panic : poll_ready i ≡ ready panic → Gives i (ready panic)
    ran : {r : Outcome A} → poll_ready i ≡ ready (ok tt) → try_io i ≡ done r → Gives i (ready r)

  attempt_at-Gives : (i : ℕ) (r : Poll (Outcome A)) → Gives i r → attempt_at i ≡ some r
  attempt_at-Gives i _ (not_ready e) = rw e refl
  attempt_at-Gives i _ (ready_err e) = rw e refl
  attempt_at-Gives i _ (ready_panic e) = rw e refl
  attempt_at-Gives i _ (ran e t) = rw (e, t) refl

  attempt_at-IsFalseAlarm : (i : ℕ) → IsFalseAlarm i → attempt_at i ≡ none
  attempt_at-IsFalseAlarm i (e, t) = rw (e, t) refl

  attempts_lem :
      (n i : ℕ) (fuel : ℕ) (r : Poll (Outcome A))
      → ((j : ℕ) → j < n → attempt_at (i + j) ≡ none)
      → attempt_at (i + n) ≡ some r
      → n < fuel
      → poll_io fuel i ≡ some r
  attempts_lem n i zero r alarms last enough = absurd (omega (arith, enough))
  attempts_lem zero i (suc fuel) r alarms last enough =
      let here : i + 0 ≡ i = omega arith in poll_io-go fuel i (some r) (rw here at last)
  attempts_lem (suc n) i (suc fuel) r alarms last enough =
      let here : i + 0 ≡ i = omega arith in
      let next_at : i + suc n ≡ i + 1 + n = omega arith in
      let first : attempt_at (i + 0) ≡ none = alarms 0 (omega arith) in
      let later : (j : ℕ) → j < n → attempt_at (i + 1 + j) ≡ none = λ j l.
        let shift : i + suc j ≡ i + 1 + j = omega arith in
        let alarm : attempt_at (i + suc j) ≡ none = alarms (suc j) (omega (arith, l)) in
        rw shift at alarm in
      poll_io-go fuel i none (rw here at first)
      ∙ attempts_lem n (i + 1) fuel r later (rw next_at at last) (omega (arith, enough))

  -- If the first `n` attempts from the `i`-th on are false alarms and the next one is none, then any
  -- fuel above `n` is enough. The poll gives pending where that attempt is not ready, the failure of the
  -- readiness where that fails, and else the result of the operation.
  pub poll_io-settles :
      (n i : ℕ) (fuel : ℕ) (r : Poll (Outcome A))
      → ((j : ℕ) → j < n → IsFalseAlarm (i + j))
      → Gives (i + n) r
      → n < fuel
      → poll_io fuel i ≡ some r
  poll_io-settles n i fuel r alarms last enough =
      attempts_lem n i fuel r (λ j l. attempt_at-IsFalseAlarm (i + j) (alarms j l))
        (attempt_at-Gives (i + n) r last) enough
