-- ===== src/Windows/Wintun/Clock.antt =====
-- The loop of `send` ends: it waits for room in the ring for five seconds at most.
use quincy_tun.Base.{
  ℕ, zero, suc, ◌+◌, ◌*◌, ◌≤◌, ◌<◌, ◌≡◌, ◌≢◌, refl, arith, List, [], ◌∷◌, ◌++◌, Bool, true, false,
  ltb, if◌then◌else◌, Option, none, Outcome, ok, err, panic, timed_out, interrupted, other,
}
use quincy_tun.Host.{Event, Host, next, pure, ◌>>=◌}
use quincy_tun.Host.Runs.{state-snoc}
use quincy_tun.Windows.Wintun.{load_state, elapsed, DllReply, Win, dll, WinTunSession}
use quincy_tun.Windows.Wintun.Session.{
  is_would_block, pause, next_backoff, timeout, is_triggered, may_go_on, sent_or, try_send,
  send_loop, send,
}
use quincy_tun.Windows.Wintun.Awake.{
  paused, slept, try_send-Awake, may_go_on-Awake, timed, pause-Runs,
}

-- The clock that starts at the log `start` has run for as long at least as the pauses since then.
abbrev pub Ticking : Host DllReply → List (Event DllReply) → Type 0
Ticking h start =
    (log : List (Event DllReply)) (t : ℕ) → h log elapsed ≡ ok t → slept log ≤ slept start + t

-- The pauses of the loop, each with what it and the ones before the longest lack of that one, in
-- milliseconds.
data Level : Type 0 where
  start one two four eight ten : Level

abbrev backoff_of : Level → ℕ
backoff_of start = 0
backoff_of one = 1
backoff_of two = 2
backoff_of four = 4
backoff_of eight = 8
backoff_of ten = 10

abbrev lack : Level → ℕ
lack start = 35
lack one = 25
lack two = 16
lack four = 8
lack eight = 2
lack ten = 0

abbrev up : Level → Level
up start = one
up one = two
up two = four
up four = eight
up eight = ten
up ten = ten

backoff_of-up : (l : Level) → next_backoff (backoff_of l) ≡ backoff_of (up l)
backoff_of-up start = refl
backoff_of-up one = refl
backoff_of-up two = refl
backoff_of-up four = refl
backoff_of-up eight = refl
backoff_of-up ten = refl

lack-up : (l : Level) → lack (up l) + 10 ≤ lack l + backoff_of l
lack-up start = omega arith
lack-up one = omega arith
lack-up two = omega arith
lack-up four = omega arith
lack-up eight = omega arith
lack-up ten = omega arith

-- The rounds were enough.
abbrev pub IsSettled : {A : Type 0} → Outcome (Option A) → Type 0
IsSettled r = r ≢ ok none

module _ (h : Host DllReply) (begun : List (Event DllReply)) (ticking : Ticking h begun) where
  -- After a clock that is not past the timeout, the pauses were not either.
  on_time :
      (event : Option ℕ) (log log' : List (Event DllReply)) (t : ℕ) (b : Bool)
      → ltb timeout t ≡ b
      → h log elapsed ≡ ok t
      → ((if b
            then pure (err timed_out)
            else (is_triggered event >>= λ stop.
                if stop then pure (err interrupted) else pure (ok tt)))
          h log').1
        ≡ ok tt
      → slept log ≤ slept begun + timeout
  on_time event log log' t true late e go = absurd (cc)
  on_time event log log' t false early e go =
      let ran = ticking log t e in
      let within : t ≤ timeout = ground arith in omega (arith, ran, within)

  timed_lem :
      (event : Option ℕ) (log log' : List (Event DllReply)) (r : Outcome ℕ)
      → h log elapsed ≡ r
      → (next (timed event) h log' r).1 ≡ ok tt
      → slept log ≤ slept begun + timeout
  timed_lem event log log' (ok t) e go = on_time event log log' t (ltb timeout t) refl e go
  timed_lem event log log' (err x) e go = absurd (cc)
  timed_lem event log log' panic e go = absurd (cc)

  enabled_lem :
      (event : Option ℕ) (log log' : List (Event DllReply)) (r : Outcome Bool)
      → slept log' ≡ slept log
      → (next
          (λ enabled. if enabled then (dll elapsed >>= timed event) else pure (err other))
          h
          log'
          r).1
        ≡ ok tt
      → slept log ≤ slept begun + timeout
  enabled_lem event log log' (ok true) same go =
      let l : slept log' ≤ slept begun + timeout =
        timed_lem event log' (log' ++ (elapsed, h log' elapsed) ∷ []) (h log' elapsed) refl go in
      omega (arith, l, same)
  enabled_lem event log log' (ok false) same go = absurd (cc)
  enabled_lem event log log' (err x) same go = absurd (cc)
  enabled_lem event log log' panic same go = absurd (cc)

  may_go_on_lem :
      (event : Option ℕ) (log : List (Event DllReply))
      → (may_go_on event h log).1 ≡ ok tt
      → slept log ≤ slept begun + timeout
  unfolding may_go_on slept
  may_go_on_lem event log go =
      enabled_lem event log (log ++ (load_state, h log load_state) ∷ []) (h log load_state)
        (state-snoc paused 0 log (load_state, h log load_state)) go

  next-IsSettled :
      {A : Type 0} (f : Unit {0} → Win (Option A)) (log : List (Event DllReply))
      (r : Outcome (Unit {0}))
      → (r ≡ ok tt → IsSettled (f tt h log).1)
      → IsSettled (next f h log r).1
  next-IsSettled f log (ok tt) k = k refl
  next-IsSettled f log (err e) k = λ x. cc
  next-IsSettled f log panic k = λ x. cc

  sent_or-IsSettled :
      {A : Type 0} (again : Win (Option A)) (log : List (Event DllReply)) (r : Outcome A)
      → IsSettled (again h log).1
      → IsSettled (sent_or again r h log).1
  unfolding sent_or
  sent_or-IsSettled again log (ok a) k = λ x. cc
  sent_or-IsSettled again log (err e) k =
      elim (is_would_block e) as (λ b. IsSettled ((if b then again else pure (err e)) h log).1) [
        | true ↦ k
        | false ↦ λ x. cc
      ]
  sent_or-IsSettled again log panic k = λ x. cc

  module _ (s : WinTunSession) (buf : List ℕ) (event : Option ℕ) where
    -- The log after the attempt, after the tests that let the loop go on, and after the pause.
    abbrev tried_log : List (Event DllReply) → List (Event DllReply)
    tried_log log = (try_send s buf h log).0

    abbrev tested_log : List (Event DllReply) → List (Event DllReply)
    tested_log log = (may_go_on event h (tried_log log)).0

    abbrev paused_log : ℕ → List (Event DllReply) → List (Event DllReply)
    paused_log backoff log = (pause backoff h (tested_log log)).0

    tried_log-slept : (log : List (Event DllReply)) → slept (tried_log log) ≡ slept log
    unfolding slept
    tried_log-slept log = (try_send-Awake (slept log) s buf).runs h log refl

    paused_log-slept :
        (backoff : ℕ) (log : List (Event DllReply))
        → slept (paused_log backoff log) ≡ slept log + backoff * 1000000
    unfolding slept
    paused_log-slept backoff log =
        (pause-Runs (slept log) backoff).runs h (tested_log log)
          ((may_go_on-Awake (slept log) event).runs h (tried_log log) (tried_log-slept log))

    -- One round, and then the rest where the time is not up.
    round_lem :
        (k backoff : ℕ) (log : List (Event DllReply))
        → (slept log ≤ slept begun + timeout
            → IsSettled
                (send_loop s k (next_backoff backoff) buf event h (paused_log backoff log)).1)
        → IsSettled (send_loop s (suc k) backoff buf event h log).1
    unfolding send_loop
    round_lem k backoff log rest =
        let again : Unit {0} → Win (Option ℕ) =
          λ u. send_loop s k (next_backoff backoff) buf event in
        let same = tried_log-slept log in
        sent_or-IsSettled (may_go_on event >>= λ u. pause backoff >>= again) (tried_log log)
          (try_send s buf h log).1
          (next-IsSettled (λ u. pause backoff >>= again) (tested_log log)
            (may_go_on event h (tried_log log)).1
            (λ go.
              next-IsSettled again (paused_log backoff log) (pause backoff h (tested_log log)).1
                (λ done.
                  let l = may_go_on_lem event (tried_log log) go in rest (omega (arith, l, same)))))

    send_loop_lem :
        (k : ℕ) (l : Level) (log : List (Event DllReply))
        → timeout + slept begun + lack l * 1000000 < slept log + k * 10000000
        → IsSettled (send_loop s (suc k) (backoff_of l) buf event h log).1
    send_loop_lem zero l log enough =
        round_lem zero (backoff_of l) log (λ early. absurd (omega (arith, early, enough)))
    send_loop_lem (suc k) l log enough = round_lem (suc k) (backoff_of l) log (λ early.
        let more = paused_log-slept (backoff_of l) log in
        let less = lack-up l in
        let ih =
          send_loop_lem k (up l) (paused_log (backoff_of l) log)
            (omega (arith, more, less, enough)) in
        rw (backoff_of-up l) ih)

-- With a clock that runs on for as long at least as the pauses of the loop last, a `send` that begins
-- now comes to its end within 505 rounds: it does not use them up.
pub send-IsSettled :
    (h : Host DllReply) (log : List (Event DllReply)) (s : WinTunSession) (buf : List ℕ)
    (event : Option ℕ)
    → Ticking h log
    → IsSettled (send s buf event h log).1
unfolding send
send-IsSettled h log s buf event ticking =
    send_loop_lem h log ticking s buf event 504 start log (omega arith)
