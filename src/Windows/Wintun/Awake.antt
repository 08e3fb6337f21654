-- ===== src/Windows/Wintun/Awake.antt =====
-- What `send` does between two pauses, and how long a pause is.
use quincy_tun.Base.{
  ℕ, zero, suc, ◌+◌, ◌-◌, ◌*◌, ◌^◌, ◌≡◌, refl, arith, List, Bool, ltb, ◌==◌, if◌then◌else◌, length,
  Option, none, some, Outcome, ok, err, timed_out, interrupted, eq_zero-false,
}
use quincy_tun.Host.{Event, pure, ◌>>=◌}
use quincy_tun.Host.Runs.{
  Runs, state, pure-Runs, call-Runs, idle-Runs, quiet-Runs, same-Runs, if-Runs,
}
use quincy_tun.Windows.Wintun.{
  Dll, allocate_send_packet, send_packet, get_last_error, wait_for_single_object, load_state,
  elapsed, spin_loop, sleep, DllReply, Win, dll, WinTunSession,
}
use quincy_tun.Windows.Wintun.Session.{
  pause, timeout, is_triggered, may_go_on, put_packet, try_send,
}

-- The nanoseconds of the pauses.
abbrev pub paused : ℕ → Event DllReply → ℕ
paused n (sleep ms, r) = n + ms * 1000000
paused n _ = n

unfoldable pub slept : List (Event DllReply) → ℕ
slept log = state paused 0 log

-- A computation that does not pause.
abbrev pub Awake : ℕ → {A : Type 0} → Win A → Type 0
Awake n m = Runs paused 0 n m (λ _. n)

pure-Awake : {A : Type 0} (n : ℕ) (r : Outcome A) → Awake n (pure r)
pure-Awake n r = pure-Runs paused 0 n r

bind-Awake :
    {A B : Type 0} (n : ℕ) (m : Win A) (f : A → Win B)
    → Awake n m
    → ((a : A) → Awake n (f a))
    → Awake n (m >>= f)
bind-Awake n m f j k = quiet-Runs paused 0 n m f j k

dll-Awake : (n : ℕ) (c : Dll) → ((r : Outcome (DllReply c)) → paused n (c, r) ≡ n) → Awake n (dll c)
dll-Awake n c k = idle-Runs paused 0 n c k

if-Awake :
    {A : Type 0} (n : ℕ) (b : Bool) (x y : Win A)
    → Awake n x
    → Awake n y
    → Awake n (if b then x else y)
if-Awake n b x y j k = if-Runs paused 0 n (λ _. n) b x y j k

put_packet-Awake :
    (n : ℕ) (s : WinTunSession) (buf : List ℕ) (r : Option ℕ) → Awake n (put_packet s buf r)
unfolding put_packet
put_packet-Awake n s buf none =
    bind-Awake n _ _ (dll-Awake n get_last_error (λ r. refl)) (λ e. pure-Awake n _)
put_packet-Awake n s buf (some p) =
    bind-Awake n _ _ (dll-Awake n (send_packet s.handle p buf) (λ r. refl)) (λ u. pure-Awake n _)

pub try_send-Awake : (n : ℕ) (s : WinTunSession) (buf : List ℕ) → Awake n (try_send s buf)
unfolding try_send
try_send-Awake n s buf = if-Awake n (ltb (2 ^ 32 - 1) (length buf)) _ _ (pure-Awake n _) (
    bind-Awake n _ _ (dll-Awake n (allocate_send_packet s.handle (length buf)) (λ r. refl))
      (put_packet-Awake n s buf))

is_triggered-Awake : (n : ℕ) (e : Option ℕ) → Awake n (is_triggered e)
unfolding is_triggered
is_triggered-Awake n none = pure-Awake n _
is_triggered-Awake n (some e) =
    bind-Awake n _ _ (dll-Awake n (wait_for_single_object e 0) (λ r. refl)) (λ r.
      if-Awake n (r == 0) _ _ (pure-Awake n _)
        (bind-Awake n _ _ (dll-Awake n get_last_error (λ r. refl)) (λ x. pure-Awake n _)))

-- What is left of `may_go_on` once the clock is read.
abbrev pub timed : Option ℕ → ℕ → Win (Unit {0})
timed event t =
    if ltb timeout t
    then pure (err timed_out)
    else (is_triggered event >>= λ stop. if stop then pure (err interrupted) else pure (ok tt))

pub may_go_on-Awake : (n : ℕ) (e : Option ℕ) → Awake n (may_go_on e)
unfolding may_go_on
may_go_on-Awake n e = bind-Awake n _ _ (dll-Awake n load_state (λ r. refl)) (λ b.
    if-Awake n b _ _
      (bind-Awake n (dll elapsed) (timed e) (dll-Awake n elapsed (λ r. refl)) (λ t.
        if-Awake n (ltb timeout t) _ _ (pure-Awake n _) (
          bind-Awake n _ _ (is_triggered-Awake n e)
            (λ stop. if-Awake n stop _ _ (pure-Awake n _) (pure-Awake n _)))))
      (pure-Awake n _))

pub pause-Runs : (n b : ℕ) → Runs paused 0 n (pause b) (λ _. n + b * 1000000)
unfolding pause
pause-Runs n zero =
    same-Runs paused 0 n (dll spin_loop) (λ _. n) (λ _. n + 0 * 1000000)
      (dll-Awake n spin_loop (λ r. refl)) (λ r. omega arith)
pause-Runs n (suc b) =
    rw (eq_zero-false (suc b) (omega arith)) (call-Runs paused 0 n (sleep (suc b)))
