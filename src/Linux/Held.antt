-- ===== src/Linux/Held.antt =====
-- Which descriptors a log of requests leaves open.
pub mod Settings
pub mod Addresses
pub mod Open
use quincy_tun.Base.{
  ℕ, ◌≡◌, refl, sym, ap, ◌∙◌, List, [], ◌∷◌, ◌++◌, Bool, true, false, ◌==◌, ==_iff, if◌then◌else◌,
  Outcome, ok, err, panic,
}
use quincy_tun.Host.{Event, Host, M, call, pure, next, ◌>>=◌, ◌>>◌, attempt, finally}
use quincy_tun.Linux.{Sys, open_tun, socket, close, Reply, Io, sys, Family}
use quincy_tun.Linux.Settings.{with_socket}

pub remove : ℕ → List ℕ → List ℕ
remove fd [] = []
remove fd (x ∷ held) = let rest = remove fd held in if x == fd then held else x ∷ rest

-- A file or socket that is opened is held from then on, until it is closed.
abbrev pub step : List ℕ → Event Reply → List ℕ
step held (open_tun, ok fd) = fd ∷ held
step held (socket f, ok fd) = fd ∷ held
step held (close fd, r) = remove fd held
step held _ = held

held_from : List ℕ → List (Event Reply) → List ℕ
unfolding remove
held_from held [] = held
held_from held (e ∷ log) = held_from (step held e) log

pub held : List (Event Reply) → List ℕ
unfolding held_from
held log = held_from [] log

held_from-snoc :
    (fds : List ℕ) (log : List (Event Reply)) (e : Event Reply)
    → held_from fds (log ++ e ∷ []) ≡ step (held_from fds log) e
unfolding held_from remove
held_from-snoc fds [] e = refl
held_from-snoc fds (d ∷ log) e = held_from-snoc (step fds d) log e

-- A computation that holds as many descriptors at its end as at its start, however it ends.
pub record Neutral {A : Type 0} (m : Io A) : Type 0 where
  pub keeps : (h : Host Reply) (log : List (Event Reply)) → held (m h log).0 ≡ held log

pub pure-Neutral : {A : Type 0} (r : Outcome A) → Neutral (pure r)
pure-Neutral r = record { keeps = λ h log. refl }

next-Neutral :
    {A B : Type 0} (f : A → Io B) (h : Host Reply) (log : List (Event Reply)) (r : Outcome A)
    → ((a : A) → Neutral (f a))
    → held (next f h log r).0 ≡ held log
next-Neutral f h log (ok a) k = (k a).keeps h log
next-Neutral f h log (err e) k = refl
next-Neutral f h log panic k = refl

pub bind-Neutral :
    {A B : Type 0} (m : Io A) (f : A → Io B)
    → Neutral m
    → ((a : A) → Neutral (f a))
    → Neutral (m >>= f)
bind-Neutral m f j k = record {
  keeps = λ h log. next-Neutral f h (m h log).0 (m h log).1 k ∙ j.keeps h log;
}

pub attempt-Neutral : {A : Type 0} (m : Io A) → Neutral m → Neutral (attempt m)
attempt-Neutral m k = record { keeps = λ h log. k.keeps h log }

-- A request that opens and closes nothing.
pub sys-Neutral :
    (c : Sys) → ((fds : List ℕ) (r : Outcome (Reply c)) → step fds (c, r) ≡ fds) → Neutral (sys c)
unfolding held
sys-Neutral c k = record {
  keeps = λ h log. held_from-snoc [] log (c, h log c) ∙ k (held log) (h log c);
}

pub held-event :
    (log : List (Event Reply)) (e : Event Reply) → held (log ++ e ∷ []) ≡ step (held log) e
unfolding held
held-event log e = held_from-snoc [] log e

pub held-open :
    (log : List (Event Reply)) (fd : ℕ) → held (log ++ (open_tun, ok fd) ∷ []) ≡ fd ∷ held log
unfolding held
held-open log fd = held_from-snoc [] log (open_tun, ok fd)

pub held-close :
    (log : List (Event Reply)) (fd : ℕ) (r : Outcome (Unit {0})) (fds : List ℕ)
    → held log ≡ fd ∷ fds
    → held (log ++ (close fd, r) ∷ []) ≡ fds
unfolding held remove
held-close log fd r fds e =
    held_from-snoc [] log (close fd, r) ∙ ap (remove fd) e ∙ simp ((==_iff fd fd).1 refl) refl

-- `next` after the answer of `socket`
socket-Neutral :
    {A : Type 0} (f : Family) (use_fd : ℕ → Io A) (h : Host Reply) (log : List (Event Reply))
    (r : Outcome ℕ)
    → ((s : ℕ) → Neutral (use_fd s))
    → held (next (λ s. finally (use_fd s) (sys (close s))) h (log ++ (socket f, r) ∷ []) r).0
      ≡ held log
unfolding held
socket-Neutral f use_fd h log (ok s) k =
    let log' = log ++ (socket f, ok s) ∷ [] in
    held-close (use_fd s h log').0 s (h (use_fd s h log').0 (close s)) (held log)
      ((k s).keeps h log' ∙ held_from-snoc [] log (socket f, ok s))
socket-Neutral f use_fd h log (err e) k = held_from-snoc [] log (socket f, err e)
socket-Neutral f use_fd h log panic k = held_from-snoc [] log (socket f, panic)

pub with_socket-Neutral :
    {A : Type 0} (f : Family) (use_fd : ℕ → Io A)
    → ((s : ℕ) → Neutral (use_fd s))
    → Neutral (with_socket f use_fd)
unfolding with_socket
with_socket-Neutral f use_fd k = record {
  keeps = λ h log. socket-Neutral f use_fd h log (h log (socket f)) k;
}
