-- ===== src/Windows/Wintun/Held/Adapter.antt =====
-- An adapter and its sessions are held from their opening to their drop.
use quincy_tun.Base.{
  ℕ, ◌≡◌, refl, sym, ap, ◌∙◌, List, [], ◌∷◌, Bool, true, false, Option, none, some, Outcome, ok,
  err, panic, ErrorKind, Bool-cases, inl, inr, ◌==◌, ==_iff, os,
}
use quincy_tun.Host.{pure, ◌>>=◌, attempt}
use quincy_tun.Host.Runs.{call-Runs, same-Runs, bind-Runs, tried-Runs, if-Runs}
use quincy_tun.Windows.Wintun.{
  Dll, close_adapter, delete_driver, start_session, get_last_error, get_read_wait_event,
  end_session, close_handle, set_event, reset_event, DllReply, Win, dll, last_os_error, not_false,
  ffi_set_event, ffi_reset_event, WinTunSession, WinTunAdapter,
}
use quincy_tun.Windows.Wintun.Adapter.{
  drop_session, with_read_event, started, Changed, enabled_by, enable, disabled_by, disable,
  drop_adapter,
}
use quincy_tun.Windows.Wintun.Held.{
  Resource, adapter, session, event, same, remove, remove-head, step, Holds, Keeps,
}
use quincy_tun.Windows.Wintun.Held.Ring.{
  pure-Keeps, bind-Keeps, if-Keeps, dll-Keeps, last_os_error-Keeps,
}

-- The session, if there is one, and what was held before it.
abbrev pub sessions : Option WinTunSession → List Resource → List Resource
sessions none held = held
sessions (some s) held = session s.handle ∷ held

-- All that an adapter holds.
abbrev pub owned : WinTunAdapter → List Resource → List Resource
owned a held = sessions a.session (adapter a.handle ∷ event a.event ∷ held)

-- A call whose failure does not count.
pub close-Holds :
    {A : Type 0} (before after : List Resource) (c : Dll) (f : Outcome (DllReply c) → Win A)
    (q : Outcome A → List Resource)
    → ((r : Outcome (DllReply c)) → step before (c, r) ≡ after)
    → ((r : Outcome (DllReply c)) → Holds after (f r) q)
    → Holds before (attempt (dll c) >>= f) q
close-Holds before after c f q e k =
    tried-Runs step [] before (λ _. after) q (dll c) f
      (same-Runs step [] before (dll c) (λ r. step before (c, r)) (λ _. after)
        (call-Runs step [] before c) e)
      k

-- An old session is dropped, below a new one or with none above it.
remove-below :
    (x y : ℕ) (held : List Resource)
    → remove (session x) (session y ∷ session x ∷ held) ≡ session y ∷ held
unfolding remove same
remove-below x y held = elim (Bool-cases (y == x)) [
  | inl e ↦ simp e (ap (λ n. session n ∷ held) (sym ((==_iff y x).0 e)))
  | inr e ↦ simp e (ap (λ t. session y ∷ t) (remove-head (session x) held))
]

drop_session-Holds :
    (o : Option WinTunSession) (held : List Resource)
    → Holds (sessions o held) (drop_session o) (λ _. held)
unfolding drop_session
drop_session-Holds none held = pure-Keeps held _
drop_session-Holds (some s) held =
    close-Holds (session s.handle ∷ held) held (end_session s.handle) (λ _. pure (ok tt))
      (λ _. held) (λ r. remove-head (session s.handle) held) (λ r. pure-Keeps held _)

below_session-Holds :
    (o : Option WinTunSession) (t : WinTunSession) (held : List Resource)
    → Holds (session t.handle ∷ sessions o held) (drop_session o) (λ _. session t.handle ∷ held)
unfolding drop_session
below_session-Holds none t held = pure-Keeps _ _
below_session-Holds (some s) t held =
    close-Holds (session t.handle ∷ session s.handle ∷ held) (session t.handle ∷ held)
      (end_session s.handle) (λ _. pure (ok tt)) (λ _. session t.handle ∷ held)
      (λ r. remove-below s.handle t.handle held) (λ r. pure-Keeps _ _)

-- What is held once a session was asked for.
abbrev with_new : List Resource → Outcome WinTunSession → List Resource
with_new held (ok s) = session s.handle ∷ held
with_new held (err e) = held
with_new held panic = held

pub refused-Holds :
    {A : Type 0} (held : List Resource) (q : Outcome A → List Resource)
    → ((e : ErrorKind) → held ≡ q (err e))
    → (held ≡ q panic)
    → Holds held last_os_error q
refused-Holds held q e p =
    bind-Runs step [] held (λ _. held) q (dll get_last_error) (λ n. pure (err (os n)))
      (dll-Keeps held get_last_error (λ r. refl)) (λ n. record { runs = λ h log at. at ∙ e (os n) })
      e p

end_started-Holds :
    (s : ℕ) (held : List Resource)
    → Holds
        (session s ∷ held)
        (attempt (dll (end_session s)) >>= λ _. last_os_error)
        (with_new held)
end_started-Holds s held =
    close-Holds (session s ∷ held) held (end_session s) (λ _. last_os_error) (with_new held)
      (λ r. remove-head (session s) held) (λ r. refused-Holds held (with_new held) (λ e. refl) refl)

with_read_event-Holds :
    (s : ℕ) (held : List Resource) (r : Outcome (Option ℕ))
    → Holds (session s ∷ held) (with_read_event s r) (with_new held)
unfolding with_read_event
with_read_event-Holds s held (ok (some e)) = record { runs = λ h log at. at }
with_read_event-Holds s held (ok none) = end_started-Holds s held
with_read_event-Holds s held (err e) = end_started-Holds s held
with_read_event-Holds s held panic = end_started-Holds s held

started-Holds :
    (a capacity : ℕ) (held : List Resource) (r : Option ℕ)
    → Holds (step held (start_session a capacity, ok r)) (started r) (with_new held)
unfolding started
started-Holds a capacity held none = refused-Holds held (with_new held) (λ e. refl) refl
started-Holds a capacity held (some s) =
    tried-Runs step [] (session s ∷ held) (λ _. session s ∷ held) (with_new held)
      (dll (get_read_wait_event s)) (with_read_event s)
      (dll-Keeps (session s ∷ held) (get_read_wait_event s) (λ r. refl))
      (with_read_event-Holds s held)

-- What is held after a change of the adapter: all that the adapter then holds.
abbrev pub changed : WinTunAdapter → List Resource → Outcome Changed → List Resource
changed a held (ok (r, b)) = owned b held
changed a held (err e) = owned a held
changed a held panic = owned a held

module _ (a : WinTunAdapter) (held : List Resource) where
  -- What is held below the session.
  abbrev base : List Resource
  base = adapter a.handle ∷ event a.event ∷ held

  enabled_by-Holds :
      (r : Outcome WinTunSession)
      → Holds (with_new (owned a held) r) (enabled_by a r) (changed a held)
  unfolding enabled_by
  enabled_by-Holds (ok s) =
      tried-Runs step [] (session s.handle ∷ owned a held) (λ _. session s.handle ∷ base)
        (changed a held) (drop_session a.session)
        (λ _. pure (ok (ok tt, record a { enabled = true; session = some s })))
        (below_session-Holds a.session s base) (λ u. record { runs = λ h log at. at })
  enabled_by-Holds (err e) = record { runs = λ h log at. at }
  enabled_by-Holds panic = record { runs = λ h log at. at }

  pub enable-Holds : Holds (owned a held) (enable a) (changed a held)
  unfolding enable
  enable-Holds =
      if-Runs step [] (owned a held) (changed a held) a.enabled _ _
        (record { runs = λ h log at. at })
        (tried-Runs step [] (owned a held) (with_new (owned a held)) (changed a held)
          (dll (start_session a.handle a.ring_capacity) >>= started) (enabled_by a)
          (bind-Runs step [] (owned a held)
            (λ r. step (owned a held) (start_session a.handle a.ring_capacity, r))
            (with_new (owned a held)) (dll (start_session a.handle a.ring_capacity)) started
            (call-Runs step [] (owned a held) (start_session a.handle a.ring_capacity))
            (started-Holds a.handle a.ring_capacity (owned a held)) (λ e. refl) refl)
          enabled_by-Holds)

  not_false-Keeps : (now : List Resource) (b : Bool) → Keeps now (not_false b)
  not_false-Keeps now true = pure-Keeps now _
  not_false-Keeps now false = last_os_error-Keeps now

  disabled_by-Holds :
      (r : Outcome (Unit {0})) → Holds (owned a held) (disabled_by a r) (changed a held)
  unfolding disabled_by ffi_reset_event
  disabled_by-Holds (ok u) =
      tried-Runs step [] (owned a held) (λ _. base) (changed a held) (drop_session a.session) _
        (drop_session-Holds a.session base)
        (λ u.
          tried-Runs step [] base (λ _. base) (changed a held)
            (dll (reset_event a.event) >>= not_false)
            (λ r. pure (ok (r, record a { enabled = false; session = none })))
            (bind-Keeps base _ _ (dll-Keeps base (reset_event a.event) (λ r. refl))
              (not_false-Keeps base))
            (λ r. record { runs = λ h log at. at }))
  disabled_by-Holds (err e) = record { runs = λ h log at. at }
  disabled_by-Holds panic = record { runs = λ h log at. at }

  pub disable-Holds : Holds (owned a held) (disable a) (changed a held)
  unfolding disable ffi_set_event
  disable-Holds =
      if-Runs step [] (owned a held) (changed a held) a.enabled _ _
        (tried-Runs step [] (owned a held) (λ _. owned a held) (changed a held)
          (dll (set_event a.event) >>= not_false) (disabled_by a)
          (bind-Keeps (owned a held) _ _ (dll-Keeps (owned a held) (set_event a.event) (λ r. refl))
            (not_false-Keeps (owned a held)))
          disabled_by-Holds)
        (record { runs = λ h log at. at })

  -- A dropped adapter gives back all that it holds.
  pub drop_adapter-Holds : Holds (owned a held) (drop_adapter a) (λ _. held)
  unfolding drop_adapter
  drop_adapter-Holds =
      tried-Runs step [] (owned a held) (λ _. base) (λ _. held) (drop_session a.session) _
        (drop_session-Holds a.session base)
        (λ u.
          close-Holds base (event a.event ∷ held) (close_adapter a.handle) _ (λ _. held)
            (λ r. remove-head (adapter a.handle) (event a.event ∷ held))
            (λ u.
              tried-Runs step [] (event a.event ∷ held) (λ _. event a.event ∷ held) (λ _. held) _ _
                (if-Keeps (event a.event ∷ held) a.delete_driver _ _
                  (dll-Keeps (event a.event ∷ held) delete_driver (λ r. refl))
                  (pure-Keeps _ (ok tt)))
                (λ u.
                  close-Holds (event a.event ∷ held) held (close_handle a.event) _ (λ _. held)
                    (λ r. remove-head (event a.event) held) (λ r. pure-Keeps held (ok tt)))))
