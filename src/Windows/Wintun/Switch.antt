-- ===== src/Windows/Wintun/Switch.antt =====
-- Enabling and disabling an adapter: the flag and the session agree.
use quincy_tun.Base.{
  ℕ, ◌≡◌, ◌≢◌, refl, sym, ◌∙◌, List, [], ◌∷◌, Bool, true, false, if◌then◌else◌, Option, none, some,
  Outcome, ok, err, panic, Returns, other, os, ◌++◌,
}
use quincy_tun.Host.{Event, Host, next, pure}
use quincy_tun.Windows.Wintun.{
  Dll, DllReply, Win, set_event, get_last_error, not_false, ffi_set_event, WinTunSession,
  WinTunAdapter,
}
use quincy_tun.Windows.Wintun.Adapter.{
  Changed, enabled_by, enable, disabled_by, disable, tun_enabled, with_session, adapter_send,
  adapter_recv, adapter_try_send, adapter_try_recv, adapter_wait,
}

abbrev pub is_some : {A : Type 0} → Option A → Bool
is_some none = false
is_some (some a) = true

-- The flag is on exactly where there is a session.
abbrev pub IsWell : WinTunAdapter → Type 0
IsWell a = a.enabled ≡ is_some a.session

-- A call of the system does not panic.
abbrev pub Calm : Host DllReply → Type 0
Calm h = (log : List (Event DllReply)) (c : Dll) → h log c ≢ panic

-- What is the same of two adapters, whatever was switched.
abbrev pub SameParts : WinTunAdapter → WinTunAdapter → Type 0
SameParts a b = (b.handle ≡ a.handle) × (b.event ≡ a.event) × (b.ring_capacity ≡ a.ring_capacity)

-- A change to `value`: it leaves a well-formed adapter, with the flag where it succeeds; an enabling
-- that fails leaves the adapter as it was.
abbrev pub IsSwitched : Bool → WinTunAdapter → Changed → Type 0
IsSwitched value a c =
    IsWell c.1
    × (c.0 ≡ ok tt → c.1.enabled ≡ value)
    × (value ≡ true → c.0 ≢ ok tt → c.1 ≡ a)
    × SameParts a c.1

module _ (h : Host DllReply) where
  if-Returns :
      {A : Type 0} (P : A → Type 0) (b : Bool) (x y : Win A) (log : List (Event DllReply))
      → (b ≡ true → Returns (x h log).1 P)
      → (b ≡ false → Returns (y h log).1 P)
      → Returns ((if b then x else y) h log).1 P
  if-Returns P true x y log p q = p refl
  if-Returns P false x y log p q = q refl

  next_calm :
      {A B : Type 0} (f : A → Win B) (log : List (Event DllReply)) (r : Outcome A)
      → r ≢ panic
      → ((x : A) (log' : List (Event DllReply)) → (f x h log').1 ≢ panic)
      → (next f h log r).1 ≢ panic
  next_calm f log (ok x) n k = k x log
  next_calm f log (err e) n k = λ x. cc
  next_calm f log panic n k = λ x. n refl

  set_event_no_panic :
      (e : ℕ) (log : List (Event DllReply)) → Calm h → (ffi_set_event e h log).1 ≢ panic
  unfolding ffi_set_event
  set_event_no_panic e log calm =
      next_calm not_false (log ++ (set_event e, h log (set_event e)) ∷ []) (h log (set_event e))
        (calm log (set_event e)) (answered calm)
    where
      answered :
          (calm : Calm h) (b : Bool) (log' : List (Event DllReply)) → (not_false b h log').1 ≢ panic
      answered calm true log' = λ x. cc
      answered calm false log' =
          next_calm (λ n. pure (err (os n))) (log' ++ (get_last_error, h log' get_last_error) ∷ [])
            (h log' get_last_error) (calm log' get_last_error) (λ n l x. cc)

  module _ (a : WinTunAdapter) where
    enabled_by-IsSwitched :
        (well : IsWell a) (log : List (Event DllReply)) (r : Outcome WinTunSession)
        → Returns (enabled_by a r h log).1 (IsSwitched true a)
    unfolding enabled_by
    enabled_by-IsSwitched well log (ok s) =
        (refl, λ e. refl, λ e n. absurd (n refl), (refl, refl, refl))
    enabled_by-IsSwitched well log (err e) =
        (well, λ x. absurd (cc), λ x n. refl, (refl, refl, refl))
    enabled_by-IsSwitched well log panic = (well, λ x. absurd (cc), λ x n. refl, (refl, refl, refl))

    disabled_by-IsSwitched :
        (well : IsWell a) (log : List (Event DllReply)) (r : Outcome (Unit {0}))
        → r ≢ panic
        → Returns (disabled_by a r h log).1 (IsSwitched false a)
    unfolding disabled_by
    disabled_by-IsSwitched well log (ok u) n =
        (refl, λ e. refl, λ e. absurd (cc), (refl, refl, refl))
    disabled_by-IsSwitched well log (err e) n =
        (well, λ x. absurd (cc), λ x. absurd (cc), (refl, refl, refl))
    disabled_by-IsSwitched well log panic n = absurd (n refl)

    -- For an adapter whose flag is on exactly where it has a session, on a system whose calls do not
    -- panic, `enabled` gives a result and an adapter of which that is true again. Where the result is a
    -- success the flag is the value asked for; an enabling that fails leaves the adapter as it was; the
    -- handle, the event and the capacity never change.
    pub tun_enabled-IsSwitched :
        (well : IsWell a) (value : Bool) (log : List (Event DllReply))
        → Calm h
        → Returns (tun_enabled value a h log).1 (IsSwitched value a)
    unfolding tun_enabled enable disable
    tun_enabled-IsSwitched well true log calm =
        if-Returns (IsSwitched true a) a.enabled _ _ log
          (λ e. (well, λ x. e, λ x n. refl, (refl, refl, refl)))
          (λ e. enabled_by-IsSwitched well _ _)
    tun_enabled-IsSwitched well false log calm =
        if-Returns (IsSwitched false a) a.enabled _ _ log
          (λ e. disabled_by-IsSwitched well _ _ (set_event_no_panic a.event log calm))
          (λ e. (well, λ x. e, λ x. absurd (cc), (refl, refl, refl)))

refused :
    {A : Type 0} (a : WinTunAdapter) (go : WinTunSession → Win A) (h : Host DllReply)
    (log : List (Event DllReply)) (o : Option WinTunSession)
    → is_some o ≡ false
    → with_session a go o h log ≡ (log, err other)
refused a go h log none e = refl
refused a go h log (some s) e = absurd (cc)

-- An adapter that is switched off refuses to send, to receive and to wait, and asks nothing of the
-- system.
pub disabled-refuses :
    (a : WinTunAdapter) (h : Host DllReply) (log : List (Event DllReply)) (buf : List ℕ)
    (e limit : Option ℕ) (fuel room interrupt : ℕ)
    → IsWell a
    → a.enabled ≡ false
    → (adapter_send a buf e h log ≡ (log, err other))
      × (adapter_recv a fuel room h log ≡ (log, err other))
      × (adapter_try_send a buf h log ≡ (log, err other))
      × (adapter_try_recv a room h log ≡ (log, err other))
      × (adapter_wait a interrupt limit h log ≡ (log, err other))
unfolding adapter_send adapter_recv adapter_try_send adapter_try_recv adapter_wait
disabled-refuses a h log buf e limit fuel room interrupt well off =
    let gone : is_some a.session ≡ false = sym well ∙ off in
    (
      refused a _ h log a.session gone,
      refused a _ h log a.session gone,
      refused a _ h log a.session gone,
      refused a _ h log a.session gone,
      refused a _ h log a.session gone,
    )
