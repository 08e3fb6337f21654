-- ===== src/Windows/Wintun/Lifecycle.antt =====
-- The life of a device: it is opened, used and dropped.
use quincy_tun.Base.{ℕ, ◌≡◌, refl, List, [], ◌∷◌, Bool, Option, none, some, Outcome, ok, err, panic}
use quincy_tun.Host.{◌>>=◌, attempt}
use quincy_tun.Host.Runs.{same-Runs, bind-Runs, tried-Runs, if-Runs}
use quincy_tun.Net.{Text}
use quincy_tun.Windows.Wintun.{Win, WinTunSession, WinTunAdapter, TunDevice}
use quincy_tun.Windows.Wintun.Adapter.{
  Changed, enable, disable, tun_enabled, drop_adapter, adapter_send, adapter_recv, adapter_try_send,
  adapter_try_recv, adapter_wait, with_session, open_device, create_device,
}
use quincy_tun.Windows.Wintun.Held.{Resource, step, Holds, Keeps}
use quincy_tun.Windows.Wintun.Held.Ring.{session-Keeps, pure-Keeps}
use quincy_tun.Windows.Wintun.Held.Adapter.{
  owned, changed, enable-Holds, disable-Holds, drop_adapter-Holds,
}
use quincy_tun.Windows.Wintun.Held.Opening.{with_device, open_device-Holds}

-- One use of an open device. A result, and an error, does not end its life.
pub data Use : Type 0 where
  switches : Bool → Use
  sends : List ℕ → Option ℕ → Use
  tries_send : List ℕ → Use
  receives : ℕ → ℕ → Use
  tries_recv : ℕ → Use
  waits : ℕ → Option ℕ → Use

-- The adapter after a change.
abbrev after : WinTunAdapter → Outcome Changed → WinTunAdapter
after a (ok (r, b)) = b
after a (err e) = a
after a panic = a

-- The uses, one after the other, and then the drop.
unfoldable pub used : List Use → WinTunAdapter → Win (Unit {0})
unfolding tun_enabled drop_adapter adapter_send adapter_recv adapter_try_send adapter_try_recv
    adapter_wait
used [] a = drop_adapter a
used (switches value ∷ us) a = attempt (tun_enabled value a) >>= λ r. used us (after a r)
used (sends buf e ∷ us) a = attempt (adapter_send a buf e) >>= λ r. used us a
used (tries_send buf ∷ us) a = attempt (adapter_try_send a buf) >>= λ r. used us a
used (receives fuel room ∷ us) a = attempt (adapter_recv a fuel room) >>= λ r. used us a
used (tries_recv room ∷ us) a = attempt (adapter_try_recv a room) >>= λ r. used us a
used (waits e limit ∷ us) a = attempt (adapter_wait a e limit) >>= λ r. used us a

with_session-Keeps :
    {A : Type 0} (a : WinTunAdapter) (go : WinTunSession → Win A) (o : Option WinTunSession)
    (held : List Resource)
    → ((s : WinTunSession) → Keeps held (go s))
    → Keeps held (with_session a go o)
with_session-Keeps a go none held k = pure-Keeps held _
with_session-Keeps a go (some s) held k = k s

use-Holds :
    {A : Type 0} (a : WinTunAdapter) (held : List Resource) (go : WinTunSession → Win A)
    (rest : Win (Unit {0}))
    → ((s : WinTunSession) → Keeps (owned a held) (go s))
    → Holds (owned a held) rest (λ _. held)
    → Holds (owned a held) (attempt (with_session a go a.session) >>= λ _. rest) (λ _. held)
use-Holds a held go rest k j =
    tried-Runs step [] (owned a held) (λ _. owned a held) (λ _. held) (with_session a go a.session)
      (λ _. rest) (with_session-Keeps a go a.session (owned a held) k) (λ r. j)

tun_enabled-Holds :
    (value : Bool) (a : WinTunAdapter) (held : List Resource)
    → Holds (owned a held) (tun_enabled value a) (λ r. owned (after a r) held)
unfolding tun_enabled
tun_enabled-Holds value a held =
    same-Runs step [] (owned a held) _ (changed a held) (λ r. owned (after a r) held)
      (if-Runs step [] (owned a held) (changed a held) value (enable a) (disable a)
        (enable-Holds a held) (disable-Holds a held))
      (λ r. elim r as (λ k. changed a held k ≡ owned (after a k) held) [
        | ok (x, b) ↦ refl
        | err e ↦ refl
        | panic ↦ refl
      ])

used-Holds :
    (us : List Use) (a : WinTunAdapter) (held : List Resource)
    → Holds (owned a held) (used us a) (λ _. held)
unfolding used adapter_send adapter_recv adapter_try_send adapter_try_recv adapter_wait
used-Holds [] a held = drop_adapter-Holds a held
used-Holds (switches value ∷ us) a held =
    tried-Runs step [] (owned a held) (λ r. owned (after a r) held) (λ _. held)
      (tun_enabled value a) (λ r. used us (after a r)) (tun_enabled-Holds value a held)
      (λ r. used-Holds us (after a r) held)
used-Holds (sends buf e ∷ us) a held =
    use-Holds a held _ (used us a) (λ s. (session-Keeps (owned a held) s buf e 0 0 0 0 none).2)
      (used-Holds us a held)
used-Holds (tries_send buf ∷ us) a held =
    use-Holds a held _ (used us a) (λ s. (session-Keeps (owned a held) s buf none 0 0 0 0 none).0)
      (used-Holds us a held)
used-Holds (receives fuel room ∷ us) a held =
    use-Holds a held _ (used us a)
      (λ s. (session-Keeps (owned a held) s [] none fuel room a.event 0 none).3)
      (used-Holds us a held)
used-Holds (tries_recv room ∷ us) a held =
    use-Holds a held _ (used us a) (λ s. (session-Keeps (owned a held) s [] none 0 room 0 0 none).1)
      (used-Holds us a held)
used-Holds (waits e limit ∷ us) a held =
    use-Holds a held _ (used us a)
      (λ s. (session-Keeps (owned a held) s [] none 0 0 a.event e limit).4) (used-Holds us a held)

given-Keeps :
    (held : List Resource) (make : Win TunDevice) (us : List Use)
    → Holds held make (with_device held)
    → Keeps held (make >>= λ tun. used us tun.win_tun_adapter)
given-Keeps held make us k =
    bind-Runs step [] held (with_device held) (λ _. held) make (λ tun. used us tun.win_tun_adapter)
      k (λ tun. used-Holds us tun.win_tun_adapter held) (λ e. refl) refl

-- A device that is opened, or created, then used in any way and any number of times, and dropped, or
-- one that could not be opened or created, leaves held what was held before, and nothing of the
-- device: no adapter, session, event or packet. This is so whatever the system answers, and in
-- whatever order the device is enabled, disabled, sent to, received from and waited for.
pub life-Keeps :
    (held : List Resource) (path name description : Text) (guid : Option ℕ) (capacity : ℕ)
    (delete log : Bool) (us : List Use)
    → Keeps held (open_device path name capacity delete log >>= λ tun. used us tun.win_tun_adapter)
      × Keeps held (
          create_device path name description guid capacity delete log >>= λ tun.
          used us tun.win_tun_adapter)
life-Keeps held path name description guid capacity delete log us =
    let k = open_device-Holds held path name description guid capacity delete log in
    (
      given-Keeps held (open_device path name capacity delete log) us k.0,
      given-Keeps held (create_device path name description guid capacity delete log) us k.1,
    )
