-- ===== src/Windows/Wintun/Adapter.antt =====
-- src/platform/windows/tun/mod.rs, `WinTunAdapter` and `TunDevice`: an adapter is opened or created,
-- enabled, disabled and dropped. `enable` and `disable` run under the lock of the state, one at a
-- time, and give the adapter that they leave beside their result.
use quincy_tun.Base.{
  ℕ, ◌+◌, ◌/◌, ◌%◌, ◌^◌, List, Bool, true, false, leb, if◌then◌else◌, length, ◌&&◌, Option, none,
  some, Outcome, ok, err, panic, other,
}
use quincy_tun.Host.{pure, ◌>>=◌, ◌>>◌, attempt, ensure}
use quincy_tun.Net.{Text}
use quincy_tun.Windows.Wintun.{
  load, set_default_logger, open_adapter, create_adapter, get_adapter_luid, close_adapter,
  delete_driver, start_session, get_read_wait_event, end_session, get_running_driver_version,
  close_handle, Win, dll, last_os_error, not_null, ffi_create_event, ffi_set_event, ffi_reset_event,
  luid_to_index, luid_to_alias, WinTunSession, WinTunAdapter, TunDevice,
}
use quincy_tun.Windows.Wintun.Session.{send, recv, try_send, try_recv, wait_readable_interruptible}

-- `Drop for WinTunSession`, where there is one
unfoldable pub drop_session : Option WinTunSession → Win (Unit {0})
drop_session none = pure (ok tt)
drop_session (some s) = attempt (dll (end_session s.handle)) >>= λ _. pure (ok tt)

-- The read event of a session that has just started, which ends where there is none. The call has no
-- other way to fail.
unfoldable pub with_read_event : ℕ → Outcome (Option ℕ) → Win WinTunSession
with_read_event s (ok (some e)) = pure (ok (record { handle = s; read_event = e }))
with_read_event s _ = attempt (dll (end_session s)) >>= λ _. last_os_error

unfoldable pub started : Option ℕ → Win WinTunSession
unfolding with_read_event
started none = last_os_error
started (some s) = attempt (dll (get_read_wait_event s)) >>= with_read_event s

-- What `enable` and `disable` give: their result, and the adapter.
abbrev pub Changed : Type 0
Changed = Outcome (Unit {0}) × WinTunAdapter

-- What the opened adapter is made of.
abbrev pub new_adapter : ℕ → ℕ → ℕ → Bool → WinTunAdapter
new_adapter handle event ring_capacity delete = record {
  handle = handle;
  event = event;
  ring_capacity = ring_capacity;
  enabled = false;
  session = none;
  delete_driver = delete;
}

module _ (a : WinTunAdapter) where
  -- `session.replace(..)` drops the session before it, and there is none where the flag is off.
  unfoldable pub enabled_by : Outcome WinTunSession → Win Changed
  unfolding drop_session
  enabled_by (ok s) = attempt (drop_session a.session) >>= λ _.
      pure (ok (ok tt, record a { enabled = true; session = some s }))
  enabled_by (err e) = pure (ok (err e, a))
  enabled_by panic = pure (ok (panic, a))

  unfoldable pub enable : Win Changed
  unfolding started enabled_by
  enable =
      if a.enabled
      then pure (ok (ok tt, a))
      else (attempt (dll (start_session a.handle a.ring_capacity) >>= started) >>= enabled_by)

  -- After the event: the session is dropped, or the flag is set again.
  unfoldable pub disabled_by : Outcome (Unit {0}) → Win Changed
  unfolding drop_session ffi_reset_event
  disabled_by (ok u) = attempt (drop_session a.session) >>= λ _.
      attempt (ffi_reset_event a.event) >>= λ r.
      pure (ok (r, record a { enabled = false; session = none }))
  disabled_by (err e) = pure (ok (err e, a))
  disabled_by panic = pure (ok (panic, record a { enabled = false }))

  unfoldable pub disable : Win Changed
  unfolding disabled_by ffi_set_event
  disable =
      if a.enabled then (attempt (ffi_set_event a.event) >>= disabled_by) else pure (ok (ok tt, a))

  -- `Drop for WinTunAdapter`, and then the fields: the event is closed.
  unfoldable pub drop_adapter : Win (Unit {0})
  unfolding drop_session
  drop_adapter = attempt (drop_session a.session) >>= λ _.
      attempt (dll (close_adapter a.handle)) >>= λ _.
      attempt (if a.delete_driver then dll delete_driver else pure (ok tt)) >>= λ _.
      attempt (dll (close_handle a.event)) >>= λ _. pure (ok tt)

  abbrev pub with_session : {A : Type 0} → (WinTunSession → Win A) → Option WinTunSession → Win A
  with_session go (some s) = go s
  with_session go none = pure (err other)

  -- `send`, `recv`, `try_send`, `try_recv` and `wait_readable_interruptible` of the adapter
  unfoldable pub adapter_send : List ℕ → Option ℕ → Win (Option ℕ)
  unfolding send
  adapter_send buf event = with_session (λ s. send s buf event) a.session

  unfoldable pub adapter_recv : ℕ → ℕ → Win (Option (List ℕ))
  unfolding recv
  adapter_recv fuel dst_len = with_session (λ s. recv s fuel a.event dst_len) a.session

  unfoldable pub adapter_try_send : List ℕ → Win ℕ
  unfolding try_send
  adapter_try_send buf = with_session (λ s. try_send s buf) a.session

  unfoldable pub adapter_try_recv : ℕ → Win (List ℕ)
  unfolding try_recv
  adapter_try_recv dst_len = with_session (λ s. try_recv s dst_len) a.session

  unfoldable pub adapter_wait : ℕ → Option ℕ → Win (Unit {0})
  unfolding wait_readable_interruptible
  adapter_wait interrupt_event limit =
      with_session (λ s. wait_readable_interruptible s a.event interrupt_event limit) a.session

-- `version`, the two halves of a 32-bit number
unfoldable pub version : Win (ℕ × ℕ)
version = dll get_running_driver_version >>= λ v. pure (ok (v / 2 ^ 16 % 2 ^ 16, v % 2 ^ 16))

-- `MIN_RING_CAPACITY` and `MAX_RING_CAPACITY`
abbrev pub capacity_in_range : ℕ → Bool
capacity_in_range n = leb 0x20000 n && leb n 0x4000000

-- `MAX_POOL`, with the NUL that `encode_utf16` adds; the UTF-16 of a text is given.
abbrev pub fits_pool : Text → Bool
fits_pool name_utf16 = leb (length name_utf16 + 1) 256

-- Values that are held are dropped where an error ends the function.
abbrev pub or_drop : {A B : Type 0} → Win B → (A → Win TunDevice) → Outcome A → Win TunDevice
or_drop cleanup go (ok a) = go a
or_drop cleanup go (err e) = attempt cleanup >>= λ _. pure (err e)
or_drop cleanup go panic = attempt cleanup >>= λ _. pure panic

-- What `open` and `create` do with the adapter that they got.
unfoldable pub device_of : WinTunAdapter → ℕ → Win TunDevice
unfolding luid_to_index drop_adapter
device_of a luid =
    attempt (luid_to_index luid)
    >>= or_drop (drop_adapter a)
        (λ index. pure (ok (record { index = index; luid = luid; win_tun_adapter = a })))

unfoldable pub adapter_of : WinTunAdapter → Win TunDevice
unfolding device_of drop_adapter
adapter_of a = attempt (dll (get_adapter_luid a.handle)) >>= or_drop (drop_adapter a) (device_of a)

-- `make` is the call that gives the adapter.
module _ (make : Win (Option ℕ)) (wintun_path : Text) (ring_capacity : ℕ) (delete log : Bool) where
  unfoldable pub loaded : Win ℕ
  loaded = dll (load wintun_path) >>= λ _.
      (if log then dll set_default_logger else pure (ok tt)) >>= λ _. make >>= not_null

  unfoldable pub opened : ℕ → Win TunDevice
  unfolding adapter_of loaded
  opened event =
      attempt loaded
      >>= or_drop (dll (close_handle event))
          (λ handle. adapter_of (new_adapter handle event ring_capacity delete))

  unfoldable pub with_event : Win TunDevice
  unfolding ffi_create_event opened
  with_event = ffi_create_event >>= opened

-- `TunDevice::open` and `TunDevice::create`
unfoldable pub open_device : Text → Text → ℕ → Bool → Bool → Win TunDevice
unfolding with_event
open_device wintun_path name ring_capacity delete log =
    ensure (capacity_in_range ring_capacity) other
    >> (ensure (fits_pool name) other
        >> with_event (dll (open_adapter name)) wintun_path ring_capacity delete log)

unfoldable pub create_device : Text → Text → Text → Option ℕ → ℕ → Bool → Bool → Win TunDevice
unfolding with_event
create_device wintun_path name description guid ring_capacity delete log =
    ensure (capacity_in_range ring_capacity) other
    >> (ensure (fits_pool name) other
        >> (ensure (fits_pool description) other
            >> with_event (dll (create_adapter name description guid)) wintun_path ring_capacity
                delete log))

unfoldable pub get_name : TunDevice → Win Text
unfolding luid_to_alias
get_name tun = luid_to_alias tun.luid

-- `TunDevice::enabled`; `TunDevice::shutdown` is `disable`.
unfoldable pub tun_enabled : Bool → WinTunAdapter → Win Changed
unfolding enable disable
tun_enabled value a = if value then enable a else disable a
