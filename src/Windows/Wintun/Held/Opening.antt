-- ===== src/Windows/Wintun/Held/Opening.antt =====
-- Opening or creating a device holds what the device owns, or nothing where it fails.
use quincy_tun.Base.{
  ℕ, refl, List, [], ◌∷◌, Bool, true, false, if◌then◌else◌, Option, none, some, Outcome, ok, err,
  panic, other,
}
use quincy_tun.Host.{pure, ◌>>=◌, ◌>>◌, ensure}
use quincy_tun.Host.Runs.{then-Runs, call-Runs, same-Runs, bind-Runs, tried-Runs}
use quincy_tun.Net.{Text}
use quincy_tun.Windows.Wintun.{
  load, set_default_logger, open_adapter, create_adapter, get_adapter_luid, close_handle,
  create_event, convert_luid_to_index, Win, dll, not_null, ffi_create_event, luid_to_index,
  WinTunAdapter, TunDevice,
}
use quincy_tun.Windows.Wintun.Adapter.{
  new_adapter, loaded, drop_adapter, or_drop, device_of, adapter_of, opened, with_event,
  open_device, create_device, capacity_in_range, fits_pool,
}
use quincy_tun.Windows.Wintun.Held.{Resource, adapter, event, remove-head, step, Holds, Keeps}
use quincy_tun.Windows.Wintun.Held.Ring.{
  pure-Keeps, bind-Keeps, if-Keeps, dll-Keeps, last_os_error-Keeps,
}
use quincy_tun.Windows.Wintun.Held.Adapter.{owned, drop_adapter-Holds, close-Holds, refused-Holds}

-- What is held once a device was asked for.
abbrev pub with_device : List Resource → Outcome TunDevice → List Resource
with_device held (ok tun) = owned tun.win_tun_adapter held
with_device held (err e) = held
with_device held panic = held

or_drop-Holds :
    {A B : Type 0} (before held : List Resource) (cleanup : Win B) (go : A → Win TunDevice)
    (r : Outcome A)
    → Holds before cleanup (λ _. held)
    → ((a : A) → Holds before (go a) (with_device held))
    → Holds before (or_drop cleanup go r) (with_device held)
or_drop-Holds before held cleanup go (ok a) c k = k a
or_drop-Holds before held cleanup go (err e) c k =
    tried-Runs step [] before (λ _. held) (with_device held) cleanup (λ _. pure (err e)) c
      (λ r. record { runs = λ h log at. at })
or_drop-Holds before held cleanup go panic c k =
    tried-Runs step [] before (λ _. held) (with_device held) cleanup (λ _. pure panic) c
      (λ r. record { runs = λ h log at. at })

not_null-Keeps : {A : Type 0} (now : List Resource) (o : Option A) → Keeps now (not_null o)
not_null-Keeps now none = last_os_error-Keeps now
not_null-Keeps now (some a) = pure-Keeps now _

-- What is held once an adapter was asked for, in any of the two ways.
abbrev pub with_adapter : List Resource → Outcome (Option ℕ) → List Resource
with_adapter held (ok (some a)) = adapter a ∷ held
with_adapter held _ = held

-- What is held once there is an adapter or none.
abbrev with_handle : List Resource → Outcome ℕ → List Resource
with_handle held (ok a) = adapter a ∷ held
with_handle held (err e) = held
with_handle held panic = held

found-Holds :
    (held : List Resource) (o : Option ℕ)
    → Holds (with_adapter held (ok o)) (not_null o) (with_handle held)
found-Holds held none = refused-Holds held (with_handle held) (λ e. refl) refl
found-Holds held (some a) = record { runs = λ h log at. at }

device_of-Holds :
    (held : List Resource) (a : WinTunAdapter) (luid : ℕ)
    → Holds (owned a held) (device_of a luid) (with_device held)
unfolding device_of luid_to_index
device_of-Holds held a luid =
    tried-Runs step [] (owned a held) (λ _. owned a held) (with_device held) (luid_to_index luid) _
      (bind-Keeps (owned a held) (dll (convert_luid_to_index luid)) not_null
        (dll-Keeps (owned a held) (convert_luid_to_index luid) (λ r. refl))
        (not_null-Keeps (owned a held)))
      (λ r.
        or_drop-Holds (owned a held) held (drop_adapter a)
          (λ index. pure (ok (record { index = index; luid = luid; win_tun_adapter = a }))) r
          (drop_adapter-Holds a held) (λ index. record { runs = λ h log at. at }))

adapter_of-Holds :
    (held : List Resource) (a : WinTunAdapter)
    → Holds (owned a held) (adapter_of a) (with_device held)
unfolding adapter_of
adapter_of-Holds held a =
    tried-Runs step [] (owned a held) (λ _. owned a held) (with_device held)
      (dll (get_adapter_luid a.handle)) _
      (dll-Keeps (owned a held) (get_adapter_luid a.handle) (λ r. refl))
      (λ r.
        or_drop-Holds (owned a held) held (drop_adapter a) (device_of a) r
          (drop_adapter-Holds a held) (device_of-Holds held a))

module _ (make : Win (Option ℕ)) (path : Text) (capacity : ℕ) (delete log : Bool)
    (makes : (now : List Resource) → Holds now make (with_adapter now)) where
  loaded-Holds :
      (held : List Resource) → Holds held (loaded make path capacity delete log) (with_handle held)
  unfolding loaded
  loaded-Holds held =
      then-Runs step [] held (with_handle held) (dll (load path)) _
        (dll-Keeps held (load path) (λ r. refl))
        (λ u.
          then-Runs step [] held (with_handle held)
            (if log then dll set_default_logger else pure (ok tt)) (λ u. make >>= not_null)
            (if-Keeps held log (dll set_default_logger) (pure (ok tt))
              (dll-Keeps held set_default_logger (λ r. refl)) (pure-Keeps held (ok tt)))
            (λ u.
              bind-Runs step [] held (with_adapter held) (with_handle held) make not_null
                (makes held) (found-Holds held) (λ e. refl) refl)
            (λ e. refl) refl)
        (λ e. refl) refl

  -- The adapter is made over the event.
  opened_by-Holds :
      (held : List Resource) (e : ℕ) (r : Outcome ℕ)
      → Holds
          (with_handle (event e ∷ held) r)
          (or_drop
            (dll (close_handle e))
            (λ handle. adapter_of (new_adapter handle e capacity delete))
            r)
          (with_device held)
  opened_by-Holds held e (ok handle) = adapter_of-Holds held (new_adapter handle e capacity delete)
  opened_by-Holds held e (err x) =
      close-Holds (event e ∷ held) held (close_handle e) (λ _. pure (err x)) (with_device held)
        (λ r. remove-head (event e) held) (λ r. record { runs = λ h log at. at })
  opened_by-Holds held e panic =
      close-Holds (event e ∷ held) held (close_handle e) (λ _. pure panic) (with_device held)
        (λ r. remove-head (event e) held) (λ r. record { runs = λ h log at. at })

  opened-Holds :
      (held : List Resource) (e : ℕ)
      → Holds (event e ∷ held) (opened make path capacity delete log e) (with_device held)
  unfolding opened
  opened-Holds held e =
      tried-Runs step [] (event e ∷ held) (with_handle (event e ∷ held)) (with_device held)
        (loaded make path capacity delete log) _ (loaded-Holds (event e ∷ held))
        (opened_by-Holds held e)

  -- What is held once there is an event or none.
  abbrev with_new_event : List Resource → Outcome ℕ → List Resource
  with_new_event held (ok e) = event e ∷ held
  with_new_event held (err x) = held
  with_new_event held panic = held

  not_null_event-Holds :
      (held : List Resource) (o : Option ℕ)
      → Holds (step held (create_event, ok o)) (not_null o) (with_new_event held)
  not_null_event-Holds held none = refused-Holds held (with_new_event held) (λ e. refl) refl
  not_null_event-Holds held (some e) = record { runs = λ h log at. at }

  with_event-Holds :
      (held : List Resource)
      → Holds held (with_event make path capacity delete log) (with_device held)
  unfolding with_event ffi_create_event
  with_event-Holds held =
      bind-Runs step [] held (with_new_event held) (with_device held)
        (dll create_event >>= not_null) (opened make path capacity delete log)
        (bind-Runs step [] held (λ r. step held (create_event, r)) (with_new_event held)
          (dll create_event) not_null (call-Runs step [] held create_event)
          (not_null_event-Holds held) (λ e. refl) refl)
        (opened-Holds held) (λ e. refl) refl

ensure-Holds :
    (held : List Resource) (b : Bool) (m : Win TunDevice)
    → Holds held m (with_device held)
    → Holds held (ensure b other >> m) (with_device held)
ensure-Holds held true m k = k
ensure-Holds held false m k = record { runs = λ h log at. at }

-- The two calls that give an adapter.
open_adapter-Holds :
    (name : Text) (now : List Resource) → Holds now (dll (open_adapter name)) (with_adapter now)
open_adapter-Holds name now =
    same-Runs step [] now (dll (open_adapter name)) (λ r. step now (open_adapter name, r))
      (with_adapter now) (call-Runs step [] now (open_adapter name))
      (λ r. elim r [ ok (some a) ↦ refl | ok none ↦ refl | err e ↦ refl | panic ↦ refl ])

create_adapter-Holds :
    (name description : Text) (guid : Option ℕ) (now : List Resource)
    → Holds now (dll (create_adapter name description guid)) (with_adapter now)
create_adapter-Holds name description guid now =
    same-Runs step [] now (dll (create_adapter name description guid))
      (λ r. step now (create_adapter name description guid, r)) (with_adapter now)
      (call-Runs step [] now (create_adapter name description guid))
      (λ r. elim r [ ok (some a) ↦ refl | ok none ↦ refl | err e ↦ refl | panic ↦ refl ])

-- Opening a device, and creating one, holds what the device owns (its adapter and its event, and no
-- session), above what was held before; where it fails, at whatever step, it leaves nothing held.
pub open_device-Holds :
    (held : List Resource) (path name description : Text) (guid : Option ℕ) (capacity : ℕ)
    (delete log : Bool)
    → Holds held (open_device path name capacity delete log) (with_device held)
      × Holds held (create_device path name description guid capacity delete log) (with_device held)
unfolding open_device create_device
open_device-Holds held path name description guid capacity delete log = (
  ensure-Holds held (capacity_in_range capacity) _ (
      ensure-Holds held (fits_pool name) _ (
        with_event-Holds (dll (open_adapter name)) path capacity delete log
          (open_adapter-Holds name) held)),
  ensure-Holds held (capacity_in_range capacity) _ (
      ensure-Holds held (fits_pool name) _ (
        ensure-Holds held (fits_pool description) _ (
          with_event-Holds (dll (create_adapter name description guid)) path capacity delete log
            (create_adapter-Holds name description guid) held))),
)
