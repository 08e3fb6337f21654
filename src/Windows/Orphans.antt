-- ===== src/Windows/Orphans.antt =====
-- src/platform/windows/tun/adapter.rs and adapter_win7.rs: the search for an adapter of a name that no
-- process owns any more. The loop goes through the devices that the system lists, for `fuel` rounds;
-- none is that these were not enough.
pub mod Search
pub mod Listed
use quincy_tun.Base.{
  ℕ, zero, suc, ◌+◌, ◌/◌, List, [], ◌∷◌, Bool, true, false, not, ◌&&◌, ◌==◌, if◌then◌else◌, bit_and,
  Option, none, some, Outcome, ok, err, panic,
}
use quincy_tun.Host.{Event, Host, call, pure, next, ◌>>=◌, attempt}
use quincy_tun.Net.{Text}
use quincy_tun.Linux.Addresses.{eq_text}
use quincy_tun.Windows.Wintun.{
  Dll, DllReply, Win, dll, OwningProcess, last_os_error, not_null, get_last_error, get_version_ex,
  get_class_devs, enum_device_info, destroy_device_info_list, get_devnode_status, get_name_size,
  get_name_property, get_owning_process, open_process, get_process_times, close_process,
}

-- What `enum_device_info` gives.
pub data Enumerated : Type 0 where
  ended refused : Enumerated
  member : ℕ → Enumerated

-- `ERROR_NO_MORE_ITEMS`
unfoldable pub enumerated : Option ℕ → Win Enumerated
enumerated (some d) = pure (ok (member d))
enumerated none =
    dll get_last_error >>= λ e. if e == 259 then pure (ok ended) else pure (ok refused)

-- What a round says of the device at an index: it is the one sought, the search goes on with the next
-- index, or with the same one.
pub data Verdict : Type 0 where
  orphaned on_to_next stays no_more : Verdict

-- `ERROR_INSUFFICIENT_BUFFER`
unfoldable pub name_after_size : ℕ → ℕ → Bool × ℕ → Win Text
name_after_size devs d (true, n) = dll (get_name_property devs d n) >>= not_null
name_after_size devs d (false, n) = dll get_last_error >>= λ e.
    if e == 122 then (dll (get_name_property devs d n) >>= not_null) else last_os_error

-- `decode_utf16` is `from_utf16_lossy` of what stands before the first NUL.
abbrev pub before_nul : Text → Text
before_nul [] = []
before_nul (c ∷ s) = let rest = before_nul s in if c == 0 then [] else c ∷ rest

-- The time that the process was created is that of the owner.
unfoldable pub same_time : OwningProcess → Option ℕ → Bool
same_time owner none = false
same_time owner (some t) = t == owner.creation_time

unfoldable pub is_stale : OwningProcess → Option ℕ → Win Bool
unfolding same_time
is_stale owner none = pure (ok true)
is_stale owner (some p) = dll (get_process_times p) >>= λ t.
    attempt (dll (close_process p)) >>= λ _. pure (ok (same_time owner t))

unfoldable pub process_is_stale : OwningProcess → Win Bool
unfolding is_stale
process_is_stale owner = dll (open_process owner.process_id) >>= is_stale owner

-- Whether a living process owns the device.
unfoldable pub is_owned : Option OwningProcess → Win Bool
unfolding process_is_stale
is_owned none = pure (ok false)
is_owned (some owner) = process_is_stale owner >>= λ stale. pure (ok (not stale))

abbrev pub of_member : (ℕ → Win Verdict) → Enumerated → Win Verdict
of_member look ended = pure (ok no_more)
of_member look refused = pure (ok stays)
of_member look (member d) = look d

-- One round of the loop, at an index.
unfoldable pub round : (ℕ → Win Verdict) → ℕ → ℕ → Win Verdict
unfolding enumerated
round look devs index = dll (enum_device_info devs index) >>= enumerated >>= of_member look

abbrev pub go_on : Verdict → Win (Option Bool) → Win (Option Bool) → Win (Option Bool)
go_on orphaned same further = pure (ok (some true))
go_on no_more same further = pure (ok (some false))
go_on stays same further = same
go_on on_to_next same further = further

unfoldable pub search : (ℕ → Win Verdict) → ℕ → ℕ → ℕ → Win (Option Bool)
unfolding round
search look devs zero index = pure (ok none)
search look devs (suc fuel) index =
    let same = search look devs fuel index in
    let further = search look devs fuel (index + 1) in
    round look devs index >>= λ v. go_on v same further

abbrev pub is_seven : Option (ℕ × ℕ) → Bool
is_seven none = false
is_seven (some (major, minor)) = (major == 6) && (minor == 1)

module _ (from_utf16_lossy : Text → Text) where
  unfoldable pub get_device_name : ℕ → ℕ → Win Text
  unfolding name_after_size
  get_device_name devs d = dll (get_name_size devs d) >>= λ size.
      name_after_size devs d size >>= λ wide. pure (ok (from_utf16_lossy (before_nul wide)))

  unfoldable pub named : Text → Outcome Text → Win Verdict
  unfolding eq_text
  named adapter_name (ok name) =
      if eq_text adapter_name name then pure (ok orphaned) else pure (ok on_to_next)
  named adapter_name _ = pure (ok on_to_next)

  abbrev pub by_name : Text → ℕ → ℕ → Win Verdict
  by_name adapter_name devs d = attempt (get_device_name devs d) >>= named adapter_name

  -- `DN_HAS_PROBLEM`
  unfoldable pub of_status : Text → ℕ → ℕ → Option ℕ → Win Verdict
  unfolding get_device_name named
  of_status adapter_name devs d none = dll get_last_error >>= λ _. pure (ok on_to_next)
  of_status adapter_name devs d (some status) =
      if bit_and status 0x400 == 0 then pure (ok on_to_next) else by_name adapter_name devs d

  -- A device in the loop of `check_adapter_if_orphaned_devices`
  unfoldable pub examine : Text → ℕ → ℕ → Win Verdict
  unfolding of_status
  examine adapter_name devs d = dll (get_devnode_status d) >>= of_status adapter_name devs d

  -- A device in the loop of `check_adapter_if_orphaned_devices_win7`
  unfoldable pub examine_win7 : Text → ℕ → ℕ → Win Verdict
  unfolding is_owned get_device_name named
  examine_win7 adapter_name devs d = dll (get_owning_process devs d) >>= λ o.
      is_owned o >>= λ owned. if owned then pure (ok stays) else by_name adapter_name devs d

  unfoldable pub searched :
      (ℕ → ℕ → Win Verdict) → Win (Unit {0}) → ℕ → Option ℕ → Win (Option Bool)
  unfolding search
  searched look complain fuel none = complain >>= λ _. pure (ok (some false))
  searched look complain fuel (some devs) = search (look devs) devs fuel 0 >>= λ r.
      attempt (dll (destroy_device_info_list devs)) >>= λ _. pure (ok r)

  -- The paths `SWD\Wintun` and `ROOT\Wintun` are given.
  unfoldable pub check_adapter_if_orphaned_devices : Text → Text → ℕ → Text → Win (Option Bool)
  unfolding searched examine examine_win7
  check_adapter_if_orphaned_devices swd root fuel adapter_name = dll get_version_ex >>= λ v.
      if is_seven v
      then (dll (get_class_devs root)
          >>= searched (examine_win7 adapter_name) (dll get_last_error >>= λ _. pure (ok tt)) fuel)
      else (dll (get_class_devs swd) >>= searched (examine adapter_name) (pure (ok tt)) fuel)
