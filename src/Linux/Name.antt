-- ===== src/Linux/Name.antt =====
-- src/platform/linux/device.rs: the checks of a device name, in `DeviceImpl::new` and `set_name`.
use quincy_tun.Base.{
  ℕ, ◌+◌, [], ◌∷◌, Bool, false, ltb, ◌==◌, if◌then◌else◌, ◌||◌, Option, none, some, Outcome, ok,
  err, panic, invalid_input, ◌>>=◌, length,
}
use quincy_tun.Net.{Text}

unfoldable pub has_nul : Text → Bool
has_nul [] = false
has_nul (c ∷ s) = let rest = has_nul s in (c == 0) || rest

-- `IFNAMSIZ`
abbrev pub ifnamsiz : ℕ
ifnamsiz = 16

-- `CString::new`
unfoldable pub c_string : Text → Outcome Text
unfolding has_nul
c_string name = if has_nul name then err invalid_input else ok name

-- The length with the NUL at the end.
unfoldable pub checked_name : Text → Outcome Text
unfolding c_string
checked_name name =
    c_string name >>= λ n. if ltb ifnamsiz (length n + 1) then err invalid_input else ok n

unfoldable pub config_name : Option Text → Outcome (Option Text)
config_name none = ok none
config_name (some name) = elim (checked_name name) [
  | ok n ↦ ok (some n)
  | err e ↦ err e
  | panic ↦ panic
]
