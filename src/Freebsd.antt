-- ===== src/Freebsd.antt =====
-- src/platform/freebsd/device.rs: how `DeviceImpl::new` chooses and opens a device node, and its first
-- request on it.
pub mod Choice
use quincy_tun.Base.{
  ℕ, zero, suc, ◌+◌, List, [], ◌∷◌, Bool, true, false, ltb, ◌==◌, ◌&&◌, if◌then◌else◌, length, drop,
  Option, none, some, Outcome, ok, err, panic, ErrorKind, invalid_input, already_exists, os,
}
use quincy_tun.Host.{Host, Event, M, call, pure, next, ◌>>=◌, attempt}
use quincy_tun.Net.{Text}

-- `/dev/tun` with a number is opened; the descriptor is switched to packets with their family.
pub data Bsd : Type 0 where
  open_path : ℕ → Bsd
  sioctunsifhead : ℕ → Bsd
  close : ℕ → Bsd

abbrev pub BsdReply : Bsd → Type 0
BsdReply (open_path i) = ℕ
BsdReply _ = Unit

abbrev pub bsd : (c : Bsd) → M BsdReply (BsdReply c)
bsd c = call BsdReply c

-- `starts_with("tun")`
unfoldable pub starts_with_tun : Text → Bool
starts_with_tun (a ∷ b ∷ c ∷ s) = (a == 116) && ((b == 117) && (c == 110))
starts_with_tun _ = false

-- `parse::<u32>` of the standard library is a parameter.
abbrev parsed_index : Option ℕ → Outcome (Option ℕ)
parsed_index none = err invalid_input
parsed_index (some i) = ok (some i)

unfoldable pub dev_index : (Text → Option ℕ) → Option Text → Outcome (Option ℕ)
unfolding starts_with_tun
dev_index parse_u32 none = ok none
dev_index parse_u32 (some tun_name) =
    if ltb 16 (length tun_name)
    then err invalid_input
    else if starts_with_tun tun_name
    then parsed_index (parse_u32 (drop 3 tun_name))
    else err invalid_input

-- `EBUSY`
abbrev pub ebusy : ℕ
ebusy = 16

abbrev pub is_ebusy : ErrorKind → Bool
is_ebusy (os n) = n == ebusy
is_ebusy _ = false

-- The loop over the numbers from `i` on, for `n` of them: a busy one is passed over.
unfoldable pub tried : M BsdReply ℕ → Outcome ℕ → M BsdReply ℕ
tried rest (ok fd) = pure (ok fd)
tried rest (err e) = if is_ebusy e then rest else pure (err e)
tried rest panic = pure panic

unfoldable pub open_any : ℕ → ℕ → M BsdReply ℕ
unfolding tried
open_any zero i = pure (err already_exists)
open_any (suc n) i = let rest = open_any n (i + 1) in attempt (bsd (open_path i)) >>= tried rest

unfoldable pub open_node : Option ℕ → M BsdReply ℕ
unfolding open_any
open_node (some i) = bsd (open_path i)
open_node none = open_any 256 0

-- `enable_tunsifhead_impl`, and the drop of the descriptor where it fails.
abbrev pub drop_on_err : ℕ → Outcome (Unit {0}) → M BsdReply ℕ
drop_on_err fd (ok u) = pure (ok fd)
drop_on_err fd (err e) = attempt (bsd (close fd)) >>= λ _. pure (err e)
drop_on_err fd panic = attempt (bsd (close fd)) >>= λ _. pure panic

unfoldable pub open_device : (Text → Option ℕ) → Option Text → M BsdReply ℕ
unfolding dev_index open_node
open_device parse_u32 dev_name = pure (dev_index parse_u32 dev_name) >>= λ i.
    open_node i >>= λ fd. attempt (bsd (sioctunsifhead fd)) >>= λ r. drop_on_err fd r
