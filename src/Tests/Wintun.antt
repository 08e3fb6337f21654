-- ===== src/Tests/Wintun.antt =====
-- Inputs for the theorems on the Wintun adapter: a system that answers each call with a value.
use quincy_tun.Base.{
  ap, zero, suc, ℕ, ◌≡◌, refl, ap, arith, List, [], ◌∷◌, true, false, none, some, Outcome, ok, err,
  panic, Returns, ◌==◌, if◌then◌else◌, zero, suc,
}
use quincy_tun.Host.{Event, Host, ◌>>=◌}
use quincy_tun.Windows.Wintun.{
  Dll, open_adapter, create_adapter, get_adapter_luid, start_session, get_read_wait_event,
  allocate_send_packet, receive_packet, get_running_driver_version, get_last_error, create_event,
  set_event, reset_event, wait_for_single_object, wait_for_multiple_objects, convert_luid_to_index,
  convert_luid_to_alias, load_state, elapsed, DllReply, WinTunSession, WinTunAdapter, OwningProcess,
  get_version_ex, get_class_devs, enum_device_info, get_devnode_status, get_name_size,
  get_name_property, get_owning_process, open_process, get_process_times, getifaddrs,
}
use quincy_tun.Windows.Wintun.Session.{send}
use quincy_tun.Windows.Wintun.Adapter.{new_adapter, open_device, create_device, tun_enabled}
use quincy_tun.Windows.Wintun.Held.{session, Keeps}
use quincy_tun.Windows.Wintun.Lifecycle.{
  Use, switches, sends, receives, tries_recv, used, life-Keeps,
}
use quincy_tun.Windows.Wintun.Switch.{IsSwitched, Calm, tun_enabled-IsSwitched}
use quincy_tun.Windows.Orphans.{examine_win7, search}
use quincy_tun.Windows.Orphans.Search.{IsTaken, search_win7-endless}
use quincy_tun.Host.Runs.{state}
use quincy_tun.Windows.Names.{default_name}
use quincy_tun.Windows.Create.{DeviceConfig, Windows, new}
use quincy_tun.Windows.Create.Ends.{new-IsSettled}
use quincy_tun.Windows.Wintun.Awake.{slept}
use quincy_tun.Windows.Wintun.Clock.{Ticking, IsSettled, send-IsSettled}

-- The owner of a device was created at another time than the process that has its number.
abbrev owner_gone : OwningProcess
owner_gone = record { process_id = 7; creation_time = 100 }

-- The ring is full, and empty of packets that came in; the clock shows the time of the pauses.
abbrev answer : List (Event DllReply) → (c : Dll) → DllReply c
answer log (open_adapter name) = some 1
answer log (create_adapter name description guid) = some 1
answer log (get_adapter_luid a) = 5
answer log (start_session a capacity) = some 2
answer log (get_read_wait_event s) = some 3
answer log (allocate_send_packet s n) = none
answer log (receive_packet s) = some (9, 69 ∷ 0 ∷ [])
answer log get_running_driver_version = 14
answer log get_last_error = 111
answer log create_event = some 4
answer log (set_event e) = true
answer log (reset_event e) = true
answer log (wait_for_single_object e t) = 258
answer log (wait_for_multiple_objects es t) = 0
answer log (convert_luid_to_index luid) = some 7
answer log (convert_luid_to_alias luid) = some (116 ∷ [])
answer log load_state = true
answer log elapsed = slept log
answer log get_version_ex = some (10, 0)
answer log (get_class_devs path) = some 11
answer log (enum_device_info devs i) = if i == 0 then some 12 else none
answer log (get_devnode_status d) = some 0x400
answer log (get_name_size devs d) = (true, 4)
answer log (get_name_property devs d n) = some (116 ∷ 0 ∷ [])
answer log (get_owning_process devs d) = some owner_gone
answer log (open_process pid) = some 13
answer log (get_process_times p) = some 200
answer log getifaddrs = default_name 0 ∷ []
answer log _ = tt

abbrev full_ring : Host DllReply
full_ring log c = ok (answer log c)

value_of : Outcome ℕ → ℕ
value_of (ok n) = n
value_of (err e) = 0
value_of panic = 0

full_ring-Ticking : Ticking full_ring []
unfolding value_of
full_ring-Ticking log t e = let same : slept log ≡ t = ap value_of e in omega (arith, same)

abbrev on : WinTunSession
on = record { handle = 2; read_event = 3 }

abbrev off : WinTunAdapter
off = new_adapter 1 4 0x200000 true

send-IsSettled_example : IsSettled (send on (69 ∷ []) none full_ring []).1
send-IsSettled_example = send-IsSettled full_ring [] on (69 ∷ []) none full_ring-Ticking

abbrev uses : List Use
uses =
    switches true
    ∷ sends (69 ∷ []) none
    ∷ receives 2 1
    ∷ switches false
    ∷ tries_recv 1
    ∷ switches true
    ∷ []

life-Keeps_example :
    Keeps (session 2 ∷ []) (
      open_device (119 ∷ []) (116 ∷ []) 0x200000 true true >>= λ tun. used uses tun.win_tun_adapter)
    × Keeps (session 2 ∷ []) (
        create_device (119 ∷ []) (116 ∷ []) (116 ∷ []) none 0x200000 true true >>= λ tun.
        used uses tun.win_tun_adapter)
life-Keeps_example =
    life-Keeps (session 2 ∷ []) (119 ∷ []) (116 ∷ []) (116 ∷ []) none 0x200000 true true uses

full_ring-Calm : Calm full_ring
full_ring-Calm log c e = cc

tun_enabled-IsSwitched_example : Returns (tun_enabled true off full_ring []).1 (IsSwitched true off)
tun_enabled-IsSwitched_example = tun_enabled-IsSwitched full_ring off refl true [] full_ring-Calm

owner_gone-IsTaken : IsTaken full_ring 11 0
owner_gone-IsTaken = record {
  device = 12;
  process = 13;
  created = 200;
  owner = owner_gone;
  listed = λ log. refl;
  owned = λ log. refl;
  alive = λ log. refl;
  times = λ log. refl;
  differs = λ e. absurd (omega (arith, e));
}

search_win7-endless_example :
    (search (examine_win7 (λ s. s) (116 ∷ []) 11) 11 1000 0 full_ring []).1 ≡ ok none
search_win7-endless_example =
    search_win7-endless full_ring (λ s. s) (116 ∷ []) 11 0 owner_gone-IsTaken 1000 []

-- The only device that is listed is an orphan of the name. The code of an error is by the last call.
abbrev code_after : ℕ → Event DllReply → ℕ
code_after n (enum_device_info devs i, r) = 259
code_after n (get_name_size devs d, r) = 122
code_after n _ = n

abbrev ended_host : Host DllReply
ended_host log get_last_error = ok (state code_after 0 log)
ended_host log (get_name_size devs d) = ok (false, 4)
ended_host log c = ok (answer log c)

abbrev plain_config : DeviceConfig
plain_config = record {
  dev_name = none;
  description = none;
  device_guid = none;
  wintun_log = none;
  wintun_file = none;
  ring_capacity = none;
  delete_driver = none;
}

abbrev plain_windows : Windows
plain_windows = record {
  encode_utf16 = λ s. s;
  from_utf16_lossy = λ s. s;
  swd = 83 ∷ [];
  root = 82 ∷ [];
  rounds = 10;
}

new-IsSettled_example : IsSettled (new plain_windows plain_config full_ring []).1
new-IsSettled_example =
    new-IsSettled full_ring plain_windows plain_config [] (λ name log e. absurd (cc))
