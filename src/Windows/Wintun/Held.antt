-- ===== src/Windows/Wintun/Held.antt =====
-- What of the ring and of the system the code holds: adapters, sessions, packets and events.
pub mod Ring
pub mod Adapter
pub mod Opening
use quincy_tun.Base.{
  ℕ, zero, suc, ◌≡◌, refl, sym, ap, ◌∙◌, List, [], ◌∷◌, Bool, true, false, ◌&&◌, ◌==◌, ==_iff,
  if◌then◌else◌, Option, none, some, Outcome, ok, err, panic,
}
use quincy_tun.Host.{Event, pure, ◌>>=◌, attempt}
use quincy_tun.Host.Runs.{
  attempted, Runs, pure-Runs, call-Runs, idle-Runs, quiet-Runs, same-Runs, bind-Runs, tried-Runs,
  attempt-Runs, if-Runs,
}
use quincy_tun.Windows.Wintun.{
  Dll, open_adapter, create_adapter, close_adapter, start_session, end_session,
  allocate_send_packet, send_packet, receive_packet, release_receive_packet, create_event,
  close_handle, get_last_error, DllReply, Win, dll, last_os_error, not_null, not_false,
}

pub data Resource : Type 0 where
  adapter session event : ℕ → Resource
  packet : ℕ → ℕ → Resource

pub same : Resource → Resource → Bool
same (adapter a) (adapter b) = a == b
same (session a) (session b) = a == b
same (event a) (event b) = a == b
same (packet s p) (packet t q) = (s == t) && (p == q)
same _ _ = false

same_refl : (x : Resource) → same x x ≡ true
unfolding same
same_refl (adapter a) = (==_iff a a).1 refl
same_refl (session a) = (==_iff a a).1 refl
same_refl (event a) = (==_iff a a).1 refl
same_refl (packet s p) = simp ((==_iff s s).1 refl, (==_iff p p).1 refl) refl

pub remove : Resource → List Resource → List Resource
unfolding same
remove x [] = []
remove x (y ∷ held) = let rest = remove x held in if same y x then held else y ∷ rest

pub remove-head : (x : Resource) (held : List Resource) → remove x (x ∷ held) ≡ held
unfolding remove
remove-head x held = simp (same_refl x) refl

-- What is held after a call with its answer.
abbrev pub step : List Resource → Event DllReply → List Resource
step held (open_adapter name, ok (some a)) = adapter a ∷ held
step held (create_adapter name description guid, ok (some a)) = adapter a ∷ held
step held (close_adapter a, r) = remove (adapter a) held
step held (start_session a capacity, ok (some s)) = session s ∷ held
step held (end_session s, r) = remove (session s) held
step held (allocate_send_packet s n, ok (some p)) = packet s p ∷ held
step held (send_packet s p bytes, r) = remove (packet s p) held
step held (receive_packet s, ok (some (p, bytes))) = packet s p ∷ held
step held (release_receive_packet s p, r) = remove (packet s p) held
step held (create_event, ok (some e)) = event e ∷ held
step held (close_handle e, r) = remove (event e) held
step held _ = held

-- From what is held at the start, the result says what is held at the end.
abbrev pub Holds : List Resource → {A : Type 0} → Win A → (Outcome A → List Resource) → Type 0
Holds s m q = Runs step [] s m q

-- What is held at the start is held at the end, and nothing else, however it ends.
abbrev pub Keeps : {A : Type 0} → List Resource → Win A → Type 0
Keeps s m = Holds s m (λ _. s)
