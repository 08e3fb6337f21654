-- ===== src/Linux/Open/Results.antt =====
-- What `DeviceImpl::new` returns, and what it does not ask for.
use quincy_tun.Base.{
  ℕ, ◌+◌, ◌≤◌, ◌≡◌, refl, ap, ◌∙◌, List, [], Bool, true, false, ◌&&◌, ltb-true, Bool-cases, inl,
  inr, Option, some, Outcome, ok, err, panic, invalid_input, length, arith,
}
use quincy_tun.Host.{Host, Event, pure, next, ◌>>=◌}
use quincy_tun.Net.{Text}
use quincy_tun.Linux.{Reply, Io, Deps, DeviceImpl, tunsetoffload}
use quincy_tun.Linux.Name.{has_nul, c_string, checked_name, config_name, ifnamsiz}
use quincy_tun.Linux.Open.{
  DeviceConfig, unwrap_or, tcp_answer, offloads, new, create_node, open_fd, device_flags,
  tun_tcp_offloads,
}
use quincy_tun.Linux.Settings.{set_name}

-- `P` holds of the value, where there is one.
abbrev pub OnOk : {A : Type 0} → (A → Type 0) → Outcome A → Type 0
OnOk P (ok a) = P a
OnOk P (err e) = Unit
OnOk P panic = Unit

next-OnOk :
    {A B : Type 0} (P : B → Type 0) (f : A → Io B) (h : Host Reply) (log : List (Event Reply))
    (r : Outcome A)
    → ((a : A) → OnOk P (f a h log).1)
    → OnOk P (next f h log r).1
next-OnOk P f h log (ok a) k = k a
next-OnOk P f h log (err e) k = tt
next-OnOk P f h log panic k = tt

-- The offloads of segments are in use only where those of TCP are, and those only where the
-- configuration asks for them.
abbrev pub IsOffer : Bool → DeviceImpl → Type 0
IsOffer offload dev =
    ((dev.udp_gso && dev.vnet_hdr) ≡ dev.udp_gso) × ((dev.vnet_hdr && offload) ≡ dev.vnet_hdr)

abbrev device : ℕ → Bool × Bool → DeviceImpl
device fd o = record { fd = fd; vnet_hdr = o.0; udp_gso = o.1 }

and_true : (b : Bool) → (b && true) ≡ b
and_true true = refl
and_true false = refl

tcp_answer-IsOffer :
    (fd : ℕ) (h : Host Reply) (log : List (Event Reply)) (r : Outcome (Unit {0}))
    → OnOk
        (IsOffer true)
        (next
          (λ o. pure (ok (device fd o)))
          h
          (tcp_answer fd r h log).0
          (tcp_answer fd r h log).1).1
unfolding tcp_answer
tcp_answer-IsOffer fd h log (ok u) = (and_true _, refl)
tcp_answer-IsOffer fd h log (err e) = (refl, refl)
tcp_answer-IsOffer fd h log panic = (refl, refl)

offloads-IsOffer :
    (fd : ℕ) (offload : Bool) (h : Host Reply) (log : List (Event Reply))
    → OnOk
        (IsOffer offload)
        (next
          (λ o. pure (ok (device fd o)))
          h
          (offloads fd offload h log).0
          (offloads fd offload h log).1).1
unfolding offloads
offloads-IsOffer fd true h log =
    tcp_answer-IsOffer fd h _ (h log (tunsetoffload fd tun_tcp_offloads))
offloads-IsOffer fd false h log = (refl, refl)

-- A device that `new` returns splits UDP segments only where it reads the virtio header, and reads
-- that only where the configuration asks for offload, whatever the driver answers.
pub new-IsOffer :
    (config : DeviceConfig) (h : Host Reply) (log : List (Event Reply))
    → OnOk (IsOffer (unwrap_or config.offload false)) (new config h log).1
unfolding new
new-IsOffer config h log =
    let offload = unwrap_or config.offload false in
    let flags = device_flags (unwrap_or config.packet_information false) offload in
    let at = (create_node h log).0 in
    let finish : ℕ → Io DeviceImpl = λ fd. offloads fd offload >>= λ o. pure (ok (device fd o)) in
    let opened : Option Text → Io DeviceImpl =
      λ name. open_fd (unwrap_or name []) flags >>= finish in
    next-OnOk (IsOffer offload) (λ name. create_node >>= λ u. opened name) h log
      (config_name config.dev_name)
      (λ name.
        next-OnOk (IsOffer offload) (λ u. opened name) h at (create_node h log).1
          (λ u.
            let fd = open_fd (unwrap_or name []) flags h at in
            next-OnOk (IsOffer offload) finish h fd.0 fd.1
              (λ x. offloads-IsOffer x offload h fd.0)))

checked_name-long : (name : Text) → ifnamsiz ≤ length name → checked_name name ≡ err invalid_input
unfolding checked_name c_string
checked_name-long name long = elim (Bool-cases (has_nul name)) [
  | inl nul ↦ simp nul refl
  | inr clear ↦ simp (clear, ltb-true ifnamsiz (length name + 1) (omega (arith, long))) refl
]

config_name-long :
    (name : Text) → ifnamsiz ≤ length name → config_name (some name) ≡ err invalid_input
unfolding config_name
config_name-long name long = rw (checked_name-long name long, config_name) refl

-- A name of 16 bytes or more is refused as invalid input, by `new` and by `set_name`, before
-- anything is asked of the system.
pub new-long :
    (config : DeviceConfig) (deps : Deps) (dev : DeviceImpl) (name : Text) (h : Host Reply)
    (log : List (Event Reply))
    → config.dev_name ≡ some name
    → ifnamsiz ≤ length name
    → (new config h log ≡ (log, err invalid_input))
      × (set_name deps dev name h log ≡ (log, err invalid_input))
unfolding new set_name
new-long config deps dev name h log named long =
    let e = checked_name-long name long in
    let none_named : config_name config.dev_name ≡ err invalid_input =
      ap config_name named ∙ config_name-long name long in
    (rw none_named refl, rw e refl)
