-- ===== src/Linux/Held/Open.antt =====
-- Opening a device holds its descriptor, and drops it where an error ends it.
use quincy_tun.Base.{
  ℕ, ◌≡◌, refl, ap, ◌∙◌, List, [], ◌∷◌, ◌++◌, Bool, true, false, Outcome, ok, err, panic, bit_or,
  Option,
}
use quincy_tun.Host.{Host, Event, pure, next, ◌>>=◌, attempt}
use quincy_tun.Net.{Text}
use quincy_tun.Linux.{
  Reply, Io, sys, DeviceImpl, exists, create_dir_all, mknod, open_tun, close, tunsetiff,
  tunsetoffload,
}
use quincy_tun.Linux.Name.{config_name}
use quincy_tun.Linux.Open.{
  create_node_if, create_node, tcp_answer, offloads, drop_on_err, open_fd, new, is_ok,
  tun_tcp_offloads, tun_udp_offloads, device_flags, unwrap_or, DeviceConfig,
}
use quincy_tun.Linux.Held.{
  Neutral, held, pure-Neutral, bind-Neutral, attempt-Neutral, sys-Neutral, held-close, held-open,
  held-event,
}

create_node_if-Neutral : (r : Outcome Bool) → Neutral (create_node_if r)
unfolding create_node_if
create_node_if-Neutral (ok true) = pure-Neutral (ok tt)
create_node_if-Neutral (ok false) =
    bind-Neutral _ _ (attempt-Neutral _ (sys-Neutral create_dir_all (λ fds r. refl))) (λ u.
      bind-Neutral _ _ (attempt-Neutral _ (sys-Neutral mknod (λ fds r. refl)))
        (λ v. pure-Neutral (ok tt)))
create_node_if-Neutral (err e) = pure-Neutral (ok tt)
create_node_if-Neutral panic = pure-Neutral (ok tt)

create_node-Neutral : Neutral create_node
unfolding create_node
create_node-Neutral =
    bind-Neutral _ _ (attempt-Neutral _ (sys-Neutral exists (λ fds r. refl))) create_node_if-Neutral

tcp_answer-Neutral : (fd : ℕ) (r : Outcome (Unit {0})) → Neutral (tcp_answer fd r)
unfolding tcp_answer
tcp_answer-Neutral fd (ok u) =
    bind-Neutral _ _
      (attempt-Neutral _
        (sys-Neutral (tunsetoffload fd (bit_or tun_tcp_offloads tun_udp_offloads)) (λ fds r. refl)))
      (λ rs. pure-Neutral (ok (true, is_ok rs)))
tcp_answer-Neutral fd (err e) = pure-Neutral _
tcp_answer-Neutral fd panic = pure-Neutral _

offloads-Neutral : (fd : ℕ) (offload : Bool) → Neutral (offloads fd offload)
unfolding offloads
offloads-Neutral fd true =
    bind-Neutral _ _ (attempt-Neutral _ (sys-Neutral (tunsetoffload fd _) (λ fds r. refl)))
      (tcp_answer-Neutral fd)
offloads-Neutral fd false =
    bind-Neutral _ _ (attempt-Neutral _ (sys-Neutral (tunsetoffload fd 0) (λ fds r. refl)))
      (λ u. pure-Neutral (ok (false, false)))

-- With a value, the descriptor `fd_of` of it is held besides those of `fds`; without one, `fds` alone.
abbrev pub Holds : {A : Type 0} → (A → ℕ) → List ℕ → List (Event Reply) × Outcome A → Type 0
Holds fd_of fds (log, ok a) = held log ≡ fd_of a ∷ fds
Holds fd_of fds (log, err e) = held log ≡ fds
Holds fd_of fds (log, panic) = held log ≡ fds

module _ {A B : Type 0} where
  -- What opens after a part that opens nothing.
  pub next-Holds :
      (fd_of : B → ℕ) (fds : List ℕ) (f : A → Io B) (h : Host Reply) (log : List (Event Reply))
      (r : Outcome A)
      → held log ≡ fds
      → ((a : A) → Holds fd_of fds (f a h log))
      → Holds fd_of fds (next f h log r)
  next-Holds fd_of fds f h log (ok a) e k = k a
  next-Holds fd_of fds f h log (err x) e k = e
  next-Holds fd_of fds f h log panic e k = e

  -- What keeps the descriptor that is open.
  pub next-Holds_keep :
      (fd_of : A → ℕ) (gd_of : B → ℕ) (fds : List ℕ) (f : A → Io B) (h : Host Reply)
      (log : List (Event Reply)) (r : Outcome A)
      → Holds fd_of fds (log, r)
      → ((a : A) → held log ≡ fd_of a ∷ fds → Holds gd_of fds (f a h log))
      → Holds gd_of fds (next f h log r)
  next-Holds_keep fd_of gd_of fds f h log (ok a) e k = k a e
  next-Holds_keep fd_of gd_of fds f h log (err x) e k = e
  next-Holds_keep fd_of gd_of fds f h log panic e k = e

pub drop_on_err-Holds :
    {A : Type 0} (fd : ℕ) (fds : List ℕ) (r : Outcome A) (h : Host Reply) (log : List (Event Reply))
    → held log ≡ fd ∷ fds
    → Holds (λ (a : A). fd) fds (drop_on_err fd r h log)
drop_on_err-Holds fd fds (ok a) h log e = e
drop_on_err-Holds fd fds (err x) h log e = held-close log fd (h log (close fd)) fds e
drop_on_err-Holds fd fds panic h log e = held-close log fd (h log (close fd)) fds e

open_answer-Holds :
    (name : Text) (flags : ℕ) (h : Host Reply) (log : List (Event Reply)) (fds : List ℕ)
    (r : Outcome ℕ)
    → held log ≡ fds
    → Holds
        (λ (fd : ℕ). fd)
        fds
        (next
          (λ fd. attempt (sys (tunsetiff fd name flags)) >>= λ set_r.
            drop_on_err fd set_r >>= λ _. pure (ok fd))
          h
          (log ++ (open_tun, r) ∷ [])
          r)
open_answer-Holds name flags h log fds (ok fd) e =
    let log1 = log ++ (open_tun, ok fd) ∷ [] in
    let set_r = h log1 (tunsetiff fd name flags) in
    let log2 = log1 ++ (tunsetiff fd name flags, set_r) ∷ [] in
    let plain = sys-Neutral (tunsetiff fd name flags) (λ fds r. refl) in
    let d =
      drop_on_err-Holds fd fds set_r h log2
        (plain.keeps h log1 ∙ held-open log fd ∙ ap (λ t. fd ∷ t) e) in
    next-Holds_keep (λ (u : Unit {0}). fd) (λ (x : ℕ). x) fds (λ u. pure (ok fd)) h
      (drop_on_err fd set_r h log2).0 (drop_on_err fd set_r h log2).1 d (λ u k. k)
open_answer-Holds name flags h log fds (err x) e = held-event log (open_tun, err x) ∙ e
open_answer-Holds name flags h log fds panic e = held-event log (open_tun, panic) ∙ e

open_fd-Holds :
    (name : Text) (flags : ℕ) (h : Host Reply) (log : List (Event Reply)) (fds : List ℕ)
    → held log ≡ fds
    → Holds (λ (fd : ℕ). fd) fds (open_fd name flags h log)
unfolding open_fd
open_fd-Holds name flags h log fds e = open_answer-Holds name flags h log fds (h log open_tun) e

-- The device that `new` makes of the descriptor and the pair of offloads.
abbrev device : ℕ → Bool × Bool → DeviceImpl
device fd o = record { fd = fd; vnet_hdr = o.0; udp_gso = o.1 }

-- Setting the offloads does not fail.
tcp_answer-Holds :
    (fd : ℕ) (fds : List ℕ) (h : Host Reply) (log : List (Event Reply)) (r : Outcome (Unit {0}))
    → held log ≡ fd ∷ fds
    → Holds
        (λ (dev : DeviceImpl). dev.fd)
        fds
        (next (λ o. pure (ok (device fd o))) h (tcp_answer fd r h log).0 (tcp_answer fd r h log).1)
unfolding tcp_answer
tcp_answer-Holds fd fds h log (ok u) e = (tcp_answer-Neutral fd (ok u)).keeps h log ∙ e
tcp_answer-Holds fd fds h log (err x) e = e
tcp_answer-Holds fd fds h log panic e = e

offloads-Holds :
    (fd : ℕ) (fds : List ℕ) (offload : Bool) (h : Host Reply) (log : List (Event Reply))
    → held log ≡ fd ∷ fds
    → Holds
        (λ (dev : DeviceImpl). dev.fd)
        fds
        (next
          (λ o. pure (ok (device fd o)))
          h
          (offloads fd offload h log).0
          (offloads fd offload h log).1)
unfolding offloads
offloads-Holds fd fds true h log e =
    let plain = sys-Neutral (tunsetoffload fd tun_tcp_offloads) (λ fds r. refl) in
    tcp_answer-Holds fd fds h _ (h log (tunsetoffload fd tun_tcp_offloads)) (plain.keeps h log ∙ e)
offloads-Holds fd fds false h log e = (offloads-Neutral fd false).keeps h log ∙ e

-- Whatever the system answers, a device that `new` returns has the one descriptor that is open
-- besides those that were open before, and where `new` fails it leaves open those alone.
pub new-Holds :
    (config : DeviceConfig) (h : Host Reply) (log : List (Event Reply))
    → Holds (λ (dev : DeviceImpl). dev.fd) (held log) (new config h log)
unfolding new
new-Holds config h log =
    let offload = unwrap_or config.offload false in
    let flags = device_flags (unwrap_or config.packet_information false) offload in
    let at = (create_node h log).0 in
    let keep = create_node-Neutral.keeps h log in
    let fd_of : DeviceImpl → ℕ = λ dev. dev.fd in
    let finish : ℕ → Io DeviceImpl = λ fd. offloads fd offload >>= λ o. pure (ok (device fd o)) in
    let opened : Option Text → Io DeviceImpl =
      λ name. open_fd (unwrap_or name []) flags >>= finish in
    let name_opened : (name : Option Text) → Holds fd_of (held log) (opened name h at) = λ name.
      let fd = open_fd (unwrap_or name []) flags h at in
      next-Holds_keep (λ x. x) fd_of (held log) finish h fd.0 fd.1
        (open_fd-Holds (unwrap_or name []) flags h at (held log) keep)
        (λ x e. offloads-Holds x (held log) offload h fd.0 e) in
    next-Holds fd_of (held log) (λ name. create_node >>= λ u. opened name) h log
      (config_name config.dev_name) refl
      (λ name.
        next-Holds fd_of (held log) (λ u. opened name) h at (create_node h log).1 keep
          (λ u. name_opened name))
