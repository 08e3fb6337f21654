-- ===== src/Unix/Tun.antt =====
-- src/platform/unix/tun.rs on the systems that put the address family in front of a packet (macOS,
-- iOS, tvOS and the BSDs). On Linux and Android `send`, `recv` and the vectored ones are those of the
-- descriptor.
pub mod Vectored
use quincy_tun.Base.{
  ℕ, ◌+◌, ◌-◌, ◌/◌, List, [], ◌∷◌, ◌++◌, Bool, true, false, not, ltb, ◌==◌, if◌then◌else◌, length,
  drop, be32, Outcome, ok, err, panic, ErrorKind, invalid_input, invalid_data,
}
use quincy_tun.Host.{Host, Event, M, call, pure, next, ◌>>=◌, ◌>>◌, ensure}
use quincy_tun.Unix.{LibcReply, Fd, max_iov, fd_read, fd_readv, fd_write, fd_writev}

-- `PACKET_INFORMATION_LENGTH`
abbrev pub pil : ℕ
pil = 4

unfoldable pub is_ipv6 : List ℕ → Outcome Bool
is_ipv6 [] = err invalid_data
is_ipv6 (b ∷ buf) =
    if b / 16 == 4 then ok false else if b / 16 == 6 then ok true else err invalid_data

-- The `AF_INET6` of the system is a parameter; its `AF_INET` is 2.
unfoldable pub generate_packet_information : ℕ → Bool → List ℕ
generate_packet_information af_inet6 ipv6 = if ipv6 then be32 af_inet6 else be32 2

pub record Tun : Type 0 where
  pub fd : Fd
  pub ignore_packet_information : Bool

abbrev pub new_tun : Fd → Tun
new_tun fd = record { fd = fd; ignore_packet_information = true }

abbrev pub set_ignore_packet_info : Bool → Tun → Tun
set_ignore_packet_info ign tun = record tun { ignore_packet_information = ign }

-- The first buffer with a byte in it, or an empty one.
unfoldable pub first_buf : List (List ℕ) → List ℕ
first_buf [] = []
first_buf ([] ∷ bufs) = first_buf bufs
first_buf ((b ∷ buf) ∷ bufs) = b ∷ buf

module _ (af_inet6 : ℕ) (tun : Tun) where
  unfoldable pub send : List ℕ → M LibcReply ℕ
  unfolding is_ipv6 generate_packet_information fd_write fd_writev
  send buf =
      if tun.ignore_packet_information
      then (pure (is_ipv6 buf) >>= λ ipv6.
          fd_writev tun.fd (generate_packet_information af_inet6 ipv6 ∷ buf ∷ []) >>= λ len.
          pure (ok (len - pil)))
      else fd_write tun.fd buf

  unfoldable pub send_vectored : List (List ℕ) → M LibcReply ℕ
  unfolding is_ipv6 generate_packet_information first_buf fd_writev
  send_vectored bufs =
      if tun.ignore_packet_information
      then (ensure (not (ltb (max_iov - 1) (length bufs))) invalid_input
          >> (pure (is_ipv6 (first_buf bufs)) >>= λ ipv6.
              fd_writev tun.fd (generate_packet_information af_inet6 ipv6 ∷ bufs) >>= λ len.
              pure (ok (len - pil))))
      else fd_writev tun.fd bufs

-- What is received: the number that the code returns, and the bytes behind the packet information.
pub record Received : Type 0 where
  pub count : ℕ
  pub bytes : List ℕ

module _ (tun : Tun) where
  unfoldable pub recv : ℕ → M LibcReply Received
  unfolding fd_read fd_readv
  recv room =
      if tun.ignore_packet_information
      then (fd_readv tun.fd (pil ∷ room ∷ []) >>= λ got.
          pure (ok (record { count = length got - pil; bytes = drop pil got })))
      else fd_read tun.fd room >>= λ got. pure (ok (record { count = length got; bytes = got }))

  unfoldable pub recv_vectored : List ℕ → M LibcReply Received
  unfolding fd_readv
  recv_vectored rooms =
      if tun.ignore_packet_information
      then (ensure (not (ltb (max_iov - 1) (length rooms))) invalid_input
          >> (fd_readv tun.fd (pil ∷ rooms) >>= λ got.
              pure (ok (record { count = length got - pil; bytes = drop pil got }))))
      else fd_readv tun.fd rooms >>= λ got. pure (ok (record { count = length got; bytes = got }))
