-- ===== src/Unix.antt =====
-- src/platform/unix/fd.rs: a descriptor that is owned or borrowed. The calls of libc are requests of
-- the module Host; a negative answer is an error, with the errno that the system gave.
pub mod Tun
pub mod Owned
use quincy_tun.Base.{
  ℕ, ◌+◌, List, [], ◌∷◌, Bool, true, false, not, ◌&&◌, ltb, if◌then◌else◌, length, map, Outcome, ok,
  err, panic, ErrorKind, invalid_input,
}
use quincy_tun.Host.{Host, Event, M, call, pure, next, ◌>>=◌, ◌>>◌, ensure, attempt}

-- A descriptor is no negative number; -1 stands for one that is given away.
pub data RawFd : Type 0 where
  at : ℕ → RawFd
  minus_one : RawFd

-- `read` and `readv` are asked for by the room there is, and answered by the bytes.
pub data Libc : Type 0 where
  close : RawFd → Libc
  fionbio : RawFd → Bool → Libc
  read : RawFd → ℕ → Libc
  readv : RawFd → List ℕ → Libc
  write : RawFd → List ℕ → Libc
  writev : RawFd → List (List ℕ) → Libc

abbrev pub LibcReply : Libc → Type 0
LibcReply (read fd n) = List ℕ
LibcReply (readv fd ns) = List ℕ
LibcReply (write fd b) = ℕ
LibcReply (writev fd bs) = ℕ
LibcReply _ = Unit

abbrev pub libc : (c : Libc) → M LibcReply (LibcReply c)
libc c = call LibcReply c

pub record Fd : Type 0 where
  pub inner : RawFd
  pub borrow : Bool

-- `IOV_MAX` and `UIO_MAXIOV`
abbrev pub max_iov : ℕ
max_iov = 1024

abbrev pub new_unchecked : RawFd → Fd
new_unchecked value = record { inner = value; borrow = false }

-- `new`, after a call that gives a descriptor: a negative one is the error of the call.
abbrev pub new_fd : Outcome ℕ → Outcome Fd
new_fd (ok value) = ok (new_unchecked (at value))
new_fd (err e) = err e
new_fd panic = panic

module _ (fd : Fd) where
  unfoldable pub set_nonblocking : Bool → M LibcReply (Unit {0})
  set_nonblocking nonblocking = libc (fionbio fd.inner nonblocking)

  unfoldable pub fd_read : ℕ → M LibcReply (List ℕ)
  fd_read room = libc (read fd.inner room)

  unfoldable pub fd_readv : List ℕ → M LibcReply (List ℕ)
  fd_readv rooms =
      ensure (not (ltb max_iov (length rooms))) invalid_input >> libc (readv fd.inner rooms)

  unfoldable pub fd_write : List ℕ → M LibcReply ℕ
  fd_write buf = libc (write fd.inner buf)

  unfoldable pub fd_writev : List (List ℕ) → M LibcReply ℕ
  fd_writev bufs =
      ensure (not (ltb max_iov (length bufs))) invalid_input >> libc (writev fd.inner bufs)

-- The descriptor, and what is left of its owner, which is dropped at the end.
unfoldable pub into_raw_fd : Fd → RawFd × Fd
into_raw_fd fd = (fd.inner, record fd { inner = minus_one })

abbrev is_open : RawFd → Bool
is_open (at n) = true
is_open minus_one = false

-- `Drop`, with what is left of the owner.
unfoldable pub drop_fd : Fd → M LibcReply Fd
drop_fd fd =
    if not fd.borrow && is_open fd.inner
    then (attempt (libc (close fd.inner)) >>= λ _. pure (ok (record fd { inner = minus_one })))
    else pure (ok fd)
