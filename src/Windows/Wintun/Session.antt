-- ===== src/Windows/Wintun/Session.antt =====
-- src/platform/windows/tun/mod.rs, `WinTunSession`: packets of the ring are sent and received.
use quincy_tun.Base.{
  ℕ, zero, suc, ◌+◌, ◌-◌, ◌*◌, ◌^◌, List, [], ◌∷◌, Bool, true, false, ltb, leb, ◌==◌, if◌then◌else◌,
  min, length, Option, none, some, Outcome, ok, err, panic, ErrorKind, os, other, invalid_input,
  invalid_data, would_block, write_zero, unexpected_eof, timed_out, interrupted,
}
use quincy_tun.Host.{pure, ◌>>=◌, attempt}
use quincy_tun.Windows.Wintun.{
  allocate_send_packet, send_packet, receive_packet, release_receive_packet, get_last_error,
  wait_for_single_object, wait_for_multiple_objects, load_state, elapsed, spin_loop, yield_now,
  sleep, Win, dll, last_os_error, WinTunSession,
}

-- `ERROR_HANDLE_EOF`, `ERROR_BUFFER_OVERFLOW`, `ERROR_INVALID_DATA`
abbrev pub send_error : ℕ → ErrorKind
send_error n =
    if n == 38
    then write_zero
    else if n == 111
    then would_block
    else if n == 13
    then invalid_data
    else os n

-- `ERROR_HANDLE_EOF`, `ERROR_NO_MORE_ITEMS`
abbrev pub recv_error : ℕ → ErrorKind
recv_error n = if n == 38 then unexpected_eof else if n == 259 then would_block else os n

-- `WAIT_OBJECT_0`, and `WAIT_TIMEOUT`; `WAIT_FAILED` is no such number either.
unfoldable pub waited : ℕ → Win (Unit {0})
waited result =
    if result == 0 then pure (ok tt) else if result == 1 then pure (err other) else last_os_error

unfoldable pub waited_interruptible : ℕ → Win (Unit {0})
waited_interruptible result =
    if result == 258
    then pure (err timed_out)
    else if result == 0
    then pure (ok tt)
    else if result == 1
    then pure (err other)
    else if result == 2
    then pure (err interrupted)
    else last_os_error

-- `INFINITE`
abbrev pub infinite : ℕ
infinite = 2 ^ 32 - 1

-- `e.kind() == io::ErrorKind::WouldBlock`
abbrev pub is_would_block : ErrorKind → Bool
is_would_block would_block = true
is_would_block _ = false

-- The pause after a send that found the ring full, and the next one.
unfoldable pub pause : ℕ → Win (Unit {0})
pause backoff = if backoff == 0 then dll spin_loop else dll (sleep backoff)

abbrev pub next_backoff : ℕ → ℕ
next_backoff backoff = if backoff == 0 then 1 else min (backoff * 2) 10

-- `timeout`, five seconds in nanoseconds
abbrev pub timeout : ℕ
timeout = 5000000000

unfoldable pub is_triggered : Option ℕ → Win Bool
is_triggered none = pure (ok false)
is_triggered (some event) = dll (wait_for_single_object event 0) >>= λ r.
    if r == 0 then pure (ok true) else (dll get_last_error >>= λ e. pure (ok false))

-- `state.check()?`, the timeout and the interrupt, in this order.
unfoldable pub may_go_on : Option ℕ → Win (Unit {0})
unfolding is_triggered
may_go_on event = dll load_state >>= λ enabled.
    if enabled
    then (dll elapsed >>= λ t.
        if ltb timeout t
        then pure (err timed_out)
        else (is_triggered event >>= λ stop. if stop then pure (err interrupted) else pure (ok tt)))
    else pure (err other)

-- The result of an attempt ends the loop, unless it would block.
unfoldable pub sent_or : {A : Type 0} → Win (Option A) → Outcome A → Win (Option A)
sent_or again (ok len) = pure (ok (some len))
sent_or again (err e) = if is_would_block e then again else pure (err e)
sent_or again panic = pure panic

-- One of the 16 attempts in a row of `recv`, after which it waits.
abbrev pub spin_or_yield : ℕ → Win (Unit {0})
spin_or_yield i = if leb 4 i then dll yield_now else dll spin_loop

module _ (s : WinTunSession) where
  unfoldable pub put_packet : List ℕ → Option ℕ → Win ℕ
  put_packet buf none = dll get_last_error >>= λ n. pure (err (send_error n))
  put_packet buf (some p) = dll (send_packet s.handle p buf) >>= λ _. pure (ok (length buf))

  unfoldable pub try_send : List ℕ → Win ℕ
  unfolding put_packet
  try_send buf =
      if ltb (2 ^ 32 - 1) (length buf)
      then pure (err invalid_input)
      else (dll (allocate_send_packet s.handle (length buf)) >>= put_packet buf)

  -- The bytes of the packet stand at the start of the buffer, where there is room for them.
  unfoldable pub take_packet : ℕ → Option (ℕ × List ℕ) → Win (List ℕ)
  take_packet dst_len none = dll get_last_error >>= λ n. pure (err (recv_error n))
  take_packet dst_len (some (p, bytes)) = dll (release_receive_packet s.handle p) >>= λ _.
      if ltb dst_len (length bytes) then pure (err invalid_input) else pure (ok bytes)

  -- `try_recv` and `try_recv_raw`
  unfoldable pub try_recv : ℕ → Win (List ℕ)
  unfolding take_packet
  try_recv dst_len = dll (receive_packet s.handle) >>= take_packet dst_len

  -- The loop of `send`, for `fuel` rounds; none is that these were not enough.
  unfoldable pub send_loop : ℕ → ℕ → List ℕ → Option ℕ → Win (Option ℕ)
  unfolding try_send may_go_on pause sent_or
  send_loop zero backoff buf event = pure (ok none)
  send_loop (suc fuel) backoff buf event =
      let rest = send_loop fuel (next_backoff backoff) buf event in
      attempt (try_send buf) >>= sent_or (may_go_on event >>= λ _. pause backoff >>= λ _. rest)

  -- 505 rounds are enough, as `Clock` shows.
  unfoldable pub send : List ℕ → Option ℕ → Win (Option ℕ)
  unfolding send_loop
  send buf event = send_loop 505 0 buf event

  unfoldable pub wait_readable : ℕ → Win (Unit {0})
  unfolding waited
  wait_readable inner_event =
      dll (wait_for_multiple_objects (s.read_event ∷ inner_event ∷ []) none) >>= waited

  -- `t.as_millis().min(INFINITE)`
  abbrev pub millis : Option ℕ → Option ℕ
  millis none = none
  millis (some t) = if ltb t infinite then some t else none

  unfoldable pub wait_readable_interruptible : ℕ → ℕ → Option ℕ → Win (Unit {0})
  unfolding waited_interruptible
  wait_readable_interruptible inner_event interrupt_event limit =
      dll (
        wait_for_multiple_objects (s.read_event ∷ inner_event ∷ interrupt_event ∷ [])
          (millis limit))
      >>= waited_interruptible

  -- `n` attempts from the `i`-th on, then `wait`.
  unfoldable pub spins : ℕ → ℕ → ℕ → Win (Option (List ℕ)) → Win (Option (List ℕ))
  unfolding try_recv sent_or
  spins zero i dst_len wait = wait
  spins (suc n) i dst_len wait =
      let rest = spins n (i + 1) dst_len wait in
      attempt (try_recv dst_len) >>= sent_or (spin_or_yield i >>= λ _. rest)

  -- The loop of `recv`, for `fuel` waits.
  unfoldable pub recv : ℕ → ℕ → ℕ → Win (Option (List ℕ))
  unfolding spins wait_readable
  recv zero inner_event dst_len = pure (ok none)
  recv (suc fuel) inner_event dst_len =
      let rest = recv fuel inner_event dst_len in
      spins 16 0 dst_len (wait_readable inner_event >>= λ _. rest)
