-- ===== src/Windows/Wintun/Held/Ring.antt =====
-- Every packet taken from the ring goes back to it.
use quincy_tun.Base.{
  ℕ, zero, suc, ◌+◌, ◌-◌, ◌^◌, ◌≡◌, refl, List, [], ◌∷◌, Bool, ltb, leb, ◌==◌, if◌then◌else◌,
  length, Option, none, some, Outcome, ok, err, panic, invalid_input,
}
use quincy_tun.Host.{pure, ◌>>=◌, attempt}
use quincy_tun.Host.Runs.{
  pure-Runs, call-Runs, idle-Runs, quiet-Runs, same-Runs, bind-Runs, tried-Runs, if-Runs,
}
use quincy_tun.Windows.Wintun.{
  Dll, allocate_send_packet, send_packet, receive_packet, release_receive_packet, get_last_error,
  wait_for_single_object, load_state, elapsed, spin_loop, yield_now, sleep, DllReply, Win, dll,
  last_os_error, WinTunSession,
}
use quincy_tun.Windows.Wintun.Session.{
  waited, waited_interruptible, is_would_block, pause, next_backoff, timeout, is_triggered,
  may_go_on, sent_or, put_packet, try_send, take_packet, try_recv, send_loop, send, wait_readable,
  wait_readable_interruptible, spins, recv,
}
use quincy_tun.Windows.Wintun.Held.{Resource, packet, remove-head, step, Holds, Keeps}

module _ (held : List Resource) where
  pub pure-Keeps : {A : Type 0} (r : Outcome A) → Keeps held (pure r)
  pure-Keeps r = pure-Runs step [] held r

  pub bind-Keeps :
      {A B : Type 0} (m : Win A) (f : A → Win B)
      → Keeps held m
      → ((a : A) → Keeps held (f a))
      → Keeps held (m >>= f)
  bind-Keeps m f j k = quiet-Runs step [] held m f j k

  pub tried-Keeps :
      {A B : Type 0} (m : Win A) (f : Outcome A → Win B)
      → Keeps held m
      → ((r : Outcome A) → Keeps held (f r))
      → Keeps held (attempt m >>= f)
  tried-Keeps m f j k = tried-Runs step [] held (λ _. held) (λ _. held) m f j k

  pub if-Keeps :
      {A : Type 0} (b : Bool) (m n : Win A)
      → Keeps held m
      → Keeps held n
      → Keeps held (if b then m else n)
  if-Keeps b m n j k = if-Runs step [] held (λ _. held) b m n j k

  pub dll-Keeps :
      (c : Dll) → ((r : Outcome (DllReply c)) → step held (c, r) ≡ held) → Keeps held (dll c)
  dll-Keeps c k = idle-Runs step [] held c k

  pub last_os_error-Keeps : {A : Type 0} → Keeps held (last_os_error {A = A})
  last_os_error-Keeps = bind-Keeps _ _ (dll-Keeps get_last_error (λ r. refl)) (λ n. pure-Keeps _)

  -- A packet that was taken is given back by `c`.
  back-Runs :
      {A : Type 0} (s p : ℕ) (c : Dll) (f : DllReply c → Win A)
      → ((r : Outcome (DllReply c)) → step (packet s p ∷ held) (c, r) ≡ held)
      → ((r : DllReply c) → Keeps held (f r))
      → Holds (packet s p ∷ held) (dll c >>= f) (λ _. held)
  back-Runs s p c f back k =
      bind-Runs step [] (packet s p ∷ held) (λ _. held) (λ _. held) (dll c) f
        (same-Runs step [] (packet s p ∷ held) (dll c) (λ r. step (packet s p ∷ held) (c, r))
          (λ _. held) (call-Runs step [] (packet s p ∷ held) c) back)
        k (λ e. refl) refl

  module _ (s : WinTunSession) where
    put_packet-Holds :
        (buf : List ℕ) (n : ℕ) (r : Option ℕ)
        → Holds (step held (allocate_send_packet s.handle n, ok r)) (put_packet s buf r) (λ _. held)
    unfolding put_packet
    put_packet-Holds buf n none =
        bind-Keeps _ _ (dll-Keeps get_last_error (λ r. refl)) (λ e. pure-Keeps _)
    put_packet-Holds buf n (some p) =
        back-Runs s.handle p (send_packet s.handle p buf) (λ _. pure (ok (length buf)))
          (λ r. remove-head (packet s.handle p) held) (λ u. pure-Keeps _)

    pub try_send-Keeps : (buf : List ℕ) → Keeps held (try_send s buf)
    unfolding try_send
    try_send-Keeps buf = if-Keeps (ltb (2 ^ 32 - 1) (length buf)) _ _ (pure-Keeps _) (
        bind-Runs step [] held (λ r. step held (allocate_send_packet s.handle (length buf), r))
          (λ _. held) (dll (allocate_send_packet s.handle (length buf))) (put_packet s buf)
          (call-Runs step [] held (allocate_send_packet s.handle (length buf)))
          (put_packet-Holds buf (length buf)) (λ e. refl) refl)

    take_packet-Holds :
        (room : ℕ) (r : Option (ℕ × List ℕ))
        → Holds (step held (receive_packet s.handle, ok r)) (take_packet s room r) (λ _. held)
    unfolding take_packet
    take_packet-Holds room none =
        bind-Keeps _ _ (dll-Keeps get_last_error (λ r. refl)) (λ e. pure-Keeps _)
    take_packet-Holds room (some (p, bytes)) =
        back-Runs s.handle p (release_receive_packet s.handle p)
          (λ _. if ltb room (length bytes) then pure (err invalid_input) else pure (ok bytes))
          (λ r. remove-head (packet s.handle p) held)
          (λ u. if-Keeps (ltb room (length bytes)) _ _ (pure-Keeps _) (pure-Keeps _))

    pub try_recv-Keeps : (room : ℕ) → Keeps held (try_recv s room)
    unfolding try_recv
    try_recv-Keeps room =
        bind-Runs step [] held (λ r. step held (receive_packet s.handle, r)) (λ _. held)
          (dll (receive_packet s.handle)) (take_packet s room)
          (call-Runs step [] held (receive_packet s.handle)) (take_packet-Holds room) (λ e. refl)
          refl

  sent_or-Keeps :
      {A : Type 0} (again : Win (Option A)) (r : Outcome A)
      → Keeps held again
      → Keeps held (sent_or again r)
  unfolding sent_or
  sent_or-Keeps again (ok a) k = pure-Keeps _
  sent_or-Keeps again (err e) k = if-Keeps (is_would_block e) _ _ k (pure-Keeps _)
  sent_or-Keeps again panic k = pure-Keeps _

  is_triggered-Keeps : (e : Option ℕ) → Keeps held (is_triggered e)
  unfolding is_triggered
  is_triggered-Keeps none = pure-Keeps _
  is_triggered-Keeps (some e) =
      bind-Keeps _ _ (dll-Keeps (wait_for_single_object e 0) (λ r. refl)) (λ r.
        if-Keeps (r == 0) _ _ (pure-Keeps _)
          (bind-Keeps _ _ (dll-Keeps get_last_error (λ r. refl)) (λ n. pure-Keeps _)))

  may_go_on-Keeps : (e : Option ℕ) → Keeps held (may_go_on e)
  unfolding may_go_on
  may_go_on-Keeps e = bind-Keeps _ _ (dll-Keeps load_state (λ r. refl)) (λ b.
      if-Keeps b _ _
        (bind-Keeps _ _ (dll-Keeps elapsed (λ r. refl)) (λ t.
          if-Keeps (ltb timeout t) _ _ (pure-Keeps _) (
            bind-Keeps _ _ (is_triggered-Keeps e)
              (λ stop. if-Keeps stop _ _ (pure-Keeps _) (pure-Keeps _)))))
        (pure-Keeps _))

  pause-Keeps : (backoff : ℕ) → Keeps held (pause backoff)
  unfolding pause
  pause-Keeps backoff =
      if-Keeps (backoff == 0) _ _ (dll-Keeps spin_loop (λ r. refl))
        (dll-Keeps (sleep backoff) (λ r. refl))

  waited-Keeps : (r : ℕ) → Keeps held (waited r)
  unfolding waited
  waited-Keeps r =
      if-Keeps (r == 0) _ _ (pure-Keeps _)
        (if-Keeps (r == 1) _ _ (pure-Keeps _) last_os_error-Keeps)

  waited_interruptible-Keeps : (r : ℕ) → Keeps held (waited_interruptible r)
  unfolding waited_interruptible
  waited_interruptible-Keeps r = if-Keeps (r == 258) _ _ (pure-Keeps _) (
      if-Keeps (r == 0) _ _ (pure-Keeps _) (
        if-Keeps (r == 1) _ _ (pure-Keeps _)
          (if-Keeps (r == 2) _ _ (pure-Keeps _) last_os_error-Keeps)))

  module _ (s : WinTunSession) where
    send_loop-Keeps :
        (fuel backoff : ℕ) (buf : List ℕ) (e : Option ℕ)
        → Keeps held (send_loop s fuel backoff buf e)
    unfolding send_loop
    send_loop-Keeps zero backoff buf e = pure-Keeps _
    send_loop-Keeps (suc fuel) backoff buf e = tried-Keeps _ _ (try_send-Keeps s buf) (λ r.
        sent_or-Keeps _ r (
          bind-Keeps _ _ (may_go_on-Keeps e) (λ u.
            bind-Keeps _ _ (pause-Keeps backoff)
              (λ u. send_loop-Keeps fuel (next_backoff backoff) buf e))))

    wait_readable-Keeps : (e : ℕ) → Keeps held (wait_readable s e)
    unfolding wait_readable
    wait_readable-Keeps e = bind-Keeps _ _ (dll-Keeps _ (λ r. refl)) waited-Keeps

    spins-Keeps :
        (n i room : ℕ) (wait : Win (Option (List ℕ)))
        → Keeps held wait
        → Keeps held (spins s n i room wait)
    unfolding spins
    spins-Keeps zero i room wait k = k
    spins-Keeps (suc n) i room wait k = tried-Keeps _ _ (try_recv-Keeps s room) (λ r.
        sent_or-Keeps _ r (
          bind-Keeps _ _
            (if-Keeps (leb 4 i) _ _ (dll-Keeps yield_now (λ r. refl))
              (dll-Keeps spin_loop (λ r. refl)))
            (λ u. spins-Keeps n (i + 1) room wait k)))

    recv-Keeps : (fuel e room : ℕ) → Keeps held (recv s fuel e room)
    unfolding recv
    recv-Keeps zero e room = pure-Keeps _
    recv-Keeps (suc fuel) e room =
        spins-Keeps 16 0 room _
          (bind-Keeps _ _ (wait_readable-Keeps e) (λ u. recv-Keeps fuel e room))

    -- Sending, receiving and waiting, blocking or not, leave what is held as it was, whatever the
    -- system answers: a packet that is allocated is sent, and one that is received is released, also
    -- where it is too long for the buffer.
    pub session-Keeps :
        (buf : List ℕ) (e : Option ℕ) (fuel room inner interrupt : ℕ) (limit : Option ℕ)
        → Keeps held (try_send s buf)
          × Keeps held (try_recv s room)
          × Keeps held (send s buf e)
          × Keeps held (recv s fuel inner room)
          × Keeps held (wait_readable_interruptible s inner interrupt limit)
    unfolding send wait_readable_interruptible
    session-Keeps buf e fuel room inner interrupt limit = (
      try_send-Keeps s buf,
      try_recv-Keeps s room,
      send_loop-Keeps 505 0 buf e,
      recv-Keeps fuel inner room,
      bind-Keeps _ _ (dll-Keeps _ (λ r. refl)) waited_interruptible-Keeps,
    )
