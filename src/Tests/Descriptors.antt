-- ===== src/Tests/Descriptors.antt =====
-- Inputs for the theorems on the descriptor, on the packet information and on the async device.
use quincy_tun.Base.{
  os, err, ℕ, zero, suc, ◌+◌, ◌<◌, ◌≡◌, refl, arith, List, [], ◌∷◌, false, none, some, length,
  Outcome, ok,
}
use quincy_tun.Host.{Host, pure, ◌>>=◌}
use quincy_tun.Freebsd.{Bsd, BsdReply, open_path, open_node}
use quincy_tun.Freebsd.Choice.{Busy, all_busy, open_node-first}
use quincy_tun.Unix.{at, Libc, LibcReply, read, readv, write, writev, Fd, new_unchecked}
use quincy_tun.Unix.Tun.{is_ipv6, generate_packet_information, send, recv, send_vectored}
use quincy_tun.Unix.Tun.Vectored.{flat, written, send_vectored-send, on, recv-send}
use quincy_tun.Device.{DeviceImpl}
use quincy_tun.AsyncDevice.Poll.{
  Poll, ready, TryIo, done, would_block, IsFalseAlarm, ran, poll_io, poll_io-settles,
}

abbrev owned : Fd
owned = new_unchecked (at 3)

abbrev packet : List ℕ
packet = 69 ∷ 1 ∷ 2 ∷ []

abbrev echo : (c : Libc) → Outcome (LibcReply c)
echo (read fd n) = ok []
echo (readv fd ns) = ok (0 ∷ 0 ∷ 0 ∷ 2 ∷ packet)
echo (write fd b) = ok (length b)
echo (writev fd bs) = ok (length (flat bs))
echo _ = ok tt

abbrev echo_host : Host LibcReply
echo_host log c = echo c

recv-send_example :
    ((send 30 (on owned) packet echo_host []).1 ≡ ok 3)
    × ((recv (on owned) 100 echo_host []).1 ≡ ok (record { count = 3; bytes = packet }))
unfolding is_ipv6 flat generate_packet_information
recv-send_example = recv-send 30 owned packet false 100 echo_host [] [] refl refl refl

abbrev first_async : ℕ → Poll (Outcome (Unit {0}))
first_async i = ready (ok tt)

abbrev second_try : ℕ → TryIo ℕ
second_try zero = would_block
second_try (suc i) = done (ok 5)

alarm_first : (j : ℕ) → j < 1 → IsFalseAlarm first_async second_try (0 + j)
alarm_first zero l = (refl, refl)
alarm_first (suc j) l = absurd (omega (arith, l))

poll_io-settles_example : poll_io first_async second_try 2 0 ≡ some (ready (ok 5))
poll_io-settles_example =
    poll_io-settles first_async second_try 1 0 2 (ready (ok 5)) alarm_first (ran refl refl)
      (omega arith)

send_vectored-send_example :
    (send_vectored 30 (on owned) ([] ∷ packet ∷ []) echo_host []
      ≡ (pure (is_ipv6 packet) >>= λ v. written 30 (on owned) v ([] ∷ packet ∷ [])) echo_host [])
    × (send 30 (on owned) packet echo_host []
        ≡ (pure (is_ipv6 packet) >>= λ v. written 30 (on owned) v (packet ∷ [])) echo_host [])
unfolding flat
send_vectored-send_example =
    send_vectored-send 30 owned ([] ∷ packet ∷ []) echo_host [] (omega arith)

abbrev no_offload : DeviceImpl
no_offload = record { vnet_hdr = false; udp_gso = false }

abbrev one_busy : (c : Bsd) → Outcome (BsdReply c)
one_busy (open_path zero) = err (os 16)
one_busy (open_path (suc i)) = ok 3
one_busy _ = ok tt

abbrev busy_host : Host BsdReply
busy_host log c = one_busy c

zero-Busy : Busy busy_host 0 1
zero-Busy zero l log = refl
zero-Busy (suc j) l log = absurd (omega (arith, l))

open_node-first_example :
    open_node none busy_host [] ≡ ((open_path 0, err (os 16)) ∷ (open_path 1, ok 3) ∷ [], ok 3)
unfolding all_busy
open_node-first_example = open_node-first busy_host 1 3 [] (omega arith) zero-Busy refl
