-- ===== src/Unix/Tun/Vectored.antt =====
-- A packet in several buffers is sent as it would be in one, and comes back as it was sent.
use quincy_tun.Base.{
  ℕ, suc, ◌-◌, ◌<◌, ◌≡◌, refl, ap, ◌∙◌, arith, List, [], ◌∷◌, ◌++◌, Bool, true, false, not, ltb,
  ltb-false, length, drop, Outcome, ok, invalid_input,
}
use quincy_tun.Host.{Host, Event, M, pure, next, ◌>>=◌, ◌>>◌, ensure}
use quincy_tun.Unix.{LibcReply, libc, writev, readv, Fd, max_iov, fd_readv, fd_writev}
use quincy_tun.Unix.Tun.{
  Tun, pil, is_ipv6, generate_packet_information, first_buf, send, send_vectored, recv, Received,
}

unfoldable pub flat : List (List ℕ) → List ℕ
flat [] = []
flat (b ∷ bufs) = b ++ flat bufs

-- The family is read from the first byte of the packet, in whichever buffer that is.
is_ipv6-first_buf : (bufs : List (List ℕ)) → is_ipv6 (first_buf bufs) ≡ is_ipv6 (flat bufs)
unfolding is_ipv6 first_buf flat
is_ipv6-first_buf [] = refl
is_ipv6-first_buf ([] ∷ bufs) = is_ipv6-first_buf bufs
is_ipv6-first_buf ((b ∷ buf) ∷ bufs) = refl

-- One request that writes the buffers behind the packet information, and the length without it.
abbrev pub written : ℕ → Tun → Bool → List (List ℕ) → M LibcReply ℕ
written af_inet6 tun v bufs =
    libc (writev tun.fd.inner (generate_packet_information af_inet6 v ∷ bufs)) >>= λ len.
    pure (ok (len - pil))

-- With the packet information on, a packet that is spread over fewer than 1024 buffers goes out in one
-- request, behind the information that `send` puts before the same packet in one buffer; where the
-- packet is of no IP version, both refuse it before any request.
pub send_vectored-send :
    (af_inet6 : ℕ) (fd : Fd) (bufs : List (List ℕ)) (h : Host LibcReply)
    (log : List (Event LibcReply))
    → length bufs < max_iov
    → let tun : Tun = record { fd = fd; ignore_packet_information = true } in
      (send_vectored af_inet6 tun bufs h log
        ≡ (pure (is_ipv6 (flat bufs)) >>= λ v. written af_inet6 tun v bufs) h log)
      × (send af_inet6 tun (flat bufs) h log
          ≡ (pure (is_ipv6 (flat bufs)) >>= λ v. written af_inet6 tun v (flat bufs ∷ [])) h log)
unfolding send_vectored send fd_writev
send_vectored-send af_inet6 fd bufs h log few =
    let e = is_ipv6-first_buf bufs in
    let all_fit : not (ltb (max_iov - 1) (length bufs)) ≡ true =
      ap not (ltb-false (max_iov - 1) (length bufs) (omega (arith, few))) in
    let fit : not (ltb max_iov (suc (length bufs))) ≡ true =
      ap not (ltb-false max_iov (suc (length bufs)) (omega (arith, few))) in
    let request : Bool → Outcome Bool → List (Event LibcReply) × Outcome ℕ = λ room version.
      (pure version >>= λ v.
      ensure room invalid_input
      >> libc (writev fd.inner (generate_packet_information af_inet6 v ∷ bufs))
      >>= λ len. pure (ok (len - pil)))
        h log in
    let whole : Bool → List (Event LibcReply) × Outcome ℕ = λ c.
      (ensure c invalid_input
          >> (pure (is_ipv6 (first_buf bufs)) >>= λ v.
              fd_writev fd (generate_packet_information af_inet6 v ∷ bufs) >>= λ len.
              pure (ok (len - pil))))
        h log in
    let opened : whole (not (ltb (max_iov - 1) (length bufs))) ≡ whole true = ap whole all_fit in
    let asked : request (not (ltb max_iov (suc (length bufs)))) (is_ipv6 (first_buf bufs))
        ≡ request true (is_ipv6 (first_buf bufs)) =
      ap (λ c. request c (is_ipv6 (first_buf bufs))) fit in
    let read_from : request true (is_ipv6 (first_buf bufs)) ≡ request true (is_ipv6 (flat bufs)) =
      ap (request true) e in
    (opened ∙ asked ∙ read_from, refl)

abbrev pub on : Fd → Tun
on fd = record { fd = fd; ignore_packet_information = true }

four : (n : ℕ) → suc (suc (suc (suc n))) - 4 ≡ n
four n = omega arith

header_len :
    (af_inet6 : ℕ) (v : Bool) (p : List ℕ)
    → length (generate_packet_information af_inet6 v ++ p) - pil ≡ length p
unfolding generate_packet_information
header_len af_inet6 true p = four (length p)
header_len af_inet6 false p = four (length p)

header_drop :
    (af_inet6 : ℕ) (v : Bool) (p : List ℕ)
    → drop pil (generate_packet_information af_inet6 v ++ p) ≡ p
unfolding generate_packet_information
header_drop af_inet6 true p = refl
header_drop af_inet6 false p = refl

abbrev received : ℕ → List ℕ → Outcome Received
received n b = ok (record { count = n; bytes = b })

received_same :
    (p : List ℕ) (n : ℕ) (b : List ℕ) → n ≡ length p → b ≡ p → received n b ≡ received (length p) p
received_same p n b e d = ap (λ k. received k b) e ∙ ap (λ t. received (length p) t) d

-- Where a system hands over what was written to it, a packet of IP version 4 or 6 that is sent in
-- one buffer counts its own bytes, and is received whole, without the packet information.
pub recv-send :
    (af_inet6 : ℕ) (fd : Fd) (packet : List ℕ) (v : Bool) (room : ℕ) (h : Host LibcReply)
    (log log' : List (Event LibcReply))
    → is_ipv6 packet ≡ ok v
    → h log (writev fd.inner (generate_packet_information af_inet6 v ∷ packet ∷ []))
      ≡ ok (length (generate_packet_information af_inet6 v ++ packet))
    → h log' (readv fd.inner (pil ∷ room ∷ []))
      ≡ ok (generate_packet_information af_inet6 v ++ packet)
    → ((send af_inet6 (on fd) packet h log).1 ≡ ok (length packet))
      × ((recv (on fd) room h log').1 ≡ ok (record { count = length packet; bytes = packet }))
unfolding send recv fd_writev fd_readv
recv-send af_inet6 fd packet v room h log log' version sent got =
    let head = generate_packet_information af_inet6 v in
    let log1 =
      log
      ++ (writev fd.inner (head ∷ packet ∷ []), h log (writev fd.inner (head ∷ packet ∷ [])))
        ∷ [] in
    let log2 =
      log' ++ (readv fd.inner (pil ∷ room ∷ []), h log' (readv fd.inner (pil ∷ room ∷ []))) ∷ [] in
    let asked : Outcome Bool → Outcome ℕ = λ x.
      ((pure x >>= λ v.
      fd_writev fd (generate_packet_information af_inet6 v ∷ packet ∷ []) >>= λ len.
      pure (ok (len - pil)))
        h log).1 in
    let counted : Outcome ℕ → Outcome ℕ =
      λ r. (next {Reply = LibcReply} {A = ℕ} {B = ℕ} (λ len. pure (ok (len - pil))) h log1 r).1 in
    let taken : Outcome (List ℕ) → Outcome Received = λ r.
      (next {Reply = LibcReply} {A = List ℕ} {B = Received}
        (λ b. pure (ok (record { count = length b - pil; bytes = drop pil b }))) h log2 r).1 in
    let n = header_len af_inet6 v packet in
    let first : asked (is_ipv6 packet) ≡ counted (h log (writev fd.inner (head ∷ packet ∷ []))) =
      ap asked version in
    (
      first ∙ ap counted sent ∙ ap (λ k. ok k) n,
      ap taken got
          ∙ received_same packet (length (head ++ packet) - pil) (drop pil (head ++ packet)) n
              (header_drop af_inet6 v packet),
    )
