-- ===== src/Linux/Sockaddr.antt =====
-- src/platform/unix/sockaddr.rs on Linux: the bytes of a socket address, and back.
-- The numbers of the host's own order are little-endian; an address and a port have the highest
-- byte first.
use quincy_tun.Base.{
  ℕ, zero, suc, ◌+◌, ◌*◌, ◌/◌, ◌%◌, ◌^◌, ◌<◌, ◌≡◌, refl, ap, ◌∙◌, List, [], ◌∷◌, ◌++◌, Option, none,
  some, take, drop, get_or, get16, be16, arith, ◌==◌, if◌then◌else◌, min, Outcome, ok, err,
  invalid_input,
}
use quincy_tun.Net.{IpAddr, v4, v6}

-- `octets`, and the number that they spell.
abbrev pub octets : ℕ → ℕ → List ℕ
octets zero v = []
octets (suc n) v = octets n (v / 256) ++ v % 256 ∷ []

abbrev pub from_octets : ℕ → List ℕ → ℕ
from_octets high [] = high
from_octets high (b ∷ bytes) = from_octets (high * 256 + b) bytes

abbrev zeros : ℕ → List ℕ
zeros zero = []
zeros (suc n) = 0 ∷ zeros n

pub data SocketAddr : Type 0 where
  socket_addr : IpAddr → ℕ → SocketAddr

-- `AF_INET`, `AF_INET6`
abbrev pub af_inet : ℕ
af_inet = 2

abbrev pub af_inet6 : ℕ
af_inet6 = 10

-- The 128 bytes of a `sockaddr_union`: the family, the port, and for IPv6 four bytes of flow
-- information, then the address.
unfoldable pub rs_addr_to_sockaddr : SocketAddr → List ℕ
rs_addr_to_sockaddr (socket_addr (v4 ip) port) =
    (af_inet ∷ 0 ∷ be16 port) ++ octets 4 ip ++ zeros 120
rs_addr_to_sockaddr (socket_addr (v6 ip) port) =
    (af_inet6 ∷ 0 ∷ be16 port) ++ zeros 4 ++ octets 16 ip ++ zeros 104

abbrev ss_family : List ℕ → ℕ
ss_family sa = get_or sa 0 0 + 256 * get_or sa 1 0

unfoldable pub sockaddr_to_rs_addr : List ℕ → Option SocketAddr
sockaddr_to_rs_addr sa =
    if ss_family sa == af_inet
    then some (socket_addr (v4 (from_octets 0 (take 4 (drop 4 sa)))) (get16 sa 2))
    else if ss_family sa == af_inet6
    then some (socket_addr (v6 (from_octets 0 (take 16 (drop 8 sa)))) (get16 sa 2))
    else none

-- `TryFrom<sockaddr_union> for SocketAddr`
unfoldable pub try_from : List ℕ → Outcome SocketAddr
try_from sa = elim (sockaddr_to_rs_addr sa) [ some a ↦ ok a | none ↦ err invalid_input ]

-- `OVERWRITE_SIZE`, the size of the union of an `ifreq`
abbrev pub overwrite_size : ℕ
overwrite_size = 24

-- What `ipaddr_to_sockaddr` writes: `size` bytes, and no more than the union has.
unfoldable pub ipaddr_to_sockaddr : IpAddr → ℕ → ℕ → List ℕ
ipaddr_to_sockaddr src_addr src_port size =
    take (min size 128) (rs_addr_to_sockaddr (socket_addr src_addr src_port))

from_octets-snoc :
    (bytes : List ℕ) (high b : ℕ)
    → from_octets high (bytes ++ b ∷ []) ≡ from_octets high bytes * 256 + b
from_octets-snoc [] high b = refl
from_octets-snoc (c ∷ bytes) high b = from_octets-snoc bytes (high * 256 + c) b

from_octets-octets : (n v : ℕ) → v < 256 ^ n → from_octets 0 (octets n v) ≡ v
from_octets-octets zero v h = omega arith
from_octets-octets (suc n) v h =
    let less : v / 256 < 256 ^ n = omega arith in
    let ih = from_octets-octets n (v / 256) less in
    let e = from_octets-snoc (octets n (v / 256)) 0 (v % 256) in e ∙ omega (arith, ih)

-- An address of its family, and a port, in their range.
abbrev pub IsSocketAddr : SocketAddr → Type 0
IsSocketAddr (socket_addr (v4 ip) port) = (ip < 2 ^ 32) × (port < 2 ^ 16)
IsSocketAddr (socket_addr (v6 ip) port) = (ip < 2 ^ 128) × (port < 2 ^ 16)

port_lem : (p : ℕ) → p < 2 ^ 16 → p / 256 % 256 * 256 + p % 256 ≡ p
port_lem p h = omega arith

-- An address and a port in their range come back from the bytes of the union, and so they do from
-- the 24 bytes of it that fit in a request.
pub sockaddr_to_rs_addr-ipaddr_to_sockaddr :
    (ip : IpAddr) (port : ℕ)
    → IsSocketAddr (socket_addr ip port)
    → (sockaddr_to_rs_addr (rs_addr_to_sockaddr (socket_addr ip port)) ≡ some (socket_addr ip port))
      × (sockaddr_to_rs_addr (ipaddr_to_sockaddr ip port overwrite_size)
          ≡ some (socket_addr ip port))
unfolding sockaddr_to_rs_addr rs_addr_to_sockaddr ipaddr_to_sockaddr
sockaddr_to_rs_addr-ipaddr_to_sockaddr (v4 ip) port h =
    let e = from_octets-octets 4 ip h.0 in
    let q = port_lem port h.1 in
    let whole =
      ap (λ x. some (socket_addr (v4 x) (port / 256 % 256 * 256 + port % 256))) e
      ∙ ap (λ x. some (socket_addr (v4 ip) x)) q in
    (whole, whole)
sockaddr_to_rs_addr-ipaddr_to_sockaddr (v6 ip) port h =
    let e = from_octets-octets 16 ip h.0 in
    let q = port_lem port h.1 in
    let whole =
      ap (λ x. some (socket_addr (v6 x) (port / 256 % 256 * 256 + port % 256))) e
      ∙ ap (λ x. some (socket_addr (v6 ip) x)) q in
    (whole, whole)
