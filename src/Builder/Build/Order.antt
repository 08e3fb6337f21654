-- ===== src/Builder/Build/Order.antt =====
-- The settings that a device is given, in order: what is seen of the requests.
pub mod Device
pub mod Open
use quincy_tun.Base.{
  ℕ, zero, suc, ◌+◌, ◌*◌, ◌%◌, ◌/◌, ◌<◌, ◌≡◌, refl, sym, ap, ◌∙◌, List, [], ◌∷◌, ◌++◌, Bool, true,
  false, if◌then◌else◌, ◌==◌, ==_iff, Option, none, some, Outcome, ok, err, panic, bit_and, bit_or,
  max, min, arith,
}
use Prim.Native.Nat.{bit_or-bitwise, bit_and-bitwise, digits}
use quincy_tun.Host.{Host, Event, M, call, pure, next, ◌>>=◌}
use quincy_tun.Host.Laws.{
  View, call-Idle, Follows, pure-Follows, fail-Follows, call-Follows, bind-Follows, after-Follows,
  finally-Follows, attempt-Follows,
}
use quincy_tun.Net.{IpAddr, v4, Address, Mask, prefix_len, prefix, ipv4}
use quincy_tun.Linux.{
  exists, create_dir_all, mknod, open_tun, tunsetiff, tunsetoffload, getifaddrs, Sys, IpNet,
  net_remove_address, net_addresses, try_from_index, if_nametoindex, Reply, Io, sys, Deps,
  DeviceImpl, Field, flags, mtu, dstaddr, Family, inet, inet6, set, get, get_flags, socket, close,
  tungetiff, siocsifaddr_in6,
}
use quincy_tun.Linux.Sockaddr.{ipaddr_to_sockaddr, overwrite_size}
use quincy_tun.Linux.Settings.{
  with_socket, name_impl, set_field, if_index, set_address_v4, set_netmask, set_destination,
  set_mtu, enabled, new_flags,
}
use quincy_tun.Linux.Addresses.{
  remove_where, remove_all_address_v4, destination_set, set_network_address, add_address_v6,
}
use quincy_tun.Builder.Plan.{Plans, planned, planned-Follows, Obeys}
use quincy_tun.Builder.Build.{as_addresses}

-- A member of the request written, an IPv6 address added, the device switched on or off, or any other
-- request that changes the device.
pub data Setting : Type 0 where
  member : Field → Setting
  in6 : ℕ → ℕ → Setting
  switched : Bool → Setting
  other : Sys → Setting

-- `IFF_UP` is the lowest of the flags.
abbrev pub setting : Field → Setting
setting (flags f) = switched (f % 2 == 1)
setting f = member f

-- All requests but those that open, close, read, negotiate the offloads or remove an address.
abbrev pub shown : Event Reply → List (Outcome Setting)
shown (set fd name f, r) = ok (setting f) ∷ []
shown (siocsifaddr_in6 fd i len a, r) = ok (in6 a len) ∷ []
shown (exists, r) = []
shown (create_dir_all, r) = []
shown (mknod, r) = []
shown (open_tun, r) = []
shown (socket f, r) = []
shown (close fd, r) = []
shown (tunsetiff fd name f, r) = []
shown (tunsetoffload fd n, r) = []
shown (tungetiff fd, r) = []
shown (if_nametoindex name, r) = []
shown (get fd name q, r) = []
shown (try_from_index i, r) = []
shown (net_addresses i, r) = []
shown (net_remove_address i x, r) = []
shown (getifaddrs, r) = []
shown (c, r) = ok (other c) ∷ []

-- A setting has to succeed.
abbrev pub is_setting : Sys → Bool
is_setting (set fd name f) = true
is_setting (siocsifaddr_in6 fd i len a) = true
is_setting _ = false

abbrev pub view : View Reply (Outcome Setting)
view = record { shows = shown; must = is_setting }

low_bit : (n x : ℕ) → (n * 2 + x) % 2 ≡ x % 2
low_bit n x = omega arith

max_one : (x : ℕ) → max (x % 2) 1 % 2 ≡ 1
max_one x = omega arith

min_zero : (x : ℕ) → min x 0 % 2 ≡ 0
min_zero x = omega arith

-- Setting a number with an odd one makes it odd, and keeping the bits of an even one makes it even.
bit_or-odd : (a b : ℕ) → b % 2 ≡ 1 → bit_or a b % 2 ≡ 1
bit_or-odd zero b h = rw (bit_or-bitwise zero b) h
bit_or-odd (suc a) b h = rw (bit_or-bitwise (suc a) b) (
    low_bit (digits (λ x. x) max a (suc a / 2) (b / 2)) (max (suc a % 2) (b % 2))
    ∙ ap (λ t. max (suc a % 2) t % 2) h
    ∙ max_one (suc a))

bit_and-even : (a b : ℕ) → b % 2 ≡ 0 → bit_and a b % 2 ≡ 0
bit_and-even zero b h = rw (bit_and-bitwise zero b) refl
bit_and-even (suc a) b h = rw (bit_and-bitwise (suc a) b) (
    low_bit (digits (λ x. 0) min a (suc a / 2) (b / 2)) (min (suc a % 2) (b % 2))
    ∙ ap (λ t. min (suc a % 2) t % 2) h
    ∙ min_zero (suc a % 2))

new_flags-up : (value : Bool) (f : ℕ) → (new_flags value f % 2 == 1) ≡ value
new_flags-up true f = rw (bit_or-odd f 65 refl) refl
new_flags-up false f = rw (bit_and-even f 0xFFFE refl) refl

module _ (deps : Deps) (dev : DeviceImpl) where
  pub name_impl-Follows : Follows view [] (name_impl deps dev)
  unfolding name_impl
  name_impl-Follows =
      after-Follows view _ _ (call-Follows view (tungetiff dev.fd) [] (λ r. refl))
        (λ n. pure-Follows view (ok (deps.to_string_lossy n)))

  pub with_socket-Follows :
      {A : Type 0} {p : List (Outcome Setting)} (f : Family) (use_fd : ℕ → Io A)
      → ((s : ℕ) → Follows view p (use_fd s))
      → Follows view p (with_socket f use_fd)
  unfolding with_socket
  with_socket-Follows f use_fd k =
      after-Follows view _ _ (call-Follows view (socket f) [] (λ r. refl))
        (λ s. finally-Follows view _ _ (k s) (call-Idle view (close s) (λ r. refl) refl))

  pub set_field-Follows : (f : Field) → Follows view (ok (setting f) ∷ []) (set_field deps dev f)
  unfolding set_field
  set_field-Follows f = after-Follows view _ _ name_impl-Follows (λ n.
      with_socket-Follows inet _
        (λ s. call-Follows view (set s n f) (ok (setting f) ∷ []) (λ r. refl)))

  pub enabled-Follows :
      (value : Bool) → Follows view (ok (switched value) ∷ []) (enabled deps dev value)
  unfolding enabled
  enabled-Follows value = with_socket-Follows inet _ (λ s.
      after-Follows view _ _ name_impl-Follows (λ n.
        after-Follows view _ _ (call-Follows view (get s n get_flags) [] (λ r. refl)) (λ f.
          call-Follows view (set s n (flags (new_flags value f))) _
            (λ r. ap (λ u. ok (switched u) ∷ []) (new_flags-up value f)))))
