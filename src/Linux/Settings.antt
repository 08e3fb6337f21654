-- ===== src/Linux/Settings.antt =====
-- src/platform/linux/device.rs: the operations that read or change one setting of the device.
-- They run one at a time, since each holds the lock `op_lock`.
use quincy_tun.Base.{
  ℕ, ◌%◌, ◌^◌, List, Bool, true, false, ltb, ◌==◌, if◌then◌else◌, take, ok, err, invalid_data,
  bit_and, bit_or,
}
use quincy_tun.Host.{pure, ◌>>=◌, finally}
use quincy_tun.Net.{Text, IpAddr, v4}
use quincy_tun.Linux.{
  Io, sys, Deps, DeviceImpl, Family, inet, Field, flags, mtu, metric, newname, addr, netmask,
  dstaddr, broadaddr, hwaddr, get_flags, get_mtu, get_metric, get_broadaddr, get_hwaddr, socket,
  close, tunsetpersist, tunsetowner, tunsetgroup, tungetiff, if_nametoindex, set, get,
}
use quincy_tun.Linux.Sockaddr.{
  SocketAddr, socket_addr, try_from, ipaddr_to_sockaddr, overwrite_size,
}
use quincy_tun.Linux.Name.{c_string, checked_name}

-- The socket of `ctl` and `ctl_v6` is dropped after its use.
unfoldable pub with_socket : {A : Type 0} → Family → (ℕ → Io A) → Io A
with_socket family use_fd = sys (socket family) >>= λ s. finally (use_fd s) (sys (close s))

abbrev pub ether_addr_len : ℕ
ether_addr_len = 6

-- `ARPHRD_ETHER`
abbrev pub arphrd_ether : ℕ
arphrd_ether = 1

-- `IFF_UP | IFF_RUNNING`
abbrev pub iff_up_running : ℕ
iff_up_running = bit_or 0x1 0x40

-- `!(IFF_UP as c_short)`, in 16 bits
abbrev pub not_iff_up : ℕ
not_iff_up = 0xFFFE

abbrev pub new_flags : Bool → ℕ → ℕ
new_flags true f = bit_or f iff_up_running
new_flags false f = bit_and f not_iff_up

-- `ip()` of a socket address
abbrev ip_of : SocketAddr → IpAddr
ip_of (socket_addr ip port) = ip

module _ (deps : Deps) (dev : DeviceImpl) where
  -- `name` and `name_impl`
  unfoldable pub name_impl : Io Text
  name_impl = sys (tungetiff dev.fd) >>= λ n. pure (ok (deps.to_string_lossy n))

  -- A request that writes a member, with the name of the device.
  unfoldable pub set_field : Field → Io (Unit {0})
  unfolding name_impl with_socket
  set_field f = name_impl >>= λ n. with_socket inet (λ s. sys (set s n f))

  unfoldable pub set_tx_queue_len : ℕ → Io (Unit {0})
  unfolding set_field
  set_tx_queue_len tx_queue_len = set_field (metric tx_queue_len)

  unfoldable pub tx_queue_len : Io ℕ
  unfolding name_impl with_socket
  tx_queue_len = name_impl >>= λ n.
      with_socket inet (λ s. sys (get s n get_metric) >>= λ v. pure (ok (v % 2 ^ 32)))

  unfoldable pub persist : Io (Unit {0})
  persist = sys (tunsetpersist dev.fd 1)

  unfoldable pub user : ℕ → Io (Unit {0})
  user value = sys (tunsetowner dev.fd value)

  unfoldable pub group : ℕ → Io (Unit {0})
  group value = sys (tunsetgroup dev.fd value)

  unfoldable pub set_address_v4 : ℕ → Io (Unit {0})
  unfolding set_field
  set_address_v4 a = set_field (addr (ipaddr_to_sockaddr (v4 a) 0 overwrite_size))

  unfoldable pub set_netmask : ℕ → Io (Unit {0})
  unfolding set_field
  set_netmask value = set_field (netmask (ipaddr_to_sockaddr (v4 value) 0 overwrite_size))

  unfoldable pub set_destination : ℕ → Io (Unit {0})
  unfolding set_field
  set_destination value = set_field (dstaddr (ipaddr_to_sockaddr (v4 value) 0 overwrite_size))

  unfoldable pub set_broadcast : IpAddr → Io (Unit {0})
  unfolding set_field
  set_broadcast value = set_field (broadaddr (ipaddr_to_sockaddr value 0 overwrite_size))

  unfoldable pub broadcast : Io IpAddr
  unfolding name_impl with_socket
  broadcast = name_impl >>= λ n.
      with_socket inet
        (λ s. sys (get s n get_broadaddr) >>= λ sa. pure (try_from sa) >>= λ a. pure (ok (ip_of a)))

  unfoldable pub set_name : Text → Io (Unit {0})
  unfolding set_field
  set_name value = pure (checked_name value) >>= λ tun_name. set_field (newname tun_name)

  unfoldable pub ifru_flags : Io ℕ
  unfolding name_impl with_socket
  ifru_flags = with_socket inet (λ s. name_impl >>= λ n. sys (get s n get_flags))

  unfoldable pub is_running : Io Bool
  unfolding ifru_flags
  is_running = ifru_flags >>= λ f. pure (ok (bit_and f iff_up_running == iff_up_running))

  unfoldable pub enabled : Bool → Io (Unit {0})
  unfolding name_impl with_socket
  enabled value = with_socket inet (λ s.
      name_impl >>= λ n. sys (get s n get_flags) >>= λ f. sys (set s n (flags (new_flags value f))))

  -- The system's MTU is an `i32`, here by its 32 bits: a negative one is no `u16` either.
  unfoldable pub mtu_of : Io ℕ
  unfolding name_impl with_socket
  mtu_of = name_impl >>= λ n.
      with_socket inet (λ s.
        sys (get s n get_mtu) >>= λ v. pure (if ltb v (2 ^ 16) then ok v else err invalid_data))

  unfoldable pub set_mtu : ℕ → Io (Unit {0})
  unfolding set_field
  set_mtu value = set_field (mtu value)

  unfoldable pub set_mac_address : List ℕ → Io (Unit {0})
  unfolding set_field
  set_mac_address eth_addr = set_field (hwaddr arphrd_ether (take ether_addr_len eth_addr))

  unfoldable pub mac_address : Io (List ℕ)
  unfolding name_impl with_socket
  mac_address = name_impl >>= λ n.
      with_socket inet (λ s. sys (get s n get_hwaddr) >>= λ hw. pure (ok (take ether_addr_len hw)))

  -- `if_index` and `if_index_impl`
  unfoldable pub if_index : Io ℕ
  unfolding name_impl
  if_index = name_impl >>= λ n. pure (c_string n) >>= λ s. sys (if_nametoindex s)
