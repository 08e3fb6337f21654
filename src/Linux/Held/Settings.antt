-- ===== src/Linux/Held/Settings.antt =====
-- The operations on the settings close every socket that they open.
use quincy_tun.Base.{ℕ, refl, List, Bool}
use quincy_tun.Host.{◌>>=◌}
use quincy_tun.Net.{Text, IpAddr}
use quincy_tun.Linux.{
  Reply, Io, sys, Deps, DeviceImpl, inet, Field, Query, tungetiff, set, get, get_flags, get_mtu,
  get_metric, get_broadaddr, get_hwaddr, if_nametoindex, tunsetpersist, tunsetowner, tunsetgroup,
}
use quincy_tun.Linux.Settings.{
  with_socket, name_impl, set_field, set_tx_queue_len, tx_queue_len, persist, user, group,
  set_broadcast, broadcast, set_name, is_running, ifru_flags, enabled, mtu_of, set_mtu,
  set_mac_address, mac_address, if_index,
}
use quincy_tun.Linux.Held.{Neutral, pure-Neutral, bind-Neutral, sys-Neutral, with_socket-Neutral}

module _ (deps : Deps) (dev : DeviceImpl) where
  pub name_impl-Neutral : Neutral (name_impl deps dev)
  unfolding name_impl
  name_impl-Neutral =
      bind-Neutral _ _ (sys-Neutral (tungetiff dev.fd) (λ fds r. refl)) (λ n. pure-Neutral _)

  -- A use of a socket under the device's name.
  named-Neutral :
      {A : Type 0} (use_fd : Text → ℕ → Io A)
      → ((n : Text) (s : ℕ) → Neutral (use_fd n s))
      → Neutral (name_impl deps dev >>= λ n. with_socket inet (use_fd n))
  named-Neutral use_fd k =
      bind-Neutral _ _ name_impl-Neutral (λ n. with_socket-Neutral inet (use_fd n) (k n))

  pub set_field-Neutral : (f : Field) → Neutral (set_field deps dev f)
  unfolding set_field
  set_field-Neutral f =
      named-Neutral (λ n s. sys (set s n f)) (λ n s. sys-Neutral (set s n f) (λ fds r. refl))

  -- A request that reads a member, and what is made of it.
  query-Neutral :
      {A : Type 0} (q : Query) (f : (n : Text) → (s : ℕ) → Reply (get s n q) → Io A)
      → ((n : Text) (s : ℕ) (v : Reply (get s n q)) → Neutral (f n s v))
      → Neutral (name_impl deps dev >>= λ n. with_socket inet (λ s. sys (get s n q) >>= f n s))
  query-Neutral q f k =
      named-Neutral (λ n s. sys (get s n q) >>= f n s)
        (λ n s. bind-Neutral _ _ (sys-Neutral (get s n q) (λ fds r. refl)) (k n s))

  ifru_flags-Neutral : Neutral (ifru_flags deps dev)
  unfolding ifru_flags
  ifru_flags-Neutral = with_socket-Neutral inet _ (λ s.
      bind-Neutral _ _ name_impl-Neutral (λ n. sys-Neutral (get s n get_flags) (λ fds r. refl)))

  pub enabled-Neutral : (value : Bool) → Neutral (enabled deps dev value)
  unfolding enabled
  enabled-Neutral value = with_socket-Neutral inet _ (λ s. bind-Neutral _ _ name_impl-Neutral (λ n.
      bind-Neutral _ _ (sys-Neutral (get s n get_flags) (λ fds r. refl))
        (λ f. sys-Neutral (set s n _) (λ fds r. refl))))

  broadcast-Neutral : Neutral (broadcast deps dev)
  unfolding broadcast
  broadcast-Neutral =
      query-Neutral get_broadaddr _
        (λ n s v. bind-Neutral _ _ (pure-Neutral _) (λ a. pure-Neutral _))

  pub if_index-Neutral : Neutral (if_index deps dev)
  unfolding if_index
  if_index-Neutral =
      bind-Neutral _ _ name_impl-Neutral (λ n.
        bind-Neutral _ _ (pure-Neutral _) (λ c. sys-Neutral (if_nametoindex c) (λ fds r. refl)))

  -- Each operation on a setting leaves open the descriptors that were open before, and no other,
  -- whatever the system answers and however the operation ends.
  pub settings-Neutral :
      (n : ℕ) (name : Text) (ip : IpAddr) (mac : List ℕ) (value : Bool)
      → Neutral (set_tx_queue_len deps dev n)
        × Neutral (tx_queue_len deps dev)
        × Neutral (persist deps dev)
        × Neutral (user deps dev n)
        × Neutral (group deps dev n)
        × Neutral (set_broadcast deps dev ip)
        × Neutral (broadcast deps dev)
        × Neutral (set_name deps dev name)
        × Neutral (is_running deps dev)
        × Neutral (enabled deps dev value)
        × Neutral (mtu_of deps dev)
        × Neutral (set_mtu deps dev n)
        × Neutral (set_mac_address deps dev mac)
        × Neutral (mac_address deps dev)
        × Neutral (if_index deps dev)
  unfolding set_tx_queue_len tx_queue_len persist user group set_broadcast set_name is_running
      mtu_of set_mtu set_mac_address mac_address
  settings-Neutral n name ip mac value = (
    set_field-Neutral _,
    query-Neutral get_metric _ (λ n s v. pure-Neutral _),
    sys-Neutral (tunsetpersist dev.fd 1) (λ fds r. refl),
    sys-Neutral (tunsetowner dev.fd n) (λ fds r. refl),
    sys-Neutral (tunsetgroup dev.fd n) (λ fds r. refl),
    set_field-Neutral _,
    broadcast-Neutral,
    bind-Neutral _ _ (pure-Neutral _) (λ c. set_field-Neutral _),
    bind-Neutral _ _ ifru_flags-Neutral (λ f. pure-Neutral _),
    enabled-Neutral value,
    query-Neutral get_mtu _ (λ n s v. pure-Neutral _),
    set_field-Neutral _,
    set_field-Neutral _,
    query-Neutral get_hwaddr _ (λ n s v. pure-Neutral _),
    if_index-Neutral,
  )
