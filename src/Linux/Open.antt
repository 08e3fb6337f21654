-- ===== src/Linux/Open.antt =====
-- src/platform/linux/device.rs, `DeviceImpl::new`: the device is opened and its offloads are set.
pub mod Results
use quincy_tun.Base.{
  ℕ, zero, suc, ◌+◌, ◌<◌, ◌≡◌, refl, List, [], ◌∷◌, Bool, true, false, ltb, ◌==◌, if◌then◌else◌,
  ◌||◌, Option, none, some, Outcome, ok, err, panic, invalid_input, bit_or, length,
}
use quincy_tun.Host.{Host, Event, M, call, pure, next, ◌>>=◌, ◌>>◌, attempt}
use quincy_tun.Net.{Text}
use quincy_tun.Linux.Name.{config_name}
use quincy_tun.Linux.{
  Sys, exists, create_dir_all, mknod, open_tun, close, tunsetiff, tunsetoffload, Reply, Io, sys,
  DeviceImpl,
}

-- The part of `DeviceConfig` that Linux has.
pub record DeviceConfig : Type 0 where
  pub dev_name : Option Text
  pub packet_information : Option Bool
  pub offload : Option Bool

abbrev pub unwrap_or {ℓ} : {A : Type ℓ} → Option A → A → A
unwrap_or none a = a
unwrap_or (some b) a = b

unfoldable pub create_node_if : Outcome Bool → Io (Unit {0})
create_node_if (ok false) =
    attempt (sys create_dir_all) >>= λ _. attempt (sys mknod) >>= λ _. pure (ok tt)
create_node_if _ = pure (ok tt)

-- The device node is made where it is missing, and no error of that counts.
unfoldable pub create_node : Io (Unit {0})
unfolding create_node_if
create_node = attempt (sys exists) >>= create_node_if

-- `IFF_TUN`, `IFF_NO_PI` and `IFF_VNET_HDR`
unfoldable pub device_flags : Bool → Bool → ℕ
device_flags packet_information offload =
    bit_or (bit_or 0x0001 (if packet_information then 0 else 0x1000))
      (if offload then 0x4000 else 0)

-- `TUN_F_CSUM`, `TUN_F_TSO4` and `TUN_F_TSO6`, then `TUN_F_USO4` and `TUN_F_USO6`
abbrev pub tun_tcp_offloads : ℕ
tun_tcp_offloads = bit_or (bit_or 0x01 0x02) 0x04

abbrev pub tun_udp_offloads : ℕ
tun_udp_offloads = bit_or 0x20 0x40

abbrev pub is_ok : {A : Type 0} → Outcome A → Bool
is_ok (ok a) = true
is_ok (err e) = false
is_ok panic = false

-- The pair `(vnet_hdr, udp_gso)`.
unfoldable pub tcp_answer : ℕ → Outcome (Unit {0}) → Io (Bool × Bool)
tcp_answer fd (ok u) =
    attempt (sys (tunsetoffload fd (bit_or tun_tcp_offloads tun_udp_offloads))) >>= λ rs.
    pure (ok (true, is_ok rs))
tcp_answer fd _ = pure (ok (false, false))

unfoldable pub offloads : ℕ → Bool → Io (Bool × Bool)
unfolding tcp_answer
offloads fd true = attempt (sys (tunsetoffload fd tun_tcp_offloads)) >>= tcp_answer fd
offloads fd false = attempt (sys (tunsetoffload fd 0)) >>= λ _. pure (ok (false, false))

-- A descriptor is dropped where an error ends the function that holds it.
abbrev pub drop_on_err : {A : Type 0} → ℕ → Outcome A → Io A
drop_on_err fd (ok a) = pure (ok a)
drop_on_err fd (err e) = attempt (sys (close fd)) >>= λ _. pure (err e)
drop_on_err fd panic = attempt (sys (close fd)) >>= λ _. pure panic

unfoldable pub open_fd : Text → ℕ → Io ℕ
open_fd name flags = sys open_tun >>= λ fd.
    attempt (sys (tunsetiff fd name flags)) >>= λ set_r. drop_on_err fd set_r >>= λ _. pure (ok fd)

unfoldable pub new : DeviceConfig → Io DeviceImpl
unfolding create_node open_fd offloads
new config =
    let packet_information = unwrap_or config.packet_information false in
    let offload = unwrap_or config.offload false in
    pure (config_name config.dev_name) >>= λ name. create_node >>= λ _.
    open_fd (unwrap_or name []) (device_flags packet_information offload) >>= λ fd.
    offloads fd offload >>= λ o. pure (ok (record { fd = fd; vnet_hdr = o.0; udp_gso = o.1 }))
