-- ===== src/Linux.antt =====
-- src/platform/linux/device.rs, the configuration of a device, with linux/sys.rs and the sockets and
-- names of src/platform/unix/device.rs: the requests to the system, in the order of the code.
-- A file descriptor that the code holds is closed by an explicit call, where the code drops it.
pub mod Sockaddr
pub mod Name
pub mod Open
pub mod Settings
pub mod Addresses
pub mod Held
use quincy_tun.Base.{ℕ, ◌+◌, List, [], ◌∷◌, Bool, Option, Outcome, ok, err, panic}
use quincy_tun.Host.{Event, Host, M, call, next}
use quincy_tun.Net.{Text, IpAddr, Parsers}

-- The members of the union of an `ifreq` that a request writes. The request is that of the member.
pub data Field : Type 0 where
  flags mtu metric : ℕ → Field
  newname : Text → Field
  addr netmask dstaddr broadaddr : List ℕ → Field
  hwaddr : ℕ → List ℕ → Field

-- The members that a request reads.
pub data Query : Type 0 where
  get_flags get_mtu get_metric get_broadaddr get_hwaddr : Query

pub data Family : Type 0 where
  inet inet6 : Family

-- An address and the length of its prefix, the crate `ipnet`.
pub data IpNet : Type 0 where
  ip_net : IpAddr → ℕ → IpNet

-- An address of an interface, the crate `getifaddrs`.
pub record IfAddr : Type 0 where
  pub name : Text
  pub ip_addr : Option IpAddr
  pub netmask : Option IpAddr

-- The requests: files, sockets, the TUN driver, the interface, and the crates `netconfig_rs` and
-- `getifaddrs`.
pub data Sys : Type 0 where
  exists create_dir_all mknod open_tun : Sys
  socket : Family → Sys
  close : ℕ → Sys
  tunsetiff : ℕ → Text → ℕ → Sys
  tunsetoffload tunsetpersist tunsetowner tunsetgroup : ℕ → ℕ → Sys
  tungetiff : ℕ → Sys
  if_nametoindex : Text → Sys
  set : ℕ → Text → Field → Sys
  get : ℕ → Text → Query → Sys
  siocsifaddr_in6 siocdifaddr_in6 : ℕ → ℕ → ℕ → ℕ → Sys
  try_from_index : ℕ → Sys
  net_addresses : ℕ → Sys
  net_remove_address net_add_address : ℕ → IpNet → Sys
  getifaddrs : Sys

abbrev QueryReply : Query → Type 0
QueryReply get_broadaddr = List ℕ
QueryReply get_hwaddr = List ℕ
QueryReply _ = ℕ

abbrev pub Reply : Sys → Type 0
Reply exists = Bool
Reply open_tun = ℕ
Reply (socket f) = ℕ
Reply (tungetiff fd) = Text
Reply (if_nametoindex name) = ℕ
Reply (get fd name q) = QueryReply q
Reply (try_from_index i) = ℕ
Reply (net_addresses i) = List IpNet
Reply getifaddrs = List IfAddr
Reply _ = Unit

abbrev pub Io : Type 0 → Type 0
Io A = M Reply A

abbrev pub sys : (c : Sys) → Io (Reply c)
sys c = call Reply c

-- What the code takes from the standard library and from `ipnet`.
pub record Deps : Type 0 where
  pub parsers : Parsers
  pub to_string_lossy : Text → Text
  pub new_assert : IpAddr → ℕ → Outcome IpNet
  pub ip_mask_to_prefix : IpAddr → Option ℕ

-- The device: its descriptor, and the offloads that the driver accepted.
pub record DeviceImpl : Type 0 where
  pub fd : ℕ
  pub vnet_hdr : Bool
  pub udp_gso : Bool
