-- ===== src/Windows/Ffi.antt =====
-- src/platform/windows/ffi.rs: the addresses, the default routes, the metric and the MTU of an interface.
-- The calls of the IP helper API are requests; most are answered by a code, of which 0 is a success. What
-- the code sets in a row is in the request, and what it leaves at the system's default is not.
pub mod Tables
pub mod Replace
pub mod Clear
pub mod Add
pub mod Set
use quincy_tun.Base.{
  ℕ, List, [], ◌∷◌, Bool, true, false, ◌&&◌, ◌==◌, if◌then◌else◌, Option, none, some, Outcome, ok,
  err, panic, os, other,
}
use quincy_tun.Host.{Event, Host, M, call, pure, next, ◌>>=◌}
use quincy_tun.Net.{IpAddr, v4, v6}
use quincy_tun.Linux.{IpNet}
use quincy_tun.Linux.Addresses.{is_ipv4, eq_ip}

-- Of a `MIB_UNICASTIPADDRESS_ROW`, and of a `MIB_IPFORWARD_ROW2` the interface, the destination and the
-- next hop.
pub record AddressRow : Type 0 where
  pub interface_index : ℕ
  pub address : IpAddr
  pub on_link_prefix_length : ℕ

pub record RouteRow : Type 0 where
  pub interface_index : ℕ
  pub prefix : IpAddr
  pub prefix_length : ℕ
  pub next_hop : IpAddr

-- Of a `MIB_IPINTERFACE_ROW`.
pub record InterfaceRow : Type 0 where
  pub interface_index : ℕ
  pub nl_mtu : ℕ
  pub metric : ℕ
  pub use_automatic_metric : Bool
  pub site_prefix_length : ℕ

-- Of an `Interface` of `getifaddrs`.
pub record Interface : Type 0 where
  pub index : Option ℕ
  pub ip_addr : Option IpAddr

-- A family is given by whether it is IPv4.
pub data Api : Type 0 where
  get_unicast_table get_forward_table get_interface_table : Bool → Api
  free_mib_table : Api
  create_unicast : AddressRow → Api
  delete_unicast : ℕ → IpAddr → Api
  create_forward delete_forward : RouteRow → Api
  get_interface_entry : Bool → ℕ → Api
  set_interface_entry : Bool → InterfaceRow → Api
  get_last_error : Api
  -- the crates `netconfig_rs` and `getifaddrs`
  try_from_index : ℕ → Api
  net_add_address : ℕ → IpNet → Api
  getifaddrs : Api

abbrev pub ApiReply : Api → Type 0
ApiReply (get_unicast_table v) = ℕ × List AddressRow
ApiReply (get_forward_table v) = ℕ × List RouteRow
ApiReply (get_interface_table v) = ℕ × List InterfaceRow
ApiReply free_mib_table = Unit
ApiReply (get_interface_entry v index) = ℕ × InterfaceRow
ApiReply (net_add_address interface net) = Unit
ApiReply getifaddrs = List Interface
ApiReply _ = ℕ

abbrev pub Ip : Type 0 → Type 0
Ip A = M ApiReply A

abbrev pub api : (c : Api) → Ip (ApiReply c)
api c = call ApiReply c

unfoldable pub win_result : ℕ → Outcome (Unit {0})
win_result code = if code == 0 then ok tt else err (os code)

-- The value beside a code.
abbrev pub beside : {A : Type 0} → Outcome (Unit {0}) → A → Outcome A
beside (ok u) a = ok a
beside (err e) a = err e
beside panic a = panic

abbrev pub with_code : {A : Type 0} → ℕ × A → Outcome A
with_code (code, a) = beside (win_result code) a

-- `ERROR_OBJECT_ALREADY_EXISTS`
abbrev pub created : ℕ → Outcome (Unit {0})
created code = if code == 5010 then ok tt else win_result code

unfoldable pub filter : {A : Type 0} → (A → Bool) → List A → List A
filter test [] = []
filter test (x ∷ xs) = let rest = filter test xs in if test x then x ∷ rest else rest

abbrev pub eqb : Bool → Bool → Bool
eqb true b = b
eqb false true = false
eqb false false = true

-- The rows of the family and of the interface; of the routes those of length 0.
abbrev pub own_address : ℕ → Bool → AddressRow → Bool
own_address index is_v4 row = (row.interface_index == index) && eqb (is_ipv4 row.address) is_v4

abbrev pub own_default : ℕ → Bool → RouteRow → Bool
own_default index is_v4 row =
    (row.interface_index == index) && ((row.prefix_length == 0) && eqb (is_ipv4 row.prefix) is_v4)

abbrev pub of_index : ℕ → AddressRow → Bool
of_index index row = row.interface_index == index

abbrev pub default_of_index : ℕ → RouteRow → Bool
default_of_index index row = (row.interface_index == index) && (row.prefix_length == 0)

-- Rows are deleted one by one, until one cannot be.
unfoldable pub delete_each : {A : Type 0} → (A → Ip ℕ) → List A → Ip (Unit {0})
delete_each delete [] = pure (ok tt)
delete_each delete (row ∷ rows) =
    delete row >>= λ code. pure (win_result code) >>= λ _. delete_each delete rows

abbrev pub delete_address : AddressRow → Ip ℕ
delete_address row = api (delete_unicast row.interface_index row.address)

abbrev pub delete_route : RouteRow → Ip ℕ
delete_route row = api (delete_forward row)

-- The rows of a table that the system gives, of which those that `pick` chooses are deleted. The table is
-- freed before.
unfoldable pub clear_table :
    {A : Type 0} → Ip (ℕ × List A) → (A → Bool) → (A → Ip ℕ) → Ip (Unit {0})
unfolding delete_each filter
clear_table get_table pick delete = get_table >>= λ t. pure (with_code t) >>= λ table.
    api free_mib_table >>= λ _. delete_each delete (filter pick table)

unfoldable pub clear_default_routes : ℕ → Bool → Ip (Unit {0})
unfolding clear_table
clear_default_routes index is_v4 =
    clear_table (api (get_forward_table is_v4)) (default_of_index index) delete_route

unfoldable pub clear_addresses : ℕ → Bool → Ip (Unit {0})
unfolding clear_table clear_default_routes
clear_addresses index is_v4 =
    clear_table (api (get_unicast_table is_v4)) (of_index index) delete_address >>= λ _.
    clear_default_routes index is_v4

-- `0.0.0.0` or `::`
abbrev pub unspecified : IpAddr → IpAddr
unspecified gateway = if is_ipv4 gateway then v4 0 else v6 0

abbrev pub address_row : ℕ → IpAddr → ℕ → AddressRow
address_row index address prefix = record {
  interface_index = index;
  address = address;
  on_link_prefix_length = prefix;
}

abbrev pub gateway_row : ℕ → IpAddr → RouteRow
gateway_row index gateway = record {
  interface_index = index;
  prefix = unspecified gateway;
  prefix_length = 0;
  next_hop = gateway;
}

-- An entry that is there already is no error.
abbrev pub create_address : AddressRow → Ip (Unit {0})
create_address row = api (create_unicast row) >>= λ code. pure (created code)

abbrev pub create_route : RouteRow → Ip (Unit {0})
create_route row = api (create_forward row) >>= λ code. pure (created code)

unfoldable pub add_gateway : ℕ → Option IpAddr → Ip (Unit {0})
add_gateway index none = pure (ok tt)
add_gateway index (some gateway) = create_route (gateway_row index gateway)

unfoldable pub add_address : ℕ → IpAddr → ℕ → Option IpAddr → Ip (Unit {0})
unfolding add_gateway
add_address index address prefix gateway =
    create_address (address_row index address prefix) >>= λ _. add_gateway index gateway

unfoldable pub set_address : ℕ → IpAddr → ℕ → Option IpAddr → Ip (Unit {0})
unfolding clear_addresses add_address
set_address index address prefix gateway =
    clear_addresses index (is_ipv4 address) >>= λ _. add_address index address prefix gateway

unfoldable pub remove_address : ℕ → IpAddr → Ip (Unit {0})
remove_address index address = api (delete_unicast index address) >>= λ code. pure (win_result code)

-- A row is read, changed and written back, for one family.
unfoldable pub change_entry : ℕ → (InterfaceRow → InterfaceRow) → Bool → Ip (Unit {0})
change_entry index change is_v4 = api (get_interface_entry is_v4 index) >>= λ t.
    pure (with_code t) >>= λ row.
    api (set_interface_entry is_v4 (change row)) >>= λ code. pure (win_result code)

unfoldable pub set_interface_metric : ℕ → ℕ → Ip (Unit {0})
unfolding change_entry
set_interface_metric index metric =
    let change : InterfaceRow → InterfaceRow =
      λ row. record row { metric = metric; use_automatic_metric = false; site_prefix_length = 0 } in
    change_entry index change true >>= λ _. change_entry index change false

unfoldable pub set_interface_mtu : ℕ → ℕ → Bool → Ip (Unit {0})
unfolding change_entry
set_interface_mtu index mtu is_v4 =
    change_entry index (λ row. record row { nl_mtu = mtu; site_prefix_length = 0 }) is_v4

-- The MTU of the first row of the interface. `NotFound` is one of the other errors.
unfoldable pub mtu_in : ℕ → List InterfaceRow → Outcome ℕ
mtu_in index [] = err other
mtu_in index (row ∷ rows) =
    let rest = mtu_in index rows in if row.interface_index == index then ok row.nl_mtu else rest

unfoldable pub get_mtu_by_index : ℕ → Bool → Ip ℕ
unfolding mtu_in
get_mtu_by_index index is_v4 = api (get_interface_table is_v4) >>= λ t.
    if t.0 == 0
    then (api free_mib_table >>= λ _. pure (mtu_in index t.1))
    else (api get_last_error >>= λ e. pure (err (os e)))
