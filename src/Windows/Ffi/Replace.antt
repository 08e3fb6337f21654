-- ===== src/Windows/Ffi/Replace.antt =====
-- `set_address` replaces the addresses of an interface, as a view of the system's tables shows.
use quincy_tun.Base.{
  ℕ, ◌≡◌, refl, arith, List, [], ◌∷◌, ◌++◌, Bool, true, ◌&&◌, ◌==◌, ==_iff, if◌then◌else◌, ok,
}
use quincy_tun.Host.{Event, Host}
use quincy_tun.Host.Runs.{state}
use quincy_tun.Net.{IpAddr, v4, v6}
use quincy_tun.Linux.Addresses.{is_ipv4, eq_ip}
use quincy_tun.Windows.Ffi.{
  AddressRow, RouteRow, get_unicast_table, get_forward_table, create_unicast, delete_unicast,
  create_forward, delete_forward, ApiReply, filter, eqb, own_address, own_default, of_index,
  default_of_index, address_row,
}
use quincy_tun.Windows.Ffi.Tables.{any_same, dropped}

-- The unicast addresses, and the default routes, of all interfaces.
pub record Tables : Type 0 where
  pub addresses : List AddressRow
  pub routes : List RouteRow

abbrev pub same_address : AddressRow → AddressRow → Bool
same_address d x = (d.interface_index == x.interface_index) && eq_ip d.address x.address

abbrev pub same_route : RouteRow → RouteRow → Bool
same_route d x =
    (d.interface_index == x.interface_index)
    && (eq_ip d.prefix x.prefix
        && ((d.prefix_length == x.prefix_length) && eq_ip d.next_hop x.next_hop))

-- The key of a row to delete.
abbrev pub key : ℕ → IpAddr → AddressRow
key index address = address_row index address 0

-- What a call does to the tables: a creation adds a row, a deletion removes what has its key.
abbrev pub effect : Tables → Event ApiReply → Tables
effect t (create_unicast row, ok code) = record t {
  addresses = if code == 0 then t.addresses ++ row ∷ [] else t.addresses;
}
effect t (delete_unicast index address, ok code) = record t {
  addresses =
      if code == 0 then dropped same_address (key index address) t.addresses else t.addresses;
}
effect t (create_forward row, ok code) = record t {
  routes = if code == 0 then t.routes ++ row ∷ [] else t.routes;
}
effect t (delete_forward row, ok code) = record t {
  routes = if code == 0 then dropped same_route row t.routes else t.routes;
}
effect t _ = t

module _ (start : Tables) where
  abbrev pub view : List (Event ApiReply) → Tables
  view log = state effect start log

  -- The tables that the system gives show what is there, and nothing is refused as being there that is
  -- not.
  pub record Truthful (h : Host ApiReply) : Type 0 where
    pub lists_addresses :
        (log : List (Event ApiReply)) (v : Bool) (rows : List AddressRow) (index : ℕ)
        → h log (get_unicast_table v) ≡ ok (0, rows)
        → filter (of_index index) rows ≡ filter (own_address index v) (view log).addresses
    pub lists_routes :
        (log : List (Event ApiReply)) (v : Bool) (rows : List RouteRow) (index : ℕ)
        → h log (get_forward_table v) ≡ ok (0, rows)
        → filter (default_of_index index) rows ≡ filter (own_default index v) (view log).routes
    pub knows_address :
        (log : List (Event ApiReply)) (row : AddressRow)
        → h log (create_unicast row) ≡ ok 5010
        → any_same same_address (view log).addresses row ≡ true
    pub knows_route :
        (log : List (Event ApiReply)) (row : RouteRow)
        → h log (create_forward row) ≡ ok 5010
        → any_same same_route (view log).routes row ≡ true

-- Of two rows with one key, both are of the interface and family or neither is.
pub address_compat :
    (index i j : ℕ) (v : Bool) (a b : IpAddr)
    → ((i == j) && eq_ip a b) ≡ true
    → ((i == index) && eqb (is_ipv4 a) v) ≡ ((j == index) && eqb (is_ipv4 b) v)
address_compat index i j v (v4 a) (v4 b) e = ground arith
address_compat index i j v (v4 a) (v6 b) e = ground arith
address_compat index i j v (v6 a) (v4 b) e = ground arith
address_compat index i j v (v6 a) (v6 b) e = ground arith

eq_ip_refl : (a : IpAddr) → eq_ip a a ≡ true
eq_ip_refl (v4 a) = (==_iff a a).1 refl
eq_ip_refl (v6 a) = (==_iff a a).1 refl

pub same_address_refl : (x : AddressRow) → same_address x x ≡ true
same_address_refl x =
    simp ((==_iff x.interface_index x.interface_index).1 refl, eq_ip_refl x.address) refl

pub same_route_refl : (x : RouteRow) → same_route x x ≡ true
same_route_refl x =
    simp
      (
        (==_iff x.interface_index x.interface_index).1 refl,
        eq_ip_refl x.prefix,
        (==_iff x.prefix_length x.prefix_length).1 refl,
        eq_ip_refl x.next_hop,
      )
      refl

pub route_compat :
    (index i j m n : ℕ) (v : Bool) (a b c d : IpAddr)
    → ((i == j) && (eq_ip a b && ((m == n) && eq_ip c d))) ≡ true
    → ((i == index) && ((m == 0) && eqb (is_ipv4 a) v))
      ≡ ((j == index) && ((n == 0) && eqb (is_ipv4 b) v))
route_compat index i j m n v (v4 a) (v4 b) c d e = ground arith
route_compat index i j m n v (v4 a) (v6 b) c d e = ground arith
route_compat index i j m n v (v6 a) (v4 b) c d e = ground arith
route_compat index i j m n v (v6 a) (v6 b) c d e = ground arith
