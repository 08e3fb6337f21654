-- ===== src/Tests/Tables.antt =====
-- An input for the theorem on the addresses of an interface of Windows: a system that keeps its tables.
use quincy_tun.Base.{
  ℕ, ◌≡◌, refl, sym, ap, ◌∙◌, arith, List, [], ◌∷◌, Bool, true, false, ◌&&◌, ◌==◌, if◌then◌else◌,
  some, Outcome, ok, err, panic, Bool-cases, inl, inr,
}
use quincy_tun.Host.{Event, Host}
use quincy_tun.Net.{v4, v6}
use quincy_tun.Linux.Addresses.{is_ipv4}
use quincy_tun.Windows.Ffi.{
  AddressRow, RouteRow, InterfaceRow, Api, get_unicast_table, get_forward_table,
  get_interface_table, get_interface_entry, free_mib_table, create_unicast, net_add_address,
  getifaddrs, ApiReply, filter, eqb, own_address, own_default, of_index, default_of_index,
  address_row, gateway_row, set_address,
}
use quincy_tun.Windows.Ffi.Replace.{Tables, view, Truthful}
use quincy_tun.Windows.Ffi.Set.{IsReplaced, set_address-IsReplaced}

abbrev first_tables : Tables
first_tables = record {
  addresses = address_row 3 (v4 10) 8 ∷ address_row 3 (v6 10) 64 ∷ address_row 4 (v4 11) 8 ∷ [];
  routes = gateway_row 3 (v4 1) ∷ [];
}

abbrev of_family : Bool → AddressRow → Bool
of_family v row = eqb (is_ipv4 row.address) v

abbrev route_of_family : Bool → RouteRow → Bool
route_of_family v row = eqb (is_ipv4 row.prefix) v

abbrev no_row : InterfaceRow
no_row = record {
  interface_index = 0;
  nl_mtu = 1500;
  metric = 0;
  use_automatic_metric = true;
  site_prefix_length = 0;
}

-- The tables are those of the log, and no call fails.
abbrev answer : List (Event ApiReply) → (c : Api) → ApiReply c
answer log (get_unicast_table v) = (0, filter (of_family v) (view first_tables log).addresses)
answer log (get_forward_table v) = (0, filter (route_of_family v) (view first_tables log).routes)
answer log (get_interface_table v) = (0, [])
answer log (get_interface_entry v index) = (0, no_row)
answer log free_mib_table = tt
answer log (net_add_address i net) = tt
answer log getifaddrs = []
answer log _ = 0

abbrev keeping : Host ApiReply
keeping log c = ok (answer log c)

filter-filter :
    {A : Type 0} (p q both : A → Bool)
    → ((x : A) → (q x ≡ true → p x ≡ both x) × (q x ≡ false → both x ≡ false))
    → (l : List A) → filter p (filter q l) ≡ filter both l
unfolding filter
filter-filter p q both k [] = refl
filter-filter p q both k (x ∷ l) = elim (Bool-cases (q x)) [
  | inl in_q ↦
      simp (in_q, (k x).0 in_q) (ap (λ t. if both x then x ∷ t else t) (filter-filter p q both k l))
  | inr out ↦ simp (out, (k x).1 out) (filter-filter p q both k l)
]

and_lem : (b c : Bool) → (c ≡ true → b ≡ (b && c)) × (c ≡ false → (b && c) ≡ false)
and_lem b true = (λ e. ground arith, λ e. absurd (cc))
and_lem b false = (λ e. absurd (cc), λ e. ground arith)

and_and_lem :
    (a b c : Bool) → (c ≡ true → (a && b) ≡ (a && (b && c))) × (c ≡ false → (a && (b && c)) ≡ false)
and_and_lem a b true = (λ e. ground arith, λ e. absurd (cc))
and_and_lem a b false = (λ e. absurd (cc), λ e. ground arith)

rows_of : {A : Type 0} → Outcome (ℕ × List A) → List A
rows_of (ok (code, rows)) = rows
rows_of (err e) = []
rows_of panic = []

code_of : Outcome ℕ → ℕ
code_of (ok code) = code
code_of (err e) = 0
code_of panic = 0

zero_differs : keeping [] (create_unicast (address_row 0 (v4 0) 0)) ≡ ok 5010 → ⊥
unfolding code_of
zero_differs e = let n : 0 ≡ 5010 = ap code_of e in omega (arith, n)

keeping-Truthful : Truthful first_tables keeping
unfolding rows_of
keeping-Truthful = record {
  lists_addresses = λ log v rows index e.
      let now = (view first_tables log).addresses in
      let shown : filter (of_family v) now ≡ rows = ap rows_of e in
      ap (filter (of_index index)) (sym shown)
      ∙ filter-filter (of_index index) (of_family v) (own_address index v)
          (λ row. and_lem (row.interface_index == index) (of_family v row)) now;
  lists_routes = λ log v rows index e.
      let now = (view first_tables log).routes in
      let shown : filter (route_of_family v) now ≡ rows = ap rows_of e in
      ap (filter (default_of_index index)) (sym shown)
      ∙ filter-filter (default_of_index index) (route_of_family v) (own_default index v)
          (λ row.
            and_and_lem (row.interface_index == index) (row.prefix_length == 0)
              (route_of_family v row))
          now;
  knows_address = λ log row e. absurd (zero_differs e);
  knows_route = λ log row e. absurd (zero_differs e);
}

set_address-IsReplaced_example :
    let after = set_address 3 (v4 20) 24 (some (v4 2)) keeping [] in
    IsReplaced 3 true
      (view first_tables []).addresses
      (view first_tables []).routes
      (address_row 3 (v4 20) 24)
      (some (v4 2))
      after.1
      (view first_tables after.0)
set_address-IsReplaced_example =
    set_address-IsReplaced first_tables keeping 3 (v4 20) 24 (some (v4 2)) [] keeping-Truthful refl
