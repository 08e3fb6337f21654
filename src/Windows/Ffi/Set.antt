-- ===== src/Windows/Ffi/Set.antt =====
-- `set_address` against the tables of the system.
use quincy_tun.Base.{
  ℕ, ◌≡◌, refl, ap, ◌∙◌, List, [], ◌∷◌, ◌++◌, append-nil, Bool, true, Option, Outcome, ok, err,
  panic,
}
use quincy_tun.Host.{Event, Host}
use quincy_tun.Host.Meets.{weaker-Meets, bind-Meets}
use quincy_tun.Net.{IpAddr}
use quincy_tun.Linux.Addresses.{is_ipv4}
use quincy_tun.Windows.Ffi.{
  AddressRow, RouteRow, ApiReply, filter, clear_addresses, address_row, add_gateway, create_address,
  add_address, set_address,
}
use quincy_tun.Windows.Ffi.Tables.{outside, outside-append, outside-outside, any_same-outside}
use quincy_tun.Windows.Ffi.Replace.{Tables, same_address, effect, view, Truthful, address_compat}
use quincy_tun.Windows.Ffi.Clear.{Does}
use quincy_tun.Windows.Ffi.Clear.Own.{At, own_a, own_r, Kept, Wiped, clear_addresses-Does}
use quincy_tun.Windows.Ffi.Add.{
  WithRow, Fits, gateways, WithGateway, own_row, create_address-Does, add_gateway-Does,
}

module _ (index : ℕ) (v : Bool) where
  -- The addresses and default routes of the interface and family are replaced, or, where that fails,
  -- the other ones at least are as they were.
  abbrev pub IsReplaced :
      List AddressRow
      → List RouteRow
      → AddressRow
      → Option IpAddr
      → Outcome (Unit {0})
      → Tables
      → Type 0
  IsReplaced a rs row g (ok u) s =
      At (outside (own_a index v) a ++ row ∷ []) (outside (own_r index v) rs ++ gateways index g) s
  IsReplaced a rs row g _ s = Kept index v a rs s

  outside-Kept :
      (a : List AddressRow) (rs : List RouteRow) (s : Tables)
      → At (outside (own_a index v) a) (outside (own_r index v) rs) s
      → Kept index v a rs s
  outside-Kept a rs s p = (
    ap (outside (own_a index v)) p.0 ∙ outside-outside (own_a index v) a,
    ap (outside (own_r index v)) p.1 ∙ outside-outside (own_r index v) rs,
  )

  -- The new row is of the interface.
  row-Kept :
      (a : List AddressRow) (rs : List RouteRow) (row : AddressRow)
      → (own_a index v) row ≡ true
      → (s : Tables) → At (outside (own_a index v) a ++ row ∷ []) (outside (own_r index v) rs) s
      → Kept index v a rs s
  unfolding outside filter
  row-Kept a rs row own s p = (
    ap (outside (own_a index v)) p.0
        ∙ outside-append (own_a index v) (outside (own_a index v) a) (row ∷ [])
        ∙ simp own (
            append-nil (outside (own_a index v) (outside (own_a index v) a))
            ∙ outside-outside (own_a index v) a),
    ap (outside (own_r index v)) p.1 ∙ outside-outside (own_r index v) rs,
  )

  replaced :
      (a : List AddressRow) (rs : List RouteRow) (row : AddressRow) (g : Option IpAddr)
      → (own_a index v) row ≡ true
      → (r : Outcome (Unit {0})) (s : Tables)
      → WithGateway index (outside (own_a index v) a ++ row ∷ []) (outside (own_r index v) rs) g r s
      → IsReplaced a rs row g r s
  replaced a rs row g own (ok u) s p = p
  replaced a rs row g own (err e) s p = row-Kept a rs row own s p
  replaced a rs row g own panic s p = row-Kept a rs row own s p

module _ (start : Tables) (h : Host ApiReply) (truth : Truthful start h) (index : ℕ)
    (v : Bool) where
  add_address-Does :
      (a : List AddressRow) (rs : List RouteRow) (ip : IpAddr) (prefix : ℕ) (g : Option IpAddr)
      → is_ipv4 ip ≡ v
      → Fits v g
      → Does start h
          (At (outside (own_a index v) a) (outside (own_r index v) rs))
          (add_address index ip prefix g)
          (IsReplaced index v a rs (address_row index ip prefix) g)
  unfolding add_address
  add_address-Does a rs ip prefix g e fits =
      let row = address_row index ip prefix in
      let own = own_row index v ip prefix e in
      bind-Meets effect start h (At (outside (own_a index v) a) (outside (own_r index v) rs))
        (WithRow (outside (own_a index v) a) (outside (own_r index v) rs) row)
        (IsReplaced index v a rs row g) (create_address row) (λ u. add_gateway index g)
        (create_address-Does start h truth (outside (own_a index v) a) (outside (own_r index v) rs)
          row
          (any_same-outside same_address (own_a index v) row a
            (λ x s. address_compat index x.interface_index index v x.address ip s ∙ own)))
        (λ u.
          weaker-Meets effect start h _
            (WithGateway index (outside (own_a index v) a ++ row ∷ []) (outside (own_r index v) rs)
              g)
            (IsReplaced index v a rs row g) (add_gateway index g)
            (add_gateway-Does start h truth index v (outside (own_a index v) a ++ row ∷ []) rs g
              fits)
            (replaced index v a rs row g own))
        (λ x s p. outside-Kept index v a rs s p) (λ s p. outside-Kept index v a rs s p)

-- `set_address` replaces. If it succeeds on a system whose tables are truthful, then the addresses of the
-- interface in the family of the new address are that one only, and its default routes of the family
-- that of the gateway, if one of the family is given; all other rows are as they were. If it fails, the
-- other rows are as they were.
pub set_address-IsReplaced :
    (start : Tables) (h : Host ApiReply) (index : ℕ) (ip : IpAddr) (prefix : ℕ) (g : Option IpAddr)
    (log : List (Event ApiReply))
    → Truthful start h
    → Fits (is_ipv4 ip) g
    → let now = view start log in
      let after = set_address index ip prefix g h log in
      IsReplaced index
        (is_ipv4 ip)
        now.addresses
        now.routes
        (address_row index ip prefix)
        g
        after.1
        (view start after.0)
unfolding set_address
set_address-IsReplaced start h index ip prefix g log truth fits =
    let v = is_ipv4 ip in
    let now = view start log in
    let a = now.addresses in
    let rs = now.routes in
    let k =
      bind-Meets effect start h (At a rs) (Wiped index v a rs)
        (IsReplaced index v a rs (address_row index ip prefix) g) (clear_addresses index v)
        (λ u. add_address index ip prefix g) (clear_addresses-Does start h truth index v a rs)
        (λ u. add_address-Does start h truth index v a rs ip prefix g refl fits) (λ e s p. p)
        (λ s p. p) in
    k.meets log (refl, refl)
