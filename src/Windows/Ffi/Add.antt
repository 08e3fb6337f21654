-- ===== src/Windows/Ffi/Add.antt =====
-- What `add_address` creates, against the tables of the system.
use quincy_tun.Base.{
  ℕ, ◌≡◌, ◌≢◌, refl, sym, ap, ◌∙◌, arith, List, [], ◌∷◌, ◌++◌, append-nil, Bool, true, false, ◌==◌,
  ==_iff, if◌then◌else◌, Option, none, some, Outcome, ok, err, panic, os, Bool-cases, inl, inr, ◌⊎◌,
}
use quincy_tun.Host.{Event, Host, pure}
use quincy_tun.Host.Meets.{weaker-Meets, pure-Meets, call-Meets, bind-Meets}
use quincy_tun.Net.{IpAddr, v4, v6}
use quincy_tun.Linux.Addresses.{is_ipv4}
use quincy_tun.Windows.Ffi.{
  AddressRow, RouteRow, create_unicast, create_forward, ApiReply, api, win_result, created, eqb,
  address_row, gateway_row, unspecified, add_gateway, create_address, create_route,
}
use quincy_tun.Windows.Ffi.Tables.{any_same, outside, any_same-outside}
use quincy_tun.Windows.Ffi.Replace.{
  Tables, same_address, same_route, effect, view, Truthful, route_compat,
}
use quincy_tun.Windows.Ffi.Clear.{Does}
use quincy_tun.Windows.Ffi.Clear.Own.{At, own_a, own_r}

eqb_refl : (b : Bool) → eqb b b ≡ true
eqb_refl true = refl
eqb_refl false = refl

-- A creation in the lists without what it creates adds its row, or the lists are as they were.
abbrev pub WithRow :
    List AddressRow → List RouteRow → AddressRow → Outcome (Unit {0}) → Tables → Type 0
WithRow a rs row (ok u) s = At (a ++ row ∷ []) rs s
WithRow a rs row _ s = At a rs s

abbrev pub WithRoute :
    List AddressRow → List RouteRow → RouteRow → Outcome (Unit {0}) → Tables → Type 0
WithRoute a rs row (ok u) s = At a (rs ++ row ∷ []) s
WithRoute a rs row _ s = At a rs s

-- After the call: the code is not that the row is there.
abbrev RowMade : List AddressRow → List RouteRow → AddressRow → Outcome ℕ → Tables → Type 0
RowMade a rs row (ok code) s = (code ≢ 5010) × At (if code == 0 then a ++ row ∷ [] else a) rs s
RowMade a rs row _ s = At a rs s

abbrev RouteMade : List AddressRow → List RouteRow → RouteRow → Outcome ℕ → Tables → Type 0
RouteMade a rs row (ok code) s = (code ≢ 5010) × At a (if code == 0 then rs ++ row ∷ [] else rs) s
RouteMade a rs row _ s = At a rs s

-- The result by the code.
created_cases :
    (code : ℕ)
    → code ≢ 5010
    → ((code == 0) ≡ true) × (created code ≡ ok tt)
      ⊎ ((code == 0) ≡ false) × (created code ≡ err (os code))
unfolding win_result
created_cases code n =
    let new : (code == 5010) ≡ false = ground arith in
    elim (Bool-cases (code == 0)) [
      | inl zero ↦ inl (zero, simp (new, zero) refl)
      | inr more ↦ inr (more, simp (new, more) refl)
    ]

created-WithRow :
    (a : List AddressRow) (rs : List RouteRow) (row : AddressRow) (code : ℕ) (s : Tables)
    → RowMade a rs row (ok code) s
    → WithRow a rs row (created code) s
created-WithRow a rs row code s (n, at) = elim (created_cases code n) [
  | inl (zero, e) ↦ rw e (rw zero at at)
  | inr (more, e) ↦ rw e (rw more at at)
]

created-WithRoute :
    (a : List AddressRow) (rs : List RouteRow) (row : RouteRow) (code : ℕ) (s : Tables)
    → RouteMade a rs row (ok code) s
    → WithRoute a rs row (created code) s
created-WithRoute a rs row code s (n, at) = elim (created_cases code n) [
  | inl (zero, e) ↦ rw e (rw zero at at)
  | inr (more, e) ↦ rw e (rw more at at)
]

-- The gateway is of the family.
abbrev pub Fits : Bool → Option IpAddr → Type 0
Fits v none = Unit
Fits v (some g) = is_ipv4 g ≡ v

module _ (index : ℕ) where
  -- The default routes of a gateway, if there is one, and that it is of the family.
  abbrev pub gateways : Option IpAddr → List RouteRow
  gateways none = []
  gateways (some g) = gateway_row index g ∷ []

  abbrev pub WithGateway :
      List AddressRow → List RouteRow → Option IpAddr → Outcome (Unit {0}) → Tables → Type 0
  WithGateway a rs g (ok u) s = At a (rs ++ gateways g) s
  WithGateway a rs g _ s = At a rs s

module _ (index : ℕ) (v : Bool) where
  own_gateway : (g : IpAddr) → is_ipv4 g ≡ v → (own_r index v) (gateway_row index g) ≡ true
  own_gateway (v4 a) e = simp ((==_iff index index).1 refl, sym e) refl
  own_gateway (v6 a) e = simp ((==_iff index index).1 refl, sym e) refl

  pub own_row :
      (ip : IpAddr) (prefix : ℕ)
      → is_ipv4 ip ≡ v
      → (own_a index v) (address_row index ip prefix) ≡ true
  own_row ip prefix e = simp ((==_iff index index).1 refl, e) (eqb_refl v)

module _ (start : Tables) (h : Host ApiReply) (truth : Truthful start h) where
  pub create_address-Does :
      (a : List AddressRow) (rs : List RouteRow) (row : AddressRow)
      → any_same same_address a row ≡ false
      → Does start h (At a rs) (create_address row) (WithRow a rs row)
  create_address-Does a rs row new =
      bind-Meets effect start h (At a rs) (RowMade a rs row) (WithRow a rs row)
        (api (create_unicast row)) (λ code. pure (created code))
        (call-Meets effect start h (At a rs) (create_unicast row) _
          (λ log p. made log (h log (create_unicast row)) refl p))
        (λ code. pure-Meets effect start h _ _ (created code) (created-WithRow a rs row code))
        (λ e s p. p) (λ s p. p)
    where
      made :
          (log : List (Event ApiReply)) (x : Outcome ℕ)
          → h log (create_unicast row) ≡ x
          → At a rs (view start log)
          → RowMade a rs row x (effect (view start log) (create_unicast row, x))
      made log (ok code) e p = (
        λ five.
            let there = truth.knows_address log row (e ∙ ap (λ n. ok n) five) in
            let gone = ap (λ l. any_same same_address l row) p.0 ∙ new in absurd (cc),
        (ap (λ r. if code == 0 then r ++ row ∷ [] else r) p.0, p.1),
      )
      made log (err x) e p = p
      made log panic e p = p

  create_route-Does :
      (a : List AddressRow) (rs : List RouteRow) (row : RouteRow)
      → any_same same_route rs row ≡ false
      → Does start h (At a rs) (create_route row) (WithRoute a rs row)
  create_route-Does a rs row new =
      bind-Meets effect start h (At a rs) (RouteMade a rs row) (WithRoute a rs row)
        (api (create_forward row)) (λ code. pure (created code))
        (call-Meets effect start h (At a rs) (create_forward row) _
          (λ log p. made log (h log (create_forward row)) refl p))
        (λ code. pure-Meets effect start h _ _ (created code) (created-WithRoute a rs row code))
        (λ e s p. p) (λ s p. p)
    where
      made :
          (log : List (Event ApiReply)) (x : Outcome ℕ)
          → h log (create_forward row) ≡ x
          → At a rs (view start log)
          → RouteMade a rs row x (effect (view start log) (create_forward row, x))
      made log (ok code) e p = (
        λ five.
            let there = truth.knows_route log row (e ∙ ap (λ n. ok n) five) in
            let gone = ap (λ l. any_same same_route l row) p.1 ∙ new in absurd (cc),
        (p.0, ap (λ r. if code == 0 then r ++ row ∷ [] else r) p.1),
      )
      made log (err x) e p = p
      made log panic e p = p

  module _ (index : ℕ) (v : Bool) where
    pub add_gateway-Does :
        (a : List AddressRow) (rs : List RouteRow) (g : Option IpAddr)
        → Fits v g
        → Does start h
            (At a (outside (own_r index v) rs))
            (add_gateway index g)
            (WithGateway index a (outside (own_r index v) rs) g)
    unfolding add_gateway
    add_gateway-Does a rs none fits =
        pure-Meets effect start h _ _ (ok tt)
          (λ s p. (p.0, p.1 ∙ sym (append-nil (outside (own_r index v) rs))))
    add_gateway-Does a rs (some g) fits =
        let row = gateway_row index g in
        weaker-Meets effect start h _ (WithRoute a (outside (own_r index v) rs) row)
          (WithGateway index a (outside (own_r index v) rs) (some g)) (create_route row)
          (create_route-Does a (outside (own_r index v) rs) row (
            any_same-outside same_route (own_r index v) row rs (λ x e.
              route_compat index x.interface_index index x.prefix_length 0 v x.prefix
                (unspecified g) x.next_hop g e
              ∙ own_gateway index v g fits)))
          (λ r s.
            elim r
              as (λ k.
                WithRoute a (outside (own_r index v) rs) row k s
                → WithGateway index a (outside (own_r index v) rs) (some g) k s) [
                  | ok u ↦ λ p. p
                  | err e ↦ λ p. p
                  | panic ↦ λ p. p
                ])
