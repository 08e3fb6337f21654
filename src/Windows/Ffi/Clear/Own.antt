-- ===== src/Windows/Ffi/Clear/Own.antt =====
-- `clear_addresses` against the tables of the system.
use quincy_tun.Base.{ℕ, ◌≡◌, ap, ◌∙◌, List, Bool, ◌==◌, if◌then◌else◌, Outcome, ok, err, panic}
use quincy_tun.Host.{Host}
use quincy_tun.Host.Meets.{weaker-Meets, call-Meets, bind-Meets}
use quincy_tun.Windows.Ffi.{
  AddressRow, RouteRow, get_unicast_table, get_forward_table, free_mib_table, delete_unicast,
  delete_forward, ApiReply, api, filter, own_address, own_default, of_index, default_of_index,
  delete_address, delete_route, clear_table, clear_default_routes, clear_addresses,
}
use quincy_tun.Windows.Ffi.Tables.{dropped, outside, outside-outside}
use quincy_tun.Windows.Ffi.Replace.{
  Tables, same_address, same_route, effect, view, Truthful, address_compat, route_compat,
  same_address_refl, same_route_refl,
}
use quincy_tun.Windows.Ffi.Clear.{Does, AfterOne, Cleared, clear_table-Does}

-- The tables are these two lists.
abbrev pub At : List AddressRow → List RouteRow → Tables → Type 0
At a rs s = (s.addresses ≡ a) × (s.routes ≡ rs)

module _ (index : ℕ) (v : Bool) where
  abbrev pub own_a : AddressRow → Bool
  own_a = own_address index v

  abbrev pub own_r : RouteRow → Bool
  own_r = own_default index v

  -- The rows of the interface are gone; or what is outside is as it was.
  abbrev pub Kept : List AddressRow → List RouteRow → Tables → Type 0
  Kept a rs s =
      (outside own_a s.addresses ≡ outside own_a a) × (outside own_r s.routes ≡ outside own_r rs)

  abbrev pub Wiped : List AddressRow → List RouteRow → Outcome (Unit {0}) → Tables → Type 0
  Wiped a rs (ok u) s = At (outside own_a a) (outside own_r rs) s
  Wiped a rs _ s = Kept a rs s

module _ (start : Tables) (h : Host ApiReply) where
  delete_route-Does :
      (a : List AddressRow) (mine : RouteRow → Bool) (d : RouteRow) (now : List RouteRow)
      → Does start h
          (At a now)
          (delete_route d)
          (AfterOne start h same_route mine (λ rs. At a rs) delete_route d now)
  delete_route-Does a mine d now =
      call-Meets effect start h (At a now) (delete_forward d) _
        (λ log p. gone (h log (delete_forward d)) (view start log) p)
    where
      gone :
          (x : Outcome ℕ) (t : Tables)
          → At a now t
          → AfterOne start h same_route mine
              (λ rs. At a rs)
              delete_route
              d
              now
              x
              (effect t (delete_forward d, x))
      gone (ok code) t p = (p.0, ap (λ r. if code == 0 then dropped same_route d r else r) p.1)
      gone (err e) t p = p
      gone panic t p = p

  delete_address-Does :
      (rs : List RouteRow) (mine : AddressRow → Bool) (d : AddressRow) (now : List AddressRow)
      → Does start h
          (At now rs)
          (delete_address d)
          (AfterOne start h same_address mine (λ a. At a rs) delete_address d now)
  unfolding dropped
  delete_address-Does rs mine d now =
      call-Meets effect start h (At now rs) (delete_unicast d.interface_index d.address) _
        (λ log p. gone (h log (delete_unicast d.interface_index d.address)) (view start log) p)
    where
      gone :
          (x : Outcome ℕ) (t : Tables)
          → At now rs t
          → AfterOne start h same_address mine
              (λ a. At a rs)
              delete_address
              d
              now
              x
              (effect t (delete_unicast d.interface_index d.address, x))
      gone (ok code) t p = (ap (λ r. if code == 0 then dropped same_address d r else r) p.0, p.1)
      gone (err e) t p = p
      gone panic t p = p

  module _ (truth : Truthful start h) (index : ℕ) (v : Bool) where
    clear_default_routes-Does :
        (a : List AddressRow) (rs : List RouteRow)
        → Does start h
            (At a rs)
            (clear_default_routes index v)
            (Cleared start h same_route (own_r index v) (λ now. At a now) delete_route rs)
    unfolding clear_default_routes
    clear_default_routes-Does a rs =
        clear_table-Does start h same_route (own_r index v) (λ now. At a now) delete_route
          (api (get_forward_table v)) (default_of_index index) rs
          (call-Meets effect start h (At a rs) (get_forward_table v) _ (λ log p. (
            p,
            λ table e. truth.lists_routes log v table index e ∙ ap (filter (own_r index v)) p.1,
          )))
          (delete_route-Does a (own_r index v))
          (λ now. call-Meets effect start h (At a now) free_mib_table _ (λ log p. p))
          (λ d x e.
            route_compat index d.interface_index x.interface_index d.prefix_length x.prefix_length v
              d.prefix x.prefix d.next_hop x.next_hop e)
          same_route_refl

    clear_unicast-Does :
        (a : List AddressRow) (rs : List RouteRow)
        → Does start h
            (At a rs)
            (clear_table (api (get_unicast_table v)) (of_index index) delete_address)
            (Cleared start h same_address (own_a index v) (λ now. At now rs) delete_address a)
    clear_unicast-Does a rs =
        clear_table-Does start h same_address (own_a index v) (λ now. At now rs) delete_address
          (api (get_unicast_table v)) (of_index index) a
          (call-Meets effect start h (At a rs) (get_unicast_table v) _ (λ log p. (
            p,
            λ table e. truth.lists_addresses log v table index e ∙ ap (filter (own_a index v)) p.0,
          )))
          (delete_address-Does rs (own_a index v))
          (λ now. call-Meets effect start h (At now rs) free_mib_table _ (λ log p. p))
          (λ d x e.
            address_compat index d.interface_index x.interface_index v d.address x.address e)
          same_address_refl

    clear_default_routes-Wiped :
        (a : List AddressRow) (rs : List RouteRow) (r : Outcome (Unit {0})) (s : Tables)
        → Cleared start h same_route
            (own_r index v)
            (λ now. At (outside (own_a index v) a) now)
            delete_route
            rs
            r
            s
        → Wiped index v a rs r s
    clear_default_routes-Wiped a rs (ok u) s at = at
    clear_default_routes-Wiped a rs (err e) s (left, at, out) = (
      ap (outside (own_a index v)) at.0 ∙ outside-outside (own_a index v) a,
      ap (outside (own_r index v)) at.1 ∙ out,
    )
    clear_default_routes-Wiped a rs panic s (left, at, out) = (
      ap (outside (own_a index v)) at.0 ∙ outside-outside (own_a index v) a,
      ap (outside (own_r index v)) at.1 ∙ out,
    )

    pub clear_addresses-Does :
        (a : List AddressRow) (rs : List RouteRow)
        → Does start h (At a rs) (clear_addresses index v) (Wiped index v a rs)
    unfolding clear_addresses
    clear_addresses-Does a rs =
        bind-Meets effect start h (At a rs)
          (Cleared start h same_address (own_a index v) (λ now. At now rs) delete_address a)
          (Wiped index v a rs) _ (λ u. clear_default_routes index v) (clear_unicast-Does a rs)
          (λ u.
            weaker-Meets effect start h _ _ (Wiped index v a rs) (clear_default_routes index v)
              (clear_default_routes-Does (outside (own_a index v) a) rs)
              (clear_default_routes-Wiped a rs))
          (λ e s p. (ap (outside (own_a index v)) p.1.0 ∙ p.2, ap (outside (own_r index v)) p.1.1))
          (λ s p. (ap (outside (own_a index v)) p.1.0 ∙ p.2, ap (outside (own_r index v)) p.1.1))
