-- ===== src/Builder/Setters.antt =====
-- What a chain of setters asks of the device.
use quincy_tun.Base.{
  refl, ok, ℕ, ◌≡◌, ap, ◌∙◌, sym, List, [], ◌∷◌, ◌++◌, append_assoc, append-nil, true, Option, some,
}
use quincy_tun.Net.{Text, Parsers, Address, Mask, prefix}
use quincy_tun.Host.{M, pure, ◌>>=◌}
use quincy_tun.Builder.{
  DeviceBuilder, Ipv6Setting, Device, transpose, new, with_mtu, with_ipv4, with_ipv6, converted,
  config_mtu, config_ipv4, config_each, config_ipv6, config_enabled, config,
}

module _ (std : Parsers) where
  -- The setter of an IPv6 address, once for each address of a list.
  pub with_all : List (Address × Mask) → DeviceBuilder → DeviceBuilder
  unfolding with_ipv6
  with_all [] b = b
  with_all (x ∷ xs) b = with_all xs (with_ipv6 std x.0 x.1 b)

  abbrev ipv6_setting : Address × Mask → Ipv6Setting
  ipv6_setting x = record {
    address = quincy_tun.Net.ipv6 std x.0;
    len = prefix 128 std.ipv6_from_str x.1;
  }

  pub ipv6_settings : List (Address × Mask) → List Ipv6Setting
  ipv6_settings [] = []
  ipv6_settings (x ∷ xs) = ipv6_setting x ∷ ipv6_settings xs

  with_all-ipv6 :
      (xs : List (Address × Mask)) (b : DeviceBuilder) (v : List Ipv6Setting)
      → with_all xs (record b { ipv6 = some v }) ≡ record b { ipv6 = some (v ++ ipv6_settings xs) }
  unfolding with_all ipv6_settings with_ipv6
  with_all-ipv6 [] b v =
      ap (λ (t : List Ipv6Setting). record b { ipv6 = some t }) (sym (append-nil v))
  with_all-ipv6 (x ∷ xs) b v =
      with_all-ipv6 xs b (v ++ ipv6_setting x ∷ [])
      ∙ ap (λ (t : List Ipv6Setting). record b { ipv6 = some t })
          (append_assoc v (ipv6_setting x ∷ []) (ipv6_settings xs))

  module _ {C : Type 0} {Reply : C → Type 0} (device : Device Reply) where
    -- The IPv6 addresses one after the other, each converted when its turn comes.
    abbrev pub adds : List (Address × Mask) → M Reply (Unit {0})
    adds [] = pure (ok tt)
    adds (x ∷ xs) = pure (prefix 128 std.ipv6_from_str x.1) >>= λ len.
        pure (quincy_tun.Net.ipv6 std x.0) >>= λ a. device.add_address_v6 a len >>= λ _. adds xs

    config_each-adds :
        (xs : List (Address × Mask)) → config_each device (ipv6_settings xs) ≡ adds xs
    unfolding ipv6_settings config_each
    config_each-adds [] = refl
    config_each-adds (x ∷ xs) =
        ap
          (λ (rest : M Reply (Unit {0})). pure (prefix 128 std.ipv6_from_str x.1) >>= λ len.
            pure (quincy_tun.Net.ipv6 std x.0) >>= λ a. device.add_address_v6 a len >>= λ _. rest)
          (config_each-adds xs)

    -- A device that is configured by a new builder which was given an MTU, an IPv4 address and then IPv6
    -- addresses is asked, in this order and up to a failure, for the MTU, for the IPv4 address where
    -- netmask, address and destination can be converted, for the IPv6 addresses in the order in which
    -- they were given, and at the end, as `enable` was not called, to be switched on.
    pub config-setters :
        (n : ℕ) (a : Address) (m : Mask) (d : Option Address) (x : Address × Mask)
        (xs : List (Address × Mask))
        → config device (with_all (x ∷ xs) (with_ipv4 std a m d (with_mtu n new))) ≡ (
            device.set_mtu n >>= λ _.
            (pure (prefix 32 std.ipv4_from_str m) >>= λ len.
            pure (quincy_tun.Net.ipv4 std a) >>= λ address.
            pure (transpose (converted std d)) >>= λ destination.
            device.set_network_address address len destination)
            >>= λ _. adds (x ∷ xs) >>= λ _. device.set_enabled true)
    unfolding with_all with_ipv6 with_ipv4 with_mtu new config config_mtu config_ipv4 config_ipv6
        config_enabled ipv6_settings
    config-setters n a m d x xs =
        let b = with_ipv4 std a m d (with_mtu n new) in
        ap (λ (b : DeviceBuilder). config device b) (with_all-ipv6 xs b (ipv6_setting x ∷ []))
        ∙ ap
            (λ (rest : M Reply (Unit {0})). device.set_mtu n >>= λ _.
              (pure (prefix 32 std.ipv4_from_str m) >>= λ len.
              pure (quincy_tun.Net.ipv4 std a) >>= λ address.
              pure (transpose (converted std d)) >>= λ destination.
              device.set_network_address address len destination)
              >>= λ _. rest >>= λ _. device.set_enabled true)
            (config_each-adds (x ∷ xs))
