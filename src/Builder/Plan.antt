-- ===== src/Builder/Plan.antt =====
-- The order in which `config` asks for the settings, and where it stops.
use quincy_tun.Base.{ℕ, List, [], ◌∷◌, ◌++◌, Bool, Option, none, some, Outcome, ok, err, panic}
use quincy_tun.Host.{M, pure, ◌>>=◌}
use quincy_tun.Host.Laws.{View, Follows, pure-Follows, fail-Follows, panic-Follows, bind-Follows}
use quincy_tun.Builder.{
  DeviceBuilder, Ipv4Setting, Ipv6Setting, Device, transpose, config_mtu, config_ipv4, config_each,
  config_ipv6, config_enabled, config,
}

-- What the operations of a device are to do.
pub record Plans (S : Type 0) : Type 0 where
  pub mtu_plan : ℕ → List (Outcome S)
  pub address_plan : ℕ → ℕ → Option ℕ → List (Outcome S)
  pub v6_plan : ℕ → ℕ → List (Outcome S)
  pub enabled_plan : Bool → List (Outcome S)

-- A value that is there is planned for; one whose conversion failed is a step that no call makes.
abbrev pub planned : {S A : Type 0} → Outcome A → (A → List (Outcome S)) → List (Outcome S)
planned (ok a) plan = plan a
planned (err e) plan = err e ∷ []
planned panic plan = panic ∷ []

module _ {S : Type 0} (plans : Plans S) where
  unfoldable pub mtu_steps : Option ℕ → List (Outcome S)
  mtu_steps none = []
  mtu_steps (some n) = plans.mtu_plan n

  unfoldable pub ipv4_steps : Option Ipv4Setting → List (Outcome S)
  ipv4_steps none = []
  ipv4_steps (some s) = planned s.len (λ len.
      planned s.address (λ a. planned (transpose s.destination) (λ d. plans.address_plan a len d)))

  unfoldable pub each_steps : List Ipv6Setting → List (Outcome S)
  each_steps [] = []
  each_steps (s ∷ ipv6) =
      let rest = each_steps ipv6 in
      planned s.len (λ len. planned s.address (λ a. plans.v6_plan a len ++ rest))

  unfoldable pub ipv6_steps : Option (List Ipv6Setting) → List (Outcome S)
  unfolding each_steps
  ipv6_steps none = []
  ipv6_steps (some ipv6) = each_steps ipv6

  unfoldable pub enabled_steps : Option Bool → List (Outcome S)
  enabled_steps none = []
  enabled_steps (some e) = plans.enabled_plan e

  -- The MTU, the IPv4 address, the IPv6 addresses as they were added, and the state at the end.
  unfoldable pub steps : DeviceBuilder → List (Outcome S)
  unfolding mtu_steps ipv4_steps ipv6_steps enabled_steps
  steps b = mtu_steps b.mtu ++ (ipv4_steps b.ipv4 ++ (ipv6_steps b.ipv6 ++ enabled_steps b.enabled))

-- A device whose operations do what the plans say.
pub record Obeys {C S : Type 0} {Reply : C → Type 0} (view : View Reply (Outcome S))
    (plans : Plans S) (device : Device Reply) : Type 0 where
  pub set_mtu-Follows : (n : ℕ) → Follows view (plans.mtu_plan n) (device.set_mtu n)
  pub set_network_address-Follows :
      (a len : ℕ) (d : Option ℕ)
      → Follows view (plans.address_plan a len d) (device.set_network_address a len d)
  pub add_address_v6-Follows :
      (a len : ℕ) → Follows view (plans.v6_plan a len) (device.add_address_v6 a len)
  pub set_enabled-Follows : (e : Bool) → Follows view (plans.enabled_plan e) (device.set_enabled e)

pub planned-Follows :
    {C S : Type 0} {Reply : C → Type 0} (view : View Reply (Outcome S)) {A B : Type 0}
    (r : Outcome A) (plan : A → List (Outcome S)) (f : A → M Reply B)
    → ((a : A) → Follows view (plan a) (f a))
    → Follows view (planned r plan) (pure r >>= f)
planned-Follows view (ok a) plan f k = record { keeps = λ h log. (k a).keeps h log }
planned-Follows view (err e) plan f k = record {
  keeps = λ h log. (fail-Follows view (err e ∷ []) e).keeps h log;
}
planned-Follows view panic plan f k = record {
  keeps = λ h log. (panic-Follows view (panic ∷ [])).keeps h log;
}

module _ {C S : Type 0} {Reply : C → Type 0} (view : View Reply (Outcome S)) (plans : Plans S)
    (device : Device Reply) (laws : Obeys view plans device) where
  config_mtu-Follows : (n : Option ℕ) → Follows view (mtu_steps plans n) (config_mtu device n)
  unfolding mtu_steps config_mtu
  config_mtu-Follows none = pure-Follows view (ok tt)
  config_mtu-Follows (some n) = laws.set_mtu-Follows n

  config_ipv4-Follows :
      (s : Option Ipv4Setting) → Follows view (ipv4_steps plans s) (config_ipv4 device s)
  unfolding ipv4_steps config_ipv4
  config_ipv4-Follows none = pure-Follows view (ok tt)
  config_ipv4-Follows (some s) = planned-Follows view s.len _ _ (λ len.
      planned-Follows view s.address _ _ (λ a.
        planned-Follows view (transpose s.destination) _ _
          (λ d. laws.set_network_address-Follows a len d)))

  config_each-Follows :
      (ipv6 : List Ipv6Setting) → Follows view (each_steps plans ipv6) (config_each device ipv6)
  unfolding each_steps config_each
  config_each-Follows [] = pure-Follows view (ok tt)
  config_each-Follows (s ∷ ipv6) =
      let rest = config_each-Follows ipv6 in
      planned-Follows view s.len _ _ (λ len.
        planned-Follows view s.address _ _
          (λ a. bind-Follows view _ _ _ _ (laws.add_address_v6-Follows a len) (λ u. rest)))

  config_ipv6-Follows :
      (s : Option (List Ipv6Setting)) → Follows view (ipv6_steps plans s) (config_ipv6 device s)
  unfolding ipv6_steps config_ipv6
  config_ipv6-Follows none = pure-Follows view (ok tt)
  config_ipv6-Follows (some ipv6) = config_each-Follows ipv6

  config_enabled-Follows :
      (e : Option Bool) → Follows view (enabled_steps plans e) (config_enabled device e)
  unfolding enabled_steps config_enabled
  config_enabled-Follows none = pure-Follows view (ok tt)
  config_enabled-Follows (some e) = laws.set_enabled-Follows e

  -- A device that does what its plans say is asked for the steps of the builder in their order: the
  -- calls made are the first of them, none after one that fails, and all of them where `config`
  -- succeeds. A value whose conversion failed is a step of its own, so nothing after it is asked.
  pub config-Follows : (b : DeviceBuilder) → Follows view (steps plans b) (config device b)
  unfolding steps config
  config-Follows b = bind-Follows view _ _ _ _ (config_mtu-Follows b.mtu) (λ u.
      bind-Follows view _ _ _ _ (config_ipv4-Follows b.ipv4) (λ u.
        bind-Follows view _ _ _ _ (config_ipv6-Follows b.ipv6)
          (λ u. config_enabled-Follows b.enabled)))
