-- ===== src/Windows/Create/Ends.antt =====
-- The loop of `DeviceImpl::new` on Windows ends.
use quincy_tun.Base.{
  ℕ, zero, suc, ◌+◌, ◌≤◌, ◌<◌, ◌≡◌, ◌≢◌, refl, sym, ap, ◌∙◌, arith, List, Bool, true, false, ltb,
  if◌then◌else◌, length, Option, none, some, Outcome, ok, err, panic,
}
use quincy_tun.Host.{Event, Host, next, pure, ◌>>=◌, attempt}
use quincy_tun.Net.{Text}
use quincy_tun.Linux.Open.{unwrap_or}
use quincy_tun.Windows.Wintun.{DllReply, Win, dll, getifaddrs, TunDevice}
use quincy_tun.Windows.Wintun.Clock.{IsSettled}
use quincy_tun.Windows.Orphans.{check_adapter_if_orphaned_devices}
use quincy_tun.Windows.Names.{
  default_name, default_name_injective, contains, remove, length-remove, contains-remove,
}
use quincy_tun.Windows.Create.{
  DeviceConfig, Windows, opens, creates, created, by_search, name_taken, new_loop, new,
}

module _ (h : Host DllReply) where
  next-IsSettled :
      {A B : Type 0} (f : A → Win (Option B)) (log : List (Event DllReply)) (r : Outcome A)
      → ((a : A) → r ≡ ok a → IsSettled (f a h log).1)
      → IsSettled (next f h log r).1
  next-IsSettled f log (ok a) k = k a refl
  next-IsSettled f log (err e) k = λ x. cc
  next-IsSettled f log panic k = λ x. cc

  if-IsSettled :
      {A : Type 0} (b : Bool) (x y : Win (Option A)) (log : List (Event DllReply))
      → (b ≡ true → IsSettled (x h log).1)
      → (b ≡ false → IsSettled (y h log).1)
      → IsSettled ((if b then x else y) h log).1
  if-IsSettled true x y log p q = p refl
  if-IsSettled false x y log p q = q refl

  module _ (w : Windows) (config : DeviceConfig) where
    -- A search for the name that was asked for ends.
    abbrev pub Searches : Type 0
    Searches =
        (name : Text) (log : List (Event DllReply))
        → config.dev_name ≡ some name
        → IsSettled
            (check_adapter_if_orphaned_devices w.from_utf16_lossy w.swd w.root w.rounds name h
              log).1

    by_search-IsSettled :
        (name : Text) (create : Win (Option TunDevice)) (log : List (Event DllReply))
        (r : Option Bool)
        → r ≢ none
        → ((log' : List (Event DllReply)) → IsSettled (create h log').1)
        → IsSettled (by_search w config name create r h log).1
    unfolding by_search opens
    by_search-IsSettled name create log none n k = absurd (n refl)
    by_search-IsSettled name create log (some true) n k = k log
    by_search-IsSettled name create log (some false) n k =
        next-IsSettled (λ tun. pure (ok (some tun))) _ _ (λ tun e x. cc)

    name_taken-IsSettled :
        (o : Option Text) (create next_name : Win (Option TunDevice)) (log : List (Event DllReply))
        → o ≡ config.dev_name
        → Searches
        → (o ≡ none → IsSettled (next_name h log).1)
        → ((log' : List (Event DllReply)) → IsSettled (create h log').1)
        → IsSettled (name_taken w config o create next_name h log).1
    unfolding name_taken
    name_taken-IsSettled none create next_name log e s k c = k refl
    name_taken-IsSettled (some name) create next_name log e s k c =
        next-IsSettled (by_search w config name create) _ _ (λ r found.
          by_search-IsSettled name create _ r
            (λ gone. s name log (sym e) (found ∙ ap (λ (x : Option Bool). ok x) gone)) c)

    created-IsSettled :
        (attempts : ℕ) (again : Win (Option TunDevice)) (log : List (Event DllReply))
        (r : Outcome TunDevice)
        → (attempts < 4 → IsSettled (again h log).1)
        → IsSettled (created w config attempts again r h log).1
    unfolding created
    created-IsSettled attempts again log (ok tun) k = λ x. cc
    created-IsSettled attempts again log (err e) k =
        if-IsSettled (ltb 3 attempts) (pure (err e)) again log (λ late x. cc)
          (λ early. k (ground arith))
    created-IsSettled attempts again log panic k = λ x. cc

    -- The names of interfaces that are still to come are in `left`.
    abbrev Covers : List Text → List Text → ℕ → Type 0
    Covers interfaces left count =
        (c : ℕ)
        → count ≤ c
        → contains interfaces (default_name c) ≡ true
        → contains left (default_name c) ≡ true

    module _ (searches : Searches) (interfaces : List Text) where
      new_loop-IsSettled :
          (fuel count attempts : ℕ) (left : List Text) (log : List (Event DllReply))
          → attempts ≤ 4
          → length left + 4 < fuel + attempts
          → Covers interfaces left count
          → IsSettled (new_loop w config interfaces fuel count attempts h log).1
      unfolding new_loop
      new_loop-IsSettled zero count attempts left log few enough covers =
          absurd (omega (arith, few, enough))
      new_loop-IsSettled (suc fuel) count attempts left log few enough covers =
          let on : Covers interfaces left (count + 1) = λ c l. covers c (omega (arith, l)) in
          let again : (log' : List (Event DllReply))
              → attempts < 4
              → IsSettled (new_loop w config interfaces fuel (count + 1) (attempts + 1) h log').1 =
            λ log' more.
              new_loop-IsSettled fuel (count + 1) (attempts + 1) left log' (omega (arith, more))
                (omega (arith, enough)) on in
          let name : Text = unwrap_or config.dev_name (default_name count) in
          let retry : Win (Option TunDevice) =
            new_loop w config interfaces fuel (count + 1) (attempts + 1) in
          let create_ends : (log' : List (Event DllReply))
              → IsSettled
                  ((attempt (creates w config name) >>= created w config attempts retry) h log').1 =
            λ log'.
              created-IsSettled attempts retry (creates w config name h log').0
                (creates w config name h log').1 (again (creates w config name h log').0) in
          if-IsSettled (contains interfaces name) _ _ log
            (λ taken.
              name_taken-IsSettled config.dev_name _
                (new_loop w config interfaces fuel (count + 1) attempts) log refl searches
                (λ unnamed.
                  let named : name ≡ default_name count =
                    ap (λ (o : Option Text). unwrap_or o (default_name count)) unnamed in
                  let here : contains interfaces (default_name count) ≡ true =
                    ap (contains interfaces) (sym named) ∙ taken in
                  let found = covers count (omega arith) here in
                  let shorter = length-remove (default_name count) left found in
                  new_loop-IsSettled fuel (count + 1) attempts (remove (default_name count) left)
                    log few (omega (arith, enough, shorter))
                    (λ c l e.
                      contains-remove (default_name count) (default_name c) left
                        (λ same.
                          let number = default_name_injective count c same in
                          omega (arith, l, number))
                        (on c l e)))
                create_ends)
            (λ free. create_ends log)

    -- The loop comes to its end, with a device or with an error, after a round for each interface and
    -- five more at the most, if the search for an orphan of the name that was asked for does. Without a
    -- name there is no such search, and the names tried differ.
    pub new-IsSettled : (log : List (Event DllReply)) → Searches → IsSettled (new w config h log).1
    unfolding new
    new-IsSettled log searches =
        next-IsSettled (λ interfaces. new_loop w config interfaces (length interfaces + 5) 0 0)
          (dll getifaddrs h log).0 (dll getifaddrs h log).1
          (λ interfaces e.
            new_loop-IsSettled searches interfaces (length interfaces + 5) 0 0 interfaces
              (dll getifaddrs h log).0 (omega arith) (omega arith) (λ c l in_it. in_it))
