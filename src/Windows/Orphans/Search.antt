-- ===== src/Windows/Orphans/Search.antt =====
-- When the search for an orphaned adapter ends.
use quincy_tun.Base.{
  ℕ, zero, suc, ◌+◌, ◌<◌, ◌≡◌, ◌≢◌, refl, ap, ◌∙◌, arith, List, Bool, true, false, not, ◌==◌,
  if◌then◌else◌, Option, none, some, Outcome, ok,
}
use quincy_tun.Host.{Event, Host, next, pure, ◌>>=◌, attempt}
use quincy_tun.Net.{Text}
use quincy_tun.Windows.Wintun.{
  DllReply, Win, dll, OwningProcess, enum_device_info, get_owning_process, open_process,
  get_process_times, close_process,
}
use quincy_tun.Windows.Orphans.{
  Verdict, member, orphaned, on_to_next, stays, no_more, enumerated, of_member, round, search,
  go_on, examine_win7, by_name, is_owned, is_stale, process_is_stale, same_time,
}

pub next_value :
    {A B : Type 0} (f : A → Win B) (h : Host DllReply) (log : List (Event DllReply)) (r : Outcome A)
    (a : A)
    → r ≡ ok a
    → next f h log r ≡ f a h log
next_value f h log r a e = ap (λ x. next f h log x) e

-- A computation that ends with one and the same value, wherever it starts.
pub record Gives (h : Host DllReply) {A : Type 0} (m : Win A) (a : A) : Type 0 where
  pub gives : (log : List (Event DllReply)) → (m h log).1 ≡ ok a

module _ (h : Host DllReply) where
  pub pure-Gives : {A : Type 0} (a : A) → Gives h (pure (ok a)) a
  pure-Gives a = record { gives = λ log. refl }

  pub bind-Gives :
      {A B : Type 0} (m : Win A) (f : A → Win B) (a : A) (b : B)
      → Gives h m a
      → Gives h (f a) b
      → Gives h (m >>= f) b
  bind-Gives m f a b j k = record {
    gives = λ log.
        ap (λ x. x.1) (next_value f h (m h log).0 (m h log).1 a (j.gives log))
        ∙ k.gives (m h log).0;
  }

  pub attempt-Gives :
      {A B : Type 0} (m : Win A) (k : Win B) (b : B)
      → Gives h k b
      → Gives h (attempt m >>= λ _. k) b
  attempt-Gives m k b j = record { gives = λ log. j.gives (m h log).0 }

abbrev pub verdict : Bool → Verdict
verdict true = orphaned
verdict false = on_to_next

-- Whether one of the `n` devices from the `i`-th on is the one sought.
abbrev pub any_from : (ℕ → Bool) → ℕ → ℕ → Bool
any_from is zero i = false
any_from is (suc n) i = let rest = any_from is n (i + 1) in if is i then true else rest

module _ (look : ℕ → Win Verdict) (devs : ℕ) (h : Host DllReply) where
  -- What the round at an index says, whenever it is made.
  abbrev pub Says : ℕ → Verdict → Type 0
  Says index v = (log : List (Event DllReply)) → (round look devs index h log).1 ≡ ok v

  search-go_on :
      (fuel index : ℕ) (v : Verdict) (log : List (Event DllReply))
      → Says index v
      → search look devs (suc fuel) index h log
        ≡ go_on v
            (search look devs fuel index)
            (search look devs fuel (index + 1))
            h
            (round look devs index h log).0
  unfolding search
  search-go_on fuel index v log says =
      next_value (λ x. go_on x (search look devs fuel index) (search look devs fuel (index + 1))) h
        (round look devs index h log).0 (round look devs index h log).1 v (says log)

  pub search-stays :
      (index fuel : ℕ) (log : List (Event DllReply))
      → Says index stays
      → (search look devs fuel index h log).1 ≡ ok none
  unfolding search
  search-stays index zero log says = refl
  search-stays index (suc fuel) log says =
      ap (λ x. x.1) (search-go_on fuel index stays log says)
      ∙ search-stays index fuel (round look devs index h log).0 says

  found :
      (b rest : Bool) (same further : Win (Option Bool)) (log : List (Event DllReply))
      → (further h log).1 ≡ ok (some rest)
      → (go_on (verdict b) same further h log).1 ≡ ok (some (if b then true else rest))
  found true rest same further log ih = refl
  found false rest same further log ih = ih

  pub search_from :
      (is : ℕ → Bool) (n i : ℕ) (log : List (Event DllReply))
      → ((j : ℕ) → j < n → Says (i + j) (verdict (is (i + j))))
      → Says (i + n) no_more
      → (search look devs (suc n) i h log).1 ≡ ok (some (any_from is n i))
  search_from is zero i log says last =
      let here : i + 0 ≡ i = omega arith in
      let end : Says i no_more = rw here at last in
      ap (λ x. x.1) (search-go_on zero i no_more log end)
  search_from is (suc n) i log says last =
      let here : i + 0 ≡ i = omega arith in
      let first : Says (i + 0) (verdict (is (i + 0))) = says 0 (omega arith) in
      let now : Says i (verdict (is i)) = rw here at first in
      let past : i + suc n ≡ i + 1 + n = omega arith in
      let end : Says (i + 1 + n) no_more = rw past at last in
      let later : (j : ℕ) → j < n → Says (i + 1 + j) (verdict (is (i + 1 + j))) = λ j l.
        let shift : i + suc j ≡ i + 1 + j = omega arith in
        let s : Says (i + suc j) (verdict (is (i + suc j))) = says (suc j) (omega (arith, l)) in
        rw shift at s in
      let log' = (round look devs i h log).0 in
      ap (λ x. x.1) (search-go_on (suc n) i (verdict (is i)) log now)
      ∙ found (is i) (any_from is n (i + 1)) (search look devs (suc n) i)
          (search look devs (suc n) (i + 1)) log' (search_from is n (i + 1) log' later end)

-- A device whose owner is gone, and its number taken by a process that was created at another time: the
-- system answers so whenever it is asked.
pub record IsTaken (h : Host DllReply) (devs index : ℕ) : Type 0 where
  pub device : ℕ
  pub process : ℕ
  pub created : ℕ
  pub owner : OwningProcess
  pub listed :
      (log : List (Event DllReply)) → h log (enum_device_info devs index) ≡ ok (some device)
  pub owned :
      (log : List (Event DllReply)) → h log (get_owning_process devs device) ≡ ok (some owner)
  pub alive :
      (log : List (Event DllReply)) → h log (open_process owner.process_id) ≡ ok (some process)
  pub times : (log : List (Event DllReply)) → h log (get_process_times process) ≡ ok (some created)
  pub differs : created ≢ owner.creation_time

differ : (a b : ℕ) → a ≢ b → (a == b) ≡ false
differ a b n = ground arith

module _ (h : Host DllReply) where
  -- An owner is stale where its process was created at the time recorded, and only there.
  stale-Gives :
      (owner : OwningProcess) (process created : ℕ)
      → ((log : List (Event DllReply)) → h log (open_process owner.process_id) ≡ ok (some process))
      → ((log : List (Event DllReply)) → h log (get_process_times process) ≡ ok (some created))
      → Gives h (process_is_stale owner) (created == owner.creation_time)
  unfolding process_is_stale is_stale same_time
  stale-Gives owner process created alive times =
      bind-Gives h (dll (open_process owner.process_id)) (is_stale owner) (some process) _
        (record { gives = alive })
        (bind-Gives h (dll (get_process_times process))
          (λ t. attempt (dll (close_process process)) >>= λ _. pure (ok (same_time owner t)))
          (some created) _ (record { gives = times })
          (attempt-Gives h (dll (close_process process)) _ _ (pure-Gives h _)))

  module _ (lossy : Text → Text) (name : Text) (devs index : ℕ) (o : IsTaken h devs index) where
    taken-Gives : Gives h (is_owned (some o.owner)) true
    unfolding is_owned
    taken-Gives =
        bind-Gives h (process_is_stale o.owner) (λ stale. pure (ok (not stale))) false true
          (rw (differ o.created o.owner.creation_time o.differs) at
            (stale-Gives o.owner o.process o.created o.alive o.times))
          (pure-Gives h true)

    round-Gives : Gives h (round (examine_win7 lossy name devs) devs index) stays
    unfolding round enumerated examine_win7
    round-Gives =
        let look = examine_win7 lossy name devs in
        let judge : Bool → Win Verdict =
          λ owned. if owned then pure (ok stays) else by_name lossy name devs o.device in
        bind-Gives h (dll (enum_device_info devs index) >>= enumerated) (of_member look)
          (member o.device) stays
          (bind-Gives h (dll (enum_device_info devs index)) enumerated (some o.device)
            (member o.device) (record { gives = o.listed }) (pure-Gives h _))
          (bind-Gives h (dll (get_owning_process devs o.device)) (λ x. is_owned x >>= judge)
            (some o.owner) stays (record { gives = o.owned })
            (bind-Gives h (is_owned (some o.owner)) judge true stays taken-Gives
              (pure-Gives h stays)))

    -- On Windows 7 the search does not end, however long it goes on, once it comes to a device whose
    -- owner is gone and whose owner's number is taken by a process that was created at another time:
    -- it stays at the index of that device.
    pub search_win7-endless :
        (fuel : ℕ) (log : List (Event DllReply))
        → (search (examine_win7 lossy name devs) devs fuel index h log).1 ≡ ok none
    search_win7-endless fuel log =
        search-stays (examine_win7 lossy name devs) devs h index fuel log round-Gives.gives
