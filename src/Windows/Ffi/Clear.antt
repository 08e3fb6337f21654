-- ===== src/Windows/Ffi/Clear.antt =====
-- `clear_table` against the tables of the system: the rows of an interface are deleted one by one.
pub mod Own
use quincy_tun.Base.{
  ℕ, ◌≡◌, refl, sym, ap, ◌∙◌, arith, List, [], ◌∷◌, ◌++◌, Bool, true, ◌&&◌, ◌==◌, ==_iff,
  if◌then◌else◌, Outcome, ok, err, panic, os, All, Bool-cases, inl, inr,
}
use mathlib.Core.Path.{subst}
use quincy_tun.Host.{Event, Host, pure, ◌>>=◌}
use quincy_tun.Host.Runs.{state}
use quincy_tun.Host.Meets.{Meets, weaker-Meets, pure-Meets, bind-Meets}
use quincy_tun.Net.{IpAddr, v4, v6}
use quincy_tun.Linux.Addresses.{is_ipv4, eq_ip}
use quincy_tun.Windows.Ffi.{
  AddressRow, RouteRow, get_unicast_table, get_forward_table, free_mib_table, create_unicast,
  delete_unicast, create_forward, delete_forward, ApiReply, Ip, api, win_result, beside, with_code,
  clear_table, filter, eqb, own_address, own_default, of_index, default_of_index, delete_each,
  address_row,
}
use quincy_tun.Windows.Ffi.Tables.{
  any_same, dropped, purged, outside, Within, outside-dropped, purged-filter, mine-filter,
}
use quincy_tun.Windows.Ffi.Replace.{Tables, effect}

pub win_result_ok : (code : ℕ) → {u : Unit {0}} → win_result code ≡ ok u → code ≡ 0
unfolding win_result
win_result_ok code e = elim (Bool-cases (code == 0)) [
  | inl zero ↦ (==_iff code 0).0 zero
  | inr more ↦ let x : err (os code) ≡ ok tt = simp more at e in absurd (cc)
]

module _ (start : Tables) (h : Host ApiReply) where
  abbrev pub Does : (Tables → Type 0) → {A : Type 0} → Ip A → (Outcome A → Tables → Type 0) → Type 0
  Does P m Q = Meets effect start h P m Q

  -- Rows that are deleted one by one, whatever the table. `At` says of a state what the rows are.
  module _ {A : Type 0} (same : A → A → Bool) (mine : A → Bool) (At : List A → Tables → Type 0)
      (delete : A → Ip ℕ) where
    abbrev pub AfterOne : A → List A → Outcome ℕ → Tables → Type 0
    AfterOne d rows (ok code) s = At (if code == 0 then dropped same d rows else rows) s
    AfterOne d rows _ s = At rows s

    -- All are gone; or some, and what is outside is as it was.
    abbrev AfterAll : List A → List A → Outcome (Unit {0}) → Tables → Type 0
    AfterAll ds rows (ok u) s = At (purged same ds rows) s
    AfterAll ds rows _ s = (left : List A) × At left s × (outside mine left ≡ outside mine rows)

    abbrev Checked : A → List A → Outcome (Unit {0}) → Tables → Type 0
    Checked d rows (ok u) s = At (dropped same d rows) s
    Checked d rows _ s = At rows s

    win_result-Checked :
        (d : A) (rows : List A) (code : ℕ) (s : Tables)
        → AfterOne d rows (ok code) s
        → Checked d rows (win_result code) s
    unfolding win_result
    win_result-Checked d rows code s at = elim (Bool-cases (code == 0)) [
      | inl zero ↦ let here : At (dropped same d rows) s = simp zero at at in simp zero here
      | inr more ↦ let here : At rows s = simp more at at in simp more here
    ]

    kept :
        (d : A) (ds rows : List A)
        → Within same mine d
        → (r : Outcome (Unit {0})) (s : Tables) → AfterAll ds (dropped same d rows) r s
        → AfterAll (d ∷ ds) rows r s
    unfolding purged
    kept d ds rows w (ok u) s at = at
    kept d ds rows w (err e) s (left, at, same_out) =
        (left, at, same_out ∙ outside-dropped same mine d rows w)
    kept d ds rows w panic s (left, at, same_out) =
        (left, at, same_out ∙ outside-dropped same mine d rows w)

    delete_each-Does :
        (ds rows : List A)
        → ((d : A) (now : List A) → Does (At now) (delete d) (AfterOne d now))
        → All (Within same mine) ds
        → Does (At rows) (delete_each delete ds) (AfterAll ds rows)
    unfolding delete_each purged
    delete_each-Does [] rows one within = pure-Meets effect start h _ _ (ok tt) (λ s at. at)
    delete_each-Does (d ∷ ds) rows one within =
        bind-Meets effect start h (At rows) (AfterOne d rows) (AfterAll (d ∷ ds) rows) (delete d) _
          (one d rows)
          (λ code.
            bind-Meets effect start h (AfterOne d rows (ok code)) (Checked d rows)
              (AfterAll (d ∷ ds) rows) (pure (win_result code)) (λ _. delete_each delete ds)
              (pure-Meets effect start h _ _ (win_result code) (win_result-Checked d rows code))
              (λ u.
                weaker-Meets effect start h _ (AfterAll ds (dropped same d rows))
                  (AfterAll (d ∷ ds) rows) (delete_each delete ds)
                  (delete_each-Does ds (dropped same d rows) one within.1)
                  (kept d ds rows within.0))
              (λ e s at. (rows, at, refl)) (λ s at. (rows, at, refl)))
          (λ e s at. (rows, at, refl)) (λ s at. (rows, at, refl))

    -- The rows of the interface are gone; or some, and what is outside is as it was.
    abbrev pub Cleared : List A → Outcome (Unit {0}) → Tables → Type 0
    Cleared rows (ok u) s = At (outside mine rows) s
    Cleared rows _ s = (left : List A) × At left s × (outside mine left ≡ outside mine rows)

    -- What is known of the table once it is read, and once its code is.
    abbrev pub ReadTable : (A → Bool) → List A → Outcome (ℕ × List A) → Tables → Type 0
    ReadTable pick rows r s =
        At rows s × ((table : List A) → r ≡ ok (0, table) → filter pick table ≡ filter mine rows)

    abbrev Coded : (A → Bool) → List A → Outcome (List A) → Tables → Type 0
    Coded pick rows (ok table) s = At rows s × (filter pick table ≡ filter mine rows)
    Coded pick rows _ s = At rows s

    beside-Coded :
        (pick : A → Bool) (rows : List A) (code : ℕ) (table : List A) (s : Tables)
        (w : Outcome (Unit {0}))
        → win_result code ≡ w
        → ReadTable pick rows (ok (code, table)) s
        → Coded pick rows (beside w table) s
    beside-Coded pick rows code table s (ok u) e (at, listed) =
        (at, listed table (ap (λ c. ok (c, table)) (win_result_ok code e)))
    beside-Coded pick rows code table s (err x) e (at, listed) = at
    beside-Coded pick rows code table s panic e (at, listed) = at

    all_gone :
        (rows : List A)
        → ((d x : A) → same d x ≡ true → mine d ≡ mine x)
        → ((x : A) → same x x ≡ true)
        → (r : Outcome (Unit {0})) (s : Tables) → AfterAll (filter mine rows) rows r s
        → Cleared rows r s
    all_gone rows compat same_refl (ok u) s at =
        rw (purged-filter same mine compat same_refl rows) at at
    all_gone rows compat same_refl (err e) s at = at
    all_gone rows compat same_refl panic s at = at

    mine-Within :
        (ds : List A)
        → ((d x : A) → same d x ≡ true → mine d ≡ mine x)
        → All (λ d. mine d ≡ true) ds
        → All (Within same mine) ds
    mine-Within [] compat own = tt
    mine-Within (d ∷ ds) compat own =
        (λ x e. sym (compat d x e) ∙ own.0, mine-Within ds compat own.1)

    deletes-Does :
        (pick : A → Bool) (rows table : List A)
        → ((d : A) (now : List A) → Does (At now) (delete d) (AfterOne d now))
        → ((now : List A) → Does (At now) (api free_mib_table) (λ r s. At now s))
        → ((d x : A) → same d x ≡ true → mine d ≡ mine x)
        → ((x : A) → same x x ≡ true)
        → Does
            (Coded pick rows (ok table))
            (api free_mib_table >>= λ u. delete_each delete (filter pick table))
            (Cleared rows)
    deletes-Does pick rows table one free compat same_refl =
        let gone =
          weaker-Meets effect start h (At rows) (AfterAll (filter mine rows) rows) (Cleared rows)
            (delete_each delete (filter mine rows))
            (delete_each-Does (filter mine rows) rows one
              (mine-Within (filter mine rows) compat (mine-filter mine rows)))
            (all_gone rows compat same_refl) in
        bind-Meets effect start h (Coded pick rows (ok table)) (λ r. Coded pick rows (ok table))
          (Cleared rows) (api free_mib_table) (λ u. delete_each delete (filter pick table))
          (record { meets = λ log p. ((free rows).meets log p.0, p.1) })
          (λ u. record {
            meets = λ log p.
                subst
                  (λ ds.
                    Cleared rows (delete_each delete ds h log).1
                      (state effect start (delete_each delete ds h log).0))
                  (sym p.1) (gone.meets log p.0);
          })
          (λ e s p. (rows, p.0, refl)) (λ s p. (rows, p.0, refl))

    -- A table is cleared of the rows of the interface.
    pub clear_table-Does :
        (get_table : Ip (ℕ × List A)) (pick : A → Bool) (rows : List A)
        → Does (At rows) get_table (ReadTable pick rows)
        → ((d : A) (now : List A) → Does (At now) (delete d) (AfterOne d now))
        → ((now : List A) → Does (At now) (api free_mib_table) (λ r s. At now s))
        → ((d x : A) → same d x ≡ true → mine d ≡ mine x)
        → ((x : A) → same x x ≡ true)
        → Does (At rows) (clear_table get_table pick delete) (Cleared rows)
    unfolding clear_table
    clear_table-Does get_table pick rows got one free compat same_refl =
        bind-Meets effect start h (At rows) (ReadTable pick rows) (Cleared rows) get_table _ got
          (λ t.
            bind-Meets effect start h (ReadTable pick rows (ok t)) (Coded pick rows) (Cleared rows)
              (pure (with_code t))
              (λ table. api free_mib_table >>= λ u. delete_each delete (filter pick table))
              (pure-Meets effect start h _ _ (with_code t)
                (λ s r. beside-Coded pick rows t.0 t.1 s (win_result t.0) refl r))
              (λ table. deletes-Does pick rows table one free compat same_refl)
              (λ e s at. (rows, at, refl)) (λ s at. (rows, at, refl)))
          (λ e s at. (rows, at.0, refl)) (λ s at. (rows, at.0, refl))
