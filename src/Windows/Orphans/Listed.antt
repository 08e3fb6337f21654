-- ===== src/Windows/Orphans/Listed.antt =====
-- What the search for an orphaned adapter finds among the devices that the system lists.
use quincy_tun.Base.{
  ℕ, ◌<◌, ◌≡◌, List, [], ◌∷◌, ◌++◌, Bool, false, not, ◌&&◌, ◌==◌, bit_and, Option, none, some,
  Outcome, ok,
}
use quincy_tun.Host.{Event, Host, next, pure}
use quincy_tun.Net.{Text}
use quincy_tun.Linux.Addresses.{eq_text}
use quincy_tun.Windows.Wintun.{
  DllReply, not_null, get_last_error, enum_device_info, get_devnode_status, get_name_size,
  get_name_property,
}
use quincy_tun.Windows.Orphans.{before_nul}

-- The `n` devices of a list: each has a status, unless there is none, and a name, unless it cannot be
-- read. The system answers so whenever it is asked.
pub record IsListed (h : Host DllReply) (devs n : ℕ) (status : ℕ → Option ℕ)
    (wide : ℕ → Option Text) : Type 0 where
  pub device : ℕ → ℕ
  pub size : ℕ → ℕ
  pub listed :
      (j : ℕ) (log : List (Event DllReply))
      → j < n
      → h log (enum_device_info devs j) ≡ ok (some (device j))
  pub past : (log : List (Event DllReply)) → h log (enum_device_info devs n) ≡ ok none
  -- `ERROR_NO_MORE_ITEMS`, and `ERROR_INSUFFICIENT_BUFFER` below
  pub no_more_items :
      (log : List (Event DllReply))
      → h (log ++ (enum_device_info devs n, h log (enum_device_info devs n)) ∷ []) get_last_error
        ≡ ok 259
  pub status_of :
      (j : ℕ) (log : List (Event DllReply))
      → j < n
      → h log (get_devnode_status (device j)) ≡ ok (status j)
  pub sized :
      (j : ℕ) (log : List (Event DllReply))
      → j < n
      → h log (get_name_size devs (device j)) ≡ ok (false, size j)
  pub insufficient :
      (j : ℕ) (log : List (Event DllReply))
      → j < n
      → h
          (log ++ (get_name_size devs (device j), h log (get_name_size devs (device j))) ∷ [])
          get_last_error
        ≡ ok 122
  pub name_of :
      (j : ℕ) (log : List (Event DllReply))
      → j < n
      → h log (get_name_property devs (device j) (size j)) ≡ ok (wide j)
  pub last_error : (log : List (Event DllReply)) → (e : ℕ) × (h log get_last_error ≡ ok e)

module _ (lossy : Text → Text) (name : Text) where
  -- An orphan of the name: it has a problem (0x400), and its name up to the first NUL is that one.
  abbrev pub is_orphan : Option ℕ → Option Text → Bool
  is_orphan (some status) (some wide) =
      not (bit_and status 0x400 == 0) && eq_text name (lossy (before_nul wide))
  is_orphan _ _ = false

  module _ (h : Host DllReply) (devs n : ℕ) (status : ℕ → Option ℕ) (wide : ℕ → Option Text)
      (l : IsListed h devs n status wide) where
    module _ (j : ℕ) (small : j < n) where
      -- The outcome of reading the name, by the property.
      name_of_property : (w : Option Text) (log : List (Event DllReply)) → Outcome Text
      name_of_property w log =
          (next (λ x. pure (ok (lossy (before_nul x)))) h (not_null w h log).0
            (not_null w h log).1).1
