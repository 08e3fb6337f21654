-- ===== src/Unix/Owned.antt =====
-- An owner closes its descriptor once, and only its own.
use quincy_tun.Base.{ℕ, ◌≡◌, refl, List, [], ◌∷◌, ◌++◌, Bool, true, false, ok}
use quincy_tun.Host.{Host, Event, ◌>>=◌}
use quincy_tun.Unix.{at, minus_one, close, LibcReply, into_raw_fd, drop_fd}

-- An owner that is dropped closes its descriptor, and closes nothing when it is dropped again; one
-- that borrows its descriptor closes nothing; and one that has given it away closes nothing, and
-- gave away the one it had.
pub drop_fd-once :
    (n : ℕ) (borrow : Bool) (h : Host LibcReply) (log : List (Event LibcReply))
    → ((drop_fd (record { inner = at n; borrow = false }) >>= drop_fd) h log ≡ (
      log ++ (close (at n), h log (close (at n))) ∷ [],
      ok (record { inner = minus_one; borrow = false }),
    ))
      × ((drop_fd (record { inner = at n; borrow = true }) h log).0 ≡ log)
      × ((drop_fd (into_raw_fd (record { inner = at n; borrow = borrow })).1 h log).0 ≡ log)
      × ((into_raw_fd (record { inner = at n; borrow = borrow })).0 ≡ at n)
unfolding drop_fd into_raw_fd
drop_fd-once n true h log = (refl, refl, refl, refl)
drop_fd-once n false h log = (refl, refl, refl, refl)
