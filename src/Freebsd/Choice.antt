-- ===== src/Freebsd/Choice.antt =====
-- Which device node is opened where no name is given.
use quincy_tun.Base.{
  ℕ, zero, suc, ◌+◌, ◌-◌, ◌<◌, ◌≡◌, sym, ap, ◌∙◌, arith, List, [], ◌∷◌, ◌++◌, append_assoc,
  append-nil, Outcome, none, ok, err, os,
}
use quincy_tun.Host.{Host, Event}
use quincy_tun.Freebsd.{open_path, BsdReply, ebusy, open_any, tried, open_node}

-- The log of `k` attempts from the number `i` on that all found a busy device.
unfoldable pub all_busy : ℕ → ℕ → List (Event BsdReply)
all_busy zero i = []
all_busy (suc k) i = (open_path i, err (os ebusy)) ∷ all_busy k (i + 1)

-- The devices from `i` on are busy, for `k` of them.
abbrev pub Busy : Host BsdReply → ℕ → ℕ → Type 0
Busy h i k =
    (j : ℕ) → j < k → (log : List (Event BsdReply)) → h log (open_path (i + j)) ≡ err (os ebusy)

open_any-Busy :
    (h : Host BsdReply) (k n m i : ℕ) (log : List (Event BsdReply))
    → Busy h i k
    → m ≡ k + n
    → open_any m i h log ≡ open_any n (i + k) h (log ++ all_busy k i)
unfolding open_any tried all_busy
open_any-Busy h zero n m i log busy e =
    let same : m ≡ n = omega (arith, e) in
    let here : i + 0 ≡ i = omega arith in
    ap (λ j. open_any j i h log) same
    ∙ ap (λ j. open_any n j h log) (sym here)
    ∙ ap (λ t. open_any n (i + 0) h t) (sym (append-nil log))
open_any-Busy h (suc k) n zero i log busy e = absurd (omega (arith, e))
open_any-Busy h (suc k) n (suc m) i log busy e =
    let here : i + 0 ≡ i = omega arith in
    let first0 : h log (open_path (i + 0)) ≡ err (os ebusy) = busy 0 (omega arith) log in
    let first : h log (open_path i) ≡ err (os ebusy) = rw here at first0 in
    let later : Busy h (i + 1) k = λ j l log'.
      let shift : i + suc j ≡ i + 1 + j = omega arith in
      let b : h log' (open_path (i + suc j)) ≡ err (os ebusy) =
        busy (suc j) (omega (arith, l)) log' in
      rw shift at b in
    let gone : Outcome ℕ → List (Event BsdReply) × Outcome ℕ =
      λ r. tried (open_any m (i + 1)) r h (log ++ (open_path i, r) ∷ []) in
    let at : i + 1 + k ≡ i + suc k = omega arith in
    ap gone first
    ∙ open_any-Busy h k n m (i + 1) (log ++ (open_path i, err (os ebusy)) ∷ []) later
        (omega (arith, e))
    ∙ ap (λ j. open_any n j h (log ++ (open_path i, err (os ebusy)) ∷ [] ++ all_busy k (i + 1))) at
    ∙ ap (λ t. open_any n (i + suc k) h t)
        (append_assoc log ((open_path i, err (os ebusy)) ∷ []) (all_busy k (i + 1)))

zero_plus : (n : ℕ) → 0 + n ≡ n
zero_plus n = omega arith

-- Without a name, where the first `k` of the 256 device nodes are busy and the next one opens, that one
-- is opened, after one attempt at each of those before it, and nothing is asked of any other.
pub open_node-first :
    (h : Host BsdReply) (k fd : ℕ) (log : List (Event BsdReply))
    → k < 256
    → Busy h 0 k
    → h (log ++ all_busy k 0) (open_path k) ≡ ok fd
    → open_node none h log ≡ (log ++ all_busy k 0 ++ (open_path k, ok fd) ∷ [], ok fd)
unfolding open_node open_any tried
open_node-first h k fd log few busy opens =
    let rest : 256 ≡ k + suc (255 - k) = omega (arith, few) in
    let at : 0 + k ≡ k = zero_plus k in
    let last : Outcome ℕ → List (Event BsdReply) × Outcome ℕ =
      λ r. tried (open_any (255 - k) (k + 1)) r h (log ++ all_busy k 0 ++ (open_path k, r) ∷ []) in
    open_any-Busy h k (suc (255 - k)) 256 0 log busy rest
    ∙ ap (λ j. open_any (suc (255 - k)) j h (log ++ all_busy k 0)) at
    ∙ ap last opens
