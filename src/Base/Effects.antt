-- ===== src/Base/Effects.antt =====
-- How a Rust function of the crate ends: with a value, with an `io::Error`, or in a panic.
-- Of an error the kind is kept (with the errno of one that the system gave), not its text.
use Prim.Native.Nat.{ℕ}
use mathlib.Core.Path.{◌≡◌, refl}
use mathlib.Core.Bool.{Bool, true, false, not}
use quincy_tun.Base.Tests.{if◌then◌else◌}

pub data ErrorKind : Type 0 where
  invalid_input invalid_data already_exists other : ErrorKind
  would_block write_zero unexpected_eof timed_out interrupted unsupported : ErrorKind
  os : ℕ → ErrorKind

pub data Outcome {ℓ} (A : Type ℓ) : Type ℓ where
  ok : A → Outcome A
  err : ErrorKind → Outcome A
  panic : Outcome A

infixl 5 ◌>>=◌ ◌>>◌
abbrev pub ◌>>=◌ {ℓ κ} : {A : Type ℓ} {B : Type κ} → Outcome A → (A → Outcome B) → Outcome B
ok a >>= f = f a
err e >>= f = err e
panic >>= f = panic

abbrev pub ◌>>◌ {ℓ} : {B : Type ℓ} → Outcome (Unit {0}) → Outcome B → Outcome B
m >> k = m >>= λ _. k

-- `if !test { return Err(e) }`
abbrev pub guard : Bool → ErrorKind → Outcome (Unit {0})
guard true e = ok tt
guard false e = err e

-- An `assert`, or an index check: a panic unless the test holds.
abbrev pub expect : Bool → Outcome (Unit {0})
expect true = ok tt
expect false = panic

-- The run returns a value, and `P` holds of it.
abbrev pub Returns {ℓ} : {A : Type ℓ} → Outcome A → (A → Type 0) → Type 0
Returns (ok a) P = P a
Returns (err e) P = ⊥
Returns panic P = ⊥

pub Returns-bind {ℓ κ} :
    {A : Type ℓ} {B : Type κ} (m : Outcome A) (f : A → Outcome B) (P : A → Type 0) (Q : B → Type 0)
    → Returns m P
    → ((a : A) → P a → Returns (f a) Q)
    → Returns (m >>= f) Q
Returns-bind (ok a) f P Q h k = k a h
Returns-bind (err e) f P Q h k = absurd h
Returns-bind panic f P Q h k = absurd h

pub Returns-mono {ℓ} :
    {A : Type ℓ} (m : Outcome A) (P Q : A → Type 0)
    → Returns m P
    → ((a : A) → P a → Q a)
    → Returns m Q
Returns-mono (ok a) P Q h k = k a h
Returns-mono (err e) P Q h k = absurd h
Returns-mono panic P Q h k = absurd h

-- A test that is not known: each branch under its own equation.
pub Returns-not :
    {A : Type 0} (b : Bool) (m n : Outcome A) (P : A → Type 0)
    → (b ≡ true → Returns n P)
    → (b ≡ false → Returns m P)
    → Returns (if not b then m else n) P
Returns-not true m n P h k = h refl
Returns-not false m n P h k = k refl

pub Returns-if :
    {A : Type 0} (b : Bool) (m n : Outcome A) (P : A → Type 0)
    → (b ≡ true → Returns m P)
    → (b ≡ false → Returns n P)
    → Returns (if b then m else n) P
Returns-if true m n P h k = h refl
Returns-if false m n P h k = k refl

-- The run ends without a panic: `P` holds of its value, or `E` of its error.
abbrev pub Ends {ℓ} : {A : Type ℓ} → Outcome A → (A → Type 0) → (ErrorKind → Type 0) → Type 0
Ends (ok a) P E = P a
Ends (err e) P E = E e
Ends panic P E = ⊥

pub Ends-bind {ℓ κ} :
    {A : Type ℓ} {B : Type κ} (m : Outcome A) (f : A → Outcome B) (P : A → Type 0)
    (E E' : ErrorKind → Type 0) (Q : B → Type 0)
    → Ends m P E
    → ((a : A) → P a → Ends (f a) Q E')
    → ((e : ErrorKind) → E e → E' e)
    → Ends (m >>= f) Q E'
Ends-bind (ok a) f P E E' Q h k l = k a h
Ends-bind (err e) f P E E' Q h k l = l e h
Ends-bind panic f P E E' Q h k l = absurd h

pub Ends-of_Returns {ℓ} :
    {A : Type ℓ} (m : Outcome A) (P : A → Type 0) (E : ErrorKind → Type 0)
    → Returns m P
    → Ends m P E
Ends-of_Returns (ok a) P E h = h
Ends-of_Returns (err e) P E h = absurd h
Ends-of_Returns panic P E h = absurd h

pub Returns-of_Ends {ℓ} :
    {A : Type ℓ} (m : Outcome A) (P : A → Type 0) (E : ErrorKind → Type 0)
    → Ends m P E
    → ((e : ErrorKind) → E e → ⊥)
    → Returns m P
Returns-of_Ends (ok a) P E h k = h
Returns-of_Ends (err e) P E h k = k e h
Returns-of_Ends panic P E h k = h
