-- ===== src/Base/Bits.antt =====
-- Facts about masks of a byte, by a check of all 256 values.
use Prim.Native.Nat.{ℕ, zero, suc, ◌<◌, bit_and, bit_or}
use mathlib.Core.Path.{◌≡◌, refl}
use mathlib.Core.Bool.{Bool, true, false}
use native.Mathlib.Omega.{arith}
use quincy_tun.Base.Tests.{ltb, ltb→lt, if◌then◌else◌}

-- `test` passes at every number below `n`.
holds_below : ℕ → (ℕ → Bool) → Bool
holds_below zero test = true
holds_below (suc n) test = if test n then holds_below n test else false

holds_below-lt :
    (n : ℕ) (test : ℕ → Bool) (x : ℕ) → holds_below n test ≡ true → x < n → test x ≡ true
unfolding holds_below
holds_below-lt zero test x h k = absurd (omega arith)
holds_below-lt (suc n) test x h k = ground (arith, holds_below-lt n test x)

clear_table : holds_below 256 (λ x. ltb (bit_and x 0xF6) 256) ≡ true
unfolding holds_below
clear_table = refl

psh_table : holds_below 256 (λ x. ltb (bit_or x 0x08) 256) ≡ true
unfolding holds_below
psh_table = refl

-- Clearing FIN and PSH in a byte gives a byte.
pub clear_flags-lt : (x : ℕ) → x < 256 → bit_and x 0xF6 < 256
clear_flags-lt x h = ltb→lt _ _ (holds_below-lt 256 (λ y. ltb (bit_and y 0xF6) 256) x clear_table h)

-- So does setting PSH.
pub set_psh-lt : (x : ℕ) → x < 256 → bit_or x 0x08 < 256
set_psh-lt x h = ltb→lt _ _ (holds_below-lt 256 (λ y. ltb (bit_or y 0x08) 256) x psh_table h)
