-- ===== src/Base/Tables.antt =====
-- A claim about small numbers, checked at every value by evaluation.
use Prim.Native.Nat.{ℕ, zero, suc, ◌<◌}
use mathlib.Core.Path.{◌≡◌}
use mathlib.Core.Bool.{Bool, true, ◌&&◌}
use native.Mathlib.Omega.{arith}

unfoldable pub every_below : ℕ → (ℕ → Bool) → Bool
every_below zero test = true
every_below (suc n) test = every_below n test && test n

module _ (test : ℕ → Bool) where
  every_below_at : (bound k : ℕ) → every_below bound test ≡ true → k < bound → test k ≡ true
  unfolding every_below
  every_below_at zero k checked small = absurd (omega arith)
  every_below_at (suc bound) k checked small = ground (arith, every_below_at bound k)

-- What was found of every number below a bound holds of each.
pub every_below_sound :
    (bound : ℕ) (test : ℕ → Bool) (k : ℕ)
    → every_below bound test ≡ true
    → k < bound
    → test k ≡ true
every_below_sound bound test k = every_below_at test bound k
