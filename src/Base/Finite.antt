-- ===== src/Base/Finite.antt =====
-- Facts about numbers below a bound, by testing them all.
use Prim.Native.Nat.{ℕ, zero, suc, ◌<◌}
use mathlib.Core.Path.{◌≡◌, sym, subst, ap}
use mathlib.Core.Logic.{inl, inr}
use mathlib.Core.Bool.{Bool, true, false, ◌&&◌}
use mathlib.Core.Option.{Option, none, some}
use native.Mathlib.Omega.{arith}
use wio_lite_ai.Base.Tests.{◌==◌, Bool-cases}

-- A test of all the numbers below `n`.
abbrev pub all_below : ℕ → (ℕ → Bool) → Bool
all_below zero p = true
all_below (suc n) p = p n && all_below n p

pub all_below-true : (n : ℕ) (p : ℕ → Bool) (d : ℕ) → all_below n p ≡ true → d < n → p d ≡ true
all_below-true zero p d e h = absurd (omega arith)
all_below-true (suc n) p d e h = elim (Bool-cases (d == n)) [
  | inl y ↦
      let here : d ≡ n = ground (arith, y) in
      let last : p n ≡ true = ground (arith, e) in subst (λ i. p i ≡ true) (sym here) last
  | inr q ↦ all_below-true n p d (ground (arith, e)) (ground (arith, q, h))
]

abbrev pub is_some : ℕ → Option ℕ → Bool
is_some d none = false
is_some d (some x) = x == d

pub is_some-eq : (d : ℕ) (o : Option ℕ) → is_some d o ≡ true → o ≡ some d
is_some-eq d none e = ground (arith, e)
is_some-eq d (some x) e = ap some (ground (arith, e))
