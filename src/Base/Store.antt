-- ===== src/Base/Store.antt =====
-- A store of objects as a function from their addresses.
use Prim.Native.Nat.{ℕ}
use mathlib.Core.Path.{◌≡◌}
use mathlib.Core.Logic.{◌≢◌}
use native.Mathlib.Omega.{arith}
use wio_lite_ai.Base.Tests.{◌==◌, if◌then◌else◌}

module _ {ℓ} {A : Type ℓ} where
  abbrev pub update : (ℕ → A) → ℕ → A → ℕ → A
  update h p v = λ q. if q == p then v else h q

  pub update_self : (h : ℕ → A) (p : ℕ) (v : A) → update h p v p ≡ v
  update_self h p v = ground arith

  pub update-ne : (h : ℕ → A) (p : ℕ) (v : A) (q : ℕ) → q ≢ p → update h p v q ≡ h q
  update-ne h p v q e = ground arith
