-- ===== src/Base.antt =====
-- The names that every module of the development shares: the libraries', passed on, with the
-- tests, lists, C-string memory, stores, text and finite checks of its child modules.
mod Tests
mod Lists
mod Memory
mod Store
mod Text
mod Finite
pub use Tests.*
pub use Lists.*
pub use Memory.*
pub use Store.*
pub use Text.*
pub use Finite.*
pub use Prim.Native.Nat.{ℕ, zero, suc, ◌+◌, ◌-◌, ◌*◌, ◌/◌, ◌%◌, ◌^◌, ◌≤◌, ◌<◌, min}
pub use mathlib.Core.Path.{◌≡◌, refl, sym, ap, ap₂, subst, subst₂, ◌∙◌}
pub use mathlib.Core.Logic.{◌≢◌, ◌↔◌, ◌⊎◌, inl, inr}
pub use mathlib.Core.Bool.{Bool, true, false, not, ◌&&◌, ◌||◌}
pub use mathlib.Core.Option.{Option, none, some}
pub use mathlib.Core.List.{List, [], ◌∷◌, ◌++◌, map, reverse, append-nil, append_assoc}
pub use native.Mathlib.Omega.{arith}
