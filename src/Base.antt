-- ===== src/Base.antt =====
-- Names that every module shares: the libraries' types and operators, Boolean tests, lists
-- measured by native numbers, and the lemmas about them.
mod Tests
mod Lists
mod Drop
pub mod Decimal
pub mod Json
pub mod Result
pub mod Text
pub mod Sort
pub use Tests.*
pub use Lists.*
pub use Drop.*
pub use Prim.Native.Nat.{ℕ, zero, suc, ◌+◌, ◌-◌, ◌*◌, ◌/◌, ◌%◌, ◌^◌, ◌≤◌, ◌<◌, min}
pub use Prim.Native.String.{String}
pub use mathlib.Core.Path.{◌≡◌, refl, sym, ap, subst, ◌∙◌}
pub use mathlib.Core.Logic.{◌≢◌, ◌↔◌, ◌⊎◌, inl, inr}
pub use mathlib.Core.Bool.{Bool, true, false, not, ◌&&◌, ◌||◌}
pub use mathlib.Core.Option.{Option, none, some}
pub use mathlib.Core.List.{List, [], ◌∷◌, ◌++◌, map}
pub use native.Mathlib.Omega.{arith}
