-- ===== src/Prelude.antt =====
-- Names that the modules share: the libraries', passed on, and those of the children.
-- `Tests` has the Boolean tests on numbers, `Int` the signed integers, `Run` the outcome of code
-- that may fault, `Text` the byte strings, and `First` the search of an array.
mod Tests
pub mod Int
pub mod Run
pub mod Text
pub mod First
pub mod Differences
pub use Tests.*
pub use Prim.Native.Nat.{ℕ, zero, suc, ◌+◌, ◌-◌, ◌*◌, ◌/◌, ◌%◌, ◌^◌, ◌≤◌, ◌<◌, min, max}
pub use mathlib.Core.Path.{◌≡◌, refl, sym, ap, ◌∙◌, subst}
pub use mathlib.Core.Logic.{◌≢◌, ◌↔◌, ◌⊎◌, inl, inr}
pub use mathlib.Core.Bool.{Bool, true, false, not, ◌&&◌, ◌||◌}
pub use mathlib.Core.Option.{Option, none, some}
pub use mathlib.Core.List.{List, [], ◌∷◌, ◌++◌, map}
pub use native.Mathlib.Omega.{arith}
