-- ===== src/Prelude.antt =====
-- The names that every other module shares: those of the libraries, passed on, and the tests, the
-- texts and the tables of the child modules.
mod Tests
mod Texts
mod Rows
mod Everywhere
pub mod Keyed
mod Sorting
mod Decimals
mod Options
pub use Tests.*
unfoldable pub use Texts.*
unfoldable pub use Rows.*
unfoldable pub use Sorting.*
unfoldable pub use Decimals.*
pub use Options.*
pub use Everywhere.*
pub use Prim.Native.Nat.{ℕ, zero, suc, ◌+◌, ◌-◌, ◌*◌, ◌/◌, ◌%◌, ◌≤◌, ◌<◌}
pub use mathlib.Core.Path.{◌≡◌, refl, sym, ap, ◌∙◌, subst}
pub use mathlib.Core.Logic.{◌≢◌, ◌↔◌, ◌⊎◌, inl, inr}
pub use mathlib.Core.Bool.{Bool, true, false, ◌&&◌, ◌||◌, not}
pub use mathlib.Core.Option.{Option, none, some}
pub use mathlib.Core.List.{List, [], ◌∷◌, ◌++◌, map}
pub use native.Mathlib.Omega.{arith}
