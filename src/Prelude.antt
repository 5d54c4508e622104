-- ===== src/Prelude.antt =====
-- The names that the other modules share: those of the libraries that they use, passed on, and
-- the tests, lists, results and texts of the five modules below.
mod Tests
mod Lists
mod Outcome
mod Strings
mod Splitting
unfoldable pub use Tests.*
unfoldable pub use Lists.*
pub use Outcome.*
pub use Splitting.*
unfoldable pub use Strings.*
pub use Prim.Native.Nat.{ℕ, zero, suc, ◌+◌, ◌-◌, ◌*◌, ◌/◌, ◌%◌, ◌^◌, ◌≤◌, ◌<◌}
pub use mathlib.Core.Path.{◌≡◌, refl, sym, ap, ap₂, ◌∙◌, subst}
pub use mathlib.Core.Logic.{◌≢◌, ◌↔◌, ◌⊎◌, inl, inr}
pub use mathlib.Core.Bool.{Bool, true, false, ◌&&◌, ◌||◌, not}
pub use mathlib.Core.Option.{Option, none, some}
pub use mathlib.Core.List.{List, [], ◌∷◌, ◌++◌, map, reverse, append-nil, append_assoc}
pub use native.Mathlib.Omega.{arith}
