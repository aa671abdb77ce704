-- ===== src/Prelude.antt =====
-- The names that all modules share: those of the libraries in use, passed on, and the project's
-- helpers on tests, lists, dictionaries and methods that may raise.
mod Tests
mod Lists
pub mod Dict
pub mod Exec
pub mod Keeps
pub mod Number
pub mod Naturals
pub mod Int
pub mod Integers
pub use Tests.*
pub use Lists.*
pub use Prim.Native.Nat.{ℕ, zero, suc, ◌+◌, ◌-◌, ◌*◌, ◌/◌, ◌≤◌, ◌<◌}
pub use mathlib.Core.Path.{◌≡◌, refl, sym, ap, ◌∙◌}
pub use mathlib.Core.Logic.{◌≢◌, ◌↔◌, ◌⊎◌, inl, inr}
pub use mathlib.Core.Bool.{Bool, true, false, not, ◌&&◌, ◌||◌}
pub use mathlib.Core.Option.{Option, none, some}
pub use mathlib.Core.List.{List, [], ◌∷◌, ◌++◌, map}
pub use native.Mathlib.Omega.{arith}
