-- ===== src/Base.antt =====
-- The names that all modules share: the libraries', passed on, and those of the children, which hold
-- the meaning of the Python operators and of the SQL statements that the program is written with.
mod Equality
mod Numbers
mod Lists
pub mod Strings
pub mod Sorting
pub mod Distinct
pub mod Dict
pub mod Table
unfoldable pub use Equality.*
pub use Numbers.*
pub use Lists.*
pub use Prim.Native.Nat.{ℕ, zero, suc, ◌+◌, ◌-◌, ◌*◌, ◌/◌, ◌%◌, ◌≤◌, ◌<◌}
pub use mathlib.Core.Path.{◌≡◌, refl, sym, ap, ◌∙◌}
pub use mathlib.Core.Logic.{◌≢◌, ◌↔◌, ◌⊎◌, inl, inr}
pub use mathlib.Core.Bool.{Bool, true, false, not, ◌&&◌, ◌||◌}
pub use mathlib.Core.Option.{Option, none, some}
pub use mathlib.Core.List.{List, [], ◌∷◌, ◌++◌, map, append-nil, append_assoc}
pub use native.Mathlib.Omega.{arith}
