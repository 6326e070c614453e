-- ===== src/Prelude.antt =====
-- What every module shares: the libraries' names, Boolean tests on numbers, and lists measured by
-- the native numbers. A database table is a list of rows; `update_where` is SQL's UPDATE.
mod Tests
mod Lists
mod Filters
mod Tables
mod Keys
pub use Tests.*
unfoldable pub use Lists.*
pub use Filters.*
pub use Tables.*
pub use Keys.*
pub use Prim.Native.Nat.{
  ℕ, zero, suc, ◌+◌, ◌-◌, ◌*◌, ◌/◌, ◌%◌, ◌^◌, ◌≤◌, ◌<◌, min, max, Ordering, compare,
}
pub use Prim.Native.String.{String}
pub use mathlib.Core.Path.{◌≡◌, refl, sym, ap, ◌∙◌, subst}
pub use mathlib.Core.Logic.{◌≢◌, ◌↔◌, ◌⊎◌, inl, inr}
pub use mathlib.Core.Bool.{Bool, true, false, not, ◌&&◌, ◌||◌}
pub use mathlib.Core.Option.{Option, none, some}
pub use mathlib.Core.List.{List, [], ◌∷◌, ◌++◌, map, Memᴰ}
pub use native.Mathlib.Omega.{arith}
