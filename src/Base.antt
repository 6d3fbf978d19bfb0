-- ===== src/Base.antt =====
-- Names that every module shares: the libraries' and those of the child modules.
mod Tests
mod Lists
mod Str
mod Trim
mod Ids
mod Distinct
mod Calendar
mod Decimal
mod Rounding
pub use Tests.*
pub use Lists.*
unfoldable pub use Distinct.*
unfoldable pub use Str.*
unfoldable pub use Trim.*
unfoldable pub use Ids.*
unfoldable pub use Calendar.*
unfoldable pub use Decimal.*
unfoldable pub use Rounding.*
pub use Prim.Native.Nat.{ℕ, zero, suc, ◌+◌, ◌-◌, ◌*◌, ◌/◌, ◌%◌, ◌≤◌, ◌<◌, min, max}
pub use mathlib.Core.Path.{◌≡◌, refl, sym, ap, ◌∙◌}
pub use mathlib.Core.Logic.{◌≢◌, ◌↔◌, ◌⊎◌, inl, inr}
pub use mathlib.Core.Bool.{Bool, true, false, not, ◌&&◌, ◌||◌}
pub use mathlib.Core.Option.{Option, none, some}
pub use mathlib.Core.List.{List, [], ◌∷◌, ◌++◌, map}
pub use native.Mathlib.Omega.{arith}
