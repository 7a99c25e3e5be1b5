-- ===== src/Common.antt =====
-- Names that every other module takes: the libraries' names in use, passed on, and the helpers of
-- the children (tests, rows of a table, results, text).
mod Tests
mod Rows
mod Keys
mod Found
mod Lookups
mod Outcome
mod Letters
pub use Tests.*
unfoldable pub use Rows.*
pub use Keys.*
pub use Found.*
pub use Lookups.*
pub use Outcome.*
unfoldable pub use Letters.*
pub use Prim.Native.Nat.{ℕ, zero, suc, ◌+◌, ◌-◌, ◌*◌, ◌^◌, ◌≤◌, ◌<◌, min, max}
pub use Prim.Native.String.{String}
pub use mathlib.Core.Path.{◌≡◌, refl, sym, ap, ◌∙◌, subst}
pub use mathlib.Core.Logic.{◌≢◌, ◌⊎◌, inl, inr}
pub use mathlib.Core.Bool.{Bool, true, false, not, ◌&&◌, ◌||◌}
pub use mathlib.Core.Option.{Option, none, some}
pub use mathlib.Core.List.{List, [], ◌∷◌, ◌++◌, map}
pub use native.Mathlib.Omega.{arith}
pub use text.Mathlib.Text.{◌==◌}
pub use text.Mathlib.TextEquality.{eq_iff}
pub use text.Mathlib.TextPositions.{eq_refl}
