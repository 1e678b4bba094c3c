-- ===== src/Prelude.antt =====
-- Names that every other module shares: those of the libraries, passed on, the Boolean tests on
-- the native numbers, and the tables of the database as lists of rows. It models no code.
mod Tests
pub mod Tables
pub mod Keys
pub mod Order
pub use Tests.*
pub use Prim.Native.Nat.{ℕ, zero, suc, ◌+◌, ◌-◌, ◌*◌, ◌/◌, ◌%◌, ◌≤◌, ◌<◌}
pub use Prim.Native.String.{String}
pub use mathlib.Core.Path.{◌≡◌, refl, sym, ap, subst, ◌∙◌}
pub use mathlib.Core.Logic.{◌≢◌, ◌↔◌, ◌⊎◌, inl, inr}
pub use mathlib.Core.Bool.{Bool, true, false, not, ◌&&◌, ◌||◌}
pub use mathlib.Core.Option.{Option, none, some}
pub use mathlib.Core.List.{List, [], ◌∷◌, ◌++◌, map}
pub use native.Mathlib.Omega.{arith}
pub use text.Mathlib.Text.{◌==◌ as str_eq}
pub use text.Mathlib.TextEquality.{eq_iff}
pub use text.Mathlib.TextPositions.{eq_refl}
unfoldable pub use native.Mathlib.Decide.{dec_lt, ℕ_discrete}

-- A UUID (models/base.py, UUIDPrimaryKeyMixin), which the program only compares.
abbrev pub Uuid : Type 0
Uuid = ℕ

-- A moment in UTC, in microseconds from a fixed one; a `timedelta` is a number of microseconds.
abbrev pub DateTime : Type 0
DateTime = ℕ

-- A calendar day, as its ordinal.
abbrev pub Date : Type 0
Date = ℕ
