-- ===== src/Base.antt =====
-- The names that every component shares: the libraries' names passed on, Boolean tests, tables,
-- signed amounts, JSON payloads and the session monad. The code of the repository stands on
-- SQLAlchemy sessions (backend/app/core/database.py) and on JSON columns.
mod Tests
pub mod Tables
pub mod Keys
pub mod Queries
pub mod Signed
pub mod Exec
pub mod Text
pub mod Lists
pub use Tests.*
pub use Prim.Native.Nat.{ℕ, zero, suc, ◌+◌, ◌-◌, ◌*◌, ◌/◌, ◌%◌, ◌≤◌, ◌<◌}
pub use Prim.Native.String.{String}
pub use mathlib.Core.Path.{◌≡◌, refl, sym, ap, ◌∙◌}
pub use mathlib.Core.Logic.{◌≢◌, ◌↔◌, ◌⊎◌, inl, inr}
pub use mathlib.Core.Bool.{Bool, true, false, not, ◌&&◌, ◌||◌}
pub use mathlib.Core.Option.{Option, none, some}
pub use mathlib.Core.List.{List, [], ◌∷◌, ◌++◌, map}
pub use native.Mathlib.Omega.{arith}
pub use text.Mathlib.Text.{◌==◌ as str_eq}
pub use text.Mathlib.TextEquality.{eq_iff}
