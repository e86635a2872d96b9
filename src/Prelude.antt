-- ===== src/Prelude.antt =====
-- The names that the other modules share: those of the libraries, and those of the modules below.
mod Tests
mod Lists
pub mod Outcome
pub mod Strings
pub use Tests.*
unfoldable pub use Lists.{lookup, insert, remove, update_rows}
pub use Lists.{
  length, take, any, find, filter, length-append, All, All-map, All-snoc, Assoc, lookup-insert,
  lookup-remove, update,
}
pub use Prim.Native.Nat.{ℕ, zero, suc, ◌+◌, ◌-◌, ◌*◌, ◌/◌, ◌%◌, ◌^◌, ◌≤◌, ◌<◌}
pub use Prim.Native.String.{String}
pub use mathlib.Core.Path.{◌≡◌, refl, sym, ap, ◌∙◌}
pub use mathlib.Core.Logic.{◌≢◌, ◌↔◌, ◌⊎◌, inl, inr}
pub use mathlib.Core.Bool.{Bool, true, false, not, ◌&&◌, ◌||◌}
pub use mathlib.Core.Option.{Option, none, some}
pub use mathlib.Core.List.{List, [], ◌∷◌, ◌++◌, map}
pub use native.Mathlib.Omega.{arith}
pub use text.Mathlib.Text.{◌==◌ as str_eq}
pub use text.Mathlib.TextEquality.{eq_iff}
pub use text.Mathlib.TextPositions.{eq_refl}
