-- ===== src/Prelude.antt =====
-- The names that the other modules share: the libraries', passed on, and those of the children.
mod Tests
mod Lists
mod Equality
mod Results
pub mod Exits
pub mod Keeps
pub mod Listed
mod Maps
pub mod MapLaws
pub mod Rows
mod Text
mod Integers
pub use Tests.*
pub use Results.{
  Result, ok, err, Result-cases, Exec, continue, returned, returning, and_then, and_then-eq-ok,
  ◌>>◌,
}
unfoldable pub use Results.{pure, stop, check, attempt, with_err, reading, modify, ◌>>=◌}
pub use Integers.{ℤ, pos, negsuc}
pub use Rows.{any, find, map_where}
pub use Maps.*
unfoldable pub use Text.{decimal}
pub use Lists.*
pub use Equality.{Eq, ◌==◌, nat_eq, string_eq, ==-refl, ==→≡, ≡→==}
pub use Prim.Native.Nat.{ℕ, zero, suc, ◌+◌, ◌-◌, ◌*◌, ◌/◌, ◌%◌, ◌^◌, ◌≤◌, ◌<◌, min, max}
pub use Prim.Native.String.{String}
pub use mathlib.Core.Path.{◌≡◌, refl, sym, ap, ◌∙◌, subst}
pub use mathlib.Core.Logic.{◌≢◌, ◌↔◌, ◌⊎◌, inl, inr}
pub use mathlib.Core.Bool.{Bool, true, false, not, ◌&&◌, ◌||◌}
pub use mathlib.Core.Option.{Option, none, some}
pub use mathlib.Core.List.{List, [], ◌∷◌, ◌++◌, map}
pub use native.Mathlib.Omega.{arith}
