-- ===== src/Base.antt =====
-- The names that the development's modules share: the libraries', passed on, the Boolean tests,
-- lists over the native numbers, byte strings, and the times of the clocks.
pub mod Bools
pub mod Lists
pub mod Text
pub mod Integers
pub mod Clock
pub use Bools.*
pub use Lists.*
unfoldable pub use Text.{bytes_eq, find}
pub use Text.{
  Bytes, codes, is_empty, upto, Lacks, is_absent, is_absent-Lacks, eq_of_bytes_eq, bytes_eq_refl,
  bytes_eq_iff, bytes_eq_of_ne,
}
pub use Prim.Native.Nat.{ℕ, zero, suc, ◌+◌, ◌-◌, ◌*◌, ◌/◌, ◌%◌, ◌^◌, ◌≤◌, ◌<◌, max, min}
pub use mathlib.Core.Path.{◌≡◌, refl, sym, ap, ap₂, ◌∙◌, subst}
pub use mathlib.Core.Logic.{◌≢◌, ◌↔◌, ◌⊎◌, inl, inr}
pub use mathlib.Core.Bool.{Bool, true, false, not, ◌&&◌, ◌||◌}
pub use mathlib.Core.Option.{Option, none, some, some-injective}
pub use mathlib.Core.List.{List, [], ◌∷◌, ◌++◌, append_assoc, append-nil, map}
pub use native.Mathlib.Omega.{arith}
