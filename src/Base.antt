-- ===== src/Base.antt =====
-- The names that every module shares: the library's, passed on, and those of the children:
-- Boolean tests and decidable equality, lists measured by native numbers, Go's maps, and
-- unsigned 64-bit arithmetic.
pub mod Tests
pub mod Lists
pub mod Maps
pub mod Words
pub mod Int
pub mod Results
pub use Tests.*
pub use Lists.*
unfoldable pub use Maps.*
pub use Words.*
unfoldable pub use Int.*
pub use Prim.Native.Nat.{ℕ, zero, suc, ◌+◌, ◌-◌, ◌*◌, ◌/◌, ◌%◌, ◌^◌, ◌≤◌, ◌<◌}
pub use Prim.Native.String.{String}
pub use mathlib.Core.Path.{◌≡◌, refl, sym, ap, subst, ◌∙◌}
pub use mathlib.Core.Logic.{◌≢◌, ◌↔◌, ◌⊎◌, inl, inr}
pub use mathlib.Core.Bool.{Bool, true, false, not, ◌&&◌, ◌||◌}
pub use mathlib.Core.Option.{Option, none, some}
pub use mathlib.Core.List.{List, [], ◌∷◌, ◌++◌, map}
pub use native.Mathlib.Omega.{arith}
