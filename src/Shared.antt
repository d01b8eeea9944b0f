-- ===== src/Shared.antt =====
-- The names that the other modules share: the libraries', passed on, and those of seven children.
pub mod Tests
pub mod Lists
pub mod OrderedMap
pub mod OrderedSet
pub mod Results
pub mod Text
pub mod Decimal
pub use Prim.Native.Nat.{ℕ, zero, suc, ◌+◌, ◌-◌, ◌*◌, ◌/◌, ◌%◌, ◌^◌, ◌≤◌, ◌<◌}
pub use mathlib.Core.Path.{◌≡◌, refl, sym, ap, subst, ◌∙◌}
pub use mathlib.Core.Logic.{◌≢◌, ◌↔◌, ◌⊎◌, inl, inr}
pub use mathlib.Core.Bool.{Bool, true, false, not, ◌&&◌, ◌||◌}
pub use mathlib.Core.Option.{Option, none, some}
pub use mathlib.Core.List.{List, [], ◌∷◌, ◌++◌, map, reverse}
pub use native.Mathlib.Omega.{arith}
pub use Tests.{ltb, leb, ◌==◌, if◌then◌else◌, is_some, Bool-cases, Option-cases, ==_iff, ==_refl}
pub use Lists.{length, length-append, All, All-append}
pub use Results.{Exception, invalid_argument, out_of_range, Result, ok, raise, ◌>>=◌}

-- A vector of bytes, or the bytes of a std::string.
abbrev pub Bytes : Type 0
Bytes = List ℕ
