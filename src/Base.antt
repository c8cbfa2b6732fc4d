-- ===== src/Base.antt =====
-- The names that the other modules share: the libraries', passed on, and those of the children.
-- Texts of the program are Go strings, that is byte sequences (Base/Strings); maps are association
-- lists (Base/Dict).
mod Tests
mod Lists
mod Strings
pub mod Dict
pub mod Int
pub mod Int64
pub use Tests.*
pub use Lists.*
pub use Strings.*
unfoldable pub use Lists.{filter_by}
unfoldable pub use Strings.{str_eq, lit, has_prefix, has_byte, split_on, join_with}
pub use Prim.Native.Nat.{ℕ, zero, suc, ◌+◌, ◌-◌, ◌*◌, ◌/◌, ◌%◌, ◌^◌, ◌≤◌, ◌<◌, min}
pub use mathlib.Core.Path.{◌≡◌, refl, sym, ap, ◌∙◌, subst, fun_ext}
pub use mathlib.Core.Logic.{◌≢◌, ◌↔◌, ◌⊎◌, inl, inr}
pub use mathlib.Core.Bool.{Bool, true, false, not, ◌&&◌, ◌||◌}
pub use mathlib.Core.Option.{Option, none, some}
pub use mathlib.Core.List.{List, [], ◌∷◌, ◌++◌, map}
pub use native.Mathlib.Omega.{arith}
