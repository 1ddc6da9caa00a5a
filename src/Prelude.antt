-- ===== src/Prelude.antt =====
-- The names that the other modules share: the libraries', passed on, and those of the children.
mod Tests
mod Lists
mod Least
mod Sort
pub mod Int
pub mod Text
pub mod Digits
pub mod Groups
pub use Tests.*
pub use Lists.*
pub use Least.{first_least-le, All-first_least, if_of_both, if_of_cases}
unfoldable pub use Least.{first_least}
pub use Sort.{
  find_by, find_by-sort_by, All-sort_by, any-sort_by, IsSorted, sort_by-IsSorted, filter_by-sort_by,
  All-filter_by, insert_by, All-insert_by, filter_by-holds, sort_by_of_IsSorted, filter_by-append,
  filter_by_of_All, filter_by_of_none, filter_by-agree, map-sort_by, map-take,
}
unfoldable pub use Sort.{sort_by}
pub use Prim.Native.String.{◌++◌ as str_append}
pub use Prim.Native.Nat.{
  ℕ, zero, suc, ◌+◌, ◌-◌, ◌*◌, ◌/◌, ◌%◌, ◌^◌, ◌≤◌, ◌<◌, min, max, compare, Ordering,
}
pub use Prim.Native.String.{String}
pub use mathlib.Core.Path.{◌≡◌, refl, sym, ap, ◌∙◌, subst}
pub use mathlib.Core.Logic.{◌≢◌, ◌↔◌, ◌⊎◌, inl, inr}
pub use mathlib.Core.Bool.{Bool, true, false, ◌&&◌, ◌||◌, not}
pub use mathlib.Core.Option.{Option, none, some}
pub use mathlib.Core.List.{List, [], ◌∷◌, ◌++◌, map}
pub use native.Mathlib.Omega.{arith}
pub use text.Mathlib.Text.{◌==◌ as str_eq}
pub use text.Mathlib.TextEquality.{eq_iff as str_eq_iff}
