-- ===== src/Base.antt =====
-- The names that the other modules share: the libraries', passed on, and those of the children,
-- which hold tests on numbers, lists over the native numbers, and JavaScript text.
mod Tests
mod Lists
mod Units
mod Strings
pub mod StringLaws
pub mod TextMap
pub mod Number
pub use Tests.*
pub use Lists.*
unfoldable pub use Strings.{is_space, trim_start, trim_end, trim, includes, split_on}
pub use Strings.{starts_with, ends_with_unit, includes_unit, cons_head, join}
unfoldable pub use Units.{text_eq}
pub use Units.{Text, codes, is_empty, text_eq_refl, eq_of_text_eq, text_eq_iff}
pub use Prim.Native.Nat.{ℕ, zero, suc, ◌+◌, ◌-◌, ◌*◌, ◌/◌, ◌%◌, ◌^◌, ◌≤◌, ◌<◌, min, max}
pub use mathlib.Core.Path.{◌≡◌, refl, sym, ap, ◌∙◌}
pub use mathlib.Core.Logic.{◌≢◌, ◌↔◌, ◌⊎◌, inl, inr}
pub use mathlib.Core.Bool.{Bool, true, false, not, ◌&&◌, ◌||◌}
pub use mathlib.Core.Option.{Option, none, some}
pub use mathlib.Core.List.{List, [], ◌∷◌, ◌++◌, map, append-nil, append_assoc, map-append}
unfoldable pub use mathlib.Core.List.{flat_map}
pub use native.Mathlib.Omega.{arith}
