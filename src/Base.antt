-- ===== src/Base.antt =====
-- The names that the other modules share: the libraries', passed on, and those of the children.
mod Tests
mod Lists
mod Members
mod Maps
mod Text
mod Int
pub use Tests.*
unfoldable pub use Lists.*
pub use Members.*
unfoldable pub use Maps.*
unfoldable pub use Text.{
  lower_char, upper_char, to_lower, to_upper, trim_left, trim_space, split, cut, join, concat,
  show_nat,
}
pub use Text.{contains, has_suffix, trim_prefix, trim_suffix, is_blank}
pub use Int.{ℤ, pos, negsuc, lt_ℤ}
pub use Prim.Native.Nat.{ℕ, zero, suc, ◌+◌, ◌-◌, ◌*◌, ◌/◌, ◌%◌, ◌^◌, ◌≤◌, ◌<◌}
pub use Prim.Native.Char.{Char, code}
pub use Prim.Native.String.{String, len, slice}
pub use text.Mathlib.Text.{◌==◌, starts_with, find?}
pub use text.Mathlib.TextEquality.{eq_iff}
pub use text.Mathlib.TextPositions.{eq_refl}
pub use mathlib.Core.Path.{◌≡◌, refl, sym, ap, subst, ◌∙◌}
pub use mathlib.Core.Logic.{◌≢◌, ◌↔◌, ◌⊎◌, inl, inr}
pub use mathlib.Core.Bool.{Bool, true, false, not, ◌&&◌, ◌||◌, false≢true}
pub use mathlib.Core.Option.{Option, none, some}
pub use mathlib.Core.List.{List, [], ◌∷◌, ◌++◌, map}
pub use native.Mathlib.Omega.{arith}
