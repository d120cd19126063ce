-- ===== src/Common.antt =====
-- The names that the other modules share: those of the libraries, and helpers on numbers, integers
-- and lists.
mod Tests
mod Lists
mod Int
mod Decimal
mod Text
mod Updates
pub use Updates.{Holds, update_where-Holds, find?-updated, select-others, select-untouched}
unfoldable pub use Text.{equal_fold}
pub use Text.{folds_to}
pub use Tests.*
pub use Lists.*
pub use Int.*
pub use Decimal.{
  length-append, length-decimal-pos, length-decimal-le, all_digits, padded_six, Bytes, is_digit,
  read_digits, read_digits-append, read_digits-decimal, decimal-digit, decimal-digits,
}
unfoldable pub use Decimal.{decimal, padded}
pub use Prim.Native.Nat.{ℕ, zero, suc, ◌+◌, ◌-◌, ◌*◌, ◌/◌, ◌%◌, ◌^◌, ◌≤◌, ◌<◌}
pub use Prim.Native.String.{String}
pub use mathlib.Core.Path.{◌≡◌, refl, sym, ap, subst, ◌∙◌}
pub use mathlib.Core.Logic.{◌≢◌, ◌↔◌, ◌⊎◌, inl, inr}
pub use mathlib.Core.Bool.{Bool, true, false, not, ◌&&◌, ◌||◌}
pub use mathlib.Core.Option.{Option, none, some}
pub use mathlib.Core.List.{List, [], ◌∷◌, ◌++◌}
pub use native.Mathlib.Omega.{arith}
pub use text.Mathlib.Text.{◌==◌ as str_eq}
pub use text.Mathlib.TextEquality.{eq_iff}
