-- ===== src/Prelude.antt =====
-- The names that the other modules share: the libraries', passed on, and those of the children.
mod Tests
mod Lists
mod Strings
pub mod Utf8
pub mod Words
pub mod Decimal
pub mod Number
pub use Tests.*
pub use Lists.*
pub use Strings.{
  Text, Bytes, codes, to_bytes, encode, text_iff, text_refl, text_eq_of, text_ne_of, is_whitespace,
}
unfoldable pub use Strings.{
  text_eq, starts_with, strip_prefix, split_once, cons_first, split, cons_head, non_empty, words,
}
pub use Prim.Native.Nat.{ℕ, zero, suc, ◌+◌, ◌-◌, ◌*◌, ◌/◌, ◌%◌, ◌^◌, ◌≤◌, ◌<◌}
pub use Prim.Native.String.{String}
pub use mathlib.Core.Path.{◌≡◌, refl, sym, ap, ◌∙◌}
pub use mathlib.Core.Logic.{◌≢◌, ◌↔◌, ◌⊎◌, inl, inr}
pub use mathlib.Core.Bool.{Bool, true, false, not, ◌&&◌, ◌||◌}
pub use mathlib.Core.Option.{Option, none, some}
pub use mathlib.Core.List.{List, [], ◌∷◌, ◌++◌, map}
pub use native.Mathlib.Omega.{arith}
