-- ===== src/Prelude.antt =====
-- The names that the other modules share: the libraries', passed on, and those of the children.
mod Tests
mod Lists
mod Integers
mod Text
pub mod TextLaws
pub mod Outcome
pub mod Views
pub use Tests.*
pub use Lists.*
unfoldable pub use Text.{
  Bytes, codes, is_empty, bytes_eq, bytes_lt, starts_with, find_byte, find_byte_from, find_str,
}
unfoldable pub use Text.{
  find_str_from, contains, set_insert, map_find, substr, erase, resize, to_lower, to_upper,
  is_digit, c_str,
}
pub use Integers.{ℤ, pos, negsuc, pos_part, neg_part, ◌≤ℤ◌, ltb_ℤ}
unfoldable pub use Integers.{to_unsigned, of_u32}
pub use Prim.Native.Nat.{ℕ, zero, suc, ◌+◌, ◌-◌, ◌*◌, ◌/◌, ◌%◌, ◌^◌, ◌≤◌, ◌<◌, min, max}
pub use Prim.Native.Char.{code}
pub use Prim.Native.String.{String}
pub use mathlib.Core.Path.{◌≡◌, refl, sym, ap, ap₂, subst, ◌∙◌}
pub use mathlib.Core.Logic.{◌≢◌, ◌↔◌, ◌⊎◌, inl, inr}
pub use mathlib.Core.Bool.{Bool, true, false, not, ◌&&◌, ◌||◌, false≢true}
pub use mathlib.Core.Option.{Option, none, some, some-injective}
pub use mathlib.Core.List.{List, [], ◌∷◌, ◌++◌, map, append-nil, append_assoc}
pub use native.Mathlib.Omega.{arith}
