-- ===== src/Base.antt =====
-- The names that the other modules share: the libraries', passed on, and those of the children.
mod Tests
mod Lists
mod Texts
mod Maps
mod Ordered
mod Decimal
pub use Tests.*
pub use Lists.*
pub use Texts.{Text, codes, is_empty, text_eq_iff, text_eq_refl, c_str_self, is_empty-false}
unfoldable pub use Texts.{text_eq, text_lt, has_byte, c_str}
pub use Maps.{Key, number_key, text_key, lookup-insert, lookup-erase, same_refl, erase-insert}
unfoldable pub use Maps.{lookup, insert, erase}
pub use Ordered.{
  text_lt_trans, text_lt_irrefl, text_lt_total, After-lt, After-lookup, After-insert,
  insert-IsOrdered, insert-front,
}
unfoldable pub use Ordered.{After, IsOrdered}
pub use Decimal.{
  ℤ, pos, negsuc, int32_max, IsInt, stoi-digits_of, stoi-to_string, c_str-to_string,
  digits_of-injective,
}
unfoldable pub use Decimal.{to_string, digits_of, stoi}
pub use Prim.Native.Nat.{ℕ, zero, suc, ◌+◌, ◌-◌, ◌*◌, ◌/◌, ◌%◌, ◌^◌, ◌≤◌, ◌<◌, min}
pub use mathlib.Core.Path.{◌≡◌, refl, sym, ap, ◌∙◌, subst}
pub use mathlib.Core.Logic.{◌≢◌, ◌↔◌, ◌⊎◌, inl, inr}
pub use mathlib.Core.Bool.{Bool, true, false, not, ◌&&◌, ◌||◌}
pub use mathlib.Core.Option.{Option, none, some}
pub use mathlib.Core.List.{List, [], ◌∷◌, ◌++◌, map, append-nil, append_assoc, map-append}
pub use native.Mathlib.Omega.{arith}
