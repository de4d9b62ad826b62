-- ===== src/Common.antt =====
-- The names that the other modules share: the libraries', passed on, and those of the children.
mod Tests
mod Lists
mod Int
mod Keys
mod Chars
mod Maps
mod Number
mod Memory
pub use Tests.*
pub use Lists.*
unfoldable pub use Int.{◌+ℤ◌, ◌-ℤ◌}
pub use Int.*
unfoldable pub use Keys.{compare_ℤ, compare_text, text_eq}
pub use Keys.*
unfoldable pub use Chars.{lit, to_lower, lower}
pub use Chars.*
unfoldable pub use Maps.{find, insert, alter, map_values}
pub use Maps.*
pub use Maps.Laws.*
pub use Maps.Values.*
unfoldable pub use Number.{
  is_digit, parse_digits, read_signed, strtoul, to_int, strtol_u16, decimal, hexadecimal, print_int,
}
pub use Number.*
unfoldable pub use Memory.{le32, le64, overlay, write_at}
pub use Memory.*
pub use Memory.Slices.*
pub use Prim.Native.Nat.{ℕ, zero, suc, ◌+◌, ◌-◌, ◌*◌, ◌/◌, ◌%◌, ◌^◌, ◌≤◌, ◌<◌, compare, Ordering}
pub use mathlib.Core.Path.{◌≡◌, refl, sym, ap, ◌∙◌}
pub use mathlib.Core.Logic.{◌≢◌, ◌↔◌, ◌⊎◌, inl, inr}
pub use mathlib.Core.Bool.{Bool, true, false, not, ◌&&◌, ◌||◌}
pub use mathlib.Core.Option.{Option, none, some}
pub use mathlib.Core.List.{List, [], ◌∷◌, ◌++◌, map}
pub use native.Mathlib.Omega.{arith}
