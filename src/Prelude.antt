-- ===== src/Prelude.antt =====
-- The names that the other modules share: the libraries', passed on, and those of the children.
mod Tests
mod Lists
mod Results
mod Chars
pub use Tests.*
pub use Lists.*
pub use Results.*
unfoldable pub use Chars.{
  Text, text, is_control, is_whitespace, is_ascii_uppercase, is_ascii_lowercase, is_ascii_digit,
  is_ascii_alphanumeric, trim_start, trim, is_blank, len, text_eq, has_control, starts_with,
  ends_with, is_surrogate, is_unicode,
}
pub use Chars.{is_blank-eq-all, text_eq_iff, text_eq_self, len-append, length-le-len, len-map}
pub use Prim.Native.Nat.{ℕ, zero, suc, ◌+◌, ◌-◌, ◌*◌, ◌/◌, ◌%◌, ◌^◌, ◌≤◌, ◌<◌, min, max}
pub use mathlib.Core.Path.{◌≡◌, refl, sym, ap, ap₂, ◌∙◌, subst}
pub use mathlib.Core.Logic.{◌≢◌, ◌↔◌, ◌⊎◌, inl, inr}
pub use mathlib.Core.Bool.{Bool, true, false, not, ◌&&◌, ◌||◌}
pub use mathlib.Core.Option.{Option, none, some}
pub use mathlib.Core.List.{List, [], ◌∷◌, ◌++◌, map, reverse, append-nil, append_assoc, Memᴰ}
pub use native.Mathlib.Omega.{arith}
