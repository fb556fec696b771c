-- ===== src/Core/Names.antt =====
-- crates/core/src/hierarchy.rs: slugs, and the slash-separated keys of work items.
pub mod Split
pub mod Keys
mod Tests
use agent_workboard.Prelude.{
  ℕ, Bool, true, false, not, ◌&&◌, ◌||◌, List, [], ◌∷◌, Text, len, is_ascii_lowercase,
  is_ascii_digit, is_empty, any, starts_with, ends_with, ltb, ◌==◌, Result, ok, err, ◌>>=◌, ◌>>◌,
  reject_if, is_ok, if◌then◌else◌,
}

pub record Slug : Type 0 where
  pub as_str : Text

pub record WorkItemKey : Type 0 where
  pub as_str : Text

pub data NameError : Type 0 where
  empty too_long invalid_slug invalid_key : NameError

pub is_slug_character : ℕ → Bool
unfolding is_ascii_lowercase is_ascii_digit
is_slug_character c = is_ascii_lowercase c || is_ascii_digit c || c == b'-'

pub new_slug : Text → Result Slug NameError
unfolding is_slug_character
new_slug value = do
  reject_if (is_empty value) empty
  reject_if (ltb 100 (len value)) too_long
  reject_if
      (starts_with value b'-' || ends_with value b'-' || any (λ c. not (is_slug_character c)) value)
      invalid_slug
  ok (record { as_str = value })

push_front : ℕ → List Text → List Text
push_front d [] = (d ∷ []) ∷ []
push_front d (p ∷ ps) = (d ∷ p) ∷ ps

-- `str::split(separator)`: the pieces between the separators, at least one.
pub split : ℕ → Text → List Text
unfolding push_front
split c [] = [] ∷ []
split c (d ∷ s) = if d == c then [] ∷ split c s else push_front d (split c s)

pub new_work_item_key : Text → Result WorkItemKey NameError
new_work_item_key value = do
  reject_if (is_empty value) empty
  reject_if (ltb 300 (len value)) too_long
  reject_if
      (starts_with value b'/'
        || ends_with value b'/'
        || any (λ segment. not (is_ok (new_slug segment))) (split b'/' value))
      invalid_key
  ok (record { as_str = value })
