-- ===== src/Core/Names/Tests.antt =====
-- Slugs and keys at concrete texts.
use agent_workboard.Prelude.{
  starts_with, ends_with, ◌≡◌, refl, ◌↔◌, [], ◌∷◌, text, len, ok, err, is_ascii_lowercase,
  is_ascii_digit, arith,
}
use agent_workboard.Core.Names.{
  WorkItemKey, Slug, new_slug, new_work_item_key, split, push_front, is_slug_character,
  invalid_slug, invalid_key,
}
use agent_workboard.Core.Names.Split.{join, split-join}
use agent_workboard.Core.Names.Keys.{IsSlug, IsKey, new_slug_iff, new_work_item_key_iff}

abbrev key : WorkItemKey
key = record { as_str = text "launch/venue-availability/api" }

abbrev slug : Slug
slug = record { as_str = text "venue-availability" }

accepted : new_work_item_key (text "launch/venue-availability/api") ≡ ok key
unfolding new_work_item_key new_slug split push_front starts_with ends_with is_slug_character
    is_ascii_lowercase is_ascii_digit len
accepted = refl

empty_segment : new_work_item_key (text "launch//api") ≡ err invalid_key
unfolding new_work_item_key new_slug split push_front starts_with ends_with is_slug_character
    is_ascii_lowercase is_ascii_digit len
empty_segment = refl

upper_case : new_slug (text "Venue") ≡ err invalid_slug
unfolding new_slug starts_with ends_with is_slug_character is_ascii_lowercase is_ascii_digit len
upper_case = refl

new_slug_iff_example :
    (new_slug (text "venue-availability") ≡ ok slug)
    ↔ (IsSlug (text "venue-availability") × (slug.as_str ≡ text "venue-availability"))
new_slug_iff_example = new_slug_iff (text "venue-availability") slug

new_work_item_key_iff_example :
    (new_work_item_key (text "launch/venue-availability/api") ≡ ok key) ↔ (
      IsKey (text "launch/venue-availability/api")
      × (key.as_str ≡ text "launch/venue-availability/api"))
new_work_item_key_iff_example = new_work_item_key_iff (text "launch/venue-availability/api") key

split-join_example :
    split b'/' (join b'/' (text "launch" ∷ text "api" ∷ [])) ≡ text "launch" ∷ text "api" ∷ []
split-join_example = split-join b'/' (text "launch" ∷ text "api" ∷ []) refl (ground arith)
