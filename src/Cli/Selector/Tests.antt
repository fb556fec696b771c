-- ===== src/Cli/Selector/Tests.antt =====
-- A catalogue of two candidates, and instances of the theorems about queries.
use agent_workboard.Prelude.{
  false, List, [], ◌∷◌, none, some, Text, text, is_none, ◌≡◌, ◌⊎◌, ◌↔◌, refl, Memᴰ, trim,
  is_whitespace, text_eq, len,
}
use agent_workboard.Cli.Selector.{
  SelectionCandidate, empty, selected, lower, fuzzy_score, trimmed, resolve,
}
use agent_workboard.Cli.Selector.Matches.{IsSubsequence, fuzzy_score_iff}
use agent_workboard.Cli.Selector.Offered.{offered, IsOffered}
use agent_workboard.Cli.Selector.Order.{IsRankedResult, resolve_lem}
use agent_workboard.Cli.Selector.Missed.{IsMissed, resolve-empty}

abbrev first : SelectionCandidate
first = record {
  id = text "id-1";
  key = some (text "launch/item-1");
  label = text "Availability API";
  metadata = text "codex ready";
}

abbrev second : SelectionCandidate
second = record first { id = text "id-2"; key = none; label = text "Other" }

abbrev catalogue : List SelectionCandidate
catalogue = first ∷ second ∷ []

selects : resolve (some (text " avail ")) catalogue ≡ selected first
unfolding resolve trim is_whitespace text_eq len
selects = refl

nothing : resolve (some (text "zebra")) catalogue ≡ empty
unfolding resolve trim is_whitespace text_eq len
nothing = refl

fuzzy_score_iff_example :
    (is_none (fuzzy_score (text "aapi") (text "Availability API")) ≡ false)
    ↔ IsSubsequence (lower (text "aapi")) (lower (text "Availability API"))
fuzzy_score_iff_example = fuzzy_score_iff (text "aapi") (text "Availability API")

resolve_lem_example :
    ((c : SelectionCandidate)
      → Memᴰ c (offered (resolve (some (text "a")) catalogue))
        ↔ IsOffered catalogue c (trimmed (some (text "a"))))
    × IsRankedResult (resolve (some (text "a")) catalogue)
resolve_lem_example = resolve_lem (some (text "a")) catalogue

resolve-empty_example : (resolve (some (text "zebra")) catalogue ≡ empty) ↔ (
    (catalogue ≡ [])
    ⊎ ((s : Text) × (trimmed (some (text "zebra")) ≡ some s) × IsMissed s catalogue))
resolve-empty_example = resolve-empty (some (text "zebra")) catalogue
