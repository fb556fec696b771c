-- ===== src/Cli/Selector.antt =====
-- crates/cli/src/selector.rs: which candidates a query of the user selects, and in which order the
-- others are offered.
pub mod Matches
pub mod Tiers
pub mod Offered
pub mod Resolved
pub mod Missed
pub mod Above
pub mod Order
mod Tests
use agent_workboard.Prelude.{
  ℕ, suc, ◌+◌, ◌-◌, ◌%◌, ◌^◌, Bool, true, false, not, ◌&&◌, ◌||◌, List, [], ◌∷◌, map, Option, none,
  some, Text, text_eq, trim, is_empty, len, keep, find, min, ltb, ◌==◌, max, if◌then◌else◌,
  is_some_and, is_ascii_uppercase,
}

pub record SelectionCandidate : Type 0 where
  pub id : Text
  pub key : Option Text
  pub label : Text
  pub metadata : Text

pub record RankedCandidate : Type 0 where
  pub candidate : SelectionCandidate
  pub score : ℕ

pub data SelectionResult : Type 0 where
  empty : SelectionResult
  selected : SelectionCandidate → SelectionResult
  picker : List RankedCandidate → SelectionResult

-- `to_ascii_lowercase`.
unfoldable pub lower : Text → Text
unfolding is_ascii_uppercase
lower s = map (λ c. if is_ascii_uppercase c then c + 32 else c) s

unfoldable pub eq_ignore_ascii_case : Text → Text → Bool
unfolding lower
eq_ignore_ascii_case s t = text_eq (lower s) (lower t)

-- `s.get(..n)`, with a number of bytes.
unfoldable pub byte_prefix : ℕ → Text → Option Text
byte_prefix n [] = if n == 0 then some [] else none
byte_prefix n (c ∷ s) =
    let rest = byte_prefix (n - len (c ∷ [])) s in
    if n == 0
    then some []
    else if ltb n (len (c ∷ []))
    then none
    else elim rest [ none ↦ none | some p ↦ some (c ∷ p) ]

-- `s.starts_with(p)`.
unfoldable pub has_prefix : Text → Text → Bool
has_prefix [] s = true
has_prefix (c ∷ p) [] = false
has_prefix (c ∷ p) (d ∷ s) = c == d && has_prefix p s

-- `s.find(p)`, behind a number of bytes.
unfoldable pub find_from : ℕ → Text → Text → Option ℕ
unfolding has_prefix
find_from index p [] = if has_prefix p [] then some index else none
find_from index p (c ∷ s) =
    let later = find_from (index + len (c ∷ [])) p s in
    if has_prefix p (c ∷ s) then some index else later

unfoldable pub saturating_sub : ℕ → ℕ → ℕ
saturating_sub a b = a - b

-- `gaps.saturating_add(1)`.
unfoldable pub one_more : ℕ → ℕ
one_more gaps = min (gaps + 1) (2 ^ 32 - 1)

unfoldable pub as_u32 : ℕ → ℕ
as_u32 n = n % 2 ^ 32

-- The loop over the candidate's characters, with the wanted character and those that follow it.
unfoldable pub score_gaps : ℕ → Text → ℕ → Text → Option ℕ
unfolding saturating_sub one_more
score_gaps wanted wanted_later gaps [] = none
score_gaps wanted [] gaps (c ∷ s) =
    let rest = score_gaps wanted [] (one_more gaps) s in
    if c == wanted then some (saturating_sub 5000 gaps) else rest
score_gaps wanted (next ∷ later) gaps (c ∷ s) =
    let found = score_gaps next later gaps s in
    let rest = score_gaps wanted (next ∷ later) (one_more gaps) s in
    if c == wanted then found else rest

-- The score of a subsequence; a query without characters has none.
unfoldable pub score_subsequence : Text → Text → Option ℕ
unfolding score_gaps
score_subsequence [] s = none
score_subsequence (wanted ∷ later) s = score_gaps wanted later 0 s

unfoldable pub score_substring : Text → Text → Option ℕ → Option ℕ
unfolding score_subsequence saturating_sub as_u32
score_substring q s (some index) = some (saturating_sub 8000 (as_u32 index))
score_substring q s none = score_subsequence q s

unfoldable pub score_lower : Text → Text → Option ℕ
unfolding has_prefix find_from score_substring saturating_sub as_u32
score_lower q s =
    if has_prefix q s
    then some (saturating_sub 10000 (as_u32 (len s)))
    else score_substring q s (find_from 0 q s)

unfoldable pub fuzzy_score : Text → Text → Option ℕ
unfolding score_lower lower
fuzzy_score query candidate = score_lower (lower query) (lower candidate)

-- `Iterator::max`, on the scores that there are.
unfoldable pub best : Option ℕ → Option ℕ → Option ℕ
best none b = b
best (some a) none = some a
best (some a) (some b) = some (max a b)

unfoldable pub unwrap_or_default : Option Text → Text
unwrap_or_default none = []
unwrap_or_default (some s) = s

unfoldable pub candidate_score : Text → SelectionCandidate → Option ℕ
unfolding best fuzzy_score unwrap_or_default
candidate_score query c =
    best (fuzzy_score query c.label)
      (best (fuzzy_score query (unwrap_or_default c.key)) (fuzzy_score query c.metadata))

-- `str::cmp`: whether a text comes before another.
unfoldable pub before : Text → Text → Bool
before s [] = false
before [] (d ∷ t) = true
before (c ∷ s) (d ∷ t) = ltb c d || (c == d && before s t)

unfoldable pub by_label : RankedCandidate → RankedCandidate → Bool
unfolding before
by_label r l =
    before r.candidate.label l.candidate.label
    || (text_eq r.candidate.label l.candidate.label && before r.candidate.id l.candidate.id)

unfoldable pub by_score : RankedCandidate → RankedCandidate → Bool
unfolding by_label
by_score r l = ltb l.score r.score || (l.score == r.score && by_label r l)

-- `sort_by`, which is stable: an element goes before the first one that it does not come behind.
unfoldable pub insert :
    (RankedCandidate → RankedCandidate → Bool)
    → RankedCandidate
    → List RankedCandidate
    → List RankedCandidate
insert less r [] = r ∷ []
insert less r (l ∷ ranked) =
    let rest = insert less r ranked in if less l r then l ∷ rest else r ∷ l ∷ ranked

unfoldable pub sort_by :
    (RankedCandidate → RankedCandidate → Bool) → List RankedCandidate → List RankedCandidate
unfolding insert
sort_by less [] = []
sort_by less (r ∷ ranked) = insert less r (sort_by less ranked)

unfoldable pub rank_all : List SelectionCandidate → List RankedCandidate
unfolding sort_by by_label
rank_all candidates = sort_by by_label (map (λ c. record { candidate = c; score = 0 }) candidates)

unfoldable pub add_ranked :
    SelectionCandidate → Option ℕ → List RankedCandidate → List RankedCandidate
add_ranked c none ranked = ranked
add_ranked c (some score) ranked = record { candidate = c; score = score } ∷ ranked

unfoldable pub matches : Text → List SelectionCandidate → List RankedCandidate
unfolding candidate_score add_ranked
matches query [] = []
matches query (c ∷ candidates) = add_ranked c (candidate_score query c) (matches query candidates)

unfoldable pub select_match : List RankedCandidate → SelectionResult
select_match [] = empty
select_match (r ∷ []) = selected r.candidate
select_match (r ∷ l ∷ ranked) = picker (r ∷ l ∷ ranked)

-- The only candidate, a picker of several, or what follows when there is none.
unfoldable pub select_or : List SelectionCandidate → SelectionResult → SelectionResult
unfolding rank_all
select_or [] otherwise = otherwise
select_or (c ∷ []) otherwise = selected c
select_or (c ∷ d ∷ candidates) otherwise = picker (rank_all (c ∷ d ∷ candidates))

unfoldable pub has_id_prefix : Text → SelectionCandidate → Bool
unfolding byte_prefix eq_ignore_ascii_case
has_id_prefix query c =
    is_some_and (byte_prefix (len query) c.id) (λ p. eq_ignore_ascii_case p query)

unfoldable pub is_exact : Text → SelectionCandidate → Bool
unfolding eq_ignore_ascii_case
is_exact query c =
    is_some_and c.key (λ k. eq_ignore_ascii_case k query) || eq_ignore_ascii_case c.label query

-- The steps behind the search for the identifier.
unfoldable pub resolve_id :
    Text → List SelectionCandidate → Option SelectionCandidate → SelectionResult
unfolding select_or has_id_prefix is_exact select_match sort_by by_score matches
resolve_id query candidates (some c) = selected c
resolve_id query candidates none = select_or (keep (has_id_prefix query) candidates) (
    select_or (keep (is_exact query) candidates)
      (select_match (sort_by by_score (matches query candidates))))

unfoldable pub resolve_query : Text → List SelectionCandidate → SelectionResult
unfolding resolve_id eq_ignore_ascii_case
resolve_query query candidates =
    resolve_id query candidates (find (λ c. eq_ignore_ascii_case c.id query) candidates)

-- A query that is not blank, without the space around it.
unfoldable pub trimmed : Option Text → Option Text
trimmed none = none
trimmed (some query) = if is_empty (trim query) then none else some (trim query)

unfoldable pub resolve_trimmed : Option Text → List SelectionCandidate → SelectionResult
unfolding rank_all resolve_query
resolve_trimmed query [] = empty
resolve_trimmed none (c ∷ candidates) = picker (rank_all (c ∷ candidates))
resolve_trimmed (some query) (c ∷ candidates) = resolve_query query (c ∷ candidates)

unfoldable pub resolve : Option Text → List SelectionCandidate → SelectionResult
unfolding trimmed resolve_trimmed
resolve query candidates = resolve_trimmed (trimmed query) candidates
