-- ===== src/Cli/Selector/Order.antt =====
-- In which order the candidates are offered.
use mathlib.Core.List.Memᴰ
use agent_workboard.Prelude.{
  Bool, true, false, List, [], ◌∷◌, map, Option, none, some, Text, find, keep, Bool-cases, ◌≡◌,
  refl, sym, subst, ap, inl, inr, ◌↔◌, Memᴰ, arith,
}
use agent_workboard.Cli.Selector.{
  SelectionCandidate, RankedCandidate, SelectionResult, empty, selected, picker, by_label, by_score,
  insert, sort_by, rank_all, matches, select_match, select_or, has_id_prefix, is_exact, resolve_id,
  resolve_query, resolve_trimmed, trimmed, resolve, eq_ignore_ascii_case,
}
use agent_workboard.Cli.Selector.Offered.{offered, IsOffered, unscored, sort_by-mem}
use agent_workboard.Cli.Selector.Resolved.{resolve-IsOffered}
use agent_workboard.Cli.Selector.Above.{
  IsAbove, score, label, id, clash, by_label-asym, by_score-asym, by_label_complete,
  by_score_complete,
}

-- No entry of a list is above the one before it.
unfoldable pub IsRanked : List RankedCandidate → Type 0
IsRanked [] = Unit
IsRanked (a ∷ []) = Unit
IsRanked (a ∷ b ∷ ranked) = (¬ IsAbove b a) × IsRanked (b ∷ ranked)

unfoldable pub IsRankedResult : SelectionResult → Type 0
unfolding IsRanked
IsRankedResult empty = Unit
IsRankedResult (selected c) = Unit
IsRankedResult (picker ranked) = IsRanked ranked

-- No entry is less than the one before it.
module _ (less : RankedCandidate → RankedCandidate → Bool)
    (asym : (a b : RankedCandidate) → less a b ≡ true → less b a ≡ false) where
  IsSorted : List RankedCandidate → Type 0
  IsSorted [] = Unit
  IsSorted (a ∷ []) = Unit
  IsSorted (a ∷ b ∷ ranked) = (less b a ≡ false) × IsSorted (b ∷ ranked)

  insert-IsSorted :
      (r : RankedCandidate) (ranked : List RankedCandidate)
      → IsSorted ranked
      → IsSorted (insert less r ranked)
  unfolding insert IsSorted
  insert-IsSorted r [] h = tt
  insert-IsSorted r (l ∷ []) h = elim (Bool-cases (less l r)) [
    | inl e ↦ rw e (asym l r e, tt)
    | inr e ↦ rw e (e, tt)
  ]
  insert-IsSorted r (l ∷ k ∷ ranked) (first, rest) = elim (Bool-cases (less l r)) [
    | inl e ↦ elim (Bool-cases (less k r)) [
      | inl f ↦
          let inner : IsSorted (k ∷ insert less r ranked) =
            subst IsSorted (step f) (insert-IsSorted r (k ∷ ranked) rest) in
          rw e (rw f (first, inner))
      | inr f ↦ rw e (rw f (asym l r e, (f, rest)))
    ]
    | inr e ↦ rw e (e, (first, rest))
  ]
    where
      step : less k r ≡ true → insert less r (k ∷ ranked) ≡ k ∷ insert less r ranked
      step f = rw f refl

  sort_by-IsSorted : (ranked : List RankedCandidate) → IsSorted (sort_by less ranked)
  unfolding sort_by IsSorted
  sort_by-IsSorted [] = tt
  sort_by-IsSorted (r ∷ ranked) = insert-IsSorted r (sort_by less ranked) (sort_by-IsSorted ranked)

  -- Of entries of which none that is not less is above.
  IsSorted-IsRanked :
      (ranked : List RankedCandidate)
      → ((a b : RankedCandidate) → Memᴰ a ranked → Memᴰ b ranked → less b a ≡ false → ¬ IsAbove b a)
      → IsSorted ranked
      → IsRanked ranked
  unfolding IsSorted IsRanked
  IsSorted-IsRanked [] f h = tt
  IsSorted-IsRanked (a ∷ []) f h = tt
  IsSorted-IsRanked (a ∷ b ∷ ranked) f (first, rest) = (
    f a b (Memᴰ.head refl) (Memᴰ.tail (Memᴰ.head refl)) first,
    IsSorted-IsRanked (b ∷ ranked) (λ x y m n. f x y (Memᴰ.tail m) (Memᴰ.tail n)) rest,
  )

by_score-IsRanked : (ranked : List RankedCandidate) → IsRanked (sort_by by_score ranked)
by_score-IsRanked ranked =
    IsSorted-IsRanked by_score by_score-asym (sort_by by_score ranked)
      (λ a b _ _ e above. clash (by_score_complete b a above) e)
      (sort_by-IsSorted by_score by_score-asym ranked)

rank_all-IsRanked : (candidates : List SelectionCandidate) → IsRanked (rank_all candidates)
unfolding rank_all
rank_all-IsRanked candidates =
    IsSorted-IsRanked by_label by_label-asym (sort_by by_label (map unscored candidates))
      (λ a b m n e above. clash (by_label-above b a (zero b n) (zero a m) above) e)
      (sort_by-IsSorted by_label by_label-asym (map unscored candidates))
  where
    zero : (a : RankedCandidate) → Memᴰ a (sort_by by_label (map unscored candidates)) → a.score ≡ 0
    zero a m =
        let n = (sort_by-mem by_label (map unscored candidates)).0 m in
        let (c, _, same) = Memᴰ.of_map unscored candidates n in sym (ap (λ r. r.score) same)

    by_label-above :
        (b a : RankedCandidate) → b.score ≡ 0 → a.score ≡ 0 → IsAbove b a → by_label b a ≡ true
    by_label-above b a e f (score h) = absurd (omega (arith, e, f, h))
    by_label-above b a e f (label _ m) = by_label_complete b a (inl m)
    by_label-above b a e f (id _ same m) = by_label_complete b a (inr (same, m))

select_or-IsRanked :
    (some_of : List SelectionCandidate) (otherwise : SelectionResult)
    → IsRankedResult otherwise
    → IsRankedResult (select_or some_of otherwise)
unfolding select_or IsRankedResult
select_or-IsRanked [] otherwise h = h
select_or-IsRanked (c ∷ []) otherwise h = tt
select_or-IsRanked (c ∷ d ∷ more) otherwise h = rank_all-IsRanked (c ∷ d ∷ more)

select_match-IsRanked :
    (ranked : List RankedCandidate) → IsRanked ranked → IsRankedResult (select_match ranked)
unfolding select_match IsRankedResult
select_match-IsRanked [] h = tt
select_match-IsRanked (r ∷ []) h = tt
select_match-IsRanked (r ∷ l ∷ ranked) h = h

resolve_id-IsRanked :
    (s : Text) (candidates : List SelectionCandidate) (o : Option SelectionCandidate)
    → IsRankedResult (resolve_id s candidates o)
unfolding resolve_id IsRankedResult
resolve_id-IsRanked s candidates (some c) = tt
resolve_id-IsRanked s candidates none = select_or-IsRanked (keep (has_id_prefix s) candidates) _ (
    select_or-IsRanked (keep (is_exact s) candidates) _
      (select_match-IsRanked _ (by_score-IsRanked (matches s candidates))))

trimmed-IsRanked :
    (q : Option Text) (candidates : List SelectionCandidate)
    → IsRankedResult (resolve_trimmed q candidates)
unfolding resolve_trimmed resolve_query IsRankedResult
trimmed-IsRanked q [] = tt
trimmed-IsRanked none (d ∷ candidates) = rank_all-IsRanked (d ∷ candidates)
trimmed-IsRanked (some s) (d ∷ candidates) =
    resolve_id-IsRanked s (d ∷ candidates)
      (find (λ c. eq_ignore_ascii_case c.id s) (d ∷ candidates))

-- The candidates that `resolve` selects or offers are: without a query, or with a blank one, all;
-- else the first with the identifier; else, if the identifiers of some begin with the query, those;
-- else, if some have the query for their label or key, those; else those in whose label, key or
-- metadata its characters stand in their order. The letters may be small or capital throughout. If
-- several are offered, then none is above the one before it, by the score, the label and the
-- identifier.
pub resolve_lem :
    (query : Option Text) (candidates : List SelectionCandidate)
    → ((c : SelectionCandidate)
        → Memᴰ c (offered (resolve query candidates)) ↔ IsOffered candidates c (trimmed query))
      × IsRankedResult (resolve query candidates)
unfolding resolve
resolve_lem query candidates =
    (resolve-IsOffered query candidates, trimmed-IsRanked (trimmed query) candidates)
