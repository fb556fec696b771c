-- ===== src/Cli/Selector/Resolved.antt =====
-- What `resolve` names, through its steps.
use mathlib.Core.List.Memᴰ
use agent_workboard.Prelude.{
  Bool, true, false, List, [], ◌∷◌, ◌++◌, Option, none, some, Text, keep, keep-mem, mem-keep, find,
  Bool-cases, ◌≡◌, refl, sym, subst, ap, ◌∙◌, inl, inr, ◌↔◌, Memᴰ,
}
use agent_workboard.Cli.Selector.{
  SelectionCandidate, SelectionResult, sort_by, by_score, matches, select_match, has_id_prefix,
  is_exact, resolve_id, resolve_query, resolve_trimmed, trimmed, resolve, eq_ignore_ascii_case,
  lower,
}
use agent_workboard.Cli.Selector.Tiers.{
  IsMatched, same_letters_iff, has_id_prefix_iff, is_exact_iff, candidate_score_iff,
}
use agent_workboard.Cli.Selector.Offered.{
  offered, NoIdentifier, NonePrefixed, NoneNamed, IsOffered, unasked, identified, prefixed, named,
  matched, clash, find_first, first_find, find-none, none-find, keep-nil, nil-keep, ranked-mem,
  rank_all-mem, matches-mem, select_or-mem, select_match-offered,
}

module _ (s : Text) (candidates : List SelectionCandidate) where
  abbrev pub has_id : SelectionCandidate → Bool
  has_id c = eq_ignore_ascii_case c.id s

  pub refuted : {P : Type 0} (b : Bool) → ((b ≡ true) ↔ P) → b ≡ false → ¬ P
  refuted b same e p = clash (same.1 p) e

  refutes : {P : Type 0} (b : Bool) → ((b ≡ true) ↔ P) → ¬ P → b ≡ false
  refutes b same n = elim (Bool-cases b) [ inl e ↦ absurd (n (same.0 e)) | inr e ↦ e ]

  scored : SelectionResult
  scored = select_match (sort_by by_score (matches s candidates))

  scored-mem :
      (c : SelectionCandidate) → Memᴰ c (offered scored) ↔ (Memᴰ c candidates × IsMatched s c)
  unfolding scored
  scored-mem c =
      let same = select_match-offered (sort_by by_score (matches s candidates)) in
      (
        λ m.
            let n = (ranked-mem by_score (matches s candidates)).0 (subst (Memᴰ c) same m) in
            let (k, h) = (matches-mem s candidates).0 n in (k, (candidate_score_iff s c).0 h),
        λ (m, h). subst (Memᴰ c) (sym same) (
            (ranked-mem by_score (matches s candidates)).1
              ((matches-mem s candidates).1 (m, (candidate_score_iff s c).1 h))),
      )

  pub none_prefixed : (keep (has_id_prefix s) candidates ≡ []) ↔ NonePrefixed s candidates
  unfolding NonePrefixed
  none_prefixed = (
    λ e d m. refuted _ (has_id_prefix_iff s d) (keep-nil (has_id_prefix s) candidates e d m),
    λ n. nil-keep (has_id_prefix s) candidates (λ d m. refutes _ (has_id_prefix_iff s d) (n d m)),
  )

  pub none_named : (keep (is_exact s) candidates ≡ []) ↔ NoneNamed s candidates
  unfolding NoneNamed
  none_named = (
    λ e d m. refuted _ (is_exact_iff s d) (keep-nil (is_exact s) candidates e d m),
    λ n. nil-keep (is_exact s) candidates (λ d m. refutes _ (is_exact_iff s d) (n d m)),
  )

  unidentified_sound :
      (c : SelectionCandidate)
      → NoIdentifier s candidates
      → Memᴰ c (offered (resolve_id s candidates none))
      → IsOffered candidates c (some s)
  unfolding resolve_id scored
  unidentified_sound c unknown m =
      elim ((select_or-mem (keep (has_id_prefix s) candidates) _ c).0 m) [
        | inl k ↦
            let (n, h) = keep-mem (has_id_prefix s) candidates k in
            prefixed unknown n ((has_id_prefix_iff s c).0 h)
        | inr (e, l) ↦ elim ((select_or-mem (keep (is_exact s) candidates) scored c).0 l) [
          | inl k ↦
              let (n, h) = keep-mem (is_exact s) candidates k in
              named unknown (none_prefixed.0 e) n ((is_exact_iff s c).0 h)
          | inr (f, k) ↦
              let (n, h) = (scored-mem c).0 k in
              matched unknown (none_prefixed.0 e) (none_named.0 f) n h
        ]
      ]

  pub found_none : NoIdentifier s candidates → find has_id candidates ≡ none
  unfolding NoIdentifier
  found_none unknown =
      none-find has_id candidates (λ d m. refutes _ (same_letters_iff d.id s) (unknown d m))

  -- The candidate that the search for the identifier gives, or what follows when it gives none.
  query_sound :
      (o : Option SelectionCandidate) (c : SelectionCandidate)
      → find has_id candidates ≡ o
      → Memᴰ c (offered (resolve_id s candidates o))
      → IsOffered candidates c (some s)
  unfolding resolve_id offered NoIdentifier
  query_sound none c e m =
      unidentified_sound c
        (λ d n. refuted _ (same_letters_iff d.id s) (find-none has_id candidates e d n)) m
  query_sound (some d) c e m =
      let (before, after, split, others, same) = find_first has_id candidates e in
      let it : c ≡ d = Memᴰ.eq_of_singleton m in
      identified before after (split ∙ ap (λ x. before ++ x ∷ after) (sym it))
        (λ x n. refuted _ (same_letters_iff x.id s) (others x n))
        (ap (λ x. lower x.id) it ∙ (same_letters_iff d.id s).0 same)

  from_none :
      (c : SelectionCandidate)
      → NoIdentifier s candidates
      → Memᴰ c (offered (resolve_id s candidates none))
      → Memᴰ c (offered (resolve_id s candidates (find has_id candidates)))
  from_none c unknown m =
      subst (λ o. Memᴰ c (offered (resolve_id s candidates o))) (sym (found_none unknown)) m

  query_complete :
      (c : SelectionCandidate)
      → IsOffered candidates c (some s)
      → Memᴰ c (offered (resolve_id s candidates (find has_id candidates)))
  unfolding resolve_id offered scored NoIdentifier
  query_complete c (identified before after split others same) =
      let first =
        first_find has_id before after c (λ d n. refutes _ (same_letters_iff d.id s) (others d n))
          ((same_letters_iff c.id s).1 same) in
      subst (λ o. Memᴰ c (offered (resolve_id s candidates o)))
        (sym (ap (find has_id) split ∙ first)) (Memᴰ.head refl)
  query_complete c (prefixed unknown m p) = from_none c unknown (
      (select_or-mem (keep (has_id_prefix s) candidates) _ c).1
        (inl (mem-keep (has_id_prefix s) candidates m ((has_id_prefix_iff s c).1 p))))
  query_complete c (named unknown np m p) = from_none c unknown (
      (select_or-mem (keep (has_id_prefix s) candidates) _ c).1 (
        inr (
          none_prefixed.1 np,
          (select_or-mem (keep (is_exact s) candidates) scored c).1
              (inl (mem-keep (is_exact s) candidates m ((is_exact_iff s c).1 p))),
        )))
  query_complete c (matched unknown np nn m p) = from_none c unknown (
      (select_or-mem (keep (has_id_prefix s) candidates) _ c).1 (
        inr (
          none_prefixed.1 np,
          (select_or-mem (keep (is_exact s) candidates) scored c).1
              (inr (none_named.1 nn, (scored-mem c).1 (m, p))),
        )))

nothing-IsOffered : (q : Option Text) (c : SelectionCandidate) → ¬ IsOffered [] c q
nothing-IsOffered none c (unasked m) = Memᴰ.not-nil m
nothing-IsOffered (some s) c (identified [] after e others same) = cc
nothing-IsOffered (some s) c (identified (b ∷ before) after e others same) = cc
nothing-IsOffered (some s) c (prefixed unknown m p) = Memᴰ.not-nil m
nothing-IsOffered (some s) c (named unknown np m p) = Memᴰ.not-nil m
nothing-IsOffered (some s) c (matched unknown np nn m p) = Memᴰ.not-nil m

pub trimmed_iff :
    (q : Option Text) (candidates : List SelectionCandidate) (c : SelectionCandidate)
    → Memᴰ c (offered (resolve_trimmed q candidates)) ↔ IsOffered candidates c q
unfolding resolve_trimmed resolve_query offered
trimmed_iff q [] c = (λ m. absurd (Memᴰ.not-nil m), λ o. absurd (nothing-IsOffered q c o))
trimmed_iff none (d ∷ candidates) c = (
  λ m. unasked ((rank_all-mem (d ∷ candidates)).0 m),
  λ o. (rank_all-mem (d ∷ candidates)).1 (all_of o),
)
  where
    all_of : IsOffered (d ∷ candidates) c none → Memᴰ c (d ∷ candidates)
    all_of (unasked m) = m
trimmed_iff (some s) (d ∷ candidates) c = (
  λ m. query_sound s (d ∷ candidates) (find (has_id s (d ∷ candidates)) (d ∷ candidates)) c refl m,
  λ o. query_complete s (d ∷ candidates) c o,
)

-- The candidates that `resolve` selects or offers are: without a query, or with a blank one, all;
-- else the first with the identifier; else, if the identifiers of some begin with the query, those;
-- else, if some have the query for their label or key, those; else those in whose label, key or
-- metadata its characters stand in their order. The letters may be small or capital throughout.
pub resolve-IsOffered :
    (query : Option Text) (candidates : List SelectionCandidate) (c : SelectionCandidate)
    → Memᴰ c (offered (resolve query candidates)) ↔ IsOffered candidates c (trimmed query)
unfolding resolve
resolve-IsOffered query candidates c = trimmed_iff (trimmed query) candidates c
