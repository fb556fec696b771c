-- ===== src/Cli/Selector/Missed.antt =====
-- When a query finds nothing.
use mathlib.Core.List.Memᴰ
use agent_workboard.Prelude.{
  List, [], ◌∷◌, Option, none, some, Text, find, is_none, Option-cases, ◌≡◌, refl, sym, subst, ap,
  ◌⊎◌, inl, inr, ◌↔◌, Memᴰ,
}
use agent_workboard.Cli.Selector.{
  SelectionCandidate, empty, sort_by, matches, candidate_score, select_match, select_or, resolve_id,
  resolve_query, resolve_trimmed, trimmed, resolve, lower, unwrap_or_default,
}
use agent_workboard.Cli.Selector.Matches.{IsSubsequence, all_found, found}
use agent_workboard.Cli.Selector.Tiers.{
  IsNamed, named_label, named_key, IsMatched, in_label, in_key, same_letters_iff,
  candidate_score_iff,
}
use agent_workboard.Cli.Selector.Offered.{
  offered, NoIdentifier, NonePrefixed, NoneNamed, IsOffered, identified, prefixed, named, matched,
  find_first, find-none,
}
use agent_workboard.Cli.Selector.Resolved.{
  has_id, refuted, found_none, none_prefixed, none_named, trimmed_iff,
}

-- The query has nothing in common with any candidate.
pub record IsMissed (s : Text) (candidates : List SelectionCandidate) : Type 0 where
  pub identifier : NoIdentifier s candidates
  pub prefix : NonePrefixed s candidates
  pub characters : (d : SelectionCandidate) → Memᴰ d candidates → ¬ IsMatched s d

IsSubsequence-self : (s : Text) → IsSubsequence s s
IsSubsequence-self [] = all_found
IsSubsequence-self (c ∷ s) = found refl (IsSubsequence-self s)

-- A name matches.
IsNamed-IsMatched : (s : Text) (c : SelectionCandidate) → IsNamed s c → IsMatched s c
unfolding unwrap_or_default
IsNamed-IsMatched s c (named_label e) =
    in_label (subst (IsSubsequence (lower s)) (sym e) (IsSubsequence-self (lower s)))
IsNamed-IsMatched s c (named_key k e same) = in_key (
    subst (λ o. IsSubsequence (lower s) (lower (unwrap_or_default o))) (sym e)
      (subst (IsSubsequence (lower s)) (sym same) (IsSubsequence-self (lower s))))

matches-nil :
    (s : Text) (candidates : List SelectionCandidate)
    → ((d : SelectionCandidate) → Memᴰ d candidates → ¬ IsMatched s d)
    → matches s candidates ≡ []
unfolding matches
matches-nil s [] h = refl
matches-nil s (d ∷ candidates) h = elim (Option-cases (candidate_score s d)) [
  | inl e ↦ rw (e, matches-nil s candidates (λ c m. h c (Memᴰ.tail m))) refl
  | inr (score, e) ↦ absurd (h d (Memᴰ.head refl) ((candidate_score_iff s d).0 (ap is_none e)))
]

IsMissed-empty :
    (s : Text) (candidates : List SelectionCandidate)
    → IsMissed s candidates
    → resolve_id s candidates (find (has_id s candidates) candidates) ≡ empty
unfolding resolve_id NoneNamed select_or select_match sort_by
IsMissed-empty s candidates h =
    let no_name =
      (none_named s candidates).1 (λ d m n. h.characters d m (IsNamed-IsMatched s d n)) in
    rw (found_none s candidates h.identifier) (
      rw ((none_prefixed s candidates).1 h.prefix)
        (rw no_name (rw (matches-nil s candidates h.characters) refl)))

empty-IsMissed :
    (s : Text) (candidates : List SelectionCandidate)
    → ((c : SelectionCandidate) → ¬ IsOffered candidates c (some s))
    → IsMissed s candidates
unfolding NoIdentifier NonePrefixed NoneNamed
empty-IsMissed s candidates none_offered =
    let unknown = nobody in
    let unprefixed : NonePrefixed s candidates = λ d m p. none_offered d (prefixed unknown m p) in
    let unnamed : NoneNamed s candidates = λ d m p. none_offered d (named unknown unprefixed m p) in
    record {
      identifier = unknown;
      prefix = unprefixed;
      characters = λ d m p. none_offered d (matched unknown unprefixed unnamed m p);
    }
  where
    nobody : NoIdentifier s candidates
    nobody = elim (Option-cases (find (has_id s candidates) candidates)) [
      | inl e ↦ λ d m.
          refuted s candidates _ (same_letters_iff d.id s)
            (find-none (has_id s candidates) candidates e d m)
      | inr (c, e) ↦
          let (before, after, split, others, same) =
            find_first (has_id s candidates) candidates e in
          absurd (
            none_offered c (
              identified before after split
                (λ d m. refuted s candidates _ (same_letters_iff d.id s) (others d m))
                ((same_letters_iff c.id s).0 same)))
    ]

trimmed-empty :
    (q : Option Text) (candidates : List SelectionCandidate)
    → (resolve_trimmed q candidates ≡ empty)
      ↔ ((candidates ≡ []) ⊎ ((s : Text) × (q ≡ some s) × IsMissed s candidates))
unfolding resolve_trimmed resolve_query offered
trimmed-empty q [] = (λ h. inl refl, λ s. refl)
trimmed-empty none (d ∷ candidates) = (λ h. cc, λ s. elim s [ inl e ↦ cc | inr (s, e, _) ↦ cc ])
trimmed-empty (some s) (d ∷ candidates) = (
  λ h. inr (
    s,
    refl,
    empty-IsMissed s (d ∷ candidates) (λ c o.
        Memᴰ.not-nil
          (subst (λ r. Memᴰ c (offered r)) h ((trimmed_iff (some s) (d ∷ candidates) c).1 o))),
  ),
  λ m. elim m [
    | inl e ↦ cc
    | inr (t, e, missed) ↦
        let same : t ≡ s = cc in
        IsMissed-empty s (d ∷ candidates) (subst (λ x. IsMissed x (d ∷ candidates)) same missed)
  ],
)

-- `resolve` finds nothing exactly if there are no candidates, or the query is not blank and, without
-- the space around it and in any letters, is no candidate's identifier, begins none, and has its
-- characters in the order of no label, key or metadata.
pub resolve-empty :
    (query : Option Text) (candidates : List SelectionCandidate)
    → (resolve query candidates ≡ empty)
      ↔ ((candidates ≡ []) ⊎ ((s : Text) × (trimmed query ≡ some s) × IsMissed s candidates))
unfolding resolve
resolve-empty query candidates = trimmed-empty (trimmed query) candidates
