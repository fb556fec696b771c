-- ===== src/Cli/Selector/Offered.antt =====
-- What a query selects or offers.
use mathlib.Core.List.Memᴰ
use agent_workboard.Prelude.{
  ℕ, Bool, true, false, List, [], ◌∷◌, ◌++◌, map, Option, none, some, Text, keep, mem-keep, find,
  is_none, ◌≢◌, Bool-cases, ◌≡◌, refl, sym, subst, ap, ◌∙◌, ◌⊎◌, inl, inr, ◌↔◌, Memᴰ,
}
use agent_workboard.Cli.Selector.{
  SelectionCandidate, RankedCandidate, SelectionResult, empty, selected, picker, insert, sort_by,
  by_label, rank_all, add_ranked, matches, candidate_score, select_match, select_or, lower,
}
use agent_workboard.Cli.Selector.Tiers.{IsPrefixed, IsNamed, IsMatched}

-- The candidates that a result names.
unfoldable pub offered : SelectionResult → List SelectionCandidate
offered empty = []
offered (selected c) = c ∷ []
offered (picker ranked) = map (λ r. r.candidate) ranked

-- No candidate of a list has the identifier, begins with it, or has the name.
unfoldable pub NoIdentifier : Text → List SelectionCandidate → Type 0
NoIdentifier s candidates = (d : SelectionCandidate) → Memᴰ d candidates → lower d.id ≢ lower s

unfoldable pub NonePrefixed : Text → List SelectionCandidate → Type 0
NonePrefixed s candidates = (d : SelectionCandidate) → Memᴰ d candidates → ¬ IsPrefixed s d.id

unfoldable pub NoneNamed : Text → List SelectionCandidate → Type 0
NoneNamed s candidates = (d : SelectionCandidate) → Memᴰ d candidates → ¬ IsNamed s d

-- Why a query names one of the candidates: there is no query; the candidate is the first with the
-- identifier; or it is one of those of which the identifier begins so, if there are any, else of
-- those with the name, else of those that match.
pub data IsOffered (candidates : List SelectionCandidate) (c : SelectionCandidate)
    : Option Text → Type 0 where
  unasked : Memᴰ c candidates → IsOffered candidates c none
  identified :
      {s : Text} (before after : List SelectionCandidate)
      → candidates ≡ before ++ c ∷ after
      → NoIdentifier s before
      → lower c.id ≡ lower s
      → IsOffered candidates c (some s)
  prefixed :
      {s : Text}
      → NoIdentifier s candidates
      → Memᴰ c candidates
      → IsPrefixed s c.id
      → IsOffered candidates c (some s)
  named :
      {s : Text}
      → NoIdentifier s candidates
      → NonePrefixed s candidates
      → Memᴰ c candidates
      → IsNamed s c
      → IsOffered candidates c (some s)
  matched :
      {s : Text}
      → NoIdentifier s candidates
      → NonePrefixed s candidates
      → NoneNamed s candidates
      → Memᴰ c candidates
      → IsMatched s c
      → IsOffered candidates c (some s)

pub clash : {b : Bool} → b ≡ true → b ≡ false → ⊥
clash e f = cc

not_false : (b : Bool) → (b ≡ false → ⊥) → b ≡ true
not_false true h = refl
not_false false h = absurd (h refl)

module _ {ℓ} {A : Type ℓ} (p : A → Bool) where
  pub find_first :
      (xs : List A) {x : A}
      → find p xs ≡ some x
      → (before : List A) × (after : List A) × (xs ≡ before ++ x ∷ after)
        × ((d : A) → Memᴰ d before → p d ≡ false)
        × (p x ≡ true)
  find_first [] h = cc
  find_first (y ∷ xs) {x} h = elim (Bool-cases (p y)) [
    | inl e ↦
        let here : find p (y ∷ xs) ≡ some y = rw e refl in
        let same : y ≡ x = cc in
        ([], xs, ap (λ z. z ∷ xs) same, λ d m. absurd (Memᴰ.not-nil m), ap p (sym same) ∙ e)
    | inr e ↦
        let on : find p (y ∷ xs) ≡ find p xs = rw e refl in
        let (before, after, same, others, passes) = find_first xs (sym on ∙ h) in
        (
          y ∷ before,
          after,
          ap (λ z. y ∷ z) same,
          λ d m. elim (Memᴰ.cases_cons m) [ inl s ↦ ap p s ∙ e | inr n ↦ others d n ],
          passes,
        )
  ]

  pub first_find :
      (before after : List A) (x : A)
      → ((d : A) → Memᴰ d before → p d ≡ false)
      → p x ≡ true
      → find p (before ++ x ∷ after) ≡ some x
  first_find [] after x others passes = rw passes refl
  first_find (y ∷ before) after x others passes =
      rw (others y (Memᴰ.head refl))
        (first_find before after x (λ d m. others d (Memᴰ.tail m)) passes)

  pub find-none : (xs : List A) → find p xs ≡ none → (d : A) → Memᴰ d xs → p d ≡ false
  find-none [] h d m = absurd (Memᴰ.not-nil m)
  find-none (y ∷ xs) h d m = elim (Bool-cases (p y)) [
    | inl e ↦ let here : find p (y ∷ xs) ≡ some y = rw e refl in cc
    | inr e ↦
        let on : find p (y ∷ xs) ≡ find p xs = rw e refl in
        elim (Memᴰ.cases_cons m) [ inl s ↦ ap p s ∙ e | inr n ↦ find-none xs (sym on ∙ h) d n ]
  ]

  pub none-find : (xs : List A) → ((d : A) → Memᴰ d xs → p d ≡ false) → find p xs ≡ none
  none-find [] h = refl
  none-find (y ∷ xs) h = rw (h y (Memᴰ.head refl)) (none-find xs (λ d m. h d (Memᴰ.tail m)))

  pub keep-nil : (xs : List A) → keep p xs ≡ [] → (d : A) → Memᴰ d xs → p d ≡ false
  keep-nil xs h d m = elim (Bool-cases (p d)) [
    | inl e ↦ absurd (Memᴰ.not-nil (subst (Memᴰ d) h (mem-keep p xs m e)))
    | inr e ↦ e
  ]

  pub nil-keep : (xs : List A) → ((d : A) → Memᴰ d xs → p d ≡ false) → keep p xs ≡ []
  nil-keep [] h = refl
  nil-keep (y ∷ xs) h = rw (h y (Memᴰ.head refl)) (nil-keep xs (λ d m. h d (Memᴰ.tail m)))

module _ (less : RankedCandidate → RankedCandidate → Bool) where
  insert-mem :
      (r : RankedCandidate) (ranked : List RankedCandidate) {x : RankedCandidate}
      → Memᴰ x (insert less r ranked) ↔ Memᴰ x (r ∷ ranked)
  unfolding insert
  insert-mem r [] = (λ m. m, λ m. m)
  insert-mem r (l ∷ ranked) {x} = elim (Bool-cases (less l r)) [
    | inl e ↦
        let same : insert less r (l ∷ ranked) ≡ l ∷ insert less r ranked = rw (insert, e) refl in
        (
          λ m. elim (Memᴰ.cases_cons (subst (Memᴰ x) same m)) [
            | inl s ↦ Memᴰ.tail (Memᴰ.head s)
            | inr n ↦ elim (Memᴰ.cases_cons ((insert-mem r ranked).0 n)) [
              | inl s ↦ Memᴰ.head s
              | inr k ↦ Memᴰ.tail (Memᴰ.tail k)
            ]
          ],
          λ m. subst (Memᴰ x) (sym same) (elim (Memᴰ.cases_cons m) [
            | inl s ↦ Memᴰ.tail ((insert-mem r ranked).1 (Memᴰ.head s))
            | inr n ↦ elim (Memᴰ.cases_cons n) [
              | inl s ↦ Memᴰ.head s
              | inr k ↦ Memᴰ.tail ((insert-mem r ranked).1 (Memᴰ.tail k))
            ]
          ]),
        )
    | inr e ↦
        let same : insert less r (l ∷ ranked) ≡ r ∷ l ∷ ranked = rw (insert, e) refl in
        (λ m. subst (Memᴰ x) same m, λ m. subst (Memᴰ x) (sym same) m)
  ]

  pub sort_by-mem :
      (ranked : List RankedCandidate) {x : RankedCandidate}
      → Memᴰ x (sort_by less ranked) ↔ Memᴰ x ranked
  unfolding sort_by
  sort_by-mem [] = (λ m. m, λ m. m)
  sort_by-mem (r ∷ ranked) = (
    λ m. elim (Memᴰ.cases_cons ((insert-mem r (sort_by less ranked)).0 m)) [
      | inl s ↦ Memᴰ.head s
      | inr n ↦ Memᴰ.tail ((sort_by-mem ranked).0 n)
    ],
    λ m. (insert-mem r (sort_by less ranked)).1 (elim (Memᴰ.cases_cons m) [
      | inl s ↦ Memᴰ.head s
      | inr n ↦ Memᴰ.tail ((sort_by-mem ranked).1 n)
    ]),
  )

  pub ranked-mem :
      (ranked : List RankedCandidate) {c : SelectionCandidate}
      → Memᴰ c (map (λ r. r.candidate) (sort_by less ranked))
        ↔ Memᴰ c (map (λ r. r.candidate) ranked)
  ranked-mem ranked {c} = (
    λ m.
        let (r, n, same) = Memᴰ.of_map (λ r. r.candidate) (sort_by less ranked) m in
        subst (λ x. Memᴰ x (map (λ r. r.candidate) ranked)) same
          (Memᴰ.map (λ r. r.candidate) ((sort_by-mem ranked).0 n)),
    λ m.
        let (r, n, same) = Memᴰ.of_map (λ r. r.candidate) ranked m in
        subst (λ x. Memᴰ x (map (λ r. r.candidate) (sort_by less ranked))) same
          (Memᴰ.map (λ r. r.candidate) ((sort_by-mem ranked).1 n)),
  )

abbrev pub unscored : SelectionCandidate → RankedCandidate
unscored c = record { candidate = c; score = 0 }

unranked :
    (candidates : List SelectionCandidate)
    → map (λ r. r.candidate) (map unscored candidates) ≡ candidates
unranked [] = refl
unranked (c ∷ candidates) = ap (λ cs. c ∷ cs) (unranked candidates)

pub rank_all-mem :
    (candidates : List SelectionCandidate) {c : SelectionCandidate}
    → Memᴰ c (map (λ r. r.candidate) (rank_all candidates)) ↔ Memᴰ c candidates
unfolding rank_all
rank_all-mem candidates {c} =
    let ranked = map unscored candidates in
    (
      λ m. subst (Memᴰ c) (unranked candidates) ((ranked-mem by_label ranked).0 m),
      λ m. (ranked-mem by_label ranked).1 (subst (Memᴰ c) (sym (unranked candidates)) m),
    )

pub matches-mem :
    (query : Text) (candidates : List SelectionCandidate) {c : SelectionCandidate}
    → Memᴰ c (map (λ r. r.candidate) (matches query candidates))
      ↔ (Memᴰ c candidates × (is_none (candidate_score query c) ≡ false))
unfolding matches
matches-mem query [] = (λ m. absurd (Memᴰ.not-nil m), λ (m, h). m)
matches-mem query (d ∷ candidates) {c} =
    added (candidate_score query d) refl (matches-mem query candidates)
  where
    added :
        (o : Option ℕ)
        → candidate_score query d ≡ o
        → (Memᴰ c (map (λ r. r.candidate) (matches query candidates))
            ↔ (Memᴰ c candidates × (is_none (candidate_score query c) ≡ false)))
        → Memᴰ c (map (λ r. r.candidate) (add_ranked d o (matches query candidates)))
          ↔ (Memᴰ c (d ∷ candidates) × (is_none (candidate_score query c) ≡ false))
    added none e (f, g) = (
      λ m. let (n, h) = f m in (Memᴰ.tail n, h),
      λ (m, h). elim (Memᴰ.cases_cons m) [
        | inl same ↦
            let no : is_none (candidate_score query c) ≡ true =
              ap is_none (ap (candidate_score query) same ∙ e) in
            absurd (clash no h)
        | inr n ↦ g (n, h)
      ],
    )
    added (some score) e (f, g) = (
      λ m. elim (Memᴰ.cases_cons m) [
        | inl same ↦ (Memᴰ.head same, ap is_none (ap (candidate_score query) same ∙ e))
        | inr n ↦ let (k, h) = f n in (Memᴰ.tail k, h)
      ],
      λ (m, h). elim (Memᴰ.cases_cons m) [
        | inl same ↦ Memᴰ.head same
        | inr n ↦ Memᴰ.tail (g (n, h))
      ],
    )

pub select_or-mem :
    (some_of : List SelectionCandidate) (otherwise : SelectionResult) (c : SelectionCandidate)
    → Memᴰ c (offered (select_or some_of otherwise))
      ↔ (Memᴰ c some_of ⊎ ((some_of ≡ []) × Memᴰ c (offered otherwise)))
unfolding select_or offered
select_or-mem [] otherwise c =
    (λ m. inr (refl, m), λ s. elim s [ inl m ↦ absurd (Memᴰ.not-nil m) | inr (e, m) ↦ m ])
select_or-mem (d ∷ []) otherwise c = (λ m. inl m, λ s. elim s [ inl m ↦ m | inr (e, m) ↦ cc ])
select_or-mem (d ∷ e ∷ more) otherwise c = (
  λ m. inl ((rank_all-mem (d ∷ e ∷ more)).0 m),
  λ s. elim s [ inl m ↦ (rank_all-mem (d ∷ e ∷ more)).1 m | inr (f, m) ↦ cc ],
)

pub select_match-offered :
    (ranked : List RankedCandidate) → offered (select_match ranked) ≡ map (λ r. r.candidate) ranked
unfolding select_match offered
select_match-offered [] = refl
select_match-offered (r ∷ []) = refl
select_match-offered (r ∷ l ∷ ranked) = refl
