-- ===== src/Cli/Selector/Above.antt =====
-- When a candidate stands above another, and the comparisons of the two sorts.
use agent_workboard.Prelude.{
  ℕ, ◌<◌, Bool, true, false, ◌&&◌, ◌||◌, [], ◌∷◌, Text, text_eq, text_eq_iff, ◌==◌, ltb, ==_iff,
  Bool-cases, or_right, ◌≡◌, refl, sym, subst, ◌∙◌, ◌⊎◌, inl, inr, arith,
}
use agent_workboard.Cli.Selector.{RankedCandidate, before, by_label, by_score}

-- The order of dictionaries, by code points.
pub data IsBefore : Text → Text → Type 0 where
  shorter : {d : ℕ} {t : Text} → IsBefore [] (d ∷ t)
  smaller : {c d : ℕ} {s t : Text} → c < d → IsBefore (c ∷ s) (d ∷ t)
  later : {c d : ℕ} {s t : Text} → c ≡ d → IsBefore s t → IsBefore (c ∷ s) (d ∷ t)

-- A candidate is above another by its score, else by its label, else by its identifier.
pub data IsAbove (a b : RankedCandidate) : Type 0 where
  score : b.score < a.score → IsAbove a b
  label : b.score ≡ a.score → IsBefore a.candidate.label b.candidate.label → IsAbove a b
  id :
      b.score ≡ a.score
      → a.candidate.label ≡ b.candidate.label
      → IsBefore a.candidate.id b.candidate.id
      → IsAbove a b

pub clash : {b : Bool} → b ≡ true → b ≡ false → ⊥
clash e f = cc

IsBefore-before : {s t : Text} → IsBefore s t → before s t ≡ true
unfolding before
IsBefore-before shorter = refl
IsBefore-before (smaller {c} {d} h) = less c d _ h
  where
    less : (c d : ℕ) (b : Bool) → c < d → (ltb c d || b) ≡ true
    less c d b h = ground arith
IsBefore-before (later {c} {d} e m) =
    or_right (ltb c d) (both ((==_iff c d).1 e) (IsBefore-before m))
  where
    both : {a b : Bool} → a ≡ true → b ≡ true → (a && b) ≡ true
    both e f = ground arith

before-asym : (s t : Text) → before s t ≡ true → before t s ≡ false
unfolding before
before-asym s [] h = cc
before-asym [] (d ∷ t) h = refl
before-asym (c ∷ s) (d ∷ t) h = ground (arith, before-asym s t)

text_eq_comm : (s t : Text) → text_eq s t ≡ text_eq t s
text_eq_comm s t = elim (Bool-cases (text_eq s t)) [
  | inl e ↦ e ∙ sym ((text_eq_iff t s).1 (sym ((text_eq_iff s t).0 e)))
  | inr e ↦ elim (Bool-cases (text_eq t s)) [
    | inl f ↦ absurd (clash ((text_eq_iff s t).1 (sym ((text_eq_iff t s).0 f))) e)
    | inr f ↦ e ∙ sym f
  ]
]

before-equal : (s t : Text) → text_eq s t ≡ true → before s t ≡ false
before-equal s t e =
    let same = (text_eq_iff s t).0 e in
    elim (Bool-cases (before s t)) [
      | inl f ↦ absurd (
          clash f (
            subst (λ x. before s x ≡ false) same
              (before-asym s s (subst (λ x. before s x ≡ true) (sym same) f))))
      | inr f ↦ f
    ]

pub by_label-asym : (a b : RankedCandidate) → by_label a b ≡ true → by_label b a ≡ false
unfolding by_label
by_label-asym a b h =
    go (before a.candidate.label b.candidate.label) (before b.candidate.label a.candidate.label)
      (text_eq a.candidate.label b.candidate.label) (text_eq b.candidate.label a.candidate.label)
      (before a.candidate.id b.candidate.id) (before b.candidate.id a.candidate.id)
      (before-asym a.candidate.label b.candidate.label)
      (before-equal a.candidate.label b.candidate.label)
      (before-equal b.candidate.label a.candidate.label)
      (text_eq_comm a.candidate.label b.candidate.label) (before-asym a.candidate.id b.candidate.id)
      h
  where
    go :
        (ab ba eq eq2 iab iba : Bool)
        → (ab ≡ true → ba ≡ false)
        → (eq ≡ true → ab ≡ false)
        → (eq2 ≡ true → ba ≡ false)
        → eq ≡ eq2
        → (iab ≡ true → iba ≡ false)
        → (ab || (eq && iab)) ≡ true
        → (ba || (eq2 && iba)) ≡ false
    go ab ba eq eq2 iab iba f d g e k h = ground arith

pub by_score-asym : (a b : RankedCandidate) → by_score a b ≡ true → by_score b a ≡ false
unfolding by_score
by_score-asym a b h = go a.score b.score (by_label a b) (by_label b a) (by_label-asym a b) h
  where
    go :
        (m n : ℕ) (x y : Bool)
        → (x ≡ true → y ≡ false)
        → (ltb n m || (n == m && x)) ≡ true
        → (ltb m n || (m == n && y)) ≡ false
    go m n x y f h = ground arith

right : (a b c : Bool) → b ≡ true → c ≡ true → (a || (b && c)) ≡ true
right a b c e f = ground arith

pub by_label_complete :
    (a b : RankedCandidate)
    → (IsBefore a.candidate.label b.candidate.label
        ⊎ ((a.candidate.label ≡ b.candidate.label) × IsBefore a.candidate.id b.candidate.id))
    → by_label a b ≡ true
unfolding by_label
by_label_complete a b (inl m) = rw (IsBefore-before m) refl
by_label_complete a b (inr (e, m)) = right _ _ _ ((text_eq_iff _ _).1 e) (IsBefore-before m)

pub by_score_complete : (a b : RankedCandidate) → IsAbove a b → by_score a b ≡ true
unfolding by_score
by_score_complete a b (score h) = less b.score a.score _ h
  where
    less : (c d : ℕ) (x : Bool) → c < d → (ltb c d || x) ≡ true
    less c d x h = ground arith
by_score_complete a b (label e m) =
    right _ _ _ ((==_iff b.score a.score).1 e) (by_label_complete a b (inl m))
by_score_complete a b (id e same m) =
    right _ _ _ ((==_iff b.score a.score).1 e) (by_label_complete a b (inr (same, m)))
