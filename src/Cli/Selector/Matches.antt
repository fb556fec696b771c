-- ===== src/Cli/Selector/Matches.antt =====
-- Which candidates match a query at all.
use agent_workboard.Prelude.{
  if◌then◌else◌, ℕ, ◌+◌, Bool, true, false, [], ◌∷◌, Option, none, some, Text, is_none, len, ◌==◌,
  ==_iff, Bool-cases, ◌≡◌, ◌↔◌, refl, sym, ◌⊎◌, inl, inr, and-eq-true,
}
use agent_workboard.Cli.Selector.{
  lower, has_prefix, find_from, one_more, score_gaps, score_subsequence, score_substring,
  score_lower, fuzzy_score,
}

-- The characters of the first text stand in the second, in their order.
pub data IsSubsequence : Text → Text → Type 0 where
  all_found : {s : Text} → IsSubsequence [] s
  found : {c d : ℕ} {p s : Text} → c ≡ d → IsSubsequence p s → IsSubsequence (c ∷ p) (d ∷ s)
  passed : {d : ℕ} {p s : Text} → IsSubsequence p s → IsSubsequence p (d ∷ s)

-- Without its first character.
rest : {c : ℕ} {p s : Text} → IsSubsequence (c ∷ p) s → IsSubsequence p s
rest (found e m) = passed m
rest (passed m) = passed (rest m)

has_prefix-IsSubsequence : (p s : Text) → has_prefix p s ≡ true → IsSubsequence p s
unfolding has_prefix
has_prefix-IsSubsequence [] s h = all_found
has_prefix-IsSubsequence (c ∷ p) [] h = cc
has_prefix-IsSubsequence (c ∷ p) (d ∷ s) h =
    let (e, t) = and-eq-true (c == d) (has_prefix p s) h in
    found ((==_iff c d).0 e) (has_prefix-IsSubsequence p s t)

-- What a conditional finds, one of its branches has found.
if_found :
    (b : Bool) (x y : Option ℕ)
    → is_none (if b then x else y) ≡ false
    → ((b ≡ true) × (is_none x ≡ false)) ⊎ ((b ≡ false) × (is_none y ≡ false))
if_found true x y h = inl (refl, h)
if_found false x y h = inr (refl, h)

find_from-IsSubsequence :
    (i : ℕ) (p s : Text) → is_none (find_from i p s) ≡ false → IsSubsequence p s
unfolding find_from
find_from-IsSubsequence i p [] h = elim (if_found (has_prefix p []) _ _ h) [
  | inl (e, _) ↦ has_prefix-IsSubsequence p [] e
  | inr (_, f) ↦ cc
]
find_from-IsSubsequence i p (c ∷ s) h = elim (if_found (has_prefix p (c ∷ s)) _ _ h) [
  | inl (e, _) ↦ has_prefix-IsSubsequence p (c ∷ s) e
  | inr (_, f) ↦ passed (find_from-IsSubsequence (i + len (c ∷ [])) p s f)
]

not_in_nothing : {c : ℕ} {p : Text} → IsSubsequence (c ∷ p) [] → ⊥
not_in_nothing m = elim m [ ]

-- Behind a character that is not wanted, or is the wanted one.
behind_other :
    {w d : ℕ} {p s : Text}
    → (d == w) ≡ false
    → IsSubsequence (w ∷ p) (d ∷ s)
    → IsSubsequence (w ∷ p) s
behind_other e (found same m) = absurd (clash ((==_iff _ _).1 (sym same)) e)
  where
    clash : {b : Bool} → b ≡ true → b ≡ false → ⊥
    clash f g = cc
behind_other e (passed m) = m

behind_wanted : {w d : ℕ} {p s : Text} → IsSubsequence (w ∷ p) (d ∷ s) → IsSubsequence p s
behind_wanted (found same m) = m
behind_wanted (passed m) = rest m

-- The loop finds the wanted characters wherever they stand in their order.
score_gaps_iff :
    (w : ℕ) (p : Text) (gaps : ℕ) (s : Text)
    → (is_none (score_gaps w p gaps s) ≡ false) ↔ IsSubsequence (w ∷ p) s
unfolding score_gaps
score_gaps_iff w p gaps [] = (λ h. cc, λ m. absurd (not_in_nothing m))
score_gaps_iff w [] gaps (c ∷ s) = (
  λ h. elim (if_found (c == w) _ _ h) [
    | inl (e, _) ↦ found (sym ((==_iff c w).0 e)) all_found
    | inr (_, f) ↦ passed ((score_gaps_iff w [] (one_more gaps) s).0 f)
  ],
  λ m. elim (Bool-cases (c == w)) [
    | inl e ↦ rw e refl
    | inr e ↦ rw e ((score_gaps_iff w [] (one_more gaps) s).1 (behind_other e m))
  ],
)
score_gaps_iff w (v ∷ p) gaps (c ∷ s) = (
  λ h. elim (if_found (c == w) _ _ h) [
    | inl (e, f) ↦ found (sym ((==_iff c w).0 e)) ((score_gaps_iff v p gaps s).0 f)
    | inr (_, f) ↦ passed ((score_gaps_iff w (v ∷ p) (one_more gaps) s).0 f)
  ],
  λ m. elim (Bool-cases (c == w)) [
    | inl e ↦ rw e ((score_gaps_iff v p gaps s).1 (behind_wanted m))
    | inr e ↦ rw e ((score_gaps_iff w (v ∷ p) (one_more gaps) s).1 (behind_other e m))
  ],
)

score_substring-IsSubsequence :
    (p s : Text) (index : Option ℕ)
    → (is_none index ≡ false → IsSubsequence p s)
    → is_none (score_substring p s index) ≡ false
    → IsSubsequence p s
unfolding score_substring score_subsequence
score_substring-IsSubsequence p s (some i) h f = h refl
score_substring-IsSubsequence [] s none h f = all_found
score_substring-IsSubsequence (w ∷ p) s none h f = (score_gaps_iff w p 0 s).0 f

IsSubsequence-score_substring :
    (w : ℕ) (p s : Text) (index : Option ℕ)
    → IsSubsequence (w ∷ p) s
    → is_none (score_substring (w ∷ p) s index) ≡ false
unfolding score_substring score_subsequence
IsSubsequence-score_substring w p s (some i) m = refl
IsSubsequence-score_substring w p s none m = (score_gaps_iff w p 0 s).1 m

score_lower_iff : (p s : Text) → (is_none (score_lower p s) ≡ false) ↔ IsSubsequence p s
unfolding score_lower
score_lower_iff p s = (
  λ h. elim (if_found (has_prefix p s) _ _ h) [
    | inl (e, _) ↦ has_prefix-IsSubsequence p s e
    | inr (_, f) ↦
        score_substring-IsSubsequence p s (find_from 0 p s) (find_from-IsSubsequence 0 p s) f
  ],
  λ m. elim (Bool-cases (has_prefix p s)) [ inl e ↦ rw e refl | inr e ↦ rw e (without p e m) ],
)
  where
    without :
        (q : Text)
        → has_prefix q s ≡ false
        → IsSubsequence q s
        → is_none (score_substring q s (find_from 0 q s)) ≡ false
    without [] e m = cc
    without (w ∷ q) e m = IsSubsequence-score_substring w q s (find_from 0 (w ∷ q) s) m

-- A query scores against a text exactly if, in small letters, its characters stand in the text in
-- their order.
pub fuzzy_score_iff :
    (query candidate : Text)
    → (is_none (fuzzy_score query candidate) ≡ false)
      ↔ IsSubsequence (lower query) (lower candidate)
unfolding fuzzy_score
fuzzy_score_iff query candidate = score_lower_iff (lower query) (lower candidate)
