-- ===== src/Cli/Selector/Tiers.antt =====
-- What a query has in common with a candidate, said of their characters, and the tests for it.
use agent_workboard.Prelude.{
  ℕ, ◌+◌, ◌-◌, ◌<◌, ◌≤◌, Bool, true, false, ◌||◌, [], ◌∷◌, ◌++◌, Option, none, some, Text,
  text_eq_iff, len, len-append, length-le-len, len-map, ◌==◌, ltb, is_none, is_some_and,
  is_ascii_uppercase, if◌then◌else◌, Bool-cases, Option-cases, or_right, ◌≡◌, refl, sym, ap, subst,
  ◌∙◌, ◌⊎◌, inl, inr, ◌↔◌, arith,
}
use agent_workboard.Cli.Selector.{
  SelectionCandidate, lower, eq_ignore_ascii_case, byte_prefix, has_id_prefix, is_exact, best,
  fuzzy_score, unwrap_or_default, candidate_score,
}
use agent_workboard.Cli.Selector.Matches.{IsSubsequence, fuzzy_score_iff}

-- The text begins with the query, in any letters.
unfoldable pub IsPrefixed : Text → Text → Type 0
IsPrefixed query s = (p : Text) × (rest : Text) × (s ≡ p ++ rest) × (lower p ≡ lower query)

-- The query is the label or the key, in any letters.
pub data IsNamed (query : Text) (c : SelectionCandidate) : Type 0 where
  named_label : lower c.label ≡ lower query → IsNamed query c
  named_key : (k : Text) → c.key ≡ some k → lower k ≡ lower query → IsNamed query c

-- The characters of the query stand in the label, the key or the metadata, in their order and in any
-- letters; a missing key is an empty text.
pub data IsMatched (query : Text) (c : SelectionCandidate) : Type 0 where
  in_label : IsSubsequence (lower query) (lower c.label) → IsMatched query c
  in_key : IsSubsequence (lower query) (lower (unwrap_or_default c.key)) → IsMatched query c
  in_metadata : IsSubsequence (lower query) (lower c.metadata) → IsMatched query c

pub same_letters_iff : (s t : Text) → (eq_ignore_ascii_case s t ≡ true) ↔ (lower s ≡ lower t)
unfolding eq_ignore_ascii_case
same_letters_iff s t = text_eq_iff (lower s) (lower t)

len-lower : (s : Text) → len (lower s) ≡ len s
unfolding lower is_ascii_uppercase
len-lower s = len-map (λ c. if is_ascii_uppercase c then c + 32 else c) (λ c. small c) s
  where
    small :
        (c : ℕ)
        → ((if is_ascii_uppercase c then c + 32 else c) ≡ c)
          ⊎ ((c < 128) × ((if is_ascii_uppercase c then c + 32 else c) < 128))
    small c = ground arith

-- What `byte_prefix` takes from a text that begins with a character.
take_byte :
    (n : ℕ) (c : ℕ) (s p : Text)
    → byte_prefix n (c ∷ s) ≡ some p
    → (p ≡ []) ⊎ ((q : Text) × (p ≡ c ∷ q) × (byte_prefix (n - len (c ∷ [])) s ≡ some q))
unfolding byte_prefix
take_byte n c s p h = go (n == 0) (ltb n (len (c ∷ []))) (byte_prefix (n - len (c ∷ [])) s) h
  where
    go :
        (a b : Bool) (o : Option Text)
        → (if a
            then some []
            else if b
            then none
            else elim o [ none ↦ none | some q ↦ some (c ∷ q) ])
          ≡ some p
        → (p ≡ []) ⊎ ((q : Text) × (p ≡ c ∷ q) × (o ≡ some q))
    go true b o h = inl cc
    go false true o h = cc
    go false false none h = cc
    go false false (some q) h = inr (q, cc, refl)

byte_prefix_sound :
    (n : ℕ) (s p : Text) → byte_prefix n s ≡ some p → (rest : Text) × (s ≡ p ++ rest)
unfolding byte_prefix
byte_prefix_sound n [] p h = elim (Bool-cases (n == 0)) [
  | inl e ↦
      let taken : byte_prefix n [] ≡ some [] = rw (byte_prefix, e) refl in
      let nothing : p ≡ [] = cc in ([], rw nothing refl)
  | inr e ↦ let untaken : byte_prefix n [] ≡ none = rw (byte_prefix, e) refl in cc
]
byte_prefix_sound n (c ∷ s) p h = elim (take_byte n c s p h) [
  | inl e ↦ (c ∷ s, rw e refl)
  | inr (q, e, k) ↦
      let (rest, same) = byte_prefix_sound (n - len (c ∷ [])) s q k in (rest, rw (e, same) refl)
]

byte_prefix_complete : (p rest : Text) → byte_prefix (len p) (p ++ rest) ≡ some p
unfolding byte_prefix len
byte_prefix_complete [] [] = refl
byte_prefix_complete [] (c ∷ rest) = refl
byte_prefix_complete (c ∷ p) rest =
    let total = len-append (c ∷ []) p in
    let wide : 1 ≤ len (c ∷ []) = length-le-len (c ∷ []) in
    let some_left : (len (c ∷ p) == 0) ≡ false = positive _ (omega (arith, total, wide)) in
    let enough : ltb (len (c ∷ p)) (len (c ∷ [])) ≡ false = fits _ _ (omega (arith, total)) in
    let left : len (c ∷ p) - len (c ∷ []) ≡ len p = omega (arith, total) in
    let later : byte_prefix (len (c ∷ p) - len (c ∷ [])) (p ++ rest) ≡ some p =
      rw left (byte_prefix_complete p rest) in
    rw (byte_prefix, some_left, enough, later) refl
  where
    positive : (n : ℕ) → 1 ≤ n → (n == 0) ≡ false
    positive n h = ground arith

    fits : (n w : ℕ) → w ≤ n → ltb n w ≡ false
    fits n w h = ground arith

pub has_id_prefix_iff :
    (query : Text) (c : SelectionCandidate) → (has_id_prefix query c ≡ true) ↔ IsPrefixed query c.id
unfolding has_id_prefix IsPrefixed
has_id_prefix_iff query c = (
  λ h. elim (Option-cases (byte_prefix (len query) c.id)) [
    | inl e ↦
        let no : is_some_and (byte_prefix (len query) c.id) (λ p. eq_ignore_ascii_case p query)
            ≡ false =
          rw e refl in
        cc
    | inr (p, e) ↦
        let yes : eq_ignore_ascii_case p query ≡ true =
          sym (ap (λ o. is_some_and o (λ p. eq_ignore_ascii_case p query)) e) ∙ h in
        let (rest, same) = byte_prefix_sound (len query) c.id p e in
        (p, rest, same, (same_letters_iff p query).0 yes)
  ],
  λ (p, rest, same, letters).
      let as_long : len query ≡ len p =
        sym (len-lower query) ∙ (ap len (sym letters) ∙ len-lower p) in
      let taken : byte_prefix (len query) c.id ≡ some p =
        subst (λ n. byte_prefix n c.id ≡ some p) (sym as_long)
          (subst (λ s. byte_prefix (len p) s ≡ some p) (sym same) (byte_prefix_complete p rest)) in
      rw taken ((same_letters_iff p query).1 letters),
)

or-cases : (a b : Bool) → (a || b) ≡ true → (a ≡ true) ⊎ (b ≡ true)
or-cases true b h = inl refl
or-cases false b h = inr h

clash : {b : Bool} → b ≡ true → b ≡ false → ⊥
clash e f = cc

pub is_exact_iff :
    (query : Text) (c : SelectionCandidate) → (is_exact query c ≡ true) ↔ IsNamed query c
unfolding is_exact
is_exact_iff query c = (
  λ h. elim (or-cases _ _ h) [
    | inl k ↦ elim (Option-cases c.key) [
      | inl e ↦
          let no : is_some_and c.key (λ k. eq_ignore_ascii_case k query) ≡ false = rw e refl in
          absurd (clash k no)
      | inr (t, e) ↦ named_key t e (
          (same_letters_iff t query).0
            (sym (ap (λ o. is_some_and o (λ k. eq_ignore_ascii_case k query)) e) ∙ k))
    ]
    | inr l ↦ named_label ((same_letters_iff c.label query).0 l)
  ],
  λ n. elim n [
    | named_label e ↦ or_right _ ((same_letters_iff c.label query).1 e)
    | named_key k e f ↦ rw (e, (same_letters_iff k query).1 f) refl
  ],
)

best_iff :
    (a b : Option ℕ) → (is_none (best a b) ≡ false) ↔ ((is_none a ≡ false) ⊎ (is_none b ≡ false))
unfolding best
best_iff none b = (λ h. inr h, λ s. elim s [ inl e ↦ cc | inr e ↦ e ])
best_iff (some a) none = (λ h. inl refl, λ s. refl)
best_iff (some a) (some b) = (λ h. inl refl, λ s. refl)

pub candidate_score_iff :
    (query : Text) (c : SelectionCandidate)
    → (is_none (candidate_score query c) ≡ false) ↔ IsMatched query c
unfolding candidate_score
candidate_score_iff query c =
    let label = fuzzy_score query c.label in
    let key = fuzzy_score query (unwrap_or_default c.key) in
    let metadata = fuzzy_score query c.metadata in
    (
      λ h. elim ((best_iff label (best key metadata)).0 h) [
        | inl l ↦ in_label ((fuzzy_score_iff query c.label).0 l)
        | inr r ↦ elim ((best_iff key metadata).0 r) [
          | inl k ↦ in_key ((fuzzy_score_iff query (unwrap_or_default c.key)).0 k)
          | inr m ↦ in_metadata ((fuzzy_score_iff query c.metadata).0 m)
        ]
      ],
      λ m. elim m [
        | in_label s ↦
            (best_iff label (best key metadata)).1 (inl ((fuzzy_score_iff query c.label).1 s))
        | in_key s ↦ (best_iff label (best key metadata)).1 (
            inr (
              (best_iff key metadata).1
                (inl ((fuzzy_score_iff query (unwrap_or_default c.key)).1 s))))
        | in_metadata s ↦
            (best_iff label (best key metadata)).1
              (inr ((best_iff key metadata).1 (inr ((fuzzy_score_iff query c.metadata).1 s))))
      ],
    )
