-- ===== src/Core/Names/Split.antt =====
-- The pieces that `str::split` leaves between separators.
use agent_workboard.Prelude.{
  starts_with, ends_with, ℕ, ◌≡◌, refl, ap, Bool, true, false, not, List, [], ◌∷◌, ◌++◌, Text,
  is_empty, any, all, All, ◌==◌, ==_iff, Bool-cases, arith, inl, inr,
}
use agent_workboard.Core.Names.{split, push_front}

-- The pieces with a separator between each two.
abbrev pub join : ℕ → List Text → Text
join c [] = []
join c (p ∷ []) = p
join c (p ∷ q ∷ ps) = p ++ (c ∷ join c (q ∷ ps))

abbrev pub HasNo : ℕ → Text → Type 0
HasNo c s = all (λ d. not (d == c)) s ≡ true

pub split-ne-nil : (c : ℕ) (s : Text) → is_empty (split c s) ≡ false
unfolding split
split-ne-nil c [] = refl
split-ne-nil c (d ∷ s) = elim (Bool-cases (d == c)) [
  | inl h ↦ rw h
  | inr h ↦ rw h (push_front-ne-nil (split c s))
]
  where
    push_front-ne-nil : (ps : List Text) → is_empty (push_front d ps) ≡ false
    push_front-ne-nil [] = refl
    push_front-ne-nil (p ∷ ps) = refl

join-push_front :
    (c d : ℕ) (ps : List Text) → is_empty ps ≡ false → join c (push_front d ps) ≡ d ∷ join c ps
unfolding push_front
join-push_front c d [] h = cc
join-push_front c d (p ∷ []) h = refl
join-push_front c d (p ∷ q ∷ ps) h = refl

join-nil : (c : ℕ) (ps : List Text) → is_empty ps ≡ false → join c ([] ∷ ps) ≡ c ∷ join c ps
join-nil c [] h = cc
join-nil c (p ∷ ps) h = refl

pub join-split : (c : ℕ) (s : Text) → join c (split c s) ≡ s
unfolding split
join-split c [] = refl
join-split c (d ∷ s) = elim (Bool-cases (d == c)) [
  | inl h ↦
      rw h (rw (join-nil c (split c s) (split-ne-nil c s)) (cc ((==_iff d c).0 h, join-split c s)))
  | inr h ↦
      rw h (rw (join-push_front c d (split c s) (split-ne-nil c s)) (ap (◌∷◌ d) (join-split c s)))
]

split-plain : (c : ℕ) (p : Text) → HasNo c p → split c p ≡ p ∷ []
unfolding split
split-plain c [] h = refl
split-plain c (d ∷ p) h = ground (arith, split-plain c p)

split-append : (c : ℕ) (p s : Text) → HasNo c p → split c (p ++ (c ∷ s)) ≡ p ∷ split c s
unfolding split
split-append c [] s h = ground arith
split-append c (d ∷ p) s h = ground (arith, split-append c p s)

-- Pieces without a separator are read back from their join.
pub split-join :
    (c : ℕ) (ps : List Text) → is_empty ps ≡ false → All (HasNo c) ps → split c (join c ps) ≡ ps
split-join c [] h all_plain = cc
split-join c (p ∷ []) h (plain, _) = split-plain c p plain
split-join c (p ∷ q ∷ ps) h (plain, more) =
    rw (split-append c p (join c (q ∷ ps)) plain) (ap (◌∷◌ p) (split-join c (q ∷ ps) refl more))

later_empty : List Text → Bool
later_empty [] = false
later_empty (p ∷ ps) = any is_empty ps

any_of_later : (ps : List Text) → later_empty ps ≡ true → any is_empty ps ≡ true
unfolding later_empty
any_of_later [] h = cc
any_of_later (p ∷ ps) h = ground arith

later_empty-push_front : (d : ℕ) (ps : List Text) → later_empty (push_front d ps) ≡ later_empty ps
unfolding later_empty push_front
later_empty-push_front d [] = refl
later_empty-push_front d (p ∷ ps) = refl

ends_with_later : (c : ℕ) (s : Text) → ends_with s c ≡ true → later_empty (split c s) ≡ true
unfolding ends_with split later_empty
ends_with_later c [] h = cc
ends_with_later c (d ∷ []) h = rw h refl
ends_with_later c (d ∷ e ∷ s) h = elim (Bool-cases (d == c)) [
  | inl same ↦ rw same (any_of_later (split c (e ∷ s)) (ends_with_later c (e ∷ s) h))
  | inr other ↦ rw (other, later_empty-push_front d (split c (e ∷ s))) (ends_with_later c (e ∷ s) h)
]

-- A separator at an end leaves an empty piece.
pub ends_with_empty : (c : ℕ) (s : Text) → ends_with s c ≡ true → any is_empty (split c s) ≡ true
ends_with_empty c s h = any_of_later (split c s) (ends_with_later c s h)

pub starts_with_empty :
    (c : ℕ) (s : Text) → starts_with s c ≡ true → any is_empty (split c s) ≡ true
unfolding starts_with split
starts_with_empty c [] h = cc
starts_with_empty c (d ∷ s) h = rw h

pub empty_split : (c : ℕ) (s : Text) → is_empty s ≡ true → any is_empty (split c s) ≡ true
unfolding split
empty_split c [] h = refl
empty_split c (d ∷ s) h = cc
