-- ===== src/Prelude/Lists.antt =====
-- Lists measured by native numbers, and predicates on their elements.
use Prim.Native.Nat.{ℕ, zero, suc, ◌+◌, ◌≤◌}
use mathlib.Core.List.Memᴰ
use mathlib.Core.Logic.{inl, inr}
use mathlib.Core.Path.{◌≡◌, refl, sym, subst, ap, ◌∙◌}
use mathlib.Core.Bool.{Bool, true, false, ◌&&◌, ◌||◌, not}
use mathlib.Core.Option.{Option, none, some}
use mathlib.Core.List.{List, [], ◌∷◌, ◌++◌, reverse, reverse-cons, Memᴰ}
use native.Mathlib.Omega.{arith}
use agent_workboard.Prelude.Tests.{if◌then◌else◌, Bool-cases}

module _ {ℓ} {A : Type ℓ} where
  abbrev pub length : List A → ℕ
  length [] = 0
  length (x ∷ xs) = suc (length xs)

  abbrev pub is_empty : List A → Bool
  is_empty [] = true
  is_empty (x ∷ xs) = false

  abbrev pub any : (A → Bool) → List A → Bool
  any p [] = false
  any p (x ∷ xs) = p x || any p xs

  abbrev pub all : (A → Bool) → List A → Bool
  all p [] = true
  all p (x ∷ xs) = p x && all p xs

  abbrev pub take : ℕ → List A → List A
  take zero xs = []
  take (suc n) [] = []
  take (suc n) (x ∷ xs) = x ∷ take n xs

  abbrev pub drop : ℕ → List A → List A
  drop zero xs = xs
  drop (suc n) [] = []
  drop (suc n) (x ∷ xs) = drop n xs

  -- `iter().filter(test)`.
  abbrev pub keep : (A → Bool) → List A → List A
  keep p [] = []
  keep p (x ∷ xs) = if p x then x ∷ keep p xs else keep p xs

  -- The first element that passes.
  abbrev pub find : (A → Bool) → List A → Option A
  find p [] = none
  find p (x ∷ xs) = if p x then some x else find p xs

  pub length-append : (xs ys : List A) → length (xs ++ ys) ≡ length xs + length ys
  length-append [] ys = omega arith
  length-append (x ∷ xs) ys = omega (arith, length-append xs ys)

  pub length-take-le : (n : ℕ) (xs : List A) → length (take n xs) ≤ n
  length-take-le zero xs = omega arith
  length-take-le (suc n) [] = omega arith
  length-take-le (suc n) (x ∷ xs) = omega (arith, length-take-le n xs)

  pub all-append : (p : A → Bool) (xs ys : List A) → all p (xs ++ ys) ≡ (all p xs && all p ys)
  all-append p [] ys = refl
  all-append p (x ∷ xs) ys = ground (arith, all-append p xs ys)

  pub all-reverse : (p : A → Bool) (xs : List A) → all p (reverse xs) ≡ all p xs
  all-reverse p [] = refl
  all-reverse p (x ∷ xs) = rw reverse-cons (rw all-append (ground (arith, all-reverse p xs)))

  pub is_empty-reverse : (xs : List A) → is_empty (reverse xs) ≡ is_empty xs
  is_empty-reverse [] = refl
  is_empty-reverse (x ∷ xs) = rw reverse-cons (is_empty-snoc (reverse xs) x)
    where
      is_empty-snoc : (ys : List A) (y : A) → is_empty (ys ++ y ∷ []) ≡ false
      is_empty-snoc [] y = refl
      is_empty-snoc (z ∷ ys) y = refl

  pub all-take : (p : A → Bool) (n : ℕ) (xs : List A) → all p xs ≡ true → all p (take n xs) ≡ true
  all-take p zero xs h = refl
  all-take p (suc n) [] h = refl
  all-take p (suc n) (x ∷ xs) h = ground (arith, all-take p n xs)

  pub all-keep : (p : A → Bool) (xs : List A) → all p (keep p xs) ≡ true
  all-keep p [] = refl
  all-keep p (x ∷ xs) = ground (arith, all-keep p xs)

  pub any-eq-false :
      (p : A → Bool) (xs : List A) → any p xs ≡ false → all (λ x. not (p x)) xs ≡ true
  any-eq-false p [] h = refl
  any-eq-false p (x ∷ xs) h = ground (arith, any-eq-false p xs)

module _ {ℓ κ} {A : Type ℓ} (P : A → Type κ) where
  abbrev pub All : List A → Type κ
  All [] = Unit
  All (x ∷ xs) = P x × All xs

  pub All-append : (xs ys : List A) → All xs → All ys → All (xs ++ ys)
  All-append [] ys h k = k
  All-append (x ∷ xs) ys (p, h) k = (p, All-append xs ys h k)

  pub All-mem : (xs : List A) {x : A} → All xs → Memᴰ x xs → P x
  All-mem [] h m = elim m [ ]
  All-mem (x ∷ xs) (p, h) (Memᴰ.head e) = subst P (sym e) p
  All-mem (x ∷ xs) (p, h) (Memᴰ.tail m) = All-mem xs h m

-- An element that a filter keeps.
pub keep-mem {ℓ} :
    {A : Type ℓ} (p : A → Bool) (xs : List A) {x : A}
    → Memᴰ x (keep p xs)
    → Memᴰ x xs × (p x ≡ true)
keep-mem p [] m = absurd (Memᴰ.not-nil m)
keep-mem p (y ∷ xs) {x} m = elim (Bool-cases (p y)) [
  | inl e ↦ elim (Memᴰ.cases_cons (subst (Memᴰ x) (step e) m)) [
    | inl same ↦ (Memᴰ.head same, ap p same ∙ e)
    | inr n ↦ let (k, h) = keep-mem p xs n in (Memᴰ.tail k, h)
  ]
  | inr e ↦ let (n, h) = keep-mem p xs (subst (Memᴰ x) (skip e) m) in (Memᴰ.tail n, h)
]
  where
    step : p y ≡ true → keep p (y ∷ xs) ≡ y ∷ keep p xs
    step e = rw e refl

    skip : p y ≡ false → keep p (y ∷ xs) ≡ keep p xs
    skip e = rw e refl

pub mem-keep {ℓ} :
    {A : Type ℓ} (p : A → Bool) (xs : List A) {x : A} → Memᴰ x xs → p x ≡ true → Memᴰ x (keep p xs)
mem-keep p [] m h = absurd (Memᴰ.not-nil m)
mem-keep p (y ∷ xs) {x} m h = elim (Bool-cases (p y)) [
  | inl e ↦ subst (Memᴰ x) (sym (step e)) (elim (Memᴰ.cases_cons m) [
    | inl same ↦ Memᴰ.head same
    | inr n ↦ Memᴰ.tail (mem-keep p xs n h)
  ])
  | inr e ↦ subst (Memᴰ x) (sym (skip e)) (elim (Memᴰ.cases_cons m) [
    | inl same ↦ absurd (clash (ap p (sym same) ∙ h) e)
    | inr n ↦ mem-keep p xs n h
  ])
]
  where
    step : p y ≡ true → keep p (y ∷ xs) ≡ y ∷ keep p xs
    step e = rw e refl

    skip : p y ≡ false → keep p (y ∷ xs) ≡ keep p xs
    skip e = rw e refl

    clash : {b : Bool} → b ≡ true → b ≡ false → ⊥
    clash e f = cc

-- What is found stands in the list, and passes.
pub find_sound {ℓ} :
    {A : Type ℓ} (p : A → Bool) (xs : List A) {x : A}
    → find p xs ≡ some x
    → Memᴰ x xs × (p x ≡ true)
find_sound p [] h = cc
find_sound p (y ∷ xs) {x} h = elim (Bool-cases (p y)) [
  | inl e ↦ let same = taken e in (Memᴰ.head (sym same), ap p (sym same) ∙ e)
  | inr e ↦ let (m, passes) = find_sound p xs (skipped e) in (Memᴰ.tail m, passes)
]
  where
    taken : p y ≡ true → y ≡ x
    taken e = let here : find p (y ∷ xs) ≡ some y = rw e refl in cc

    skipped : p y ≡ false → find p xs ≡ some x
    skipped e = let on : find p (y ∷ xs) ≡ find p xs = rw e refl in sym on ∙ h
