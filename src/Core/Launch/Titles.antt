-- ===== src/Core/Launch/Titles.antt =====
-- What `sanitise_terminal_title` leaves of a title.
use agent_workboard.Prelude.{
  ℕ, suc, zero, ◌≤◌, ◌≡◌, refl, ap, subst, ◌↔◌, Bool, true, false, not, List, [], ◌∷◌, Text, length,
  take, keep, any, all, all-take, all-keep, any-eq-false, length-take-le, is_control, has_control,
  is_whitespace, is_blank, inl, inr, Bool-cases, arith, trim,
}
use agent_workboard.Core.Launch.{sanitise_terminal_title, product_name}

-- A title that a terminal shows as it is: not blank, no control character, 120 characters.
pub record IsTitle (t : Text) : Type 0 where
  pub printable : has_control t ≡ false
  pub visible : is_blank t ≡ false
  pub bounded : length t ≤ 120

all-not→any {ℓ} :
    {A : Type ℓ} (p : A → Bool) (xs : List A) → all (λ x. not (p x)) xs ≡ true → any p xs ≡ false
all-not→any p [] h = refl
all-not→any p (x ∷ xs) h = ground (arith, all-not→any p xs)

keep-all {ℓ} : {A : Type ℓ} (p : A → Bool) (xs : List A) → all p xs ≡ true → keep p xs ≡ xs
keep-all p [] h = refl
keep-all p (x ∷ xs) h = ground (arith, keep-all p xs)

take-all {ℓ} : {A : Type ℓ} (n : ℕ) (xs : List A) → length xs ≤ n → take n xs ≡ xs
take-all zero [] h = refl
take-all zero (x ∷ xs) h = absurd (omega (arith, h))
take-all (suc n) [] h = refl
take-all (suc n) (x ∷ xs) h = ap (λ ys. x ∷ ys) (take-all n xs (omega (arith, h)))

printable_prefix :
    (n : ℕ) (t : Text) → all (λ c. not (is_control c)) t ≡ true → has_control (take n t) ≡ false
unfolding has_control
printable_prefix n t h = all-not→any is_control (take n t) (all-take _ n t h)

product_name-IsTitle : IsTitle product_name
unfolding has_control is_control is_blank is_whitespace trim
product_name-IsTitle = record { printable = refl; visible = refl; bounded = ground arith }

-- Each title is made one with no control character, not blank, of at most 120 characters.
pub sanitise_terminal_title-IsTitle : (value : Text) → IsTitle (sanitise_terminal_title value)
unfolding sanitise_terminal_title
sanitise_terminal_title-IsTitle value =
    let p = λ (c : ℕ). not (is_control c) in
    let title = take 120 (keep p value) in
    elim (Bool-cases (is_blank title)) [
      | inl e ↦ rw e product_name-IsTitle
      | inr e ↦ rw e (record {
        printable = printable_prefix 120 (keep p value) (all-keep p value);
        visible = e;
        bounded = length-take-le 120 (keep p value);
      })
    ]

no_control : (t : Text) → has_control t ≡ false → all (λ c. not (is_control c)) t ≡ true
unfolding has_control
no_control t h = any-eq-false is_control t h

-- A title is kept as it is exactly if it has no control character, is not blank, and has at most
-- 120 characters.
pub sanitise_terminal_title_iff :
    (value : Text) → (sanitise_terminal_title value ≡ value) ↔ IsTitle value
unfolding sanitise_terminal_title
sanitise_terminal_title_iff value = (
  λ h. subst IsTitle h (sanitise_terminal_title-IsTitle value),
  λ t. rw (
    keep-all (λ c. not (is_control c)) value (no_control value t.printable),
    take-all 120 value t.bounded,
    t.visible,
  ),
)
