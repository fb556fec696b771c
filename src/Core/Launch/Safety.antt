-- ===== src/Core/Launch/Safety.antt =====
-- What a launch may put in a command line or an environment, said of the characters, and the tests
-- of `ManagedLaunchSpec::new` for it.
use agent_workboard.Prelude.{
  ℕ, ◌<◌, ◌≤◌, ◌≡◌, refl, sym, ◌∙◌, ◌≢◌, ◌↔◌, ◌⊎◌, Bool, false, not, List, [], ◌∷◌, Option, none,
  some, Text, any, all, All, is_empty, is_some_and, len, is_control, has_control, is_surrogate,
  is_unicode, is_ascii_uppercase, or-eq-false, ltb→ge, le→ltb, ◌==◌, if◌then◌else◌, arith,
}
use agent_workboard.Core.Launch.{contains_control, to_string_lossy}
use agent_workboard.Core.Launch.Managed.{
  is_unsafe_token, is_environment_character, is_unsafe_variable, is_unsafe_window, is_unsafe_prompt,
  is_unsafe_argument,
}

-- Printable: no control character of ASCII, nor of Latin-1.
abbrev pub IsShown : ℕ → Type 0
IsShown c = (32 ≤ c) × ((c < 127) ⊎ (160 ≤ c))

abbrev pub IsPrintable : Text → Type 0
IsPrintable s = All IsShown s

abbrev pub IsToken : Text → Type 0
IsToken s = (s ≢ []) × IsPrintable s

-- A capital letter or an underscore.
abbrev pub IsEnvironmentCharacter : ℕ → Type 0
IsEnvironmentCharacter c = ((65 ≤ c) × (c ≤ 90)) ⊎ (c ≡ 95)

abbrev pub IsVariable : Text × Text → Type 0
IsVariable (name, value) = (name ≢ []) × All IsEnvironmentCharacter name × IsToken value

abbrev pub IsWindow : Text → Type 0
IsWindow s = IsToken s × (len s ≤ 120)

abbrev pub IsPrompt : Text → Type 0
IsPrompt s = (s ≢ []) × (len s ≤ 16384) × All (λ c. c ≢ 0) s

-- No half of a surrogate pair.
abbrev pub IsScalar : ℕ → Type 0
IsScalar c = (c < 55296) ⊎ (57343 < c)

abbrev pub IsArgument : Text → Type 0
IsArgument s = IsToken s × All IsScalar s

abbrev pub IsGiven {ℓ} : {A : Type ℓ} → (A → Type 0) → Option A → Type 0
IsGiven P none = Unit
IsGiven P (some a) = P a

module _ {ℓ} {A : Type ℓ} (test : A → Bool) (P : A → Type 0)
    (same : (x : A) → (test x ≡ false) ↔ P x) where
  pub any_iff : (xs : List A) → (any test xs ≡ false) ↔ All P xs
  any_iff [] = (λ h. tt, λ h. refl)
  any_iff (x ∷ xs) = (
    λ h. let (here, later) = or-eq-false (test x) _ h in ((same x).0 here, (any_iff xs).0 later),
    λ (here, later). rw ((same x).1 here) ((any_iff xs).1 later),
  )

  pub IsGiven-iff : (o : Option A) → (is_some_and o test ≡ false) ↔ IsGiven P o
  IsGiven-iff none = (λ h. tt, λ h. refl)
  IsGiven-iff (some a) = same a

pub is_empty_iff : (s : Text) → (is_empty s ≡ false) ↔ (s ≢ [])
is_empty_iff [] = (λ h. cc, λ n. absurd (n refl))
is_empty_iff (c ∷ s) = (λ h e. cc, λ n. refl)

is_control_iff : (c : ℕ) → (is_control c ≡ false) ↔ IsShown c
unfolding is_control
is_control_iff c = ground arith

pub has_control_iff : (s : Text) → (has_control s ≡ false) ↔ IsPrintable s
unfolding has_control
has_control_iff s = any_iff is_control IsShown is_control_iff s

-- What a lossy conversion replaces was no control character, and its replacement is none.
shown_lossy : (c : ℕ) → is_control (if is_surrogate c then 65533 else c) ≡ is_control c
unfolding is_control is_surrogate
shown_lossy c = ground arith

lossy_control : (s : Text) → has_control (to_string_lossy s) ≡ has_control s
unfolding has_control to_string_lossy
lossy_control [] = refl
lossy_control (c ∷ s) = rw (shown_lossy c, lossy_control s) refl

pub contains_control_iff : (s : Text) → (contains_control s ≡ false) ↔ IsPrintable s
unfolding contains_control
contains_control_iff s = (
  λ h. (has_control_iff s).0 (sym (lossy_control s) ∙ h),
  λ p. lossy_control s ∙ (has_control_iff s).1 p,
)

pub is_unsafe_token_iff : (s : Text) → (is_unsafe_token s ≡ false) ↔ IsToken s
unfolding is_unsafe_token
is_unsafe_token_iff s = (
  λ h.
      let (a, b) = or-eq-false (is_empty s) (has_control s) h in
      ((is_empty_iff s).0 a, (has_control_iff s).0 b),
  λ (a, b). rw ((is_empty_iff s).1 a, (has_control_iff s).1 b) refl,
)

IsEnvironmentCharacter-iff :
    (c : ℕ) → (not (is_environment_character c) ≡ false) ↔ IsEnvironmentCharacter c
unfolding is_environment_character is_ascii_uppercase
IsEnvironmentCharacter-iff c = ground arith

not-all {ℓ} : {A : Type ℓ} (p : A → Bool) (xs : List A) → not (all p xs) ≡ any (λ x. not (p x)) xs
not-all p [] = refl
not-all p (x ∷ xs) = ground (arith, not-all p xs)

name_iff :
    (s : Text) → (not (all is_environment_character s) ≡ false) ↔ All IsEnvironmentCharacter s
name_iff s =
    let each =
      any_iff (λ c. not (is_environment_character c)) IsEnvironmentCharacter
        IsEnvironmentCharacter-iff s in
    (
      λ h. each.0 (sym (not-all is_environment_character s) ∙ h),
      λ a. not-all is_environment_character s ∙ each.1 a,
    )

pub is_unsafe_variable_iff : (v : Text × Text) → (is_unsafe_variable v ≡ false) ↔ IsVariable v
unfolding is_unsafe_variable
is_unsafe_variable_iff (name, value) = (
  λ h.
      let (abc, d) = or-eq-false _ _ h in
      let (ab, c) = or-eq-false _ _ abc in
      let (a, b) = or-eq-false _ _ ab in
      (
        (is_empty_iff name).0 a,
        (name_iff name).0 b,
        ((is_empty_iff value).0 c, (has_control_iff value).0 d),
      ),
  λ (a, b, (c, d)). simp (
    (is_empty_iff name).1 a,
    (name_iff name).1 b,
    (is_empty_iff value).1 c,
    (has_control_iff value).1 d,
  ),
)

pub is_unsafe_window_iff : (s : Text) → (is_unsafe_window s ≡ false) ↔ IsWindow s
unfolding is_unsafe_window
is_unsafe_window_iff s = (
  λ h.
      let (ab, c) = or-eq-false _ _ h in
      let (a, b) = or-eq-false _ _ ab in
      (((is_empty_iff s).0 a, (has_control_iff s).0 c), ltb→ge 120 (len s) b),
  λ ((a, c), b). simp ((is_empty_iff s).1 a, le→ltb 120 (len s) b, (has_control_iff s).1 c),
)

pub is_unsafe_prompt_iff : (s : Text) → (is_unsafe_prompt s ≡ false) ↔ IsPrompt s
unfolding is_unsafe_prompt
is_unsafe_prompt_iff s = (
  λ h.
      let (ab, c) = or-eq-false _ _ h in
      let (a, b) = or-eq-false _ _ ab in
      (
        (is_empty_iff s).0 a,
        ltb→ge 16384 (len s) b,
        (any_iff (λ c. c == 0) (λ c. c ≢ 0) zero_iff s).0 c,
      ),
  λ (a, b, c). simp (
    (is_empty_iff s).1 a,
    le→ltb 16384 (len s) b,
    (any_iff (λ c. c == 0) (λ c. c ≢ 0) zero_iff s).1 c,
  ),
)
  where
    zero_iff : (c : ℕ) → ((c == 0) ≡ false) ↔ (c ≢ 0)
    zero_iff c = ground arith

IsScalar-iff : (c : ℕ) → (not (not (is_surrogate c)) ≡ false) ↔ IsScalar c
unfolding is_surrogate
IsScalar-iff c = ground arith

unicode_iff : (s : Text) → (not (is_unicode s) ≡ false) ↔ All IsScalar s
unfolding is_unicode
unicode_iff s =
    let each = any_iff (λ c. not (not (is_surrogate c))) IsScalar IsScalar-iff s in
    let same = not-all (λ c. not (is_surrogate c)) s in
    (λ h. each.0 (sym same ∙ h), λ a. same ∙ each.1 a)

pub is_unsafe_argument_iff : (s : Text) → (is_unsafe_argument s ≡ false) ↔ IsArgument s
unfolding is_unsafe_argument
is_unsafe_argument_iff s = (
  λ h.
      let (ab, c) = or-eq-false _ _ h in
      let (a, b) = or-eq-false _ _ ab in
      (((is_empty_iff s).0 a, (has_control_iff s).0 c), (unicode_iff s).0 b),
  λ ((a, c), b). simp ((is_empty_iff s).1 a, (unicode_iff s).1 b, (has_control_iff s).1 c),
)
