-- ===== src/Prelude/Results.antt =====
-- `Result<A, E>`, and its early return `?`.
use mathlib.Core.Path.{◌≡◌, refl}
use mathlib.Core.Logic.{◌⊎◌, inl, inr}
use mathlib.Core.Bool.{Bool, true, false}
use mathlib.Core.Option.{Option, none, some}

pub data Result {ℓ κ} (A : Type ℓ) (E : Type κ) : Type (ℓ ⊔ κ) where
  ok : A → Result A E
  err : E → Result A E

infixl 5 ◌>>=◌ ◌>>◌
abbrev pub ◌>>=◌ {ℓ κ ρ} :
    {A : Type ℓ} {B : Type κ} {E : Type ρ} → Result A E → (A → Result B E) → Result B E
err e >>= next = err e
ok a >>= next = next a

abbrev pub ◌>>◌ {κ ρ} : {B : Type κ} {E : Type ρ} → Result (Unit {0}) E → Result B E → Result B E
m >> k = m >>= λ _. k

-- `if test { return Err(error); }`.
abbrev pub reject_if {ρ} : {E : Type ρ} → Bool → E → Result (Unit {0}) E
reject_if true e = err e
reject_if false e = ok tt

abbrev pub is_ok {ℓ κ} : {A : Type ℓ} {E : Type κ} → Result A E → Bool
is_ok (ok a) = true
is_ok (err e) = false

-- Inversion of a successful bind.
pub >>=-eq-ok {ℓ κ ρ} :
    {A : Type ℓ} {B : Type κ} {E : Type ρ} (first : Result A E) (next : A → Result B E) {y : B}
    → (first >>= next) ≡ ok y
    → (x : A) × (first ≡ ok x) × (next x ≡ ok y)
>>=-eq-ok (err e) next failed = cc
>>=-eq-ok (ok x) next passes = (x, refl, passes)

pub reject_if-eq-ok {ρ} :
    {E : Type ρ} (test : Bool) (e : E) {u : Unit {0}} → reject_if test e ≡ ok u → test ≡ false
reject_if-eq-ok true e h = cc
reject_if-eq-ok false e h = refl

-- `option.ok_or(error)`.
abbrev pub ok_or {ℓ ρ} : {A : Type ℓ} {E : Type ρ} → Option A → E → Result A E
ok_or none e = err e
ok_or (some a) e = ok a

-- Inversion of a guard, and of an option's presence.
pub passed {κ ρ} :
    {B : Type κ} {E : Type ρ} (test : Bool) (e : E) (k : Result B E) {b : B}
    → (reject_if test e >> k) ≡ ok b
    → (test ≡ false) × (k ≡ ok b)
passed true e k h = cc
passed false e k h = (refl, h)

pub ok_or-eq-ok {ℓ ρ} :
    {A : Type ℓ} {E : Type ρ} (o : Option A) (e : E) {a : A} → ok_or o e ≡ ok a → o ≡ some a
ok_or-eq-ok none e h = cc
ok_or-eq-ok (some a) e h = cc

pub ok-injective {ℓ ρ} :
    {A : Type ℓ} {E : Type ρ} {a b : A} → ◌≡◌ {A = Result A E} (ok a) (ok b) → a ≡ b
ok-injective h = cc

pub ok-path {ℓ ρ} :
    {A : Type ℓ} {E : Type ρ} {a b : A}
    → ◌≡◌ {A = Option (Result A E)} (some (ok a)) (some (ok b))
    → a ≡ b
ok-path h = cc

pub Result-cases {ℓ ρ} :
    {A : Type ℓ} {E : Type ρ} (r : Result A E) → ((a : A) × (r ≡ ok a)) ⊎ ((e : E) × (r ≡ err e))
Result-cases (ok a) = inl (a, refl)
Result-cases (err e) = inr (e, refl)
