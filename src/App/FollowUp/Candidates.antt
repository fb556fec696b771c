-- ===== src/App/FollowUp/Candidates.antt =====
-- The sessions that can take a message.
use mathlib.Core.List.Memᴰ
use agent_workboard.Prelude.{
  ℕ, Bool, true, false, List, ◌∷◌, [], Option, none, some, ◌≡◌, if◌then◌else◌, and-eq-true,
  Option-cases, refl, sym, subst, ap, ◌∙◌, inl, inr, Memᴰ, ok, ◌==◌, find, >>=-eq-ok, ok-injective,
}
use agent_workboard.Core.Hierarchy.{HierarchyOwner}
use agent_workboard.App.FollowUp.{
  Tables, owner_columns, accepts, and_then, Association, ManagedSession,
}
use agent_workboard.App.FollowUp.Queue.{
  is_candidate, target_of, filter_map, flat_map, candidate, FollowUpTarget, resolve_candidates,
}

filter_map-mem :
    {A B : Type 0} (f : A → Option B) (xs : List A) {y : B}
    → Memᴰ y (filter_map f xs)
    → (x : A) × (f x ≡ some y)
unfolding filter_map
filter_map-mem f [] m = absurd (Memᴰ.not-nil m)
filter_map-mem {B} f (x ∷ xs) {y} m = elim (Option-cases (f x)) [
  | inl e ↦ filter_map-mem f xs (subst (Memᴰ y) (skip e) m)
  | inr (z, e) ↦ elim (Memᴰ.cases_cons (subst (Memᴰ y) (taken e) m)) [
    | inl same ↦ (x, e ∙ ap some (sym same))
    | inr n ↦ filter_map-mem f xs n
  ]
]
  where
    skip : f x ≡ none → filter_map f (x ∷ xs) ≡ filter_map f xs
    skip e = rw (filter_map, e) refl

    taken : {z : B} → f x ≡ some z → filter_map f (x ∷ xs) ≡ z ∷ filter_map f xs
    taken e = rw (filter_map, e) refl

flat_map-mem :
    {A B : Type 0} (f : A → List B) (xs : List A) {y : B}
    → Memᴰ y (flat_map f xs)
    → (x : A) × Memᴰ y (f x)
unfolding flat_map
flat_map-mem f [] m = absurd (Memᴰ.not-nil m)
flat_map-mem f (x ∷ xs) m = elim (Memᴰ.append_cases (f x) m) [
  | inl a ↦ (x, a)
  | inr b ↦ flat_map-mem f xs b
]

and_then-eq-some :
    {A B : Type 0} (o : Option A) (next : A → Option B) {y : B}
    → and_then o next ≡ some y
    → (x : A) × (next x ≡ some y)
unfolding and_then
and_then-eq-some none next h = cc
and_then-eq-some (some x) next h = (x, h)

if-eq-some :
    {A : Type 0} (b : Bool) {x y : A} → (if b then some x else none) ≡ some y → (b ≡ true) × (x ≡ y)
if-eq-some true h = (refl, cc)
if-eq-some false h = cc

candidate-accepts :
    (t : Tables) (o : HierarchyOwner) (c : Option ℕ × Option ℕ) (sid : Option ℕ) (a : Association)
    (m : ManagedSession) {x : FollowUpTarget}
    → candidate t o c sid a m ≡ some x
    → accepts sid x.session_id ≡ true
unfolding candidate is_candidate target_of
candidate-accepts t o c sid a m h =
    let (session, h1) = and_then-eq-some (find (λ s. s.id == a.session_id) t.native_sessions) _ h in
    let (readiness, h2) =
      and_then-eq-some (find (λ r. r.checkout_id == m.checkout_id) t.checkout_readiness) _ h1 in
    let (e, same) = if-eq-some (is_candidate o c sid a m session) h2 in
    subst (λ x. accepts sid x.session_id ≡ true) same (and-eq-true _ _ e).1

-- The session of a resolved target is the one that was asked for.
pub resolve_candidates-accepts :
    (t : Tables) (o : HierarchyOwner) (sid : Option ℕ) {x : FollowUpTarget}
    → resolve_candidates t o sid ≡ ok (x ∷ [])
    → accepts sid x.session_id ≡ true
unfolding resolve_candidates
resolve_candidates-accepts t o sid {x} h =
    let (c, _, h1) = >>=-eq-ok (owner_columns o) _ h in
    let (a, m) =
      flat_map-mem (λ a. filter_map (candidate t o c sid a) t.managed_sessions) t.associations
        (subst (Memᴰ x) (sym (ok-injective h1)) (Memᴰ.head refl)) in
    let (s, e) = filter_map-mem (candidate t o c sid a) t.managed_sessions m in
    candidate-accepts t o c sid a s e
