-- ===== src/App/WorkItemState/Integrations.antt =====
-- The integrations of a work item's repositories, as the query of `integration_ready` reads them.
use mathlib.Core.List.Memᴰ
use agent_workboard.Prelude.{
  ◌≡◌, refl, sym, ap, subst, ap₂, ◌∙◌, ◌↔◌, inl, inr, Bool, true, false, not, ◌&&◌, List, [], ◌∷◌,
  any, is_empty, keep, keep-mem, mem-keep, ◌==◌, ==_iff, Memᴰ, and-eq-true, or-eq-false, Bool-cases,
  arith,
}
use agent_workboard.Core.Hierarchy.{Uuid}
use agent_workboard.App.WorkItemState.Transitions.{Repositories, is_unintegrated, integration_ready}

-- The work item has a repository; each that it has is recorded as integrated, and none of them is
-- recorded with another status.
pub record IsIntegrated (rows : Repositories) (work_item_id : Uuid) : Type 0 where
  pub has_repository : (repository : Uuid) × Memᴰ (work_item_id, repository) rows.expected
  pub integrated :
      (repository : Uuid)
      → Memᴰ (work_item_id, repository) rows.expected
      → Memᴰ (work_item_id, (repository, true)) rows.integrations
  pub no_other :
      (repository : Uuid)
      → Memᴰ (work_item_id, repository) rows.expected
      → ¬ Memᴰ (work_item_id, (repository, false)) rows.integrations

clash : {b : Bool} → b ≡ true → b ≡ false → ⊥
clash e f = cc

module _ {ℓ} {A : Type ℓ} where
  some_mem : (xs : List A) → is_empty xs ≡ false → (x : A) × Memᴰ x xs
  some_mem [] h = cc
  some_mem (x ∷ xs) h = (x, Memᴰ.head refl)

  mem_nonempty : (xs : List A) {x : A} → Memᴰ x xs → is_empty xs ≡ false
  mem_nonempty [] m = absurd (Memᴰ.not-nil m)
  mem_nonempty (x ∷ xs) m = refl

  any-false : (p : A → Bool) (xs : List A) {x : A} → any p xs ≡ false → Memᴰ x xs → p x ≡ false
  any-false p [] h m = absurd (Memᴰ.not-nil m)
  any-false p (y ∷ xs) h m =
      let (here, later) = or-eq-false (p y) _ h in
      elim (Memᴰ.cases_cons m) [ inl same ↦ ap p same ∙ here | inr n ↦ any-false p xs later n ]

  false-any : (p : A → Bool) (xs : List A) → ((x : A) → Memᴰ x xs → p x ≡ false) → any p xs ≡ false
  false-any p [] h = refl
  false-any p (x ∷ xs) h = rw (h x (Memᴰ.head refl)) (false-any p xs (λ y m. h y (Memᴰ.tail m)))

module _ (integrations : List (Uuid × (Uuid × Bool))) (w r : Uuid) where
  joins : Uuid × (Uuid × Bool) → Bool
  joins i = i.0 == w && i.1.0 == r

  joins_same : (b : Bool) → joins (w, (r, b)) ≡ true
  unfolding joins
  joins_same b = rw ((==_iff w w).1 refl, (==_iff r r).1 refl) refl

  joined_row : (i : Uuid × (Uuid × Bool)) {b : Bool} → joins i ≡ true → i.1.1 ≡ b → i ≡ (w, (r, b))
  unfolding joins
  joined_row i h e =
      let (a, c) = and-eq-true _ _ h in
      ap₂ (λ x y. (x, y)) ((==_iff _ _).0 a) (ap₂ (λ x y. (x, y)) ((==_iff _ _).0 c) e)

  integrated_sound :
      is_unintegrated integrations (w, r) ≡ false
      → Memᴰ (w, (r, true)) integrations × (¬ Memᴰ (w, (r, false)) integrations)
  unfolding is_unintegrated joins
  integrated_sound h =
      let (some_row, all_true) = or-eq-false _ _ h in
      let (i, m) = some_mem (keep joins integrations) some_row in
      let (n, j) = keep-mem joins integrations m in
      let flag : i.1.1 ≡ true = not_false i.1.1 (any-false (λ i. not i.1.1) _ all_true m) in
      (
        subst (λ x. Memᴰ x integrations) (joined_row i j flag) n,
        λ k.
            let kept = mem-keep joins integrations k (joins_same false) in
            let no : true ≡ false = any-false (λ i. not i.1.1) _ all_true kept in cc,
      )
    where
      not_false : (b : Bool) → not b ≡ false → b ≡ true
      not_false b e = ground arith

  integrated_complete :
      Memᴰ (w, (r, true)) integrations
      → ¬ Memᴰ (w, (r, false)) integrations
      → is_unintegrated integrations (w, r) ≡ false
  unfolding is_unintegrated joins
  integrated_complete m n =
      let nonempty =
        mem_nonempty (keep joins integrations) (mem-keep joins integrations m (joins_same true)) in
      let flags =
        false-any (λ i. not i.1.1) (keep joins integrations)
          (λ i k.
            let (k', j) = keep-mem joins integrations k in
            elim (Bool-cases i.1.1) [
              | inl e ↦ rw e refl
              | inr e ↦ absurd (n (subst (λ x. Memᴰ x integrations) (joined_row i j e) k'))
            ]) in
      rw nonempty flags

module _ (rows : Repositories) (w : Uuid) where
  mine : Uuid × Uuid → Bool
  mine r = r.0 == w

  mine_same : (r : Uuid) → mine (w, r) ≡ true
  unfolding mine
  mine_same r = (==_iff w w).1 refl

  mine_row : (r : Uuid × Uuid) → mine r ≡ true → r ≡ (w, r.1)
  unfolding mine
  mine_row r h = ap (λ x. (x, r.1)) ((==_iff _ _).0 h)

  -- `integration_ready` holds exactly of the integrated work items.
  pub integration_ready_iff : (integration_ready rows w ≡ true) ↔ IsIntegrated rows w
  unfolding integration_ready mine
  integration_ready_iff = (
    λ h.
        let (nonempty, none_left) = and-eq-true _ _ h in
        let (r, m) = some_mem (keep mine rows.expected) (not_true _ nonempty) in
        let (n, j) = keep-mem mine rows.expected m in
        let each : (r : Uuid)
            → Memᴰ (w, r) rows.expected
            → is_unintegrated rows.integrations (w, r) ≡ false =
          λ r m.
            any-false (is_unintegrated rows.integrations) (keep mine rows.expected)
              (not_true _ none_left) (mem-keep mine rows.expected m (mine_same r)) in
        record {
          has_repository = (r.1, subst (λ x. Memᴰ x rows.expected) (mine_row r j) n);
          integrated = λ r m. (integrated_sound rows.integrations w r (each r m)).0;
          no_other = λ r m. (integrated_sound rows.integrations w r (each r m)).1;
        },
    λ i.
        let (r, m) = i.has_repository in
        let nonempty =
          mem_nonempty (keep mine rows.expected) (mem-keep mine rows.expected m (mine_same r)) in
        let none_left =
          false-any (is_unintegrated rows.integrations) (keep mine rows.expected) (λ r m.
            let (n, j) = keep-mem mine rows.expected m in
            let n' = subst (λ x. Memᴰ x rows.expected) (mine_row r j) n in
            subst (λ x. is_unintegrated rows.integrations x ≡ false) (sym (mine_row r j))
              (integrated_complete rows.integrations w r.1 (i.integrated r.1 n')
                (i.no_other r.1 n'))) in
        simp (nonempty, none_left),
  )
    where
      not_true : (b : Bool) → not b ≡ true → b ≡ false
      not_true b e = ground arith
