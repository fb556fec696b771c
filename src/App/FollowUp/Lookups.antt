-- ===== src/App/FollowUp/Lookups.antt =====
-- What the operations read of a row of the table.
use mathlib.Core.List.Memᴰ
use agent_workboard.Prelude.{
  ℕ, Bool, true, false, List, ◌∷◌, [], some, Text, ◌≡◌, ◌⊎◌, if◌then◌else◌, refl, sym, ap, ◌∙◌, inl,
  inr, Memᴰ, ok, err, text_eq_iff, ==_iff, Bool-cases, find,
}
use agent_workboard.Core.Hierarchy.{HierarchyOwner}
use agent_workboard.App.Error.{idempotency_conflict}
use agent_workboard.App.FollowUp.{
  SendSessionFollowUp, FollowUp, Tables, by_id, parse_owner, outcome_of, read_outcome,
}
use agent_workboard.App.FollowUp.Queue.{
  queue, read_found, replay, replay_or_insert, read_by_idempotency, validate_request, is_other,
  with_key,
}
use agent_workboard.App.FollowUp.Stored.{IsStored}

-- The only element that passes is found.
pub find_only :
    {A : Type 0} (p : A → Bool) (xs : List A) {x : A}
    → Memᴰ x xs
    → p x ≡ true
    → ((y : A) → Memᴰ y xs → p y ≡ true → y ≡ x)
    → find p xs ≡ some x
find_only p [] m h only = absurd (Memᴰ.not-nil m)
find_only p (y ∷ xs) {x} m h only = elim (Bool-cases (p y)) [
  | inl e ↦ rw e (ap some (only y (Memᴰ.head refl) e))
  | inr e ↦ rw e (find_only p xs (later e (Memᴰ.cases_cons m)) h (λ z n. only z (Memᴰ.tail n)))
]
  where
    later : p y ≡ false → (x ≡ y) ⊎ Memᴰ x xs → Memᴰ x xs
    later e (inl same) = absurd (clash (ap p same ∙ e))
      where
        clash : p x ≡ false → ⊥
        clash f = cc
    later e (inr n) = n

module _ (digest : Text → Text) where
  module _ (t : Tables) (s : IsStored t.session_follow_ups) (f : FollowUp)
      (m : Memᴰ f t.session_follow_ups) where
    find-with_key : find (with_key f.idempotency_key) t.session_follow_ups ≡ some f
    unfolding with_key
    find-with_key =
        find_only _ _ m ((text_eq_iff _ _).1 refl) (λ y n e. s.keys y f n m ((text_eq_iff _ _).0 e))

    pub find-by_id : find (by_id f.id) t.session_follow_ups ≡ some f
    unfolding by_id
    find-by_id = find_only _ _ m ((==_iff _ _).1 refl) (λ y n e. s.ids y f n m ((==_iff _ _).0 e))

    pub read_outcome-mem :
        {o : HierarchyOwner}
        → parse_owner f.feature_id f.work_item_id ≡ ok o
        → read_outcome t.session_follow_ups f.id ≡ ok (outcome_of f o)
    unfolding read_outcome
    read_outcome-mem parsed = rw find-by_id (rw parsed refl)

    read_by_idempotency-mem :
        {o : HierarchyOwner}
        → parse_owner f.feature_id f.work_item_id ≡ ok o
        → read_by_idempotency t.session_follow_ups f.idempotency_key ≡ ok (some (outcome_of f o))
    unfolding read_by_idempotency read_found
    read_by_idempotency-mem parsed =
        ap (read_found t.session_follow_ups) find-with_key ∙ rw (read_outcome-mem parsed) refl

    replay-mem :
        (r : SendSessionFollowUp) {o : HierarchyOwner}
        → parse_owner f.feature_id f.work_item_id ≡ ok o
        → replay digest t.session_follow_ups r (outcome_of f o) ≡ (
            if is_other r (digest r.text) o f
            then err idempotency_conflict
            else ok (outcome_of f o))
    unfolding replay outcome_of
    replay-mem r {o} parsed = rw find-by_id (
        rw parsed (elim (Bool-cases (is_other r (digest r.text) o f)) [
          | inl e ↦ rw e refl
          | inr e ↦ rw e refl
        ]))

    -- A valid request with the key of a row is answered with the row if it is the same, is refused
    -- otherwise, and changes nothing.
    pub queue-with_key :
        (id ws : ℕ) (r : SendSessionFollowUp) {o : HierarchyOwner}
        → validate_request r ≡ ok tt
        → f.idempotency_key ≡ r.idempotency_key
        → parse_owner f.feature_id f.work_item_id ≡ ok o
        → queue digest id t ws r ≡ (
            if is_other r (digest r.text) o f
            then err idempotency_conflict
            else ok (t, outcome_of f o))
    unfolding queue replay_or_insert
    queue-with_key id ws r {o} valid key parsed =
        let found =
          ap (λ k. read_by_idempotency t.session_follow_ups k) (sym key)
          ∙ read_by_idempotency-mem parsed in
        rw valid (
          rw found (
            rw (replay-mem r parsed) (elim (Bool-cases (is_other r (digest r.text) o f)) [
              | inl e ↦ rw e refl
              | inr e ↦ rw e refl
            ])))
