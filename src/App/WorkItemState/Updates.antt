-- ===== src/App/WorkItemState/Updates.antt =====
-- Which updates pass `validate_update`.
use agent_workboard.Prelude.{
  ℕ, ◌*◌, ◌&&◌, inl, inr, ◌⊎◌, ◌≢◌, is_empty, holds, holds_sound, holds_complete, holds-eq-false,
  holds_refuted, Bool-cases, ◌≡◌, refl, sym, subst, ◌∙◌, ok-injective, ◌≤◌, ◌↔◌, Bool, true, false,
  not, ◌||◌, ◌++◌, some, All, ltb→ge, le→ltb, ◌==◌, ==_iff, Result, ok, passed, >>=-eq-ok,
  reject_if-eq-ok, not-eq-false, arith,
}
use agent_workboard.Core.WorkItemState.{WorkItemStateUpdate, work_item_state_schema_version}
use agent_workboard.Core.Workflow.Kinds.{NextActionKind, NextActionKind-discrete}
use agent_workboard.Core.Hierarchy.{
  WorkItemStatus, blocked, cancelled, review, WorkItemStatus-discrete,
}
use agent_workboard.Core.WorkItemState.Statuses.{WorkItemTerminalIntent, cancel, complete}
use agent_workboard.App.Error.{AppError}
use agent_workboard.App.WorkItemState.{
  validate_text, for_each, validate_blocker, validate_decision, validate_verification, is_bad_key,
  has_too_many, is_unblocked, is_uncancelled, is_unreviewed, validate_update, max_state_bytes,
  is_status, is_intent,
}
use agent_workboard.App.WorkItemState.Statuses.{is_intent_iff}
use agent_workboard.App.WorkItemState.Validation.{
  IsProse, validate_text_iff, for_each_iff, IsBlocker, IsDecision, IsVerification, IsBlocker-iff,
  IsDecision-iff, IsVerification-iff,
}

-- An update that `validate_update` accepts.
pub record IsUpdate (r : WorkItemStateUpdate) : Type 0 where
  pub versioned : r.schema_version ≡ work_item_state_schema_version
  pub current : IsProse r.current_state
  pub next : IsProse r.next_action.description
  pub key : is_bad_key r.idempotency_key ≡ false
  pub few : has_too_many r ≡ false
  pub blockers : All IsBlocker r.blockers
  pub decisions : All IsDecision r.decisions
  pub checks : All IsVerification r.verification
  pub evidence : All IsProse (r.review.evidence ++ r.delivery.evidence)
  pub blocking :
      (r.status ≢ blocked)
      ⊎ ((is_empty r.blockers ≡ false) × (r.next_action.kind ≡ NextActionKind.blocked))
  pub cancelling : (r.terminal_intent ≢ some cancel) ⊎ (r.status ≡ cancelled)
  pub completing : (r.terminal_intent ≢ some complete) ⊎ (r.status ≡ review)

-- A guard of the form `p && !q`.
guard_iff : (p q : Bool) → ((p && not q) ≡ false) ↔ ((p ≡ false) ⊎ (q ≡ true))
guard_iff true true = (λ h. inr refl, λ h. refl)
guard_iff true false = (λ h. cc, λ h. elim h [ inl e ↦ cc | inr e ↦ cc ])
guard_iff false q = (λ h. inl refl, λ h. refl)

dec_iff-false {ℓ} : {P : Type ℓ} (d : Dec P) → (holds d ≡ false) ↔ (¬ P)
dec_iff-false d = (holds_refuted d, holds-eq-false d)

intent_guard :
    (r : WorkItemStateUpdate) (i : WorkItemTerminalIntent) (s : WorkItemStatus)
    → ((is_intent r.terminal_intent i && not (is_status r.status s)) ≡ false)
      ↔ ((r.terminal_intent ≢ some i) ⊎ (r.status ≡ s))
unfolding is_status
intent_guard r i s = (
  λ h. elim ((guard_iff (is_intent r.terminal_intent i) _).0 h) [
    | inl e ↦
        inl (λ same. absurd (clash (is_intent r.terminal_intent i) e ((is_intent_iff _ i).1 same)))
    | inr e ↦ inr (holds_sound (WorkItemStatus-discrete r.status s) e)
  ],
  λ h.
      (guard_iff (is_intent r.terminal_intent i) (holds (WorkItemStatus-discrete r.status s))).1
        (elim h [
          | inl n ↦ elim (Bool-cases (is_intent r.terminal_intent i)) [
            | inl e ↦ absurd (n ((is_intent_iff _ i).0 e))
            | inr e ↦ inl e
          ]
          | inr e ↦ inr (holds_complete (WorkItemStatus-discrete r.status s) e)
        ]),
)
  where
    clash : (b : Bool) → b ≡ false → b ≡ true → ⊥
    clash b e f = cc

blocking_iff :
    (r : WorkItemStateUpdate)
    → (is_unblocked r ≡ false) ↔ (
        (r.status ≢ blocked)
        ⊎ ((is_empty r.blockers ≡ false) × (r.next_action.kind ≡ NextActionKind.blocked)))
unfolding is_unblocked is_status
blocking_iff r = (
  λ h. elim (cases _ _ _ h) [
    | inl e ↦ inl (holds_refuted status e)
    | inr (e, f) ↦ inr (e, holds_sound kind f)
  ],
  λ h. rebuild _ (is_empty r.blockers) _ (elim h [
    | inl n ↦ inl (holds-eq-false status n)
    | inr (e, f) ↦ inr (e, holds_complete kind f)
  ]),
)
  where
    status : Dec (r.status ≡ blocked)
    status = WorkItemStatus-discrete r.status blocked

    kind : Dec (r.next_action.kind ≡ NextActionKind.blocked)
    kind = NextActionKind-discrete r.next_action.kind NextActionKind.blocked

    cases : (a b c : Bool) → (a && (b || not c)) ≡ false → (a ≡ false) ⊎ ((b ≡ false) × (c ≡ true))
    cases a b c h = ground arith

    rebuild :
        (a b c : Bool) → (a ≡ false) ⊎ ((b ≡ false) × (c ≡ true)) → (a && (b || not c)) ≡ false
    rebuild a b c h = ground arith

module _ (encoded : WorkItemStateUpdate → Result ℕ AppError) where
  -- `validate_update` accepts an update whose JSON form the encoder gives exactly if its version,
  -- texts, key, entries and status are as `IsUpdate` has it and that form has at most 65536 bytes.
  pub validate_update_iff :
      (r : WorkItemStateUpdate) (size : ℕ)
      → encoded r ≡ ok size
      → (validate_update encoded r ≡ ok tt) ↔ (IsUpdate r × (size ≤ 64 * 1024))
  unfolding validate_update is_uncancelled is_unreviewed
  validate_update_iff r size sized = (
    λ h.
        let (a, h1) = passed _ _ _ h in
        let (u2, b, h2) = >>=-eq-ok (validate_text r.current_state) _ h1 in
        let (u3, c, h3) = >>=-eq-ok (validate_text r.next_action.description) _ h2 in
        let (d, h4) = passed _ _ _ h3 in
        let (e, h5) = passed _ _ _ h4 in
        let (u6, f, h6) = >>=-eq-ok (for_each validate_blocker r.blockers) _ h5 in
        let (u7, g, h7) = >>=-eq-ok (for_each validate_decision r.decisions) _ h6 in
        let (u8, i, h8) = >>=-eq-ok (for_each validate_verification r.verification) _ h7 in
        let (u9, j, h9) =
          >>=-eq-ok (for_each validate_text (r.review.evidence ++ r.delivery.evidence)) _ h8 in
        let (k, h10) = passed _ _ _ h9 in
        let (l, h11) = passed _ _ _ h10 in
        let (m, h12) = passed _ _ _ h11 in
        let (n, o, h13) = >>=-eq-ok (encoded r) _ h12 in
        let same : n ≡ size = ok-injective (sym o ∙ sized) in
        (
          record {
            versioned = (==_iff _ _).0 (not-eq-false _ a);
            current = (validate_text_iff r.current_state).0 b;
            next = (validate_text_iff r.next_action.description).0 c;
            key = d;
            few = e;
            blockers = (for_each_iff validate_blocker IsBlocker IsBlocker-iff r.blockers).0 f;
            decisions = (for_each_iff validate_decision IsDecision IsDecision-iff r.decisions).0 g;
            checks =
                (for_each_iff validate_verification IsVerification IsVerification-iff
                    r.verification).0
                  i;
            evidence =
                (for_each_iff validate_text IsProse validate_text_iff
                    (r.review.evidence ++ r.delivery.evidence)).0
                  j;
            blocking = (blocking_iff r).0 k;
            cancelling = (intent_guard r cancel cancelled).0 l;
            completing = (intent_guard r complete review).0 m;
          },
          subst (λ x. x ≤ 64 * 1024) same (ltb→ge _ _ (reject_if-eq-ok _ _ h13)),
        ),
    λ (v, small).
        let t : not (r.schema_version == work_item_state_schema_version) ≡ false =
          rw ((==_iff _ _).1 v.versioned) refl in
        simp (
          t,
          (validate_text_iff r.current_state).1 v.current,
          (validate_text_iff r.next_action.description).1 v.next,
          v.key,
          v.few,
          (for_each_iff validate_blocker IsBlocker IsBlocker-iff r.blockers).1 v.blockers,
          (for_each_iff validate_decision IsDecision IsDecision-iff r.decisions).1 v.decisions,
          (for_each_iff validate_verification IsVerification IsVerification-iff r.verification).1
              v.checks,
          (for_each_iff validate_text IsProse validate_text_iff
                (r.review.evidence ++ r.delivery.evidence)).1
              v.evidence,
          (blocking_iff r).1 v.blocking,
          (intent_guard r cancel cancelled).1 v.cancelling,
          (intent_guard r complete review).1 v.completing,
          sized,
          le→ltb max_state_bytes size small,
        ),
  )
