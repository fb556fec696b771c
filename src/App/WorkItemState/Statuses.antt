-- ===== src/App/WorkItemState/Statuses.antt =====
-- Which status changes are accepted, and from whom.
use agent_workboard.Prelude.{
  ◌≡◌, refl, ap, or_right, ◌≢◌, ◌↔◌, ◌⊎◌, inl, inr, Bool, true, false, not, ◌&&◌, ◌||◌, Option,
  none, some, holds, holds_sound, is_none, holds_complete, holds-eq-false, holds_refuted, ok,
  passed, reject_if-eq-ok, or-eq-false, and-eq-true, not-eq-false, Bool-cases, arith,
}
use agent_workboard.Core.Hierarchy.{
  WorkItemStatus, review, done, cancelled, WorkItemStatus-discrete,
}
use agent_workboard.Core.WorkItemState.{WorkItemStateUpdate}
use agent_workboard.Core.WorkItemState.Statuses.{
  WorkItemTerminalIntent, cancel, WorkItemTerminalIntent-discrete,
}
use agent_workboard.App.WorkItemState.{integration, DocumentContext, is_status, is_intent}
use agent_workboard.App.WorkItemState.Transitions.{
  Repositories, permits_status, is_refused, validate_transition, integration_accepts,
  transition_invalid, validate_actor_transition,
}
use agent_workboard.App.WorkItemState.Integrations.{IsIntegrated, integration_ready_iff}
use agent_workboard.App.WorkItemState.Moves.{IsMove, permits_status_iff, is_final_iff}

-- A change that a session or a person may make.
pub record IsChange (from to : WorkItemStatus) (terminal : Option WorkItemTerminalIntent)
    : Type 0 where
  pub unfinished : (from ≢ done) × (from ≢ cancelled)
  pub permitted : (from ≡ to) ⊎ IsMove from to
  pub undone : to ≢ done
  pub intended : to ≡ cancelled → terminal ≡ some cancel

pub is_intent_iff :
    (o : Option WorkItemTerminalIntent) (i : WorkItemTerminalIntent)
    → (is_intent o i ≡ true) ↔ (o ≡ some i)
unfolding is_intent
is_intent_iff none i = (λ h. cc, λ h. cc)
is_intent_iff (some a) i = (
  λ h. ap some (holds_sound (WorkItemTerminalIntent-discrete a i) h),
  λ h. holds_complete (WorkItemTerminalIntent-discrete a i) cc,
)

or-eq-true : (a b : Bool) → (a || b) ≡ true → (a ≡ true) ⊎ (b ≡ true)
or-eq-true true b h = inl refl
or-eq-true false b h = inr h

refused_sound :
    (from to : WorkItemStatus) (terminal : Option WorkItemTerminalIntent)
    → is_refused from to terminal ≡ false
    → ((from ≡ to) ⊎ (permits_status from to ≡ true))
      × (to ≢ done)
      × ((to ≢ cancelled) ⊎ (terminal ≡ some cancel))
unfolding is_refused is_status
refused_sound from to terminal h =
    let (ab, c) = or-eq-false _ _ h in
    let (a, b) = or-eq-false _ _ ab in
    let same = WorkItemStatus-discrete from to in
    let kept : (from ≡ to) ⊎ (permits_status from to ≡ true) =
      elim (or-eq-true (holds same) _ (not-eq-false _ a)) [
        | inl e ↦ inl (holds_sound same e)
        | inr e ↦ inr e
      ] in
    let intended : (to ≢ cancelled) ⊎ (terminal ≡ some cancel) =
      elim (Bool-cases (is_intent terminal cancel)) [
        | inl e ↦ inr ((is_intent_iff terminal cancel).0 e)
        | inr e ↦
            let d = WorkItemStatus-discrete to cancelled in
            inl (holds_refuted d (uncancelled (holds d) (is_intent terminal cancel) e c))
      ] in
    (kept, holds_refuted (WorkItemStatus-discrete to done) b, intended)
  where
    uncancelled : (a b : Bool) → b ≡ false → (a && not b) ≡ false → a ≡ false
    uncancelled a b e h = ground arith

refused_complete :
    (from to : WorkItemStatus) (terminal : Option WorkItemTerminalIntent)
    → ((from ≡ to) ⊎ (permits_status from to ≡ true))
    → to ≢ done
    → ((to ≢ cancelled) ⊎ (terminal ≡ some cancel))
    → is_refused from to terminal ≡ false
unfolding is_refused is_status
refused_complete from to terminal kept undone intended =
    all_false (holds same || permits_status from to) (holds (WorkItemStatus-discrete to done))
      (holds gone) (is_intent terminal cancel)
      (elim kept [
        | inl e ↦ rw (holds_complete same e) refl
        | inr e ↦ rw e (or_right (holds same) refl)
      ])
      (holds-eq-false _ undone)
      (elim intended [
        | inl e ↦ inl (holds-eq-false gone e)
        | inr e ↦ inr ((is_intent_iff terminal cancel).1 e)
      ])
  where
    same : Dec (from ≡ to)
    same = WorkItemStatus-discrete from to

    gone : Dec (to ≡ cancelled)
    gone = WorkItemStatus-discrete to cancelled

    all_false :
        (a b c d : Bool)
        → a ≡ true
        → b ≡ false
        → (c ≡ false) ⊎ (d ≡ true)
        → (not a || b || (c && not d)) ≡ false
    all_false a b c d ha hb hc = ground arith

-- `validate_transition` accepts exactly the changes that leave a status other than done and
-- cancelled, keep the status or move the work item as the board has it, do not finish it, and cancel
-- it only with the intent to.
pub validate_transition_iff :
    (from to : WorkItemStatus) (terminal : Option WorkItemTerminalIntent)
    → (validate_transition from to terminal ≡ ok tt) ↔ IsChange from to terminal
unfolding validate_transition
validate_transition_iff from to terminal = (
  λ h.
      let (a, h1) = passed _ _ _ h in
      let (kept, undone, intended) =
        refused_sound from to terminal
          (reject_if-eq-ok (is_refused from to terminal) (transition_invalid from to) h1) in
      record {
        unfinished = (is_final_iff from).0 a;
        permitted = elim kept [ inl e ↦ inl e | inr e ↦ inr ((permits_status_iff from to).0 e) ];
        undone = undone;
        intended = λ e. elim intended [ inl n ↦ absurd (n e) | inr i ↦ i ];
      },
  λ c.
      let kept : (from ≡ to) ⊎ (permits_status from to ≡ true) = elim (c.permitted) [
        | inl e ↦ inl e
        | inr m ↦ inr ((permits_status_iff from to).1 m)
      ] in
      let intended : (to ≢ cancelled) ⊎ (terminal ≡ some cancel) =
        elim (Bool-cases (holds (WorkItemStatus-discrete to cancelled))) [
          | inl e ↦ inr (c.intended (holds_sound (WorkItemStatus-discrete to cancelled) e))
          | inr e ↦ inl (holds_refuted (WorkItemStatus-discrete to cancelled) e)
        ] in
      simp (
        (is_final_iff from).1 c.unfinished,
        refused_complete from to terminal kept c.undone intended,
      ),
)

-- The update with which the integration of a work item may end.
pub record IsIntegration (rows : Repositories) (context : DocumentContext)
    (request : WorkItemStateUpdate) : Type 0 where
  pub reviewed : context.status ≡ review
  pub finished : request.status ≡ done
  pub unintended : request.terminal_intent ≡ none
  pub integrated : IsIntegrated rows request.work_item_id

is_none-eq-true {ℓ} : {A : Type ℓ} (o : Option A) → is_none o ≡ true → o ≡ none
is_none-eq-true none h = refl
is_none-eq-true (some a) h = cc

-- An update by the integration is accepted exactly if it finishes a work item that is in review,
-- has no terminal intent, and the work item has a repository, each of which is recorded as
-- integrated and none of which is recorded otherwise.
pub integration_iff :
    (rows : Repositories) (context : DocumentContext) (request : WorkItemStateUpdate)
    → (validate_actor_transition rows integration context request ≡ ok tt)
      ↔ IsIntegration rows context request
unfolding validate_actor_transition integration_accepts is_status
integration_iff rows context request = (
  λ h.
      let all = not-eq-false _ (reject_if-eq-ok _ _ h) in
      let (abc, d) = and-eq-true _ _ all in
      let (ab, c) = and-eq-true _ _ abc in
      let (a, b) = and-eq-true _ _ ab in
      record {
        reviewed = holds_sound _ a;
        finished = holds_sound _ b;
        unintended = is_none-eq-true _ c;
        integrated = (integration_ready_iff rows request.work_item_id).0 d;
      },
  λ i.
      let a = holds_complete (WorkItemStatus-discrete context.status review) i.reviewed in
      let b = holds_complete (WorkItemStatus-discrete request.status done) i.finished in
      simp (a, b, i.unintended, (integration_ready_iff rows request.work_item_id).1 i.integrated),
)
