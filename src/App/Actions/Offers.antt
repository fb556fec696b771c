-- ===== src/App/Actions/Offers.antt =====
-- Which actions a workflow offers, against the transitions that it permits.
use agent_workboard.Prelude.{
  ℕ, ◌≡◌, refl, sym, ap, subst, ◌∙◌, holds_sound, holds_complete, ◌↔◌, Bool, true, false, not, ◌||◌,
  List, [], ◌∷◌, any, all, holds, Option, none, some, is_some_and, and-eq-true, Bool-cases, inl,
  inr, arith,
}
use agent_workboard.Core.Workflow.{
  WorkflowState, draft, worktree_pending, planning_launch_pending, planning_active, proposal_ready,
  awaiting_approval, publishing, planned, work_item_launch_pending, work_item_active,
  reconciliation_required, blocked, paused, completed, cancelled, is_terminal, can_transition_to,
  WorkflowState-discrete,
}
use agent_workboard.Core.Hierarchy.{HierarchyOwner}
use agent_workboard.Core.Actions.{
  AvailableActionKind, AvailableAction, AvailableActionKind-discrete, prepare, submit, start,
  cancel, cleanup, approve_and_publish, enabled_action,
}
use agent_workboard.App.Actions.{action, actions_of, workflow_actions}

unfoldable pub offers : HierarchyOwner → WorkflowState → ℕ → AvailableActionKind → Bool
offers owner state revision kind =
    any (λ a. holds (AvailableActionKind-discrete a.kind kind))
      (workflow_actions owner state revision).actions

cleanup_offered :
    (owner : HierarchyOwner) (revision : ℕ) (state : WorkflowState)
    → offers owner state revision cleanup ≡ is_terminal state
unfolding offers workflow_actions actions_of action enabled_action AvailableActionKind-discrete
    is_terminal
cleanup_offered owner revision draft = refl
cleanup_offered owner revision worktree_pending = refl
cleanup_offered owner revision planning_launch_pending = refl
cleanup_offered owner revision planning_active = refl
cleanup_offered owner revision proposal_ready = refl
cleanup_offered owner revision awaiting_approval = refl
cleanup_offered owner revision publishing = refl
cleanup_offered owner revision planned = refl
cleanup_offered owner revision work_item_launch_pending = refl
cleanup_offered owner revision work_item_active = refl
cleanup_offered owner revision reconciliation_required = refl
cleanup_offered owner revision blocked = refl
cleanup_offered owner revision paused = refl
cleanup_offered owner revision completed = refl
cleanup_offered owner revision cancelled = refl

approval_offered :
    (owner : HierarchyOwner) (revision : ℕ) (state : WorkflowState)
    → offers owner state revision approve_and_publish
      ≡ holds (WorkflowState-discrete state awaiting_approval)
unfolding offers workflow_actions actions_of action enabled_action AvailableActionKind-discrete
    WorkflowState-discrete
approval_offered owner revision draft = refl
approval_offered owner revision worktree_pending = refl
approval_offered owner revision planning_launch_pending = refl
approval_offered owner revision planning_active = refl
approval_offered owner revision proposal_ready = refl
approval_offered owner revision awaiting_approval = refl
approval_offered owner revision publishing = refl
approval_offered owner revision planned = refl
approval_offered owner revision work_item_launch_pending = refl
approval_offered owner revision work_item_active = refl
approval_offered owner revision reconciliation_required = refl
approval_offered owner revision blocked = refl
approval_offered owner revision paused = refl
approval_offered owner revision completed = refl
approval_offered owner revision cancelled = refl

-- Cleaning up is offered exactly in terminal states, and approval exactly while it is awaited.
pub offers_follow_states :
    (owner : HierarchyOwner) (state : WorkflowState) (revision : ℕ)
    → ((offers owner state revision cleanup ≡ true) ↔ (is_terminal state ≡ true))
      × ((offers owner state revision approve_and_publish ≡ true) ↔ (state ≡ awaiting_approval))
offers_follow_states owner state revision = (
  (
    λ h. sym (cleanup_offered owner revision state) ∙ h,
    λ h. cleanup_offered owner revision state ∙ h,
  ),
  (
    λ h. holds_sound _ (sym (approval_offered owner revision state) ∙ h),
    λ e. approval_offered owner revision state ∙ holds_complete _ e,
  ),
)

-- The state to which an action takes the workflow, for the actions that by their name move it on.
unfoldable pub next_state : AvailableActionKind → Option WorkflowState
next_state prepare = some worktree_pending
next_state submit = some proposal_ready
next_state approve_and_publish = some publishing
next_state start = some work_item_launch_pending
next_state cancel = some cancelled
next_state _ = none

-- The kind is not among the first ones, or the transition is permitted.
unfoldable permits_offered : List AvailableAction → WorkflowState → Bool
unfolding next_state
permits_offered offered state =
    all (λ a. not (is_some_and (next_state a.kind) (λ to. not (can_transition_to state to))))
      offered

permits_all :
    (owner : HierarchyOwner) (state : WorkflowState)
    → permits_offered (actions_of owner state) state ≡ true
unfolding permits_offered actions_of action enabled_action can_transition_to WorkflowState-discrete
permits_all owner draft = refl
permits_all owner worktree_pending = refl
permits_all owner planning_launch_pending = refl
permits_all owner planning_active = refl
permits_all owner proposal_ready = refl
permits_all owner awaiting_approval = refl
permits_all owner publishing = refl
permits_all owner planned = refl
permits_all owner work_item_launch_pending = refl
permits_all owner work_item_active = refl
permits_all owner reconciliation_required = refl
permits_all owner blocked = refl
permits_all owner paused = refl
permits_all owner completed = refl
permits_all owner cancelled = refl

kind_permitted :
    (offered : List AvailableAction) (state : WorkflowState) (kind : AvailableActionKind)
    (to : WorkflowState)
    → next_state kind ≡ some to
    → permits_offered offered state ≡ true
    → any (λ a. holds (AvailableActionKind-discrete a.kind kind)) offered ≡ true
    → can_transition_to state to ≡ true
unfolding permits_offered
kind_permitted [] state kind to e h k = cc
kind_permitted (a ∷ offered) state kind to e h k =
    let (here, later) = and-eq-true _ _ h in
    elim (Bool-cases (holds (AvailableActionKind-discrete a.kind kind))) [
      | inl same ↦
          let it : next_state a.kind ≡ some to =
            ap next_state (holds_sound (AvailableActionKind-discrete a.kind kind) same) ∙ e in
          twice _
            (subst (λ o. not (is_some_and o (λ t. not (can_transition_to state t))) ≡ true) it here)
      | inr other ↦ kind_permitted offered state kind to e later (second _ _ other k)
    ]
  where
    twice : (b : Bool) → not (not b) ≡ true → b ≡ true
    twice b f = ground arith

    second : (a b : Bool) → a ≡ false → (a || b) ≡ true → b ≡ true
    second a b f g = ground arith

-- What a workflow offers it permits: an offer to prepare a checkout, to submit a proposal, to approve
-- and publish it, to start a work item or to cancel stands only in states from which the workflow may
-- go to the state that the action is for.
pub offers_permitted :
    (owner : HierarchyOwner) (state : WorkflowState) (revision : ℕ) (kind : AvailableActionKind)
    (to : WorkflowState)
    → next_state kind ≡ some to
    → offers owner state revision kind ≡ true
    → can_transition_to state to ≡ true
unfolding offers workflow_actions
offers_permitted owner state revision kind to e h =
    kind_permitted (actions_of owner state) state kind to e (permits_all owner state) h
