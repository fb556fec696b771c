-- ===== src/Core/Workflow/Tests.antt =====
-- Runs of workflow.rs at concrete states.
use agent_workboard.Prelude.{◌≡◌, refl, ◌↔◌, true, false}
use agent_workboard.Core.Workflow.{
  WorkflowState, draft, worktree_pending, planning_launch_pending, planning_active, proposal_ready,
  awaiting_approval, publishing, work_item_active, blocked, completed, cancelled, is_terminal,
  can_transition_to,
}
use agent_workboard.Core.Workflow.Runs.{
  Run, here, next, passes, is_publication_gate, is_work_gate, is_terminal_iff, terminal_absorbs,
  completed_reachable, publication_gated, work_gated,
}

fails_closed :
    (can_transition_to planning_active work_item_active ≡ false)
    × (can_transition_to completed work_item_active ≡ false)
unfolding can_transition_to
fails_closed = (refl, refl)

to_publishing : Run draft publishing
unfolding can_transition_to
to_publishing =
    next {u = publishing}
      (next {u = awaiting_approval}
        (next {u = proposal_ready}
          (next {u = planning_active}
            (next {u = planning_launch_pending} (next {u = worktree_pending} here refl) refl) refl)
          refl)
        refl)
      refl

-- A run that is blocked while it plans may go on as work, with no proposal made.
through_blocked : Run draft completed
unfolding can_transition_to
through_blocked =
    next {u = completed}
      (next {u = work_item_active}
        (next {u = blocked}
          (next {u = planning_active}
            (next {u = planning_launch_pending} (next {u = worktree_pending} here refl) refl) refl)
          refl)
        refl)
      refl

is_terminal_iff_example :
    (is_terminal cancelled ≡ true)
    ↔ ((t : WorkflowState) → can_transition_to cancelled t ≡ true → t ≡ cancelled)
is_terminal_iff_example = is_terminal_iff cancelled

stays_cancelled : Run cancelled cancelled
unfolding can_transition_to
stays_cancelled = next {u = cancelled} here refl

terminal_absorbs_example : ◌≡◌ {A = WorkflowState} cancelled cancelled
unfolding is_terminal
terminal_absorbs_example = terminal_absorbs refl stays_cancelled

completed_reachable_example : (can_transition_to blocked cancelled ≡ true) × Run blocked completed
unfolding is_terminal
completed_reachable_example = completed_reachable blocked refl

publication_gated_example : passes is_publication_gate to_publishing ≡ true
publication_gated_example = publication_gated to_publishing refl

work_gated_example : passes is_work_gate through_blocked ≡ true
work_gated_example = work_gated through_blocked refl
