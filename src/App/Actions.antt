-- ===== src/App/Actions.antt =====
-- crates/application/src/actions.rs: what a workflow in each state offers.
pub mod Offers
mod Tests
use agent_workboard.Prelude.{ℕ, List, [], ◌∷◌, some, Text, text}
use agent_workboard.Core.Workflow.{
  WorkflowState, draft, worktree_pending, planning_launch_pending, planning_active, proposal_ready,
  awaiting_approval, publishing, planned, work_item_launch_pending, work_item_active,
  reconciliation_required, blocked, paused, completed, cancelled,
}
use agent_workboard.Core.Hierarchy.{HierarchyOwner}
use agent_workboard.Core.Actions.{
  AvailableActionKind, prepare, reconcile, status, continue, submit, approve_and_publish,
  request_revision, reject, start, resume, start_another, send_follow_up, checkpoint, integrate,
  cleanup, evidence, retry, cancel, AvailableAction, AvailableActions, enabled_action,
  available_actions_schema_version,
}

pub action : HierarchyOwner → AvailableActionKind → Text → Text → AvailableAction
unfolding enabled_action
action owner kind label route = enabled_action kind label owner route

-- The `match state`.
pub actions_of : HierarchyOwner → WorkflowState → List AvailableAction
actions_of owner draft =
    action owner prepare (text "Prepare checkout") (text "feature.prepare")
    ∷ action owner cancel (text "Cancel") (text "feature.cancel")
    ∷ []
actions_of owner worktree_pending =
    action owner status (text "Show checkout status") (text "feature.status")
    ∷ action owner reconcile (text "Reconcile checkout") (text "feature.reconcile")
    ∷ action owner cancel (text "Cancel") (text "feature.cancel")
    ∷ []
actions_of owner planning_launch_pending =
    action owner status (text "Show launch status") (text "feature.status")
    ∷ action owner reconcile (text "Reconcile launch") (text "feature.reconcile")
    ∷ action owner cancel (text "Cancel") (text "feature.cancel")
    ∷ []
actions_of owner planning_active =
    action owner continue (text "Continue planning") (text "feature.continue")
    ∷ action owner submit (text "Submit proposal") (text "feature.submit")
    ∷ action owner send_follow_up (text "Send follow-up") (text "session.follow_up")
    ∷ action owner cancel (text "Cancel") (text "feature.cancel")
    ∷ []
actions_of owner proposal_ready =
    action owner continue (text "Review proposal") (text "feature.open")
    ∷ action owner request_revision (text "Request revision") (text "feature.revise")
    ∷ action owner reject (text "Reject") (text "feature.reject")
    ∷ []
actions_of owner awaiting_approval =
    action owner approve_and_publish (text "Approve and publish") (text "feature.approve_publish")
    ∷ action owner request_revision (text "Request revision") (text "feature.revise")
    ∷ action owner reject (text "Reject") (text "feature.reject")
    ∷ []
actions_of owner publishing =
    action owner status (text "Show publication status") (text "feature.status")
    ∷ action owner retry (text "Retry publication") (text "feature.publish")
    ∷ []
actions_of owner planned =
    action owner start (text "Start ready Work item") (text "work.start")
    ∷ action owner status (text "Show Work-item readiness") (text "feature.open")
    ∷ []
actions_of owner work_item_launch_pending =
    action owner status (text "Show launch status") (text "work.open")
    ∷ action owner reconcile (text "Reconcile launch") (text "work.reconcile")
    ∷ []
actions_of owner work_item_active =
    action owner continue (text "Continue Work item") (text "work.continue")
    ∷ action owner start_another (text "Start another") (text "work.start")
    ∷ action owner send_follow_up (text "Send follow-up") (text "session.follow_up")
    ∷ action owner checkpoint (text "Record checkpoint") (text "workflow.checkpoint")
    ∷ action owner integrate (text "Integrate accepted work") (text "work.integrate")
    ∷ []
actions_of owner reconciliation_required =
    action owner reconcile (text "Reconcile") (text "feature.reconcile")
    ∷ action owner status (text "Show reconciliation status") (text "feature.status")
    ∷ action owner cancel (text "Cancel") (text "feature.cancel")
    ∷ []
actions_of owner blocked =
    action owner status (text "Show blockers") (text "work.open")
    ∷ action owner continue (text "Continue when unblocked") (text "work.continue")
    ∷ action owner checkpoint (text "Update blocker") (text "workflow.checkpoint")
    ∷ []
actions_of owner paused =
    action owner continue (text "Resume workflow") (text "work.continue")
    ∷ action owner status (text "Show paused state") (text "work.open")
    ∷ action owner cancel (text "Cancel") (text "feature.cancel")
    ∷ []
actions_of owner completed =
    action owner evidence (text "Show completion evidence") (text "work.open")
    ∷ action owner cleanup (text "Clean up checkout") (text "work.cleanup")
    ∷ []
actions_of owner cancelled =
    action owner evidence (text "Show cancellation evidence") (text "feature.open")
    ∷ action owner cleanup (text "Clean up checkout") (text "feature.cleanup")
    ∷ []

pub workflow_actions : HierarchyOwner → WorkflowState → ℕ → AvailableActions
workflow_actions owner state revision = record {
  schema_version = available_actions_schema_version;
  owner = owner;
  workflow_state = some state;
  revision = revision;
  actions = actions_of owner state;
  diagnostics = [];
}
