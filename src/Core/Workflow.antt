-- ===== src/Core/Workflow.antt =====
-- crates/core/src/workflow.rs: the states of a workflow run and the transitions between them.
pub mod Kinds
pub mod Runs
mod Tests
use agent_workboard.Prelude.{Bool, true, false, ◌||◌, holds}

pub data WorkflowState : Type 0 where
  draft worktree_pending planning_launch_pending planning_active proposal_ready : WorkflowState
  awaiting_approval publishing planned work_item_launch_pending : WorkflowState
  work_item_active reconciliation_required blocked paused completed cancelled : WorkflowState

-- The derived `==`.
unfoldable pub WorkflowState-discrete : Discrete WorkflowState
WorkflowState-discrete = hlevel

unfoldable pub is_terminal : WorkflowState → Bool
is_terminal completed = true
is_terminal cancelled = true
is_terminal _ = false

-- The `match self` of `can_transition_to`, below the test `self == next`.
from_draft : WorkflowState → Bool
from_draft worktree_pending = true
from_draft cancelled = true
from_draft _ = false

from_worktree_pending : WorkflowState → Bool
from_worktree_pending planning_launch_pending = true
from_worktree_pending reconciliation_required = true
from_worktree_pending cancelled = true
from_worktree_pending _ = false

from_planning_launch_pending : WorkflowState → Bool
from_planning_launch_pending planning_active = true
from_planning_launch_pending reconciliation_required = true
from_planning_launch_pending cancelled = true
from_planning_launch_pending _ = false

from_planning_active : WorkflowState → Bool
from_planning_active proposal_ready = true
from_planning_active reconciliation_required = true
from_planning_active blocked = true
from_planning_active paused = true
from_planning_active cancelled = true
from_planning_active _ = false

from_proposal_ready : WorkflowState → Bool
from_proposal_ready awaiting_approval = true
from_proposal_ready planning_active = true
from_proposal_ready cancelled = true
from_proposal_ready _ = false

from_awaiting_approval : WorkflowState → Bool
from_awaiting_approval publishing = true
from_awaiting_approval planning_active = true
from_awaiting_approval cancelled = true
from_awaiting_approval _ = false

from_publishing : WorkflowState → Bool
from_publishing planned = true
from_publishing reconciliation_required = true
from_publishing cancelled = true
from_publishing _ = false

from_planned : WorkflowState → Bool
from_planned work_item_launch_pending = true
from_planned completed = true
from_planned cancelled = true
from_planned _ = false

from_work_item_launch_pending : WorkflowState → Bool
from_work_item_launch_pending work_item_active = true
from_work_item_launch_pending reconciliation_required = true
from_work_item_launch_pending cancelled = true
from_work_item_launch_pending _ = false

from_work_item_active : WorkflowState → Bool
from_work_item_active work_item_launch_pending = true
from_work_item_active reconciliation_required = true
from_work_item_active blocked = true
from_work_item_active paused = true
from_work_item_active completed = true
from_work_item_active cancelled = true
from_work_item_active _ = false

from_reconciliation_required : WorkflowState → Bool
from_reconciliation_required planning_active = true
from_reconciliation_required proposal_ready = true
from_reconciliation_required awaiting_approval = true
from_reconciliation_required publishing = true
from_reconciliation_required planned = true
from_reconciliation_required work_item_launch_pending = true
from_reconciliation_required work_item_active = true
from_reconciliation_required blocked = true
from_reconciliation_required paused = true
from_reconciliation_required cancelled = true
from_reconciliation_required _ = false

from_blocked : WorkflowState → Bool
from_blocked planning_active = true
from_blocked work_item_active = true
from_blocked reconciliation_required = true
from_blocked paused = true
from_blocked cancelled = true
from_blocked _ = false

from_paused : WorkflowState → Bool
from_paused planning_active = true
from_paused work_item_active = true
from_paused reconciliation_required = true
from_paused cancelled = true
from_paused _ = false

permits : WorkflowState → WorkflowState → Bool
unfolding from_draft from_worktree_pending from_planning_launch_pending from_planning_active
    from_proposal_ready from_awaiting_approval from_publishing from_planned
    from_work_item_launch_pending from_work_item_active from_reconciliation_required from_blocked
    from_paused
permits draft next = from_draft next
permits worktree_pending next = from_worktree_pending next
permits planning_launch_pending next = from_planning_launch_pending next
permits planning_active next = from_planning_active next
permits proposal_ready next = from_proposal_ready next
permits awaiting_approval next = from_awaiting_approval next
permits publishing next = from_publishing next
permits planned next = from_planned next
permits work_item_launch_pending next = from_work_item_launch_pending next
permits work_item_active next = from_work_item_active next
permits reconciliation_required next = from_reconciliation_required next
permits blocked next = from_blocked next
permits paused next = from_paused next
permits completed next = false
permits cancelled next = false

unfoldable pub can_transition_to : WorkflowState → WorkflowState → Bool
unfolding permits WorkflowState-discrete
can_transition_to self next = holds (WorkflowState-discrete self next) || permits self next
