-- ===== src/App/PlanningWorkflow.antt =====
-- crates/application/src/planning_workflow.rs: the journal of a workflow run, on the rows of the
-- tables that crates/application/src/storage.rs declares, in the order of their insertion.
pub mod Journal
pub mod Runs
mod Tests
use agent_workboard.Prelude.{
  ℕ, ◌+◌, max, Bool, true, false, not, ◌||◌, List, [], ◌∷◌, ◌++◌, map, Option, none, some, Text,
  text, text_eq, any, keep, ◌==◌, if◌then◌else◌, is_some_and, Result, ok, err, ◌>>=◌, ◌>>◌,
  reject_if,
}
use agent_workboard.Core.Workflow.{
  WorkflowState, draft, worktree_pending, planning_launch_pending, planning_active, proposal_ready,
  awaiting_approval, publishing, planned, work_item_launch_pending, work_item_active,
  reconciliation_required, blocked, paused, completed, cancelled, is_terminal, can_transition_to,
}
use agent_workboard.Core.Workflow.Kinds.{WorkflowActor}
use agent_workboard.Core.Hierarchy.{Uuid, Instant}
use agent_workboard.App.Error.{AppError, domain, database}

pub record WorkflowEvent : Type 0 where
  pub id : Uuid
  pub run_id : Uuid
  pub sequence : ℕ
  pub from_state : WorkflowState
  pub to_state : WorkflowState
  pub actor : WorkflowActor
  pub occurred_at : Instant
  pub payload_json : Text
  pub idempotency_key : Option Text

pub record WorkflowRun : Type 0 where
  pub id : Uuid
  pub current_state : WorkflowState
  pub completed_at : Option Instant

pub record FeatureRow : Type 0 where
  pub id : Uuid
  pub workflow_state : WorkflowState

pub record Tables : Type 0 where
  pub workflow_events : List WorkflowEvent
  pub workflow_runs : List WorkflowRun
  pub features : List FeatureRow

-- The names that serde gives to the states.
state_name : WorkflowState → Text
state_name draft = text "draft"
state_name worktree_pending = text "worktree_pending"
state_name planning_launch_pending = text "planning_launch_pending"
state_name planning_active = text "planning_active"
state_name proposal_ready = text "proposal_ready"
state_name awaiting_approval = text "awaiting_approval"
state_name publishing = text "publishing"
state_name planned = text "planned"
state_name work_item_launch_pending = text "work_item_launch_pending"
state_name work_item_active = text "work_item_active"
state_name reconciliation_required = text "reconciliation_required"
state_name blocked = text "blocked"
state_name paused = text "paused"
state_name completed = text "completed"
state_name cancelled = text "cancelled"

pub of_run : Uuid → List WorkflowEvent → List WorkflowEvent
of_run run_id events = keep (λ e. e.run_id == run_id) events

-- `COALESCE(MAX(sequence), 0)`.
pub max_sequence : List WorkflowEvent → ℕ
max_sequence [] = 0
max_sequence (e ∷ events) = max e.sequence (max_sequence events)

pub same_key : Option Text → WorkflowEvent → Bool
same_key none e = false
same_key (some key) e = is_some_and e.idempotency_key (λ other. text_eq other key)

-- The constraints of the table that an insertion may violate: the primary key, the unique pairs of
-- a run and a sequence number, the unique keys, and the reference to a run.
pub violates : Tables → WorkflowEvent → Bool
unfolding same_key
violates tables event =
    any (λ e. e.id == event.id) tables.workflow_events
    || any (λ e. e.sequence == event.sequence) (of_run event.run_id tables.workflow_events)
    || any (same_key event.idempotency_key) tables.workflow_events
    || not (any (λ r. r.id == event.run_id) tables.workflow_runs)

-- The row that is inserted, with a generated identifier.
pub new_row :
    Uuid
    → List WorkflowEvent
    → Uuid
    → WorkflowState
    → WorkflowState
    → WorkflowActor
    → Instant
    → Text
    → Option Text
    → WorkflowEvent
new_row event_id events run_id from to actor occurred_at payload_json idempotency_key = record {
  id = event_id;
  run_id = run_id;
  sequence = max_sequence (of_run run_id events) + 1;
  from_state = from;
  to_state = to;
  actor = actor;
  occurred_at = occurred_at;
  payload_json = payload_json;
  idempotency_key = idempotency_key;
}

refused_transition : WorkflowState → WorkflowState → AppError
unfolding state_name
refused_transition from to =
    domain
      (text "workflow cannot transition from " ++ state_name from ++ text " to " ++ state_name to)

pub append_event :
    Uuid
    → Tables
    → Uuid
    → WorkflowState
    → WorkflowState
    → WorkflowActor
    → Instant
    → Text
    → Option Text
    → Result Tables AppError
unfolding new_row refused_transition
append_event event_id tables run_id from to actor occurred_at payload_json idempotency_key = do
  reject_if (not (can_transition_to from to)) (refused_transition from to)
  let event =
      new_row event_id tables.workflow_events run_id from to actor occurred_at payload_json
        idempotency_key
  reject_if (violates tables event) database
  ok (record tables { workflow_events = tables.workflow_events ++ event ∷ [] })

-- What `transition_feature` reads of a `FeaturePlanningDraft`.
pub record FeaturePlanningDraft : Type 0 where
  pub feature_id : Uuid
  pub workflow_run_id : Uuid
  pub state : WorkflowState

pub update_run : Uuid → WorkflowState → Instant → WorkflowRun → WorkflowRun
update_run run_id next occurred_at r =
    if r.id == run_id
    then record r {
      current_state = next;
      completed_at = if is_terminal next then some occurred_at else none;
    }
    else r

pub update_feature : Uuid → WorkflowState → FeatureRow → FeatureRow
update_feature feature_id next f =
    if f.id == feature_id then record f { workflow_state = next } else f

pub transition_feature :
    Uuid
    → Tables
    → FeaturePlanningDraft
    → WorkflowState
    → WorkflowActor
    → Instant
    → Text
    → Option Text
    → Result Tables AppError
unfolding update_run update_feature
transition_feature event_id tables d next actor occurred_at payload_json idempotency_key = do
  appended ←
      append_event event_id tables d.workflow_run_id d.state next actor occurred_at payload_json
        idempotency_key
  ok (record appended {
    workflow_runs = map (update_run d.workflow_run_id next occurred_at) appended.workflow_runs;
    features = map (update_feature d.feature_id next) appended.features;
  })
