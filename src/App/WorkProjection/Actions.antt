-- ===== src/App/WorkProjection/Actions.antt =====
-- crates/application/src/work_projection.rs: the actions that a work item and its sessions offer.
use agent_workboard.Prelude.{
  ℕ, Bool, true, false, not, ◌&&◌, ◌||◌, List, [], ◌∷◌, ◌++◌, Option, none, some, Text, text, any,
  is_empty, length, if◌then◌else◌, is_some_and, is_none, holds, text_eq,
}
use agent_workboard.Core.Workflow.Kinds.{
  ManagedSessionRole, ManagedSessionRole-discrete, work_item_execution,
}
use agent_workboard.Core.Hierarchy.{
  Uuid, HierarchyOwner, work_item, WorkItem, WorkItemStatus, in_progress, blocked, review, done,
  cancelled, write_isolated,
}
use agent_workboard.Core.Live.{LiveStatus, indicates_live, Resumability, Resumability-discrete}
use agent_workboard.Core.Actions.{
  AvailableActionKind, AvailableAction, AvailableActions, enabled_action, disabled,
  available_actions_schema_version,
}
use agent_workboard.App.WorkProjection.{WorkItemReadiness}

-- What `work_item_actions` reads of a `SessionChoice`.
pub record SessionChoice : Type 0 where
  pub primary_writer : Bool
  pub actions : List AvailableAction

unfoldable pub is_primary_writer : ManagedSessionRole → Bool → Option Text → Bool
unfolding ManagedSessionRole-discrete
is_primary_writer role current purpose =
    holds (ManagedSessionRole-discrete role work_item_execution)
    && current
    && (is_none purpose || is_some_and purpose (λ p. text_eq p (text "work_item_write")))

unfoldable pub session_actions :
    Uuid → Uuid → Option LiveStatus → Resumability → Bool → List AvailableAction
unfolding enabled_action disabled Resumability-discrete
session_actions work_item_id session_id live_status resumability current =
    let owner = work_item work_item_id in
    let is_live = is_some_and live_status indicates_live && current in
    let resume =
      record (enabled_action AvailableActionKind.resume (text "Resume") owner
        (text "work.continue")) { session_id = some session_id } in
    let offered =
      if is_live
      then disabled resume (text "session is already live")
      else if not (holds (Resumability-discrete resumability Resumability.validated))
      then disabled resume (text "session has no validated resume source")
      else resume in
    if is_live
    then offered
      ∷ record (enabled_action AvailableActionKind.send_follow_up (text "Send follow-up") owner
          (text "session.follow_up")) { session_id = some session_id }
      ∷ []
    else offered ∷ []

unfoldable pub status_actions : HierarchyOwner → WorkItemStatus → List AvailableAction
unfolding enabled_action
status_actions owner in_progress =
    enabled_action AvailableActionKind.checkpoint (text "Record checkpoint") owner
      (text "workflow.checkpoint")
    ∷ []
status_actions owner blocked =
    enabled_action AvailableActionKind.checkpoint (text "Record checkpoint") owner
      (text "workflow.checkpoint")
    ∷ []
status_actions owner review =
    enabled_action AvailableActionKind.integrate (text "Integrate accepted work") owner
      (text "work.integrate")
    ∷ []
status_actions owner done =
    enabled_action AvailableActionKind.evidence (text "Show durable evidence") owner
      (text "work.open")
    ∷ []
status_actions owner cancelled =
    enabled_action AvailableActionKind.evidence (text "Show durable evidence") owner
      (text "work.open")
    ∷ []
status_actions owner _ = []

unfoldable pub session_offers : List SessionChoice → List AvailableAction
session_offers [] = []
session_offers (s ∷ sessions) = s.actions ++ session_offers sessions

unfoldable pub plain_start : Bool → HierarchyOwner → AvailableAction
unfolding enabled_action
plain_start true owner =
    enabled_action AvailableActionKind.start (text "Start") owner (text "work.start")
plain_start false owner =
    enabled_action AvailableActionKind.start_another (text "Start another") owner
      (text "work.start")

-- The numbers in a message are printed by Rust's `format!`.
module _ (decimal : ℕ → Text) where
  unfoldable pub start_action :
      HierarchyOwner → WorkItemReadiness → List SessionChoice → AvailableAction
  unfolding plain_start disabled
  start_action owner r sessions =
      let begin = record (plain_start (is_empty sessions) owner) {
        role = some work_item_execution;
        access_mode = some write_isolated;
      } in
      if not r.ready
      then disabled begin (
          if is_empty r.blocked_by
          then text "Work-item status is not launchable"
          else text "blocked by "
            ++ decimal (length r.blocked_by)
            ++ text " incomplete dependencies")
      else if any (λ s. s.primary_writer) sessions
      then record begin {
        confirmation =
            some (text "Start an additional writer in a distinct writer-session checkout");
      }
      else begin

  unfoldable pub work_item_actions :
      WorkItem → WorkItemReadiness → List SessionChoice → AvailableActions
  unfolding start_action session_offers status_actions
  work_item_actions item r sessions = record {
    schema_version = available_actions_schema_version;
    owner = work_item item.id;
    workflow_state = none;
    revision = r.layer;
    actions =
        start_action (work_item item.id) r sessions ∷ session_offers sessions
        ++ status_actions (work_item item.id) item.status;
    diagnostics = [];
  }
