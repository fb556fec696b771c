-- ===== src/App/WorkItemState/Transitions.antt =====
-- crates/application/src/work_item_state.rs: the statuses that an actor may give to a work item.
use agent_workboard.Prelude.{
  ℕ, ◌+◌, Bool, true, false, not, ◌&&◌, ◌||◌, List, Option, Text, text, any, keep, is_empty, ◌==◌,
  is_none, Result, ok, ◌>>◌, reject_if,
}
use agent_workboard.Core.Hierarchy.{
  Uuid, WorkItemStatus, backlog, ready, in_progress, blocked, review, done, cancelled,
}
use agent_workboard.Core.WorkItemState.{WorkItemStateUpdate, WorkItemState}
use agent_workboard.Core.WorkItemState.Statuses.{WorkItemTerminalIntent, cancel}
use agent_workboard.App.Error.{
  AppError, work_item_state_revision_stale, work_item_document_revision_stale,
  work_item_status_transition_invalid,
}
use agent_workboard.App.WorkItemState.{
  StateActor, managed, human, integration, DocumentContext, is_status, is_intent, validate_update,
}

unfoldable pub validate_revisions :
    WorkItemStateUpdate → DocumentContext → Result (Unit {0}) AppError
validate_revisions request context = do
  reject_if (not (request.expected_revision == context.state_revision))
      (work_item_state_revision_stale request.expected_revision context.state_revision)
  reject_if (not (request.expected_document_revision == context.document_revision)) (
      work_item_document_revision_stale request.expected_document_revision
        context.document_revision)

-- The names that serde gives to the statuses.
wire_name : WorkItemStatus → Text
wire_name backlog = text "backlog"
wire_name ready = text "ready"
wire_name in_progress = text "in_progress"
wire_name blocked = text "blocked"
wire_name review = text "review"
wire_name done = text "done"
wire_name cancelled = text "cancelled"

pub transition_invalid : WorkItemStatus → WorkItemStatus → AppError
unfolding wire_name
transition_invalid from to = work_item_status_transition_invalid (wire_name from) (wire_name to)

unfoldable pub is_final : WorkItemStatus → Bool
is_final done = true
is_final cancelled = true
is_final _ = false

-- The `match from` of `validate_transition`.
unfoldable pub permits_status : WorkItemStatus → WorkItemStatus → Bool
permits_status backlog ready = true
permits_status backlog in_progress = true
permits_status backlog blocked = true
permits_status backlog cancelled = true
permits_status backlog _ = false
permits_status ready in_progress = true
permits_status ready blocked = true
permits_status ready review = true
permits_status ready cancelled = true
permits_status ready _ = false
permits_status in_progress ready = true
permits_status in_progress blocked = true
permits_status in_progress review = true
permits_status in_progress cancelled = true
permits_status in_progress _ = false
permits_status blocked ready = true
permits_status blocked in_progress = true
permits_status blocked review = true
permits_status blocked cancelled = true
permits_status blocked _ = false
permits_status review in_progress = true
permits_status review blocked = true
permits_status review cancelled = true
permits_status review _ = false
permits_status done _ = false
permits_status cancelled _ = false

unfoldable pub is_refused : WorkItemStatus → WorkItemStatus → Option WorkItemTerminalIntent → Bool
unfolding is_status is_intent
is_refused from to terminal =
    not (is_status from to || permits_status from to)
    || is_status to done
    || (is_status to cancelled && not (is_intent terminal cancel))

unfoldable pub validate_transition :
    WorkItemStatus → WorkItemStatus → Option WorkItemTerminalIntent → Result (Unit {0}) AppError
unfolding transition_invalid
validate_transition from to terminal = do
  reject_if (is_final from) (transition_invalid from to)
  reject_if (is_refused from to terminal) (transition_invalid from to)

-- The rows of `work_item_repositories` and `work_item_integrations`.
pub record Repositories : Type 0 where
  pub expected : List (Uuid × Uuid)
  pub integrations : List (Uuid × (Uuid × Bool))

-- The query left-joins each repository that the work item has with its integrations, and looks for
-- a row whose status is missing or not `integrated`, which is the last part of an integration.
unfoldable pub is_unintegrated : List (Uuid × (Uuid × Bool)) → Uuid × Uuid → Bool
is_unintegrated integrations expected =
    let joined = keep (λ i. i.0 == expected.0 && i.1.0 == expected.1) integrations in
    is_empty joined || any (λ i. not i.1.1) joined

unfoldable pub integration_ready : Repositories → Uuid → Bool
unfolding is_unintegrated
integration_ready rows work_item_id =
    let mine = keep (λ r. r.0 == work_item_id) rows.expected in
    not (is_empty mine) && not (any (is_unintegrated rows.integrations) mine)

unfoldable pub integration_accepts : Repositories → DocumentContext → WorkItemStateUpdate → Bool
unfolding is_status integration_ready
integration_accepts rows context request =
    is_status context.status review
    && is_status request.status done
    && is_none request.terminal_intent
    && integration_ready rows request.work_item_id

unfoldable pub validate_actor_transition :
    Repositories → StateActor → DocumentContext → WorkItemStateUpdate → Result (Unit {0}) AppError
unfolding integration_accepts transition_invalid validate_transition
validate_actor_transition rows integration context request =
    reject_if (not (integration_accepts rows context request))
      (transition_invalid context.status request.status)
validate_actor_transition rows human context request =
    validate_transition context.status request.status request.terminal_intent
validate_actor_transition rows (managed session_id checkout_id) context request =
    validate_transition context.status request.status request.terminal_intent

unfoldable pub state_from_update : WorkItemStateUpdate → WorkItemState
state_from_update request = record {
  schema_version = request.schema_version;
  work_item_id = request.work_item_id;
  revision = request.expected_revision + 1;
  document_revision = request.expected_document_revision + 1;
  current_state = request.current_state;
  next_action = request.next_action;
  blockers = request.blockers;
  decisions = request.decisions;
  verification = request.verification;
  review = request.review;
  delivery = request.delivery;
  status = request.status;
  terminal_intent = request.terminal_intent;
}

-- The checks of a new update, in the order of `update`, and the state that it records.
unfoldable pub accept_update :
    (WorkItemStateUpdate → Result ℕ AppError)
    → Repositories
    → StateActor
    → DocumentContext
    → WorkItemStateUpdate
    → Result WorkItemState AppError
accept_update encoded rows actor context request = do
  validate_update encoded request
  validate_revisions request context
  validate_actor_transition rows actor context request
  ok (state_from_update request)

-- What the work item is after `publish_and_finalize` has recorded the state.
unfoldable pub finalized : WorkItemState → DocumentContext
finalized state = record {
  status = state.status;
  state_revision = state.revision;
  document_revision = state.document_revision;
}
