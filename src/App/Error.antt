-- ===== src/App/Error.antt =====
-- crates/application/src/error.rs: the errors that the modelled operations return.
use agent_workboard.Prelude.{ℕ, Text}

pub data AppError : Type 0 where
  planning_document_invalid : Text → AppError
  empty_idempotency_key : AppError
  work_item_state_revision_stale work_item_document_revision_stale : ℕ → ℕ → AppError
  work_item_status_transition_invalid : Text → Text → AppError
  idempotency_conflict workflow_operation_unauthorized : AppError
  domain : Text → AppError
  external : Text → Text → AppError
  database : AppError
