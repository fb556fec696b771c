-- ===== src/Core/WorkItemState.antt =====
-- crates/core/src/work_item_state.rs: the recorded state of a work item, and updates of it.
pub mod Statuses
pub mod Review
pub mod Delivery
use agent_workboard.Prelude.{ℕ, List, Option, Text}
use agent_workboard.Core.Workflow.Kinds.{NextActionKind}
use agent_workboard.Core.Hierarchy.{Uuid, WorkItemStatus}
use agent_workboard.Core.WorkItemState.Statuses.{WorkItemVerificationResult, WorkItemTerminalIntent}
use agent_workboard.Core.WorkItemState.Review.{WorkItemReviewStatus}
use agent_workboard.Core.WorkItemState.Delivery.{WorkItemDeliveryStatus}

abbrev pub work_item_state_schema_version : ℕ
work_item_state_schema_version = 1

pub record WorkItemNextAction : Type 0 where
  pub kind : NextActionKind
  pub description : Text

pub record WorkItemBlocker : Type 0 where
  pub description : Text
  pub owner : Text
  pub unblock_action : Text
  pub resume_when : Text

pub record WorkItemDecision : Type 0 where
  pub decision : Text
  pub rationale : Text

pub record WorkItemVerification : Type 0 where
  pub check : Text
  pub result : WorkItemVerificationResult
  pub evidence : Option Text

pub record WorkItemReviewState : Type 0 where
  pub status : WorkItemReviewStatus
  pub evidence : List Text

pub record WorkItemDeliveryState : Type 0 where
  pub status : WorkItemDeliveryStatus
  pub evidence : List Text

pub record WorkItemStateUpdate : Type 0 where
  pub schema_version : ℕ
  pub work_item_id : Uuid
  pub expected_revision : ℕ
  pub expected_document_revision : ℕ
  pub current_state : Text
  pub next_action : WorkItemNextAction
  pub blockers : List WorkItemBlocker
  pub decisions : List WorkItemDecision
  pub verification : List WorkItemVerification
  pub review : WorkItemReviewState
  pub delivery : WorkItemDeliveryState
  pub status : WorkItemStatus
  pub terminal_intent : Option WorkItemTerminalIntent
  pub idempotency_key : Text

pub record WorkItemState : Type 0 where
  pub schema_version : ℕ
  pub work_item_id : Uuid
  pub revision : ℕ
  pub document_revision : ℕ
  pub current_state : Text
  pub next_action : WorkItemNextAction
  pub blockers : List WorkItemBlocker
  pub decisions : List WorkItemDecision
  pub verification : List WorkItemVerification
  pub review : WorkItemReviewState
  pub delivery : WorkItemDeliveryState
  pub status : WorkItemStatus
  pub terminal_intent : Option WorkItemTerminalIntent
