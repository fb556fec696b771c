-- ===== src/App/WorkItemState.antt =====
-- crates/application/src/work_item_state.rs: which updates of a work item's state are accepted, and
-- what they make of it. The JSON encoder is a parameter.
pub mod Validation
pub mod Updates
pub mod Transitions
pub mod Integrations
pub mod Moves
pub mod Statuses
pub mod Lifecycle
mod Tests
use Prim.Native.String.{String}
use agent_workboard.Prelude.{
  ℕ, suc, ◌+◌, ◌*◌, Bool, true, false, not, ◌&&◌, ◌||◌, List, [], ◌∷◌, ◌++◌, Option, none, some,
  Text, text, len, is_blank, has_control, is_empty, any, keep, length, ltb, ◌==◌, holds, is_none,
  Result, ok, err, ◌>>=◌, ◌>>◌, reject_if, if◌then◌else◌,
}
use agent_workboard.Core.Workflow.Kinds.{NextActionKind, NextActionKind-discrete}
use agent_workboard.Core.Hierarchy.{
  Uuid, WorkItemStatus, backlog, ready, in_progress, blocked, review, done, cancelled,
  WorkItemStatus-discrete,
}
use agent_workboard.Core.WorkItemState.{
  WorkItemStateUpdate, WorkItemState, WorkItemBlocker, WorkItemDecision, WorkItemVerification,
  work_item_state_schema_version,
}
use agent_workboard.Core.WorkItemState.Statuses.{
  WorkItemTerminalIntent, complete, cancel, WorkItemTerminalIntent-discrete,
}
use agent_workboard.App.Error.{
  AppError, planning_document_invalid, empty_idempotency_key, work_item_state_revision_stale,
  work_item_document_revision_stale, work_item_status_transition_invalid,
}

abbrev max_state_bytes : ℕ
max_state_bytes = 64 * 1024

abbrev max_text_bytes : ℕ
max_text_bytes = 8 * 1024

abbrev max_items : ℕ
max_items = 64

pub data StateActor : Type 0 where
  managed : Uuid → Uuid → StateActor
  human integration : StateActor

-- What `document_context` reads of a work item that the checks and the update use.
pub record DocumentContext : Type 0 where
  pub status : WorkItemStatus
  pub state_revision : ℕ
  pub document_revision : ℕ

-- The error's message.
abbrev invalid : String → AppError
invalid message = planning_document_invalid (text message)

unfoldable pub is_invalid_text : Text → Bool
is_invalid_text value = is_blank value || ltb max_text_bytes (len value) || any (λ c. c == 0) value

unfoldable pub validate_text : Text → Result (Unit {0}) AppError
unfolding is_invalid_text
validate_text value = reject_if (is_invalid_text value) (invalid "Work-item state text is invalid")

-- A `for` loop whose body may return.
unfoldable pub for_each {ℓ} :
    {A : Type ℓ} → (A → Result (Unit {0}) AppError) → List A → Result (Unit {0}) AppError
for_each body [] = ok tt
for_each body (x ∷ xs) = body x >> for_each body xs

unfoldable pub validate_blocker : WorkItemBlocker → Result (Unit {0}) AppError
unfolding for_each validate_text
validate_blocker b =
    for_each validate_text (b.description ∷ b.owner ∷ b.unblock_action ∷ b.resume_when ∷ [])

unfoldable pub validate_decision : WorkItemDecision → Result (Unit {0}) AppError
unfolding validate_text
validate_decision d = do validate_text d.decision; validate_text d.rationale

unfoldable pub validate_evidence : Option Text → Result (Unit {0}) AppError
unfolding validate_text
validate_evidence none = ok tt
validate_evidence (some value) = validate_text value

unfoldable pub validate_verification : WorkItemVerification → Result (Unit {0}) AppError
unfolding validate_text validate_evidence
validate_verification v = do validate_text v.check; validate_evidence v.evidence

unfoldable pub is_bad_key : Text → Bool
is_bad_key key = is_blank key || ltb 512 (len key) || has_control key

unfoldable pub has_too_many : WorkItemStateUpdate → Bool
has_too_many request =
    any (λ n. ltb max_items n)
      (length request.blockers
        ∷ length request.decisions
        ∷ length request.verification
        ∷ length request.review.evidence
        ∷ length request.delivery.evidence
        ∷ [])

unfoldable pub is_status : WorkItemStatus → WorkItemStatus → Bool
is_status a b = holds (WorkItemStatus-discrete a b)

unfoldable pub is_intent : Option WorkItemTerminalIntent → WorkItemTerminalIntent → Bool
is_intent none b = false
is_intent (some a) b = holds (WorkItemTerminalIntent-discrete a b)

unfoldable pub is_unblocked : WorkItemStateUpdate → Bool
unfolding is_status
is_unblocked request =
    is_status request.status blocked
    && (is_empty request.blockers
        || not (holds (NextActionKind-discrete request.next_action.kind NextActionKind.blocked)))

unfoldable pub is_uncancelled : WorkItemStateUpdate → Bool
unfolding is_status is_intent
is_uncancelled request =
    is_intent request.terminal_intent cancel && not (is_status request.status cancelled)

unfoldable pub is_unreviewed : WorkItemStateUpdate → Bool
unfolding is_status is_intent
is_unreviewed request =
    is_intent request.terminal_intent complete && not (is_status request.status review)

-- `encoded` gives the bytes of the request's JSON form, or an error of the encoder.
unfoldable pub validate_update :
    (WorkItemStateUpdate → Result ℕ AppError) → WorkItemStateUpdate → Result (Unit {0}) AppError
unfolding validate_text for_each validate_blocker validate_decision validate_verification is_bad_key
    has_too_many is_unblocked is_uncancelled is_unreviewed
validate_update encoded request = do
  reject_if (not (request.schema_version == work_item_state_schema_version))
      (invalid "unsupported Work-item state schema version")
  validate_text request.current_state
  validate_text request.next_action.description
  reject_if (is_bad_key request.idempotency_key) empty_idempotency_key
  reject_if (has_too_many request) (invalid "Work-item state contains too many entries")
  for_each validate_blocker request.blockers
  for_each validate_decision request.decisions
  for_each validate_verification request.verification
  for_each validate_text (request.review.evidence ++ request.delivery.evidence)
  reject_if (is_unblocked request)
      (invalid "blocked status requires a blocker and blocked next action")
  reject_if (is_uncancelled request) (invalid "cancel terminal intent requires cancelled status")
  reject_if (is_unreviewed request)
      (invalid "complete terminal intent requires review status until integration")
  size ← encoded request
  reject_if (ltb max_state_bytes size) (invalid "Work-item state is too large")
