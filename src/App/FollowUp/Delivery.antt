-- ===== src/App/FollowUp/Delivery.antt =====
-- crates/application/src/follow_up.rs: the delivery of a leased row, and what it leaves in the row.
use agent_workboard.Prelude.{
  ◌*◌, Bool, true, false, ◌&&◌, ◌||◌, [], ◌∷◌, ◌++◌, Option, none, some, Text, text, text_eq, ltb,
  if◌then◌else◌, is_some_and, Result, ok, err, ◌>>=◌, ◌>>◌, reject_if, is_blank, len, ◌==◌,
}
use agent_workboard.Core.Hierarchy.{Uuid, Instant}
use agent_workboard.App.Error.{AppError, external}
use agent_workboard.App.FollowUp.{
  SessionFollowUpStatus, pending, leased, delivered, failed, SessionFollowUpOutcome, FollowUp,
  Tables, is_in, by_id, read_outcome,
}
use agent_workboard.App.FollowUp.Lease.{
  ProviderFollowUp, LeasedFollowUp, Generated, update, lease_next,
}

pub data FollowUpDeliveryFailureKind : Type 0 where
  deferred rejected uncertain : FollowUpDeliveryFailureKind

pub record FollowUpDeliveryFailure : Type 0 where
  pub kind : FollowUpDeliveryFailureKind
  pub message : Text

-- The client of the provider.
pub record FollowUpExecutor : Type 0 where
  pub reconcile : ProviderFollowUp → Result (Option Text) FollowUpDeliveryFailure
  pub deliver : ProviderFollowUp → Result Text FollowUpDeliveryFailure

-- `WHERE id = ?1 AND status = 'leased' AND lease_token = ?2`.
unfoldable pub holds_lease : Uuid → Text → FollowUp → Bool
holds_lease id lease_token f =
    by_id id f && is_in leased f && is_some_and f.lease_token (λ t. text_eq t lease_token)

unfoldable pub deliver_to : Text → Instant → FollowUp → FollowUp
deliver_to receipt now f = record f {
  status = delivered;
  receipt = some receipt;
  delivered_at = some now;
  failure = none;
  lease_token = none;
  leased_until = none;
}

unfoldable pub status_after : FollowUpDeliveryFailureKind → SessionFollowUpStatus
status_after deferred = pending
status_after rejected = failed
status_after uncertain = pending

unfoldable pub prefix : FollowUpDeliveryFailureKind → Text
prefix deferred = text "deferred"
prefix rejected = text "rejected"
prefix uncertain = text "uncertain"

unfoldable pub fail_with : FollowUpDeliveryFailure → FollowUp → FollowUp
unfolding status_after prefix
fail_with failure f = record f {
  status = status_after failure.kind;
  failure = some (prefix failure.kind ++ text ": " ++ failure.message);
  lease_token = none;
  leased_until = none;
}

unfoldable pub finish_delivery :
    Tables
    → Uuid
    → Text
    → Result Text FollowUpDeliveryFailure
    → Instant
    → Result (Tables × SessionFollowUpOutcome) AppError
unfolding holds_lease deliver_to fail_with
finish_delivery tables id lease_token (ok receipt) now = do
  reject_if (is_blank receipt || ltb (64 * 1024) (len receipt)) (
      external (text "follow_up_receipt_invalid")
        (text "the provider returned an invalid follow-up receipt"))
  let after = update (holds_lease id lease_token) (deliver_to receipt now) tables
  outcome ← read_outcome after.session_follow_ups id
  ok (after, outcome)
finish_delivery tables id lease_token (err failure) now = do
  let after = update (holds_lease id lease_token) (fail_with failure) tables
  outcome ← read_outcome after.session_follow_ups id
  ok (after, outcome)

has_prefix : Text → Text → Bool
has_prefix s [] = true
has_prefix [] (c ∷ p) = false
has_prefix (d ∷ s) (c ∷ p) = c == d && has_prefix s p

unfoldable pub is_uncertain : Option Text → Bool
unfolding has_prefix
is_uncertain failure = is_some_and failure (λ f. has_prefix f (text "uncertain:"))

-- What a worker does that found nothing of an earlier attempt.
unfoldable pub after_reconcile :
    FollowUpExecutor
    → LeasedFollowUp
    → Result (Option Text) FollowUpDeliveryFailure
    → Result Text FollowUpDeliveryFailure
unfolding is_uncertain
after_reconcile executor l (err failure) = err failure
after_reconcile executor l (ok (some receipt)) = ok receipt
after_reconcile executor l (ok none) =
    if is_uncertain l.previous_failure
    then err (record {
      kind = rejected;
      message = text "the earlier provider delivery could not be reconciled safely";
    })
    else executor.deliver l.request

unfoldable pub attempt : FollowUpExecutor → LeasedFollowUp → Result Text FollowUpDeliveryFailure
unfolding after_reconcile
attempt executor l =
    if ltb 1 l.attempt_count
    then after_reconcile executor l (executor.reconcile l.request)
    else executor.deliver l.request

-- The delivery and its end, if a row was leased. The tables are those that the worker leaves,
-- also with an error: the lease and the end of the delivery are transactions of their own.
unfoldable pub finished :
    Tables
    → Result (Tables × SessionFollowUpOutcome) AppError
    → Tables × Result (Option SessionFollowUpOutcome) AppError
finished tables (ok (after, outcome)) = (after, ok (some outcome))
finished tables (err e) = (tables, err e)

unfoldable pub deliver_leased :
    Tables
    → Option LeasedFollowUp
    → Instant
    → FollowUpExecutor
    → Tables × Result (Option SessionFollowUpOutcome) AppError
unfolding finish_delivery attempt finished
deliver_leased tables none now executor = (tables, ok none)
deliver_leased tables (some l) now executor =
    finished tables
      (finish_delivery tables l.request.follow_up_id l.lease_token (attempt executor l) now)

unfoldable pub after_lease :
    Tables
    → Instant
    → FollowUpExecutor
    → Result (Tables × Option LeasedFollowUp) AppError
    → Tables × Result (Option SessionFollowUpOutcome) AppError
unfolding deliver_leased
after_lease tables now executor (ok (after, l)) = deliver_leased after l now executor
after_lease tables now executor (err e) = (tables, err e)

unfoldable pub deliver_next :
    (Text → Text)
    → Generated
    → Tables
    → Option Uuid
    → Instant
    → FollowUpExecutor
    → Tables × Result (Option SessionFollowUpOutcome) AppError
unfolding after_lease
deliver_next digest g tables session_id now executor =
    after_lease tables now executor (lease_next digest g tables session_id now)
