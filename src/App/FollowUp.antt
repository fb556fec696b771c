-- ===== src/App/FollowUp.antt =====
-- crates/application/src/follow_up.rs: messages that are queued for a session, leased by a worker
-- and delivered to the provider, on the rows of the tables that
-- crates/application/src/storage.rs declares. A row's identifier is a number, whose order is the
-- order of the texts that the tables hold, and so is an instant, in nanoseconds.
pub mod Queue
pub mod Query
pub mod Lease
pub mod Delivery
pub mod Clients
pub mod Rows
pub mod Stored
pub mod Steps
pub mod Insertions
pub mod Histories
pub mod Exclusive
pub mod Candidates
pub mod Lookups
pub mod Holding
pub mod Replays
pub mod Redelivery
mod Tests
pub mod Advances
use agent_workboard.Prelude.{
  ℕ, ◌*◌, Bool, true, false, ◌&&◌, ◌||◌, List, Option, none, some, Text, text, text_eq, find, ◌==◌,
  Result, ok, err, ◌>>=◌, ◌>>◌, reject_if, ok_or, is_blank, len, ltb, any,
}
use agent_workboard.Core.Hierarchy.{
  Uuid, Instant, HierarchyOwner, workspace, epic, feature, work_item,
}
use agent_workboard.Core.Conversation.{Tool}
use agent_workboard.App.Error.{
  AppError, domain, database, external, workflow_operation_unauthorized,
}

abbrev pub max_follow_up_bytes : ℕ
max_follow_up_bytes = 64 * 1024

pub record SendSessionFollowUp : Type 0 where
  pub owner : HierarchyOwner
  pub session_id : Option Uuid
  pub expected_binding_generation : ℕ
  pub text : Text
  pub idempotency_key : Text
  pub requested_at : Instant

pub data SessionFollowUpStatus : Type 0 where
  pending leased delivered failed : SessionFollowUpStatus

pub record SessionFollowUpOutcome : Type 0 where
  pub follow_up_id : Uuid
  pub owner : HierarchyOwner
  pub session_id : Uuid
  pub binding_generation : ℕ
  pub checkout_id : Uuid
  pub checkout_generation : ℕ
  pub sequence : ℕ
  pub status : SessionFollowUpStatus
  pub attempt_count : ℕ
  pub receipt : Option Text
  pub failure : Option Text

-- A row of `session_follow_ups`.
pub record FollowUp : Type 0 where
  pub id : Uuid
  pub workspace_id : Uuid
  pub feature_id : Option Uuid
  pub work_item_id : Option Uuid
  pub session_id : Uuid
  pub association_id : Uuid
  pub managed_session_id : Uuid
  pub binding_generation : ℕ
  pub checkout_id : Uuid
  pub checkout_generation : ℕ
  pub sequence : ℕ
  pub idempotency_key : Text
  pub instruction : Text
  pub instruction_hash : Text
  pub status : SessionFollowUpStatus
  pub lease_token : Option Text
  pub leased_until : Option Instant
  pub attempt_count : ℕ
  pub receipt : Option Text
  pub failure : Option Text
  pub created_at : Instant
  pub delivered_at : Option Instant

pub record WorkflowCredential : Type 0 where
  pub id : Uuid
  pub managed_session_id : Uuid
  pub binding_generation : ℕ
  pub token_hash : Text
  pub created_at : Instant
  pub expires_at : Instant

-- The columns of the other tables that the queries read.
pub record NativeSession : Type 0 where
  pub id : Uuid
  pub provider : Tool
  pub native_id : Text

pub data ManagedStatus : Type 0 where
  bound adopted stopped : ManagedStatus

pub record ManagedSession : Type 0 where
  pub id : Uuid
  pub launch_intent_id : Option Uuid
  pub session_id : Uuid
  pub checkout_id : Uuid
  pub status : ManagedStatus
  pub managed_until : Option Instant
  pub binding_generation : ℕ

pub record Association : Type 0 where
  pub id : Uuid
  pub session_id : Uuid
  pub feature_id : Option Uuid
  pub work_item_id : Option Uuid
  pub role : Text
  pub associated_until : Option Instant

pub record CheckoutPath : Type 0 where
  pub checkout_id : Uuid
  pub path : Text
  pub observed_until : Option Instant

pub record Readiness : Type 0 where
  pub checkout_id : Uuid
  pub reconciliation_generation : ℕ

pub record LaunchIntent : Type 0 where
  pub id : Uuid
  pub capability_bundle_root : Option Text

pub record LiveObservation : Type 0 where
  pub id : Uuid
  pub session_id : Uuid
  pub status : Text
  pub observed_at : Instant
  pub executable : Option Text

pub record Tables : Type 0 where
  pub session_follow_ups : List FollowUp
  pub workflow_credentials : List WorkflowCredential
  pub native_sessions : List NativeSession
  pub managed_sessions : List ManagedSession
  pub associations : List Association
  pub checkout_paths : List CheckoutPath
  pub checkout_readiness : List Readiness
  pub launch_intents : List LaunchIntent
  pub live_observations : List LiveObservation

abbrev pub same_status : SessionFollowUpStatus → SessionFollowUpStatus → Bool
same_status pending pending = true
same_status leased leased = true
same_status delivered delivered = true
same_status failed failed = true
same_status _ _ = false

unfoldable pub is_in : SessionFollowUpStatus → FollowUp → Bool
is_in s f = same_status s f.status

-- `status IN ('bound', 'adopted')`.
unfoldable pub is_current : ManagedStatus → Bool
is_current bound = true
is_current adopted = true
is_current stopped = false

-- `IS`, on columns that may hold no identifier.
unfoldable pub same_id : Option Uuid → Option Uuid → Bool
same_id none none = true
same_id none (some b) = false
same_id (some a) none = false
same_id (some a) (some b) = a == b

-- `?1 IS NULL OR session_id = ?1`.
unfoldable pub accepts : Option Uuid → Uuid → Bool
accepts none id = true
accepts (some wanted) id = id == wanted

unfoldable pub and_then {ℓ κ} : {A : Type ℓ} {B : Type κ} → Option A → (A → Option B) → Option B
and_then none next = none
and_then (some a) next = next a

unfoldable pub by_id : Uuid → FollowUp → Bool
by_id id f = f.id == id

unfoldable pub owner_columns : HierarchyOwner → Result (Option Uuid × Option Uuid) AppError
owner_columns (workspace id) = err workflow_operation_unauthorized
owner_columns (epic id) = err workflow_operation_unauthorized
owner_columns (feature id) = ok (some id, none)
owner_columns (work_item id) = ok (none, some id)

unfoldable pub parse_owner : Option Uuid → Option Uuid → Result HierarchyOwner AppError
parse_owner none none = err (domain (text "invalid follow-up owner"))
parse_owner none (some id) = ok (work_item id)
parse_owner (some id) none = ok (feature id)
parse_owner (some id) (some other) = err (domain (text "invalid follow-up owner"))

unfoldable pub outcome_of : FollowUp → HierarchyOwner → SessionFollowUpOutcome
outcome_of f owner = record {
  follow_up_id = f.id;
  owner = owner;
  session_id = f.session_id;
  binding_generation = f.binding_generation;
  checkout_id = f.checkout_id;
  checkout_generation = f.checkout_generation;
  sequence = f.sequence;
  status = f.status;
  attempt_count = f.attempt_count;
  receipt = f.receipt;
  failure = f.failure;
}

unfoldable pub read_outcome : List FollowUp → Uuid → Result SessionFollowUpOutcome AppError
unfolding by_id
read_outcome rows id = do
  f ← ok_or (find (by_id id) rows) database
  owner ← parse_owner f.feature_id f.work_item_id
  ok (outcome_of f owner)
