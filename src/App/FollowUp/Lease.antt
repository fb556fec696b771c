-- ===== src/App/FollowUp/Lease.antt =====
-- crates/application/src/follow_up.rs: a worker leases the next row that is due.
use agent_workboard.Prelude.{
  ℕ, ◌+◌, ◌-◌, ◌*◌, ◌^◌, Bool, true, false, ◌&&◌, ◌||◌, List, [], ◌∷◌, ◌++◌, map, Option, none,
  some, Text, text, text_eq, any, keep, ◌==◌, leb, if◌then◌else◌, is_some_and, Result, ok, ◌>>◌,
  reject_if, length,
}
use agent_workboard.Core.Hierarchy.{Uuid, Instant}
use agent_workboard.Core.Conversation.{Tool}
use agent_workboard.App.Error.{AppError, domain, database}
use agent_workboard.App.FollowUp.{leased, failed, FollowUp, WorkflowCredential, Tables, by_id}
use agent_workboard.App.FollowUp.Query.{Evidence, has_changed, is_due, joined, next_row}

-- `LEASE_DURATION` and `CREDENTIAL_DURATION`, in nanoseconds.
abbrev pub lease_duration : ℕ
lease_duration = 2 * 60 * 1000000000

abbrev pub credential_duration : ℕ
credential_duration = 30 * 24 * 60 * 60 * 1000000000

-- `UPDATE session_follow_ups SET ... WHERE ...`.
unfoldable pub update : (FollowUp → Bool) → (FollowUp → FollowUp) → Tables → Tables
update test set tables = record tables {
  session_follow_ups = map (λ f. if test f then set f else f) tables.session_follow_ups;
}

unfoldable pub evidence_changed : FollowUp → FollowUp
evidence_changed f = record f {
  status = failed;
  failure = some (text "binding or provider evidence changed");
  lease_token = none;
  leased_until = none;
}

unfoldable pub lease_to : Text → Instant → ℕ → FollowUp → FollowUp
lease_to lease_token now attempt_count f = record f {
  status = leased;
  lease_token = some lease_token;
  leased_until = some (now + lease_duration);
  attempt_count = attempt_count;
}

pub record ProviderFollowUp : Type 0 where
  pub follow_up_id : Uuid
  pub tool : Tool
  pub native_id : Text
  pub executable : Text
  pub working_directory : Text
  pub capability_bundle_root : Text
  pub workflow_token : Text
  pub text : Text
  pub client_message_id : Text
  pub active_turn : Bool

pub record LeasedFollowUp : Type 0 where
  pub request : ProviderFollowUp
  pub attempt_count : ℕ
  pub previous_failure : Option Text
  pub lease_token : Text

-- What a lease draws at random.
pub record Generated : Type 0 where
  pub lease_token : Text
  pub workflow_token : Text
  pub credential_id : Uuid

-- The texts that `has_changed` has found to be there.
or_empty : Option Text → Text
or_empty none = []
or_empty (some s) = s

unfoldable pub provider_request : Generated → FollowUp → Evidence → ProviderFollowUp
unfolding or_empty
provider_request g f e = record {
  follow_up_id = f.id;
  tool = e.provider;
  native_id = e.native_id;
  executable = or_empty e.executable;
  working_directory = e.path;
  capability_bundle_root = or_empty e.capability_bundle_root;
  workflow_token = g.workflow_token;
  text = f.instruction;
  client_message_id = f.idempotency_key;
  active_turn = is_some_and e.live_status (λ s. text_eq s (text "active"));
}

unfoldable pub leased_follow_up : Generated → FollowUp → Evidence → ℕ → LeasedFollowUp
unfolding provider_request
leased_follow_up g f e attempt_count = record {
  request = provider_request g f e;
  attempt_count = attempt_count;
  previous_failure = f.failure;
  lease_token = g.lease_token;
}

-- The row is still due, and has the identifier.
unfoldable pub is_leasable : Uuid → Instant → FollowUp → Bool
unfolding by_id is_due
is_leasable id now f = by_id id f && is_due now f

module _ (digest : Text → Text) where
  unfoldable pub new_credential : Generated → FollowUp → Instant → WorkflowCredential
  new_credential g f now = record {
    id = g.credential_id;
    managed_session_id = f.managed_session_id;
    binding_generation = f.binding_generation;
    token_hash = digest g.workflow_token;
    created_at = now;
    expires_at = now + credential_duration;
  }

  -- The primary key and the unique hashes of `workflow_credentials`.
  unfoldable pub violates_credential : List WorkflowCredential → WorkflowCredential → Bool
  violates_credential rows c = any (λ d. d.id == c.id || text_eq d.token_hash c.token_hash) rows

  -- The lease of a row, from the tables with the row updated; `true` if one row was updated.
  unfoldable pub grant :
      Generated
      → Tables
      → Instant
      → FollowUp
      → Evidence
      → Bool
      → Result (Tables × Option LeasedFollowUp) AppError
  unfolding new_credential violates_credential leased_follow_up
  grant g tables now f e false = ok (tables, none)
  grant g tables now f e true = do
    let c = new_credential g f now
    reject_if (violates_credential tables.workflow_credentials c) database
    ok (
      record tables { workflow_credentials = tables.workflow_credentials ++ c ∷ [] },
      some (leased_follow_up g f e (f.attempt_count + 1)),
    )

  unfoldable pub lease_row :
      Generated
      → Tables
      → Instant
      → FollowUp
      → Evidence
      → Result (Tables × Option LeasedFollowUp) AppError
  unfolding update lease_to is_leasable grant
  lease_row g tables now f e = do
    reject_if (leb (2 ^ 32 - 1) f.attempt_count)
        (domain (text "follow-up attempt count overflowed"))
    grant g
        (update (is_leasable f.id now) (lease_to g.lease_token now (f.attempt_count + 1)) tables)
        now f e (length (keep (is_leasable f.id now) tables.session_follow_ups) == 1)

  -- The row fails if the evidence for it has changed, and is leased otherwise.
  unfoldable pub fail_or_lease :
      Generated
      → Tables
      → Instant
      → FollowUp
      → Evidence
      → Bool
      → Result (Tables × Option LeasedFollowUp) AppError
  unfolding evidence_changed lease_row
  fail_or_lease g tables now f e true = ok (update (by_id f.id) evidence_changed tables, none)
  fail_or_lease g tables now f e false = lease_row g tables now f e

  unfoldable pub lease_found :
      Generated
      → Tables
      → Instant
      → FollowUp
      → Option Evidence
      → Result (Tables × Option LeasedFollowUp) AppError
  unfolding has_changed fail_or_lease
  lease_found g tables now f none = ok (tables, none)
  lease_found g tables now f (some e) = fail_or_lease g tables now f e (has_changed f e)

  unfoldable pub lease_from :
      Generated
      → Tables
      → Instant
      → Option FollowUp
      → Result (Tables × Option LeasedFollowUp) AppError
  unfolding lease_found joined
  lease_from g tables now none = ok (tables, none)
  lease_from g tables now (some f) = lease_found g tables now f (joined tables f)

  unfoldable pub lease_next :
      Generated → Tables → Option Uuid → Instant → Result (Tables × Option LeasedFollowUp) AppError
  unfolding next_row lease_from
  lease_next g tables session_id now = lease_from g tables now (next_row tables session_id now)
