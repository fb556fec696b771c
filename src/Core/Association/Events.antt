-- ===== src/Core/Association/Events.antt =====
-- crates/core/src/association.rs: `AssociationEvent`, with its constructors and its decoder.
use agent_workboard.Prelude.{
  ℕ, Bool, true, false, not, List, Option, none, Text, is_blank, is_empty, Result, ok, err, ◌>>◌,
  reject_if, ◌==◌,
}
use agent_workboard.Core.Conversation.{ConversationRef}
use agent_workboard.Core.Association.{
  AssociationEventVersion, v1, AssociationAction, transition, assign, correct, confirm,
  AssociationTarget, AssociationEvidence,
}
use agent_workboard.Core.Association.Source.{AssociationSource}
use agent_workboard.Core.Association.Authority.{AssociationAuthority}

pub record AssociationEvent : Type 0 where
  pub schema_version : AssociationEventVersion
  pub id : ℕ
  pub conversation_id : ℕ
  pub conversation : ConversationRef
  pub effective_at : ℕ
  pub recorded_at : ℕ
  pub action : AssociationAction
  pub source : AssociationSource
  pub authority : AssociationAuthority
  pub target : AssociationTarget
  pub reason : Text
  pub idempotency_key : Text
  pub supersedes_event_id : Option ℕ
  pub evidence : List AssociationEvidence

pub record NewAssociationEvent : Type 0 where
  pub id : ℕ
  pub conversation_id : ℕ
  pub conversation : ConversationRef
  pub effective_at : ℕ
  pub recorded_at : ℕ
  pub target : AssociationTarget
  pub reason : Text
  pub idempotency_key : Text
  pub evidence : List AssociationEvidence

pub record NewManualAssociationEvent : Type 0 where
  pub id : ℕ
  pub conversation_id : ℕ
  pub conversation : ConversationRef
  pub effective_at : ℕ
  pub recorded_at : ℕ
  pub action : AssociationAction
  pub target : AssociationTarget
  pub reason : Text
  pub idempotency_key : Text
  pub supersedes_event_id : Option ℕ
  pub evidence : List AssociationEvidence

pub data AssociationEventError : Type 0 where
  empty_reason empty_idempotency_key missing_evidence unsupported_version : AssociationEventError
  unsupported_action unsupported_source unsupported_authority : AssociationEventError

unfoldable pub build : AssociationEvent → Result AssociationEvent AssociationEventError
build event = do
  reject_if (is_blank event.reason) empty_reason
  reject_if (is_blank event.idempotency_key) empty_idempotency_key
  reject_if (is_empty event.evidence) missing_evidence
  ok event

abbrev pub explicit_event : NewAssociationEvent → AssociationEvent
explicit_event input = record {
  schema_version = v1;
  id = input.id;
  conversation_id = input.conversation_id;
  conversation = input.conversation;
  effective_at = input.effective_at;
  recorded_at = input.recorded_at;
  action = transition;
  source = AssociationSource.explicit_integration;
  authority = AssociationAuthority.explicit_integration;
  target = input.target;
  reason = input.reason;
  idempotency_key = input.idempotency_key;
  supersedes_event_id = none;
  evidence = input.evidence;
}

unfoldable pub new_event : NewAssociationEvent → Result AssociationEvent AssociationEventError
new_event input = build (explicit_event input)

abbrev pub manual_event : NewManualAssociationEvent → AssociationEvent
manual_event input = record {
  schema_version = v1;
  id = input.id;
  conversation_id = input.conversation_id;
  conversation = input.conversation;
  effective_at = input.effective_at;
  recorded_at = input.recorded_at;
  action = input.action;
  source = AssociationSource.manual;
  authority = AssociationAuthority.manual;
  target = input.target;
  reason = input.reason;
  idempotency_key = input.idempotency_key;
  supersedes_event_id = input.supersedes_event_id;
  evidence = input.evidence;
}

unfoldable pub is_manual_action : AssociationAction → Bool
is_manual_action assign = true
is_manual_action correct = true
is_manual_action confirm = true
is_manual_action transition = false

unfoldable pub new_manual :
    NewManualAssociationEvent → Result AssociationEvent AssociationEventError
new_manual input = do
  reject_if (not (is_manual_action input.action)) unsupported_action
  build (manual_event input)

-- The `match (value.action, value.source, value.authority)`, its arms tried in order.
unfoldable pub check_provenance :
    AssociationAction
    → AssociationSource
    → AssociationAuthority
    → Result (Unit {0}) AssociationEventError
check_provenance transition AssociationSource.explicit_integration
      AssociationAuthority.explicit_integration =
    ok tt
check_provenance assign AssociationSource.manual AssociationAuthority.manual = ok tt
check_provenance correct AssociationSource.manual AssociationAuthority.manual = ok tt
check_provenance confirm AssociationSource.manual AssociationAuthority.manual = ok tt
check_provenance action AssociationSource.explicit_integration authority = err unsupported_authority
check_provenance action AssociationSource.manual authority = err unsupported_action

-- The decoder's form of an event has the same fields, its version, target and evidence decoded.
unfoldable pub decode_event : AssociationEvent → Result AssociationEvent AssociationEventError
decode_event value = do
  reject_if (not (value.schema_version.value == 1)) unsupported_version
  check_provenance value.action value.source value.authority
  build value
