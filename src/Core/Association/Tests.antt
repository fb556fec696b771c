-- ===== src/Core/Association/Tests.antt =====
-- association.rs at concrete events.
use agent_workboard.Prelude.{
  ◌≡◌, refl, ◌↔◌, none, some, [], ◌∷◌, text, ok, err, is_blank, trim, trim_start, is_whitespace,
}
use agent_workboard.Core.Conversation.{codex}
use agent_workboard.Core.Association.{
  caller_identity, new_target, new_evidence, decode_version, decode_target, decode_evidence,
  AssociationTarget, AssociationEvidence, empty_branch, empty_value,
}
use agent_workboard.Core.Association.Events.{
  NewAssociationEvent, new_event, decode_event, build, explicit_event, check_provenance,
}
use agent_workboard.Core.Association.Built.{IsBuilt, IsReplacement, IsBuilt-iff}

abbrev target : AssociationTarget
target = record {
  repository_id = 1;
  work_item_id = 2;
  worktree_id = 3;
  branch = some (text "refs/heads/feature/workboard");
}

abbrev evidence : AssociationEvidence
evidence = record {
  kind = caller_identity;
  observed_at = 0;
  value = text "thread-123";
  source_locator = some (text "CODEX_THREAD_ID");
}

blank_evidence : new_evidence caller_identity 0 (text " ") none ≡ err empty_value
unfolding new_evidence is_blank trim trim_start is_whitespace
blank_evidence = refl

unknown_version : decode_version 2 ≡ err (record { version = 2 })
unfolding decode_version
unknown_version = refl

abbrev input : NewAssociationEvent
input = record {
  id = 7;
  conversation_id = 8;
  conversation = record { tool = codex; native_id = text "thread-123" };
  effective_at = 0;
  recorded_at = 0;
  target = target;
  reason = text "worktree-created";
  idempotency_key = text "transition-123";
  evidence = evidence ∷ [];
}

targets : decode_target target ≡ ok target
unfolding decode_target new_target is_blank trim trim_start is_whitespace
targets = refl

blank_branch : new_target 1 2 3 (some (text "  ")) ≡ err empty_branch
unfolding new_target is_blank trim trim_start is_whitespace
blank_branch = refl

evidences : decode_evidence evidence ≡ ok evidence
unfolding decode_evidence new_evidence is_blank trim trim_start is_whitespace
evidences = refl

event_accepted : new_event input ≡ ok (explicit_event input)
unfolding new_event build is_blank trim trim_start is_whitespace
event_accepted = refl

event_decoded : decode_event (explicit_event input) ≡ ok (explicit_event input)
unfolding decode_event check_provenance build is_blank trim trim_start is_whitespace
event_decoded = refl

IsBuilt-iff_example : IsBuilt (explicit_event input) ↔ (
    (decode_event (explicit_event input) ≡ ok (explicit_event input))
    × IsReplacement (explicit_event input))
IsBuilt-iff_example = IsBuilt-iff (explicit_event input)
