-- ===== src/Core/Association.antt =====
-- crates/core/src/association.rs: the events that assign a conversation to a piece of work, built by
-- the two constructors or decoded. Identities and times are natural numbers.
pub mod Source
pub mod Authority
pub mod Events
pub mod Decoding
pub mod Built
mod Tests
use agent_workboard.Prelude.{
  ℕ, Bool, List, Option, some, none, Text, is_blank, is_some_and, Result, ok, err, ◌>>◌, reject_if,
  ◌==◌, if◌then◌else◌,
}
use agent_workboard.Core.Conversation.{ConversationRef}

pub record AssociationEventVersion : Type 0 where
  pub value : ℕ

abbrev pub v1 : AssociationEventVersion
v1 = record { value = 1 }

pub record UnsupportedAssociationEventVersion : Type 0 where
  pub version : ℕ

unfoldable pub decode_version :
    ℕ → Result AssociationEventVersion UnsupportedAssociationEventVersion
decode_version value = if value == 1 then ok v1 else err (record { version = value })

pub data AssociationAction : Type 0 where
  transition assign correct confirm : AssociationAction

pub record AssociationTarget : Type 0 where
  pub repository_id : ℕ
  pub work_item_id : ℕ
  pub worktree_id : ℕ
  pub branch : Option Text

pub data AssociationTargetError : Type 0 where
  empty_branch : AssociationTargetError

unfoldable pub new_target :
    ℕ → ℕ → ℕ → Option Text → Result AssociationTarget AssociationTargetError
new_target repository_id work_item_id worktree_id branch = do
  reject_if (is_some_and branch is_blank) empty_branch
  ok (record {
    repository_id = repository_id;
    work_item_id = work_item_id;
    worktree_id = worktree_id;
    branch = branch;
  })

-- The decoder's form of a target has the same fields.
unfoldable pub decode_target : AssociationTarget → Result AssociationTarget AssociationTargetError
decode_target value =
    new_target value.repository_id value.work_item_id value.worktree_id value.branch

pub data AssociationEvidenceKind : Type 0 where
  caller_identity git_common_directory git_worktree git_branch manual_decision :
      AssociationEvidenceKind

pub record AssociationEvidence : Type 0 where
  pub kind : AssociationEvidenceKind
  pub observed_at : ℕ
  pub value : Text
  pub source_locator : Option Text

pub data AssociationEvidenceError : Type 0 where
  empty_value empty_source_locator : AssociationEvidenceError

unfoldable pub new_evidence :
    AssociationEvidenceKind
    → ℕ
    → Text
    → Option Text
    → Result AssociationEvidence AssociationEvidenceError
new_evidence kind observed_at value source_locator = do
  reject_if (is_blank value) empty_value
  reject_if (is_some_and source_locator is_blank) empty_source_locator
  ok (record {
    kind = kind;
    observed_at = observed_at;
    value = value;
    source_locator = source_locator;
  })

unfoldable pub decode_evidence :
    AssociationEvidence → Result AssociationEvidence AssociationEvidenceError
decode_evidence value = new_evidence value.kind value.observed_at value.value value.source_locator
