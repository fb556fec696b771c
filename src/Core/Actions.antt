-- ===== src/Core/Actions.antt =====
-- crates/core/src/actions.rs: the actions that a user is offered.
use agent_workboard.Prelude.{ℕ, Bool, true, false, List, Option, none, some, Text}
use agent_workboard.Core.Workflow.{WorkflowState}
use agent_workboard.Core.Workflow.Kinds.{ManagedSessionRole}
use agent_workboard.Core.Hierarchy.{Uuid, HierarchyOwner, CheckoutAccessMode}
use agent_workboard.Core.Profile.{LaunchProfile}

abbrev pub available_actions_schema_version : ℕ
available_actions_schema_version = 1

pub data AvailableActionKind : Type 0 where
  prepare reconcile status continue submit approve_and_publish : AvailableActionKind
  request_revision reject start resume start_another send_follow_up : AvailableActionKind
  checkpoint integrate cleanup evidence retry cancel : AvailableActionKind

unfoldable pub AvailableActionKind-discrete : Discrete AvailableActionKind
AvailableActionKind-discrete = hlevel

pub record AvailableAction : Type 0 where
  pub kind : AvailableActionKind
  pub label : Text
  pub enabled : Bool
  pub disabled_reason : Option Text
  pub confirmation : Option Text
  pub target : HierarchyOwner
  pub session_id : Option Uuid
  pub role : Option ManagedSessionRole
  pub access_mode : Option CheckoutAccessMode
  pub profile : Option LaunchProfile
  pub operation_route : Text

pub record AvailableActions : Type 0 where
  pub schema_version : ℕ
  pub owner : HierarchyOwner
  pub workflow_state : Option WorkflowState
  pub revision : ℕ
  pub actions : List AvailableAction
  pub diagnostics : List Text

unfoldable pub enabled_action : AvailableActionKind → Text → HierarchyOwner → Text → AvailableAction
enabled_action kind label target operation_route = record {
  kind = kind;
  label = label;
  enabled = true;
  disabled_reason = none;
  confirmation = none;
  target = target;
  session_id = none;
  role = none;
  access_mode = none;
  profile = none;
  operation_route = operation_route;
}

unfoldable pub disabled : AvailableAction → Text → AvailableAction
disabled a reason = record a { enabled = false; disabled_reason = some reason }
