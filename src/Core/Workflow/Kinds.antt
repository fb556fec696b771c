-- ===== src/Core/Workflow/Kinds.antt =====
-- crates/core/src/workflow.rs: its other enumerations.
pub data WorkflowActor : Type 0 where
  user integration application reconciliation : WorkflowActor

pub data IntentStatus : Type 0 where
  pending approved executing succeeded failed expired cancelled : IntentStatus

pub data ManagedSessionRole : Type 0 where
  workspace_planning epic_navigation feature_planning : ManagedSessionRole
  work_item_execution debugging review : ManagedSessionRole

unfoldable pub ManagedSessionRole-discrete : Discrete ManagedSessionRole
ManagedSessionRole-discrete = hlevel

pub data NextActionKind : Type 0 where
  actionable blocked paused review delivery : NextActionKind

unfoldable pub NextActionKind-discrete : Discrete NextActionKind
NextActionKind-discrete = hlevel
