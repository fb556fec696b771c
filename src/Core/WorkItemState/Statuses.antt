-- ===== src/Core/WorkItemState/Statuses.antt =====
-- crates/core/src/work_item_state.rs: its enumerations.

pub data WorkItemVerificationResult : Type 0 where
  passed failed not_run : WorkItemVerificationResult

pub data WorkItemTerminalIntent : Type 0 where
  complete cancel : WorkItemTerminalIntent

unfoldable pub WorkItemTerminalIntent-discrete : Discrete WorkItemTerminalIntent
WorkItemTerminalIntent-discrete = hlevel
