-- ===== src/App.antt =====
-- crates/application: the control plane.
pub mod FollowUp
pub mod WorkProjection
pub mod Error
pub mod Actions
pub mod WorkItemState
pub mod PlanningWorkflow
