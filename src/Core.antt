-- ===== src/Core.antt =====
-- crates/core: the vocabulary of the control plane, without any store.
pub mod Workflow
pub mod Conversation
pub mod Names
pub mod Hierarchy
pub mod Live
pub mod Profile
pub mod Launch
pub mod Association
pub mod Actions
pub mod WorkItemState
