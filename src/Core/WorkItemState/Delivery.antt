-- ===== src/Core/WorkItemState/Delivery.antt =====
-- crates/core/src/work_item_state.rs: how far a work item's delivery is.
pub data WorkItemDeliveryStatus : Type 0 where
  not_started in_progress blocked ready delivered : WorkItemDeliveryStatus
