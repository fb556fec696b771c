-- ===== src/Core/WorkItemState/Review.antt =====
-- crates/core/src/work_item_state.rs: how far a work item's review is.
pub data WorkItemReviewStatus : Type 0 where
  not_started in_progress changes_requested ready accepted : WorkItemReviewStatus
