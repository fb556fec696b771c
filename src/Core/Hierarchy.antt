-- ===== src/Core/Hierarchy.antt =====
-- crates/core/src/hierarchy.rs: who owns what, and in which state. An identifier (a uuid) is a
-- number, and so is an instant: the program only copies them, compares them and orders instants.
use agent_workboard.Prelude.{ℕ, List, Text}
use agent_workboard.Core.Names.{Slug, WorkItemKey}

abbrev pub Uuid : Type 0
Uuid = ℕ

abbrev pub Instant : Type 0
Instant = ℕ

pub data HierarchyOwner : Type 0 where
  workspace epic feature work_item : Uuid → HierarchyOwner

pub data WorkItemStatus : Type 0 where
  backlog ready in_progress blocked review done cancelled : WorkItemStatus

unfoldable pub WorkItemStatus-discrete : Discrete WorkItemStatus
WorkItemStatus-discrete = hlevel

pub record WorkItem : Type 0 where
  pub id : Uuid
  pub feature_id : Uuid
  pub key : WorkItemKey
  pub slug : Slug
  pub title : Text
  pub status : WorkItemStatus
  pub document_id : Uuid
  pub repository_ids : List Uuid

pub data CheckoutAccessMode : Type 0 where
  write_isolated read_only_shared : CheckoutAccessMode
