-- ===== src/App/WorkProjection.antt =====
-- crates/application/src/work_projection.rs: whether a work item is ready, in which layer of the
-- dependencies it stands, and what a user can do with it.
pub mod Actions
pub mod Search
pub mod Layers
pub mod Readiness
mod Tests
use agent_workboard.Prelude.{
  ℕ, zero, suc, ◌+◌, ◌-◌, ◌^◌, min, max, Bool, true, false, not, ◌&&◌, ◌||◌, List, [], ◌∷◌, ◌++◌,
  map, Option, none, some, Text, text, any, keep, find, is_empty, length, ◌==◌, if◌then◌else◌,
  is_some_and, is_none, Result, ok, err, ◌>>=◌, holds, text_eq,
}
use agent_workboard.Core.Workflow.Kinds.{
  ManagedSessionRole, ManagedSessionRole-discrete, work_item_execution,
}
use agent_workboard.Core.Hierarchy.{
  Uuid, HierarchyOwner, work_item, WorkItem, WorkItemStatus, backlog, ready, in_progress, blocked,
  review, done, cancelled, write_isolated,
}
use agent_workboard.Core.Live.{LiveStatus, indicates_live, Resumability, Resumability-discrete}
use agent_workboard.Core.Actions.{
  AvailableActionKind, AvailableAction, AvailableActions, enabled_action, disabled,
  available_actions_schema_version,
}
use agent_workboard.App.Error.{AppError, planning_document_invalid}

-- The rows of `work_item_dependencies`: an item and what it depends on.
abbrev pub Edges : Type 0
Edges = List (Uuid × Uuid)

-- The layers that are known.
abbrev pub Memo : Type 0
Memo = List (Uuid × ℕ)

pub record WorkItemDependencyFact : Type 0 where
  pub work_item : WorkItem
  pub satisfied : Bool

pub record WorkItemReadiness : Type 0 where
  pub ready : Bool
  pub layer : ℕ
  pub dependencies : List WorkItemDependencyFact
  pub dependants : List Uuid
  pub blocked_by : List Uuid
  pub active : Bool
  pub parallelizable : Bool

unfoldable pub contains : List Uuid → Uuid → Bool
contains set id = any (λ x. x == id) set

unfoldable pub layer_of : Memo → Uuid → Option ℕ
layer_of [] id = none
layer_of ((other, layer) ∷ memo) id = if other == id then some layer else layer_of memo id

-- The edges that start at an item.
unfoldable pub from : Uuid → Edges → Edges
from id edges = keep (λ e. e.0 == id) edges

-- `u32::saturating_add`.
unfoldable pub saturating_add : ℕ → ℕ → ℕ
saturating_add a b = min (a + b) (2 ^ 32 - 1)

-- Why a search ends early: an error of the program, or no more fuel.
pub data Stop : Type 0 where
  fails : AppError → Stop
  out_of_fuel : Stop

unfoldable pub cyclic : Stop
cyclic = fails (planning_document_invalid (text "Work-item dependencies must be acyclic"))

-- The loop over the edges, with the search below a dependency.
unfoldable pub layer_above :
    (Uuid → Memo → Result (ℕ × Memo) Stop) → Edges → ℕ → Memo → Result (ℕ × Memo) Stop
unfolding saturating_add
layer_above below [] layer memo = ok (layer, memo)
layer_above below ((_, dependency) ∷ edges) layer memo = do
  (found, known) ← below dependency memo
  layer_above below edges (max layer (saturating_add found 1)) known

-- The layer of an item goes into the memo.
unfoldable pub record_layer : Uuid → Result (ℕ × Memo) Stop → Result (ℕ × Memo) Stop
record_layer id (err e) = err e
record_layer id (ok (layer, memo)) = ok (layer, (id, layer) ∷ memo)

-- An item that is in the memo, is being visited, or is visited now.
unfoldable pub enter :
    (Uuid → Memo → Result (ℕ × Memo) Stop)
    → Edges
    → Uuid
    → Memo
    → Option ℕ
    → Bool
    → Result (ℕ × Memo) Stop
unfolding cyclic layer_above from record_layer
enter below edges id memo (some layer) visited = ok (layer, memo)
enter below edges id memo none true = err cyclic
enter below edges id memo none false = record_layer id (layer_above below (from id edges) 0 memo)

-- The set of the items that are being visited is the same behind a call as before it, so that it is
-- passed down only.
unfoldable pub visit : ℕ → Edges → Uuid → Memo → List Uuid → Result (ℕ × Memo) Stop
unfolding layer_of contains enter
visit zero edges id memo visiting = err out_of_fuel
visit (suc fuel) edges id memo visiting =
    enter (λ d m. visit fuel edges d m (id ∷ visiting)) edges id memo (layer_of memo id)
      (contains visiting id)

-- The search from an item: each step down visits one more item that has an edge.
unfoldable pub dependency_layer : Uuid → Edges → Result (ℕ × Memo) Stop
unfolding visit
dependency_layer id edges = visit (length edges + 1) edges id [] []

unfoldable pub dependency_satisfied : WorkItemStatus → Bool
dependency_satisfied review = true
dependency_satisfied done = true
dependency_satisfied _ = false

unfoldable pub is_launchable : WorkItemStatus → Bool
is_launchable ready = true
is_launchable in_progress = true
is_launchable review = true
is_launchable _ = false

unfoldable pub is_in_progress : WorkItemStatus → Bool
is_in_progress in_progress = true
is_in_progress _ = false

unfoldable pub fact : List Uuid → WorkItem → WorkItemDependencyFact
unfolding dependency_satisfied contains
fact integration_blockers item = record {
  work_item = item;
  satisfied = dependency_satisfied item.status && not (contains integration_blockers item.id);
}

-- A dependency that is not among the items is passed over.
unfoldable pub add_fact :
    List Uuid → Option WorkItem → List WorkItemDependencyFact → List WorkItemDependencyFact
unfolding fact
add_fact integration_blockers none dependencies = dependencies
add_fact integration_blockers (some item) dependencies =
    fact integration_blockers item ∷ dependencies

unfoldable pub facts : List WorkItem → List Uuid → Edges → List WorkItemDependencyFact
unfolding add_fact
facts items integration_blockers [] = []
facts items integration_blockers ((_, dependency) ∷ edges) =
    add_fact integration_blockers (find (λ item. item.id == dependency) items)
      (facts items integration_blockers edges)

unfoldable pub unsatisfied : List WorkItemDependencyFact → List Uuid
unsatisfied dependencies = map (λ d. d.work_item.id) (keep (λ d. not d.satisfied) dependencies)

unfoldable pub readiness :
    WorkItem → List WorkItem → Edges → List Uuid → Result WorkItemReadiness Stop
unfolding facts from unsatisfied dependency_layer is_launchable is_in_progress
readiness item items edges integration_blockers = do
  let dependencies = facts items integration_blockers (from item.id edges)
  let blocked_by = unsatisfied dependencies
  (layer, memo) ← dependency_layer item.id edges
  let is_ready = is_empty blocked_by && is_launchable item.status
  ok (record {
    ready = is_ready;
    layer = layer;
    dependencies = dependencies;
    dependants = map (λ e. e.0) (keep (λ e. e.1 == item.id) edges);
    blocked_by = blocked_by;
    active = is_in_progress item.status;
    parallelizable = is_ready;
  })
