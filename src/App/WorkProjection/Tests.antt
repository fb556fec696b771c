-- ===== src/App/WorkProjection/Tests.antt =====
-- A feature of three work items, and instances of the theorems about it.
use agent_workboard.Prelude.{
  ℕ, ◌+◌, ◌-◌, ◌^◌, ◌≤◌, min, true, List, [], ◌∷◌, some, text, Memᴰ, ◌≡◌, ◌↔◌, refl, ok, err,
}
use agent_workboard.Core.Hierarchy.{
  HierarchyOwner, WorkItem, WorkItemStatus, ready, review, in_progress,
}
use agent_workboard.App.WorkProjection.{
  Edges, Memo, WorkItemReadiness, cyclic, layer_of, dependency_layer, readiness, is_launchable,
}
use agent_workboard.App.WorkProjection.Actions.{start_action}
use agent_workboard.App.WorkProjection.Search.{IsOutcome, dependency_layer-IsOutcome}
use agent_workboard.App.WorkProjection.Layers.{dependency_layer-IsLayered}
use agent_workboard.App.WorkProjection.Readiness.{IsSatisfied, start_action_iff}

-- The third item depends on both others, and the second on the first.
abbrev edges : Edges
edges = (3, 2) ∷ (3, 1) ∷ (2, 1) ∷ []

abbrev memo : Memo
memo = (3, 2) ∷ (2, 1) ∷ (1, 0) ∷ []

layers : dependency_layer 3 edges ≡ ok (2, memo)
unfolding dependency_layer
layers = refl

-- Two items that depend on each other.
refuses : dependency_layer 3 ((3, 2) ∷ (2, 1) ∷ (1, 2) ∷ []) ≡ err cyclic
unfolding dependency_layer
refuses = refl

dependency_layer-IsOutcome_example : IsOutcome edges 3 (dependency_layer 3 edges)
dependency_layer-IsOutcome_example = dependency_layer-IsOutcome edges 3

dependency_layer-IsLayered_example :
    (layer_of memo 3 ≡ some 2)
    × ((i l d : ℕ)
        → layer_of memo i ≡ some l
        → Memᴰ (i, d) edges
        → (k : ℕ) × (layer_of memo d ≡ some k) × (min (k + 1) (2 ^ 32 - 1) ≤ l))
dependency_layer-IsLayered_example = dependency_layer-IsLayered edges 3 2 memo layers

abbrev item : ℕ → WorkItemStatus → WorkItem
item id status = record {
  id = id;
  feature_id = 9;
  key = record { as_str = text "a" };
  slug = record { as_str = text "a" };
  title = text "a";
  status = status;
  document_id = 8;
  repository_ids = [];
}

abbrev items : List WorkItem
items = item 1 review ∷ item 2 in_progress ∷ item 3 ready ∷ []

second : (r : WorkItemReadiness) × (readiness (item 2 in_progress) items edges [] ≡ ok r)
unfolding readiness dependency_layer
second = (_, refl)

start_action_iff_example :
    ((start_action (λ n. []) (HierarchyOwner.work_item 2) second.0 []).enabled ≡ true)
    ↔ ((is_launchable in_progress ≡ true) × IsSatisfied (item 2 in_progress) items edges [])
start_action_iff_example =
    start_action_iff (λ n. []) (item 2 in_progress) items edges [] [] second.0 second.1
