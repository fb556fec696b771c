-- ===== src/App/PlanningWorkflow/Tests.antt =====
-- A planning run from its first row.
use agent_workboard.Prelude.{
  ◌+◌, ◌≡◌, refl, sym, subst, ◌==◌, ==_iff, Bool-cases, inl, inr, false, true, [], ◌∷◌, none, some,
  text, any, ok,
}
use agent_workboard.Core.Workflow.{
  draft, worktree_pending, planning_launch_pending, can_transition_to, WorkflowState-discrete,
}
use agent_workboard.Core.Workflow.Kinds.{application}
use agent_workboard.App.PlanningWorkflow.{
  WorkflowEvent, Tables, FeaturePlanningDraft, of_run, max_sequence, violates, same_key, new_row,
  append_event, transition_feature,
}
use agent_workboard.App.PlanningWorkflow.Journal.{
  IsJournal, opened, recorded, IsStored, run_state, recorded_tables, transition_feature-IsStored,
  transition_feature_total,
}
use agent_workboard.App.PlanningWorkflow.Runs.{IsConsistent, transition_feature-IsConsistent}

abbrev first : WorkflowEvent
first = record {
  id = 100;
  run_id = 7;
  sequence = 1;
  from_state = draft;
  to_state = worktree_pending;
  actor = application;
  occurred_at = 0;
  payload_json = text "{}";
  idempotency_key = some (text "create");
}

abbrev other : WorkflowEvent
other = record first { id = 101; run_id = 8; idempotency_key = some (text "other") }

abbrev tables : Tables
tables = record {
  workflow_events = first ∷ other ∷ [];
  workflow_runs =
      record { id = 7; current_state = worktree_pending; completed_at = none }
      ∷ record { id = 8; current_state = worktree_pending; completed_at = none }
      ∷ [];
  features = record { id = 3; workflow_state = worktree_pending } ∷ [];
}

abbrev planning : FeaturePlanningDraft
planning = record { feature_id = 3; workflow_run_id = 7; state = worktree_pending }

journal : IsJournal (first ∷ []) 1 worktree_pending
unfolding can_transition_to WorkflowState-discrete
journal = recorded opened first refl refl refl

stored : IsStored tables 7 1 worktree_pending
unfolding of_run run_state
stored = record { journal = journal; state = refl }

abbrev after : Tables
after = recorded_tables 102 tables planning planning_launch_pending application 5 (text "{}") none

transition :
    transition_feature 102 tables planning planning_launch_pending application 5 (text "{}") none
    ≡ ok after
unfolding transition_feature append_event violates same_key new_row of_run max_sequence
    can_transition_to WorkflowState-discrete
transition = refl

transition_feature-IsStored_example : IsStored after 7 (1 + 1) planning_launch_pending
transition_feature-IsStored_example =
    transition_feature-IsStored 102 tables planning planning_launch_pending application 5
      (text "{}") none after stored transition

permitted : can_transition_to worktree_pending planning_launch_pending ≡ true
unfolding can_transition_to WorkflowState-discrete
permitted = refl

fresh_key : any (same_key none) tables.workflow_events ≡ false
unfolding same_key
fresh_key = refl

transition_feature_total_example :
    (result : Tables) × (transition_feature 102 tables planning planning_launch_pending application
        5
        (text "{}")
        none
      ≡ ok result)
transition_feature_total_example =
    transition_feature_total 102 tables planning planning_launch_pending application 5 (text "{}")
      none stored permitted refl fresh_key

other-IsJournal : IsJournal (other ∷ []) 1 worktree_pending
unfolding can_transition_to WorkflowState-discrete
other-IsJournal = recorded opened other refl refl refl

consistent : IsConsistent tables
unfolding IsConsistent of_run run_state
consistent run_id s h = elim (Bool-cases (7 == run_id)) [
  | inl e ↦
      let is_seven : 7 ≡ run_id = (==_iff _ _).0 e in
      let found : run_state 7 tables.workflow_runs ≡ some s =
        subst (λ r. run_state r tables.workflow_runs ≡ some s) (sym is_seven) h in
      let state : worktree_pending ≡ s = cc in
      (
        1,
        subst (λ x. IsStored tables run_id 1 x) state
            (subst (λ r. IsStored tables r 1 worktree_pending) is_seven stored),
      )
  | inr e ↦ elim (Bool-cases (8 == run_id)) [
    | inl f ↦
        let is_eight : 8 ≡ run_id = (==_iff _ _).0 f in
        let found : run_state 8 tables.workflow_runs ≡ some s =
          subst (λ r. run_state r tables.workflow_runs ≡ some s) (sym is_eight) h in
        let state : worktree_pending ≡ s = cc in
        (
          1,
          subst (λ x. IsStored tables run_id 1 x) state
              (subst (λ r. IsStored tables r 1 worktree_pending) is_eight
                (record { journal = other-IsJournal; state = refl })),
        )
    | inr f ↦ let unfound : run_state run_id tables.workflow_runs ≡ none = rw e (rw f refl) in cc
  ]
]

current : run_state 7 tables.workflow_runs ≡ some worktree_pending
unfolding run_state
current = refl

transition_feature-IsConsistent_example :
    IsConsistent after × (run_state 7 after.workflow_runs ≡ some planning_launch_pending)
transition_feature-IsConsistent_example =
    transition_feature-IsConsistent 102 tables planning planning_launch_pending application 5
      (text "{}") none after consistent current transition
