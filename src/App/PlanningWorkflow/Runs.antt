-- ===== src/App/PlanningWorkflow/Runs.antt =====
-- The events and the states of all runs together.
use agent_workboard.Prelude.{
  ℕ, ◌+◌, ◌≡◌, refl, sym, ap, subst, ◌∙◌, Bool, false, List, [], ◌∷◌, map, Option, some, Text,
  append-nil, ◌==◌, ==_iff, if◌then◌else◌, Bool-cases, inl, inr, ok,
}
use agent_workboard.Core.Workflow.{WorkflowState}
use agent_workboard.Core.Workflow.Kinds.{WorkflowActor}
use agent_workboard.App.PlanningWorkflow.{
  WorkflowRun, Tables, of_run, new_row, FeaturePlanningDraft, update_run, transition_feature,
}
use agent_workboard.App.PlanningWorkflow.Journal.{
  IsJournal, IsStored, run_state, keep-append, transition_sound, transition_feature-IsStored,
}

-- The events of every run are a journal that leads to the state in its row.
unfoldable pub IsConsistent : Tables → Type 0
IsConsistent tables =
    (run_id : ℕ) (s : WorkflowState)
    → run_state run_id tables.workflow_runs ≡ some s
    → (n : ℕ) × IsStored tables run_id n s

run_state-other :
    (run_id other at : ℕ) (to : WorkflowState) (runs : List WorkflowRun)
    → (run_id == other) ≡ false
    → run_state other (map (update_run run_id to at) runs) ≡ run_state other runs
unfolding run_state update_run
run_state-other run_id other at to [] ne = refl
run_state-other run_id other at to (r ∷ runs) ne = elim (Bool-cases (r.id == run_id)) [
  | inl e ↦
      let same : r.id ≡ run_id = (==_iff _ _).0 e in
      let not_it : (r.id == other) ≡ false = subst (λ x. (x == other) ≡ false) (sym same) ne in
      rw e (rw not_it (run_state-other run_id other at to runs ne))
  | inr e ↦ rw e (same_head (r.id == other) (run_state-other run_id other at to runs ne))
]
  where
    same_head :
        (b : Bool) {x y : Option WorkflowState}
        → x ≡ y
        → (if b then some r.current_state else x) ≡ (if b then some r.current_state else y)
    same_head b e = rw e refl

-- The events of another run.
transition_feature-of_run :
    (event_id : ℕ) (tables : Tables) (d : FeaturePlanningDraft) (to : WorkflowState)
    (actor : WorkflowActor) (occurred_at : ℕ) (payload_json : Text) (key : Option Text)
    (result : Tables) (other : ℕ)
    → (d.workflow_run_id == other) ≡ false
    → transition_feature event_id tables d to actor occurred_at payload_json key ≡ ok result
    → of_run other result.workflow_events ≡ of_run other tables.workflow_events
unfolding of_run new_row
transition_feature-of_run event_id tables d to actor occurred_at payload_json key result other ne
      h =
    let (_, events, _, _) =
      transition_sound event_id tables d to actor occurred_at payload_json key result h in
    ap (of_run other) events
    ∙ (keep-append (λ e. e.run_id == other) tables.workflow_events _
        ∙ rw ne (append-nil (of_run other tables.workflow_events)))

-- If the events of every run are a journal that leads to the state in its row, and a transition from
-- the state in the row of its run succeeds, then afterwards the same holds of every run again, and
-- the row of that run has the new state.
pub transition_feature-IsConsistent :
    (event_id : ℕ) (tables : Tables) (d : FeaturePlanningDraft) (to : WorkflowState)
    (actor : WorkflowActor) (occurred_at : ℕ) (payload_json : Text) (key : Option Text)
    (result : Tables)
    → IsConsistent tables
    → run_state d.workflow_run_id tables.workflow_runs ≡ some d.state
    → transition_feature event_id tables d to actor occurred_at payload_json key ≡ ok result
    → IsConsistent result × (run_state d.workflow_run_id result.workflow_runs ≡ some to)
unfolding IsConsistent
transition_feature-IsConsistent event_id tables d to actor occurred_at payload_json key result all
      current h =
    let (n, st) = all d.workflow_run_id d.state current in
    let moved =
      transition_feature-IsStored event_id tables d to actor occurred_at payload_json key result st
        h in
    let (_, _, runs, _) =
      transition_sound event_id tables d to actor occurred_at payload_json key result h in
    (
      λ run_id s found. elim (Bool-cases (d.workflow_run_id == run_id)) [
        | inl e ↦
            let same : d.workflow_run_id ≡ run_id = (==_iff _ _).0 e in
            let there : run_state run_id result.workflow_runs ≡ some to =
              subst (λ r. run_state r result.workflow_runs ≡ some to) same moved.state in
            let to_is : to ≡ s = cc in
            (
              n + 1,
              subst (λ x. IsStored result run_id (n + 1) x) to_is
                  (subst (λ r. IsStored result r (n + 1) to) same moved),
            )
        | inr e ↦
            let unchanged =
              ap (run_state run_id) runs
              ∙ run_state-other d.workflow_run_id run_id occurred_at to tables.workflow_runs e in
            let events =
              transition_feature-of_run event_id tables d to actor occurred_at payload_json key
                result run_id e h in
            let (m, kept) = all run_id s (sym unchanged ∙ found) in
            (
              m,
              record {
                journal = subst (λ es. IsJournal es m s) (sym events) kept.journal;
                state = found;
              },
            )
      ],
      moved.state,
    )
