-- ===== src/App/PlanningWorkflow/Journal.antt =====
-- The events of a run as a journal: a chain of permitted transitions, numbered without gaps.
use agent_workboard.Prelude.{
  ℕ, ◌+◌, max, ◌<◌, ◌≡◌, refl, sym, ap, subst, ◌∙◌, Bool, true, false, List, [], ◌∷◌, ◌++◌, map,
  Option, none, some, Text, any, keep, ◌==◌, ==_iff, if◌then◌else◌, Bool-cases, inl, inr, ok,
  passed, >>=-eq-ok, ok-injective, not-eq-false, or_right, arith,
}
use agent_workboard.Core.Workflow.{WorkflowState, draft, can_transition_to}
use agent_workboard.Core.Workflow.Kinds.{WorkflowActor}
use agent_workboard.Core.Workflow.Runs.{Run, here, next}
use agent_workboard.App.PlanningWorkflow.{
  WorkflowEvent, WorkflowRun, Tables, of_run, max_sequence, violates, new_row, append_event,
  FeaturePlanningDraft, same_key, update_run, update_feature, transition_feature,
}

-- So many events of a run, the last of which leads to the state.
pub data IsJournal : List WorkflowEvent → ℕ → WorkflowState → Type 0 where
  opened : IsJournal [] 0 draft
  recorded :
      {events : List WorkflowEvent} {n : ℕ} {s : WorkflowState}
      → IsJournal events n s
      → (e : WorkflowEvent) → e.sequence ≡ n + 1
      → e.from_state ≡ s
      → can_transition_to e.from_state e.to_state ≡ true
      → IsJournal (events ++ e ∷ []) (n + 1) e.to_state

max_sequence-append :
    (events : List WorkflowEvent) (e : WorkflowEvent)
    → max_sequence (events ++ e ∷ []) ≡ max (max_sequence events) e.sequence
unfolding max_sequence
max_sequence-append [] e = omega arith
max_sequence-append (d ∷ events) e = omega (arith, max_sequence-append events e)

-- The highest sequence number of a journal is the number of its events.
IsJournal-max_sequence :
    {events : List WorkflowEvent} {n : ℕ} {s : WorkflowState}
    → IsJournal events n s
    → max_sequence events ≡ n
unfolding max_sequence
IsJournal-max_sequence opened = refl
IsJournal-max_sequence (recorded {events} j e a b c) =
    omega (arith, max_sequence-append events e, IsJournal-max_sequence j, a)

pub keep-append {ℓ} :
    {A : Type ℓ} (p : A → Bool) (xs ys : List A) → keep p (xs ++ ys) ≡ keep p xs ++ keep p ys
keep-append p [] ys = refl
keep-append p (x ∷ xs) ys = ground (arith, keep-append p xs ys)

-- A journal is a run of the workflow, from `draft`.
pub IsJournal-Run :
    {events : List WorkflowEvent} {n : ℕ} {s : WorkflowState} → IsJournal events n s → Run draft s
IsJournal-Run opened = here
IsJournal-Run (recorded j e a b c) =
    next (IsJournal-Run j) (subst (λ s. can_transition_to s e.to_state ≡ true) b c)

module _ (event_id : ℕ) (tables : Tables) (d : FeaturePlanningDraft) (to : WorkflowState)
    (actor : WorkflowActor) (occurred_at : ℕ) (payload_json : Text)
    (idempotency_key : Option Text) where
  abbrev row : WorkflowEvent
  row =
      new_row event_id tables.workflow_events d.workflow_run_id d.state to actor occurred_at
        payload_json idempotency_key

  -- The tables after the transition.
  abbrev pub recorded_tables : Tables
  recorded_tables = record {
    workflow_events = tables.workflow_events ++ row ∷ [];
    workflow_runs = map (update_run d.workflow_run_id to occurred_at) tables.workflow_runs;
    features = map (update_feature d.feature_id to) tables.features;
  }

  pub transition_sound :
      (result : Tables)
      → transition_feature event_id tables d to actor occurred_at payload_json idempotency_key
        ≡ ok result
      → (can_transition_to d.state to ≡ true)
        × (result.workflow_events ≡ tables.workflow_events ++ row ∷ [])
        × (result.workflow_runs
            ≡ map (update_run d.workflow_run_id to occurred_at) tables.workflow_runs)
        × (result.features ≡ map (update_feature d.feature_id to) tables.features)
  unfolding transition_feature append_event
  transition_sound result h =
      let (appended, h1, h2) =
        >>=-eq-ok
          (append_event event_id tables d.workflow_run_id d.state to actor occurred_at payload_json
            idempotency_key)
          _ h in
      let (a, h3) = passed _ _ _ h1 in
      let (b, h4) = passed _ _ _ h3 in
      let e = ok-injective h4 in
      let f = ok-injective h2 in
      (
        not-eq-false _ a,
        sym (ap (λ x. x.workflow_events) f) ∙ sym (ap (λ x. x.workflow_events) e),
        sym (ap (λ x. x.workflow_runs) f)
            ∙ sym (ap (λ x. map (update_run d.workflow_run_id to occurred_at) x.workflow_runs) e),
        sym (ap (λ x. x.features) f)
            ∙ sym (ap (λ x. map (update_feature d.feature_id to) x.features) e),
      )

-- The state that the first row with the identifier has.
unfoldable pub run_state : ℕ → List WorkflowRun → Option WorkflowState
run_state run_id [] = none
run_state run_id (r ∷ runs) = if r.id == run_id then some r.current_state else run_state run_id runs

-- A run whose events are a journal that leads to the state in its row.
pub record IsStored (tables : Tables) (run_id n : ℕ) (s : WorkflowState) : Type 0 where
  pub journal : IsJournal (of_run run_id tables.workflow_events) n s
  pub state : run_state run_id tables.workflow_runs ≡ some s

of_run-append :
    (run_id : ℕ) (events : List WorkflowEvent) (e : WorkflowEvent)
    → e.run_id ≡ run_id
    → of_run run_id (events ++ e ∷ []) ≡ of_run run_id events ++ e ∷ []
unfolding of_run
of_run-append run_id events e same =
    rw (keep-append (λ x. x.run_id == run_id) events (e ∷ [])) (rw ((==_iff _ _).1 same) refl)

pub run_state_skip :
    (run_id : ℕ) (r : WorkflowRun) (runs : List WorkflowRun)
    → (r.id == run_id) ≡ false
    → run_state run_id (r ∷ runs) ≡ run_state run_id runs
unfolding run_state
run_state_skip run_id r runs e = rw e refl

pub run_state-update_run :
    (run_id at : ℕ) (to : WorkflowState) {s : WorkflowState} (runs : List WorkflowRun)
    → run_state run_id runs ≡ some s
    → run_state run_id (map (update_run run_id to at) runs) ≡ some to
unfolding run_state update_run
run_state-update_run run_id at to [] h = cc
run_state-update_run run_id at to (r ∷ runs) h = elim (Bool-cases (r.id == run_id)) [
  | inl e ↦ rw (run_state, update_run, e) (rw e refl)
  | inr e ↦
      rw (run_state, update_run, e)
        (rw e (run_state-update_run run_id at to runs (sym (run_state_skip run_id r runs e) ∙ h)))
]

-- If the events of a run are a journal that leads to the state in its row and in the draft, and a
-- transition succeeds, then they are a journal with one more event, which leads to the new state,
-- and that is in the row.
pub transition_feature-IsStored :
    (event_id : ℕ) (tables : Tables) (d : FeaturePlanningDraft) (to : WorkflowState)
    (actor : WorkflowActor) (occurred_at : ℕ) (payload_json : Text) (key : Option Text)
    (result : Tables) {n : ℕ}
    → IsStored tables d.workflow_run_id n d.state
    → transition_feature event_id tables d to actor occurred_at payload_json key ≡ ok result
    → IsStored result d.workflow_run_id (n + 1) to
unfolding new_row
transition_feature-IsStored event_id tables d to actor occurred_at payload_json key result {n} st
      h =
    let (permitted, events, runs, _) =
      transition_sound event_id tables d to actor occurred_at payload_json key result h in
    let e = row event_id tables d to actor occurred_at payload_json key in
    let old = of_run d.workflow_run_id tables.workflow_events in
    let grown : of_run d.workflow_run_id result.workflow_events ≡ old ++ e ∷ [] =
      ap (of_run d.workflow_run_id) events
      ∙ of_run-append d.workflow_run_id tables.workflow_events e refl in
    let numbered : e.sequence ≡ n + 1 = ap (λ m. m + 1) (IsJournal-max_sequence st.journal) in
    record {
      journal =
          subst (λ es. IsJournal es (n + 1) to) (sym grown)
            (recorded st.journal e numbered refl permitted);
      state =
          ap (run_state d.workflow_run_id) runs
          ∙ run_state-update_run d.workflow_run_id occurred_at to tables.workflow_runs st.state;
    }

lt→ne : (a b : ℕ) → a < b → (a == b) ≡ false
lt→ne a b h = ground arith

above_max :
    (k : ℕ) (events : List WorkflowEvent)
    → max_sequence events < k
    → any (λ e. e.sequence == k) events ≡ false
unfolding max_sequence
above_max k [] h = refl
above_max k (e ∷ events) h =
    let less : max_sequence events < k = omega (arith, h) in
    let other : (e.sequence == k) ≡ false = lt→ne e.sequence k (omega (arith, h)) in
    rw other (above_max k events less)

run_exists :
    (run_id : ℕ) {s : WorkflowState} (runs : List WorkflowRun)
    → run_state run_id runs ≡ some s
    → any (λ r. r.id == run_id) runs ≡ true
unfolding run_state
run_exists run_id [] h = cc
run_exists run_id (r ∷ runs) h = elim (Bool-cases (r.id == run_id)) [
  | inl e ↦ rw e refl
  | inr e ↦
      or_right (r.id == run_id) (run_exists run_id runs (sym (run_state_skip run_id r runs e) ∙ h))
]

-- From a stored run, every permitted transition is recorded, if its identifier and its key are not
-- used yet: the sequence number is always free.
pub transition_feature_total :
    (event_id : ℕ) (tables : Tables) (d : FeaturePlanningDraft) (to : WorkflowState)
    (actor : WorkflowActor) (occurred_at : ℕ) (payload_json : Text) (key : Option Text) {n : ℕ}
    → IsStored tables d.workflow_run_id n d.state
    → can_transition_to d.state to ≡ true
    → any (λ e. e.id == event_id) tables.workflow_events ≡ false
    → any (same_key key) tables.workflow_events ≡ false
    → (result : Tables) × (transition_feature event_id tables d to actor occurred_at payload_json
          key
        ≡ ok result)
unfolding transition_feature append_event violates new_row
transition_feature_total event_id tables d to actor occurred_at payload_json key st permitted
      fresh_id fresh_key =
    let old = of_run d.workflow_run_id tables.workflow_events in
    let free : any (λ e. e.sequence == max_sequence old + 1) old ≡ false =
      above_max (max_sequence old + 1) old (omega arith) in
    (
      recorded_tables event_id tables d to actor occurred_at payload_json key,
      simp (
        permitted,
        fresh_id,
        free,
        fresh_key,
        run_exists d.workflow_run_id tables.workflow_runs st.state,
      ),
    )
