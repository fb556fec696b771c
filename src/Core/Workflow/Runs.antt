-- ===== src/Core/Workflow/Runs.antt =====
-- Runs of workflow.rs: what a sequence of permitted transitions can and cannot do.
use agent_workboard.Prelude.{
  ◌≡◌, refl, ◌↔◌, ◌⊎◌, inl, inr, Bool, true, false, ◌||◌, subst, Bool-cases, holds, or_right, arith,
}
use agent_workboard.Core.Workflow.{
  WorkflowState, draft, worktree_pending, planning_launch_pending, planning_active, proposal_ready,
  awaiting_approval, publishing, planned, work_item_launch_pending, work_item_active,
  reconciliation_required, blocked, paused, completed, cancelled, is_terminal, can_transition_to,
  permits, WorkflowState-discrete,
}

-- A run from `s`: permitted transitions, one after the other.
pub data Run (s : WorkflowState) : WorkflowState → Type 0 where
  here : Run s s
  next : {t u : WorkflowState} → Run s t → can_transition_to t u ≡ true → Run s u

-- Whether a state of the run, its ends included, meets the test.
abbrev pub passes : {s t : WorkflowState} → (WorkflowState → Bool) → Run s t → Bool
passes {s} test here = test s
passes test (next {u} r h) = test u || passes test r

-- The states in which a user or a reconciliation stands between a proposal and its publication.
abbrev pub is_publication_gate : WorkflowState → Bool
is_publication_gate awaiting_approval = true
is_publication_gate reconciliation_required = true
is_publication_gate _ = false

abbrev pub is_published : WorkflowState → Bool
is_published publishing = true
is_published planned = true
is_published _ = false

-- The states in which a run stands still, or in which work on a published plan begins.
abbrev pub is_work_gate : WorkflowState → Bool
is_work_gate planned = true
is_work_gate reconciliation_required = true
is_work_gate blocked = true
is_work_gate paused = true
is_work_gate _ = false

abbrev pub is_worked_on : WorkflowState → Bool
is_worked_on work_item_launch_pending = true
is_worked_on work_item_active = true
is_worked_on completed = true
is_worked_on _ = false

transition-cases :
    (s t : WorkflowState) → can_transition_to s t ≡ true → (s ≡ t) ⊎ (permits s t ≡ true)
unfolding can_transition_to
transition-cases s t h = ite-cases (WorkflowState-discrete s t) h
  where
    ite-cases : (d : Dec (s ≡ t)) → (holds d || permits s t) ≡ true → (s ≡ t) ⊎ (permits s t ≡ true)
    ite-cases (yes e) q = inl e
    ite-cases (no ne) q = inr q

cancel_permitted :
    (s : WorkflowState) → is_terminal s ≡ false → can_transition_to s cancelled ≡ true
unfolding is_terminal can_transition_to
cancel_permitted s h = ground arith

terminal_stuck : (s t : WorkflowState) → is_terminal s ≡ true → can_transition_to s t ≡ true → t ≡ s
unfolding is_terminal permits
terminal_stuck s t h p = ground (arith, transition-cases s t p)

-- A state is terminal exactly when the only transition that it permits is to itself.
pub is_terminal_iff :
    (s : WorkflowState)
    → (is_terminal s ≡ true) ↔ ((t : WorkflowState) → can_transition_to s t ≡ true → t ≡ s)
is_terminal_iff s = (λ h t. terminal_stuck s t h, back)
  where
    back : ((t : WorkflowState) → can_transition_to s t ≡ true → t ≡ s) → is_terminal s ≡ true
    back stuck = elim (Bool-cases (is_terminal s)) [
      | inl h ↦ h
      | inr h ↦ unfold is_terminal in rw (← (stuck cancelled (cancel_permitted s h)))
    ]

-- A run that starts in a terminal state stays there.
pub terminal_absorbs : {s t : WorkflowState} → is_terminal s ≡ true → Run s t → t ≡ s
terminal_absorbs h here = refl
terminal_absorbs {s} h (next {t} {u} r p) =
    let same = terminal_absorbs h r in
    terminal_stuck s u h (subst (λ x. can_transition_to x u ≡ true) same p)

to_completed : (s : WorkflowState) → is_terminal s ≡ false → Run s completed
unfolding is_terminal can_transition_to
to_completed draft h =
    next
      (next {u = planned}
        (next {u = reconciliation_required} (next {u = worktree_pending} here refl) refl) refl)
      refl
to_completed worktree_pending h =
    next (next {u = planned} (next {u = reconciliation_required} here refl) refl) refl
to_completed planning_launch_pending h =
    next (next {u = planned} (next {u = reconciliation_required} here refl) refl) refl
to_completed planning_active h =
    next (next {u = planned} (next {u = reconciliation_required} here refl) refl) refl
to_completed proposal_ready h =
    next
      (next {u = planned} (next {u = publishing} (next {u = awaiting_approval} here refl) refl)
        refl)
      refl
to_completed awaiting_approval h =
    next (next {u = planned} (next {u = publishing} here refl) refl) refl
to_completed publishing h = next (next {u = planned} here refl) refl
to_completed planned h = next here refl
to_completed work_item_launch_pending h = next (next {u = work_item_active} here refl) refl
to_completed work_item_active h = next here refl
to_completed reconciliation_required h = next (next {u = planned} here refl) refl
to_completed blocked h = next (next {u = work_item_active} here refl) refl
to_completed paused h = next (next {u = work_item_active} here refl) refl
to_completed completed h = cc
to_completed cancelled h = cc

-- Every state that is not terminal permits cancellation, and has a run to `completed`.
pub completed_reachable :
    (s : WorkflowState)
    → is_terminal s ≡ false
    → (can_transition_to s cancelled ≡ true) × Run s completed
completed_reachable s h = (cancel_permitted s h, to_completed s h)

gate_step :
    (t u : WorkflowState)
    → can_transition_to t u ≡ true
    → is_publication_gate t ≡ false
    → is_published t ≡ false
    → is_published u ≡ false
unfolding permits
gate_step t u p g h = ground (arith, transition-cases t u p)

work_step :
    (t u : WorkflowState)
    → can_transition_to t u ≡ true
    → is_work_gate t ≡ false
    → is_worked_on t ≡ false
    → is_worked_on u ≡ false
unfolding permits
work_step t u p g h = ground (arith, transition-cases t u p)

passes-end :
    {s t : WorkflowState} (test : WorkflowState → Bool) (r : Run s t)
    → test t ≡ true
    → passes test r ≡ true
passes-end test here h = h
passes-end test (next {u} r p) h = ground arith

-- Every run from `draft` that publishes passes `awaiting_approval` or `reconciliation_required`.
pub publication_gated :
    {t : WorkflowState} (r : Run draft t)
    → is_published t ≡ true
    → passes is_publication_gate r ≡ true
publication_gated here h = cc
publication_gated (next {t} {u} r p) h = elim (Bool-cases (is_publication_gate t)) [
  | inl gate ↦ or_right (is_publication_gate u) (passes-end is_publication_gate r gate)
  | inr open_road ↦ elim (Bool-cases (is_published t)) [
    | inl published ↦ or_right (is_publication_gate u) (publication_gated r published)
    | inr not_yet ↦ let kept = gate_step t u p open_road not_yet in cc
  ]
]

-- Every run from `draft` in which a work item is launched, works or is completed passes `planned`,
-- `reconciliation_required`, `blocked` or `paused`.
pub work_gated :
    {t : WorkflowState} (r : Run draft t) → is_worked_on t ≡ true → passes is_work_gate r ≡ true
work_gated here h = cc
work_gated (next {t} {u} r p) h = elim (Bool-cases (is_work_gate t)) [
  | inl gate ↦ or_right (is_work_gate u) (passes-end is_work_gate r gate)
  | inr open_road ↦ elim (Bool-cases (is_worked_on t)) [
    | inl worked ↦ or_right (is_work_gate u) (work_gated r worked)
    | inr not_yet ↦ let kept = work_step t u p open_road not_yet in cc
  ]
]
