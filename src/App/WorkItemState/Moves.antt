-- ===== src/App/WorkItemState/Moves.antt =====
-- The table of the status changes, as the rules of the board.
use agent_workboard.Prelude.{
  ◌≡◌, refl, sym, ◌∙◌, ◌≢◌, ◌↔◌, inl, inr, Bool, true, false, not, ◌&&◌, holds_sound,
  holds_complete, holds-eq-false, holds_refuted, and-eq-true, Bool-cases, arith,
}
use agent_workboard.Core.Hierarchy.{
  WorkItemStatus, backlog, ready, in_progress, blocked, review, done, cancelled,
  WorkItemStatus-discrete,
}
use agent_workboard.App.WorkItemState.{is_status}
use agent_workboard.App.WorkItemState.Transitions.{is_final, permits_status}

-- A change to another status, as the board has it: nothing becomes backlog again and nothing is made
-- done, what is in the backlog is not reviewed, and what is in review does not become ready.
pub record IsMove (from to : WorkItemStatus) : Type 0 where
  pub other : from ≢ to
  pub unfinished : (from ≢ done) × (from ≢ cancelled)
  pub not_backlog : to ≢ backlog
  pub not_done : to ≢ done
  pub worked_on : from ≡ backlog → to ≢ review
  pub still_reviewed : from ≡ review → to ≢ ready

-- The table of `permits_status`, as one formula.
moves : WorkItemStatus → WorkItemStatus → Bool
unfolding is_status
moves from to =
    not (is_status from to)
    && (not (is_status from done) && not (is_status from cancelled))
    && not (is_status to backlog)
    && not (is_status to done)
    && not (is_status from backlog && is_status to review)
    && not (is_status from review && is_status to ready)

by_status {ℓ} :
    (P : WorkItemStatus → Type ℓ)
    → P backlog
    → P ready
    → P in_progress
    → P blocked
    → P review
    → P done
    → P cancelled
    → (s : WorkItemStatus) → P s
by_status P a b c d e f g backlog = a
by_status P a b c d e f g ready = b
by_status P a b c d e f g in_progress = c
by_status P a b c d e f g blocked = d
by_status P a b c d e f g review = e
by_status P a b c d e f g done = f
by_status P a b c d e f g cancelled = g

permits_status-moves : (from to : WorkItemStatus) → permits_status from to ≡ moves from to
unfolding permits_status moves is_status WorkItemStatus-discrete
permits_status-moves from to =
    by_status (λ f. permits_status f to ≡ moves f to)
      (by_status (λ t. permits_status backlog t ≡ moves backlog t) refl refl refl refl refl refl
        refl to)
      (by_status (λ t. permits_status ready t ≡ moves ready t) refl refl refl refl refl refl refl
        to)
      (by_status (λ t. permits_status in_progress t ≡ moves in_progress t) refl refl refl refl refl
        refl refl to)
      (by_status (λ t. permits_status blocked t ≡ moves blocked t) refl refl refl refl refl refl
        refl to)
      (by_status (λ t. permits_status review t ≡ moves review t) refl refl refl refl refl refl refl
        to)
      (by_status (λ t. permits_status done t ≡ moves done t) refl refl refl refl refl refl refl to)
      (by_status (λ t. permits_status cancelled t ≡ moves cancelled t) refl refl refl refl refl refl
        refl to)
      from

is_status_refuted : (s t : WorkItemStatus) → not (is_status s t) ≡ true → s ≢ t
unfolding is_status
is_status_refuted s t h = holds_refuted (WorkItemStatus-discrete s t) (off _ h)
  where
    off : (b : Bool) → not b ≡ true → b ≡ false
    off b e = ground arith

refuted_is_status : (s t : WorkItemStatus) → s ≢ t → not (is_status s t) ≡ true
unfolding is_status
refuted_is_status s t n = rw (holds-eq-false (WorkItemStatus-discrete s t) n) refl

-- Not both of two statuses.
not_both_sound :
    (s t u v : WorkItemStatus) → not (is_status s t && is_status u v) ≡ true → s ≡ t → u ≢ v
unfolding is_status
not_both_sound s t u v h e =
    holds_refuted (WorkItemStatus-discrete u v)
      (second _ _ h (holds_complete (WorkItemStatus-discrete s t) e))
  where
    second : (a b : Bool) → not (a && b) ≡ true → a ≡ true → b ≡ false
    second a b f g = ground arith

not_both_complete :
    (s t u v : WorkItemStatus) → (s ≡ t → u ≢ v) → not (is_status s t && is_status u v) ≡ true
unfolding is_status
not_both_complete s t u v n = elim (Bool-cases (is_status s t)) [
  | inl e ↦
      let no =
        holds-eq-false (WorkItemStatus-discrete u v)
          (n (holds_sound (WorkItemStatus-discrete s t) e)) in
      rw (e, no) refl
  | inr e ↦ rw e refl
]

pub permits_status_iff :
    (from to : WorkItemStatus) → (permits_status from to ≡ true) ↔ IsMove from to
unfolding moves
permits_status_iff from to = (
  λ h.
      let (abcde, f) = and-eq-true _ _ (sym (permits_status-moves from to) ∙ h) in
      let (abcd, e) = and-eq-true _ _ abcde in
      let (abc, d) = and-eq-true _ _ abcd in
      let (ab, c) = and-eq-true _ _ abc in
      let (a, b) = and-eq-true _ _ ab in
      let (b1, b2) = and-eq-true _ _ b in
      record {
        other = is_status_refuted from to a;
        unfinished = (is_status_refuted from done b1, is_status_refuted from cancelled b2);
        not_backlog = is_status_refuted to backlog c;
        not_done = is_status_refuted to done d;
        worked_on = not_both_sound from backlog to review e;
        still_reviewed = not_both_sound from review to ready f;
      },
  λ m.
      permits_status-moves from to
      ∙ simp (
        refuted_is_status from to m.other,
        refuted_is_status from done m.unfinished.0,
        refuted_is_status from cancelled m.unfinished.1,
        refuted_is_status to backlog m.not_backlog,
        refuted_is_status to done m.not_done,
        not_both_complete from backlog to review m.worked_on,
        not_both_complete from review to ready m.still_reviewed,
      ),
)

pub is_final_iff : (s : WorkItemStatus) → (is_final s ≡ false) ↔ ((s ≢ done) × (s ≢ cancelled))
unfolding is_final
is_final_iff backlog = (λ h. (λ e. cc, λ e. cc), λ n. refl)
is_final_iff ready = (λ h. (λ e. cc, λ e. cc), λ n. refl)
is_final_iff in_progress = (λ h. (λ e. cc, λ e. cc), λ n. refl)
is_final_iff blocked = (λ h. (λ e. cc, λ e. cc), λ n. refl)
is_final_iff review = (λ h. (λ e. cc, λ e. cc), λ n. refl)
is_final_iff done = (λ h. cc, λ n. absurd (n.0 refl))
is_final_iff cancelled = (λ h. cc, λ n. absurd (n.1 refl))
