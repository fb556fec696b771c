-- ===== src/App/WorkItemState/Lifecycle.antt =====
-- What any sequence of accepted updates makes of a work item.
use agent_workboard.Prelude.{
  ℕ, suc, List, [], ◌∷◌, length, ◌+◌, ◌≡◌, refl, sym, ap, ◌∙◌, ◌≢◌, true, false, Result, ok, ==_iff,
  passed, >>=-eq-ok, ok-injective, not-eq-false, reject_if-eq-ok, arith,
}
use agent_workboard.Core.Hierarchy.{review, done, cancelled}
use agent_workboard.Core.WorkItemState.{WorkItemStateUpdate, WorkItemState}
use agent_workboard.App.Error.{AppError}
use agent_workboard.App.WorkItemState.{
  StateActor, managed, human, integration, DocumentContext, validate_update,
}
use agent_workboard.App.WorkItemState.Transitions.{
  Repositories, is_final, validate_revisions, validate_actor_transition, state_from_update,
  accept_update, finalized,
}
use agent_workboard.App.WorkItemState.Statuses.{
  IsChange, IsIntegration, validate_transition_iff, integration_iff,
}
use agent_workboard.App.WorkItemState.Moves.{is_final_iff}
use agent_workboard.App.WorkItemState.Integrations.{IsIntegrated}

-- An update that is asked for, by whom, and the state of the integrations at that time.
pub record Asked : Type 0 where
  pub rows : Repositories
  pub actor : StateActor
  pub request : WorkItemStateUpdate

module _ (encoded : WorkItemStateUpdate → Result ℕ AppError) where
  -- One accepted update.
  pub data Step (u : Asked) : DocumentContext → DocumentContext → Type 0 where
    update :
        (context : DocumentContext) {state : WorkItemState}
        → accept_update encoded u.rows u.actor context u.request ≡ ok state
        → Step u context (finalized state)

  -- Accepted updates, one after the other, the latest first.
  pub data History (start : DocumentContext) : List Asked → DocumentContext → Type 0 where
    nothing : History start [] start
    after :
        {us : List Asked} {u : Asked} {c d : DocumentContext}
        → History start us c
        → Step u c d
        → History start (u ∷ us) d

  -- What acceptance says of the request.
  accepted :
      (rows : Repositories) (actor : StateActor) (context : DocumentContext)
      (request : WorkItemStateUpdate) (state : WorkItemState)
      → accept_update encoded rows actor context request ≡ ok state
      → (validate_actor_transition rows actor context request ≡ ok tt)
        × (request.expected_revision ≡ context.state_revision)
        × (request.expected_document_revision ≡ context.document_revision)
        × (state_from_update request ≡ state)
  unfolding accept_update validate_revisions
  accepted rows actor context request state h =
      let (u, a, h1) = >>=-eq-ok (validate_update encoded request) _ h in
      let (v, b, h2) = >>=-eq-ok (validate_revisions request context) _ h1 in
      let (w, c, h3) = >>=-eq-ok (validate_actor_transition rows actor context request) _ h2 in
      let (r, b1) = passed _ _ _ b in
      (
        c,
        (==_iff _ _).0 (not-eq-false _ r),
        (==_iff _ _).0 (not-eq-false _ (reject_if-eq-ok _ _ b1)),
        ok-injective h3,
      )

  Step-revisions :
      (u : Asked) (c d : DocumentContext)
      → Step u c d
      → (d.state_revision ≡ suc c.state_revision) × (d.document_revision ≡ suc c.document_revision)
  unfolding finalized state_from_update
  Step-revisions u c d (update context {state} h) =
      let (_, a, b, e) = accepted u.rows u.actor c u.request state h in
      let r : suc c.state_revision ≡ state.revision =
        ap suc (sym a) ∙ (omega (arith) ∙ ap (λ x. x.revision) e) in
      let t : suc c.document_revision ≡ state.document_revision =
        ap suc (sym b) ∙ (omega (arith) ∙ ap (λ x. x.document_revision) e) in
      (sym r, sym t)

  -- After accepted updates, the revisions of the state and of the document have both grown by the
  -- number of the updates.
  pub History-revisions :
      {c d : DocumentContext} {us : List Asked}
      → History c us d
      → (d.state_revision ≡ length us + c.state_revision)
        × (d.document_revision ≡ length us + c.document_revision)
  History-revisions nothing = (omega arith, omega arith)
  History-revisions (after {us} {u} {c = e} {d} h s) =
      let (a, b) = History-revisions h in
      let (p, q) = Step-revisions u e d s in (omega (arith, p, a), omega (arith, q, b))

  status_kept :
      (request : WorkItemStateUpdate) (state : WorkItemState)
      → state_from_update request ≡ state
      → request.status ≡ state.status
  unfolding state_from_update
  status_kept request state e = ap (λ x. x.status) e

  -- A person or a session changes the status as `validate_transition` has it; only the integration
  -- ends the work.
  data IsCause (u : Asked) (c : DocumentContext) : Type 0 where
    changed : IsChange c.status u.request.status u.request.terminal_intent → IsCause u c
    integrated : u.actor ≡ integration → IsIntegration u.rows c u.request → IsCause u c

  cause :
      (rows : Repositories) (actor : StateActor) (c : DocumentContext)
      (request : WorkItemStateUpdate)
      → validate_actor_transition rows actor c request ≡ ok tt
      → IsCause (record { rows = rows; actor = actor; request = request }) c
  unfolding validate_actor_transition
  cause rows integration c request h = integrated refl ((integration_iff rows c request).0 h)
  cause rows human c request h =
      changed ((validate_transition_iff c.status request.status request.terminal_intent).0 h)
  cause rows (managed session_id checkout_id) c request h =
      changed ((validate_transition_iff c.status request.status request.terminal_intent).0 h)

  Step-unfinished : (u : Asked) (c d : DocumentContext) → Step u c d → is_final c.status ≡ false
  Step-unfinished u c d (update context {state} h) =
      elim (cause u.rows u.actor c u.request (accepted u.rows u.actor c u.request state h).0) [
        | changed i ↦ (is_final_iff c.status).1 i.unfinished
        | integrated _ i ↦ (is_final_iff c.status).1 (
          λ e. review-ne-done (sym i.reviewed ∙ e),
          λ e. review-ne-cancelled (sym i.reviewed ∙ e),
        )
      ]
    where
      review-ne-done : review ≢ done
      review-ne-done e = cc

      review-ne-cancelled : review ≢ cancelled
      review-ne-cancelled e = cc

  -- No update of a work item that is done or cancelled is accepted: a sequence of accepted updates
  -- from it is empty.
  pub final_absorbs :
      {c d : DocumentContext} {us : List Asked}
      → is_final c.status ≡ true
      → History c us d
      → (us ≡ []) × (d ≡ c)
  final_absorbs f nothing = (refl, refl)
  final_absorbs {c} f (after {us} {u} {c = e} {d} h s) =
      let (_, same) = final_absorbs f h in
      let unfinished = Step-unfinished u e d s in
      let finished : is_final e.status ≡ true = rw same f in cc

  -- What the update was that made a work item done, and what it found.
  pub record IsCompletion (u : Asked) (found : DocumentContext) : Type 0 where
    pub by_integration : u.actor ≡ integration
    pub reviewed : found.status ≡ review
    pub integrated : IsIntegrated u.rows u.request.work_item_id

  Step-done : (u : Asked) (c d : DocumentContext) → Step u c d → d.status ≡ done → IsCompletion u c
  unfolding finalized
  Step-done u c d (update context {state} h) e =
      let (v, _, _, same) = accepted u.rows u.actor c u.request state h in
      let finished : u.request.status ≡ done = status_kept u.request state same ∙ e in
      elim (cause u.rows u.actor c u.request v) [
        | changed i ↦ absurd (i.undone finished)
        | integrated a i ↦ record {
          by_integration = a;
          reviewed = i.reviewed;
          integrated = i.integrated;
        }
      ]

  -- If accepted updates take a work item that is not done to one that is, then the last of them was
  -- made by the integration, found the work item in review, and the work item that it names had a
  -- repository then, each recorded as integrated and none otherwise.
  pub done_gated :
      {c d : DocumentContext} {us : List Asked}
      → c.status ≢ done
      → d.status ≡ done
      → History c us d
      → (u : Asked) × (earlier : List Asked) × (e : DocumentContext) × (us ≡ u ∷ earlier)
        × History c earlier e
        × IsCompletion u e
  done_gated start e nothing = absurd (start e)
  done_gated start e (after {us} {u} {c = b} {d} h s) = (u, us, b, refl, h, Step-done u b d s e)
