-- ===== src/App/WorkItemState/Tests.antt =====
-- work_item_state.rs at concrete updates.
use agent_workboard.Prelude.{
  ℕ, List, ◌≡◌, refl, ◌≢◌, ◌↔◌, ◌≤◌, ◌*◌, ◌+◌, true, false, [], ◌∷◌, none, some, text, Result, ok,
  len, is_blank, trim, trim_start, is_whitespace, is_control, has_control,
}
use agent_workboard.Core.Workflow.Kinds.{delivery}
use agent_workboard.Core.Hierarchy.{in_progress, review, done, cancelled, WorkItemStatus-discrete}
use agent_workboard.Core.WorkItemState.{WorkItemStateUpdate}
use agent_workboard.Core.WorkItemState.Review.{accepted}
use agent_workboard.Core.WorkItemState.Delivery.{delivered}
use agent_workboard.Core.WorkItemState.Statuses.{cancel}
use agent_workboard.App.Error.{AppError}
use agent_workboard.App.WorkItemState.{
  DocumentContext, integration, validate_update, validate_text, is_invalid_text, for_each,
  is_bad_key, has_too_many, is_unblocked, is_uncancelled, is_unreviewed, is_status, is_intent,
}
use agent_workboard.App.WorkItemState.Transitions.{
  Repositories, validate_transition, validate_actor_transition, validate_revisions,
  integration_accepts, integration_ready, is_unintegrated, is_final, is_refused, permits_status,
  state_from_update, accept_update, finalized,
}
use agent_workboard.App.WorkItemState.Updates.{IsUpdate, validate_update_iff}
use agent_workboard.App.WorkItemState.Statuses.{
  IsChange, IsIntegration, validate_transition_iff, integration_iff,
}
use agent_workboard.App.WorkItemState.Lifecycle.{
  Asked, History, nothing, after, update, IsCompletion, History-revisions, final_absorbs,
  done_gated,
}

-- An encoder that gives the same length to every update.
abbrev encoded : WorkItemStateUpdate → Result ℕ AppError
encoded request = ok 900

abbrev request : WorkItemStateUpdate
request = record {
  schema_version = 1;
  work_item_id = 5;
  expected_revision = 3;
  expected_document_revision = 4;
  current_state = text "Integrated.";
  next_action = record { kind = delivery; description = text "No further action." };
  blockers = [];
  decisions = [];
  verification = [];
  review = record { status = accepted; evidence = [] };
  delivery = record { status = delivered; evidence = text "run 1" ∷ [] };
  status = done;
  terminal_intent = none;
  idempotency_key = text "integration:1:5";
}

abbrev reviewed : DocumentContext
reviewed = record { status = review; state_revision = 3; document_revision = 4 }

-- Work item 5 has two repositories, both integrated.
abbrev rows : Repositories
rows = record {
  expected = (5, 1) ∷ (5, 2) ∷ (6, 1) ∷ [];
  integrations = (5, (1, true)) ∷ (5, (2, true)) ∷ (6, (1, false)) ∷ [];
}

ready_item : integration_ready rows 5 ≡ true
unfolding integration_ready is_unintegrated
ready_item = refl

unready_item : integration_ready rows 6 ≡ false
unfolding integration_ready is_unintegrated
unready_item = refl

valid : validate_update encoded request ≡ ok tt
unfolding validate_update validate_text is_invalid_text for_each is_bad_key has_too_many
    is_unblocked is_uncancelled is_unreviewed is_status is_intent is_blank trim trim_start
    is_whitespace len has_control is_control WorkItemStatus-discrete
valid = refl

integrated : validate_actor_transition rows integration reviewed request ≡ ok tt
unfolding validate_actor_transition integration_accepts integration_ready is_unintegrated is_status
    WorkItemStatus-discrete
integrated = refl

finished : accept_update encoded rows integration reviewed request ≡ ok (state_from_update request)
unfolding accept_update validate_revisions
finished = rw (valid, integrated) refl

no_human_done : validate_transition review done none ≢ ok tt
unfolding validate_transition is_final is_refused is_status permits_status WorkItemStatus-discrete
no_human_done h = cc

abbrev asked : Asked
asked = record { rows = rows; actor = integration; request = request }

history : History encoded reviewed (asked ∷ []) (finalized (state_from_update request))
history = after nothing (update reviewed finished)

validate_update_iff_example :
    (validate_update encoded request ≡ ok tt) ↔ (IsUpdate request × (900 ≤ 64 * 1024))
validate_update_iff_example = validate_update_iff encoded request 900 refl

validate_transition_iff_example :
    (validate_transition in_progress cancelled (some cancel) ≡ ok tt)
    ↔ IsChange in_progress cancelled (some cancel)
validate_transition_iff_example = validate_transition_iff in_progress cancelled (some cancel)

integration_iff_example :
    (validate_actor_transition rows integration reviewed request ≡ ok tt)
    ↔ IsIntegration rows reviewed request
integration_iff_example = integration_iff rows reviewed request

History-revisions_example :
    ((finalized (state_from_update request)).state_revision ≡ 1 + 3)
    × ((finalized (state_from_update request)).document_revision ≡ 1 + 4)
History-revisions_example = History-revisions encoded history

is_done : (finalized (state_from_update request)).status ≡ done
unfolding finalized state_from_update
is_done = refl

done_is_final : is_final (finalized (state_from_update request)).status ≡ true
unfolding is_final finalized state_from_update
done_is_final = refl

final_absorbs_example :
    (◌≡◌ {A = List Asked} [] [])
    × (finalized (state_from_update request) ≡ finalized (state_from_update request))
final_absorbs_example = final_absorbs encoded done_is_final nothing

review-ne-done : reviewed.status ≢ done
review-ne-done e = cc

done_gated_example :
    (u : Asked) × (earlier : List Asked) × (e : DocumentContext) × (asked ∷ [] ≡ u ∷ earlier)
    × History encoded reviewed earlier e
    × IsCompletion encoded u e
done_gated_example = done_gated encoded review-ne-done is_done history
