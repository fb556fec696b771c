-- ===== src/App/Actions/Tests.antt =====
-- The actions of concrete workflows.
use agent_workboard.Prelude.{◌≡◌, refl, ◌↔◌, true, map, [], ◌∷◌, some}
use agent_workboard.Core.Workflow.{
  awaiting_approval, paused, completed, cancelled, is_terminal, can_transition_to,
}
use agent_workboard.Core.Hierarchy.{feature}
use agent_workboard.Core.Actions.{
  enabled_action, approve_and_publish, request_revision, reject, cancel, cleanup,
  AvailableActionKind-discrete,
}
use agent_workboard.App.Actions.{action, actions_of, workflow_actions}
use agent_workboard.App.Actions.Offers.{offers, next_state, offers_permitted, offers_follow_states}

approval_order :
    map (λ a. a.kind) (workflow_actions (feature 3) awaiting_approval 7).actions
    ≡ approve_and_publish ∷ request_revision ∷ reject ∷ []
unfolding workflow_actions actions_of action enabled_action
approval_order = refl

paused_offers : offers (feature 3) paused 1 cancel ≡ true
unfolding offers workflow_actions actions_of action enabled_action AvailableActionKind-discrete
paused_offers = refl

cancel_ends : next_state cancel ≡ some cancelled
unfolding next_state
cancel_ends = refl

offers_permitted_example : can_transition_to paused cancelled ≡ true
offers_permitted_example =
    offers_permitted (feature 3) paused 1 cancel cancelled cancel_ends paused_offers

offers_follow_states_example :
    ((offers (feature 3) completed 4 cleanup ≡ true) ↔ (is_terminal completed ≡ true))
    × ((offers (feature 3) completed 4 approve_and_publish ≡ true)
        ↔ (completed ≡ awaiting_approval))
offers_follow_states_example = offers_follow_states (feature 3) completed 4
