-- ===== src/Core/Profile/Tests.antt =====
-- profile.rs at concrete profiles.
use agent_workboard.Prelude.{◌≡◌, refl, ◌↔◌, text, ok, err}
use agent_workboard.Core.Conversation.{claude, codex}
use agent_workboard.Core.Workflow.Kinds.{work_item_execution, review}
use agent_workboard.Core.Profile.{
  LaunchProfile, xhigh, max, explicit_override, provider_mismatch, unsupported_effort,
  unknown_model, validate_for_launch, new_launch_profile, suggested_profile, legacy_unknown_profile,
  ReasoningEffort-discrete, is_unsafe_model, is_model_character, LaunchProfileSource-discrete,
}
use agent_workboard.Core.Conversation.{Tool-discrete}
use agent_workboard.Core.Workflow.Kinds.{ManagedSessionRole-discrete}
use agent_workboard.Prelude.{is_whitespace, is_control, is_ascii_alphanumeric, len}
use agent_workboard.Core.Profile.Laws.{
  IsLaunchable, profile_of, validate_for_launch_iff, suggested_profile-IsLaunchable,
}

abbrev sonnet : LaunchProfile
sonnet = profile_of claude (text "sonnet") xhigh work_item_execution explicit_override

claude_profile :
    new_launch_profile claude (text "sonnet") xhigh work_item_execution explicit_override
    ≡ ok sonnet
unfolding new_launch_profile validate_for_launch is_unsafe_model is_model_character is_whitespace
    is_control is_ascii_alphanumeric len ReasoningEffort-discrete LaunchProfileSource-discrete
    Tool-discrete ManagedSessionRole-discrete
claude_profile = refl

codex_max :
    new_launch_profile codex (text "gpt-5.6") max work_item_execution explicit_override
    ≡ err (unsupported_effort codex max)
unfolding new_launch_profile validate_for_launch is_unsafe_model is_model_character is_whitespace
    is_control is_ascii_alphanumeric len ReasoningEffort-discrete LaunchProfileSource-discrete
    Tool-discrete ManagedSessionRole-discrete
codex_max = refl

other_provider : validate_for_launch sonnet codex work_item_execution ≡ err provider_mismatch
unfolding validate_for_launch Tool-discrete
other_provider = refl

unknown_history :
    validate_for_launch (legacy_unknown_profile codex review) codex review ≡ err unknown_model
unfolding validate_for_launch legacy_unknown_profile Tool-discrete ManagedSessionRole-discrete
unknown_history = refl

validate_for_launch_iff_example :
    (validate_for_launch sonnet claude work_item_execution ≡ ok tt)
    ↔ IsLaunchable sonnet claude work_item_execution
validate_for_launch_iff_example = validate_for_launch_iff sonnet claude work_item_execution

suggested_profile-IsLaunchable_example :
    (p : LaunchProfile) × (suggested_profile codex review ≡ ok p) × IsLaunchable p codex review
suggested_profile-IsLaunchable_example = suggested_profile-IsLaunchable codex review
