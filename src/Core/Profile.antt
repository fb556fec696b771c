-- ===== src/Core/Profile.antt =====
-- crates/core/src/profile.rs: the provider, the model and the effort of a launch.
pub mod Laws
mod Tests
use agent_workboard.Prelude.{
  ℕ, Bool, true, false, not, ◌&&◌, ◌||◌, Option, none, some, Text, text, len, is_whitespace,
  is_control, is_ascii_alphanumeric, is_empty, any, all, ltb, ◌==◌, holds, Result, ok, err, ◌>>=◌,
  ◌>>◌, reject_if, ok_or,
}
use agent_workboard.Core.Conversation.{Tool, claude, codex, Tool-discrete}
use agent_workboard.Core.Workflow.Kinds.{ManagedSessionRole, ManagedSessionRole-discrete}

abbrev pub launch_profile_schema_version : ℕ
launch_profile_schema_version = 1

pub data ReasoningEffort : Type 0 where
  low medium high xhigh max : ReasoningEffort

unfoldable pub ReasoningEffort-discrete : Discrete ReasoningEffort
ReasoningEffort-discrete = hlevel

pub data LaunchProfileSource : Type 0 where
  suggested preference explicit_override resume_preserved legacy_unknown : LaunchProfileSource

unfoldable pub LaunchProfileSource-discrete : Discrete LaunchProfileSource
LaunchProfileSource-discrete = hlevel

pub record LaunchProfile : Type 0 where
  pub schema_version : ℕ
  pub tool : Tool
  pub model : Option Text
  pub effort : Option ReasoningEffort
  pub role : ManagedSessionRole
  pub source : LaunchProfileSource

pub data LaunchProfileError : Type 0 where
  unsupported_schema : ℕ → LaunchProfileError
  provider_mismatch role_mismatch unknown_model unknown_effort unsafe_model : LaunchProfileError
  unsupported_effort : Tool → ReasoningEffort → LaunchProfileError
  legacy_profile_cannot_launch : LaunchProfileError

pub is_model_character : ℕ → Bool
unfolding is_ascii_alphanumeric
is_model_character c = is_ascii_alphanumeric c || c == b'-' || c == b'_' || c == b'.' || c == b':'

pub is_unsafe_model : Text → Bool
unfolding is_model_character is_whitespace is_control len
is_unsafe_model model =
    is_empty model
    || ltb 128 (len model)
    || any is_whitespace model
    || any is_control model
    || not (all is_model_character model)

pub validate_for_launch :
    LaunchProfile → Tool → ManagedSessionRole → Result (Unit {0}) LaunchProfileError
validate_for_launch self tool role = do
  reject_if (not (self.schema_version == launch_profile_schema_version))
      (unsupported_schema self.schema_version)
  reject_if (not (holds (Tool-discrete self.tool tool))) provider_mismatch
  reject_if (not (holds (ManagedSessionRole-discrete self.role role))) role_mismatch
  model ← ok_or self.model unknown_model
  reject_if (is_unsafe_model model) unsafe_model
  effort ← ok_or self.effort unknown_effort
  reject_if (holds (Tool-discrete tool codex) && holds (ReasoningEffort-discrete effort max))
      (unsupported_effort tool effort)
  reject_if (holds (LaunchProfileSource-discrete self.source legacy_unknown))
      legacy_profile_cannot_launch

pub new_launch_profile :
    Tool
    → Text
    → ReasoningEffort
    → ManagedSessionRole
    → LaunchProfileSource
    → Result LaunchProfile LaunchProfileError
unfolding validate_for_launch
new_launch_profile tool model effort role source =
    let profile : LaunchProfile = record {
      schema_version = launch_profile_schema_version;
      tool = tool;
      model = some model;
      effort = some effort;
      role = role;
      source = source;
    } in
    validate_for_launch profile tool role >> ok profile

pub legacy_unknown_profile : Tool → ManagedSessionRole → LaunchProfile
legacy_unknown_profile tool role = record {
  schema_version = launch_profile_schema_version;
  tool = tool;
  model = none;
  effort = none;
  role = role;
  source = legacy_unknown;
}

suggested_model : Tool → Text
suggested_model claude = text "sonnet"
suggested_model codex = text "gpt-5.6"

-- The `expect` of `suggested` is the error case of this result.
pub suggested_profile : Tool → ManagedSessionRole → Result LaunchProfile LaunchProfileError
unfolding suggested_model new_launch_profile
suggested_profile tool role = new_launch_profile tool (suggested_model tool) high role suggested
