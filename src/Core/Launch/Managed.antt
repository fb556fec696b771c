-- ===== src/Core/Launch/Managed.antt =====
-- crates/core/src/launch.rs: `ManagedLaunchSpec`, and the environment of the process it starts.
use agent_workboard.Prelude.{
  ℕ, ◌*◌, Bool, not, ◌||◌, List, [], ◌∷◌, ◌++◌, map, Option, none, some, Text, text, len,
  has_control, is_unicode, is_empty, is_ascii_uppercase, is_some_and, any, all, ltb, ◌==◌, Result,
  ok, err, ◌>>=◌, ◌>>◌, reject_if,
}
use agent_workboard.Core.Conversation.{Tool, claude, codex}
use agent_workboard.Core.Launch.{
  CommandSpec, TerminalKind, LaunchSpecError, empty_executable, unsafe_launch_token,
  unsafe_initial_prompt, unsafe_terminal_window, unsafe_capability_environment,
  unsafe_profile_argument, sanitise_terminal_title, validate_path, validate_native_id,
  terminal_arguments,
}

pub data ManagedLaunchMode : Type 0 where
  new : ManagedLaunchMode
  resume : Text → ManagedLaunchMode

pub record ManagedLaunchRequest : Type 0 where
  pub terminal_kind : TerminalKind
  pub terminal_executable : Text
  pub native_executable : Text
  pub tool : Tool
  pub mode : ManagedLaunchMode
  pub working_directory : Text
  pub title : Text
  pub terminal_window : Option Text
  pub launch_token : Text
  pub workflow_token : Option Text
  pub capability_environment : List (Text × Text)
  pub profile_arguments : List Text
  pub initial_prompt : Option Text

pub record ManagedLaunchSpec : Type 0 where
  pub terminal : CommandSpec
  pub native : CommandSpec
  pub working_directory : Text
  pub title : Text
  pub launch_token : Text
  pub workflow_token : Option Text
  pub capability_environment : List (Text × Text)

unfoldable pub is_unsafe_token : Text → Bool
is_unsafe_token token = is_empty token || has_control token

unfoldable pub is_environment_character : ℕ → Bool
is_environment_character c = is_ascii_uppercase c || c == b'_'

unfoldable pub is_unsafe_variable : Text × Text → Bool
is_unsafe_variable (name, value) =
    is_empty name || not (all is_environment_character name) || is_empty value || has_control value

-- The loop over the capability environment.
unfoldable pub check_environment : List (Text × Text) → Result (Unit {0}) LaunchSpecError
check_environment [] = ok tt
check_environment (variable ∷ variables) =
    reject_if (is_unsafe_variable variable) unsafe_capability_environment
    >> check_environment variables

unfoldable pub is_unsafe_window : Text → Bool
is_unsafe_window window = is_empty window || ltb 120 (len window) || has_control window

unfoldable pub is_unsafe_prompt : Text → Bool
is_unsafe_prompt prompt =
    is_empty prompt || ltb (16 * 1024) (len prompt) || any (λ c. c == 0) prompt

unfoldable pub is_unsafe_argument : Text → Bool
is_unsafe_argument argument = is_empty argument || not (is_unicode argument) || has_control argument

abbrev pub option_list : Option Text → List Text
option_list none = []
option_list (some t) = t ∷ []

-- The `match (tool, mode, initial_prompt)`.
unfoldable pub mode_arguments :
    Tool → ManagedLaunchMode → Option Text → Text → Result (List Text) LaunchSpecError
mode_arguments claude new prompt working_directory = ok (option_list prompt)
mode_arguments codex new prompt working_directory =
    ok (
      text "--cd" ∷ working_directory ∷ text "--dangerously-bypass-hook-trust" ∷ option_list prompt)
mode_arguments claude (resume native_id) none working_directory =
    validate_native_id native_id >> ok (text "--resume" ∷ native_id ∷ [])
mode_arguments codex (resume native_id) none working_directory =
    validate_native_id native_id
    >> ok (
        text "--cd"
        ∷ working_directory
        ∷ text "--dangerously-bypass-hook-trust"
        ∷ text "resume"
        ∷ native_id
        ∷ [])
mode_arguments tool (resume native_id) (some prompt) working_directory = err unsafe_initial_prompt

-- The result that a request with these native arguments ends in.
unfoldable pub managed_spec : ManagedLaunchRequest → List Text → ManagedLaunchSpec
managed_spec r native_arguments =
    let title = sanitise_terminal_title r.title in
    record {
      terminal = record {
        executable = r.terminal_executable;
        arguments =
            terminal_arguments r.terminal_kind r.working_directory title r.native_executable
              r.terminal_window
            ++ native_arguments;
      };
      native = record { executable = r.native_executable; arguments = native_arguments };
      working_directory = r.working_directory;
      title = title;
      launch_token = r.launch_token;
      workflow_token = r.workflow_token;
      capability_environment = r.capability_environment;
    }

unfoldable pub new_managed_launch :
    (Text → Bool) → ManagedLaunchRequest → Result ManagedLaunchSpec LaunchSpecError
new_managed_launch is_absolute r = do
  validate_path is_absolute r.working_directory
  reject_if (is_unsafe_token r.launch_token) unsafe_launch_token
  reject_if (is_some_and r.workflow_token is_unsafe_token) unsafe_launch_token
  check_environment r.capability_environment
  reject_if (is_some_and r.terminal_window is_unsafe_window) unsafe_terminal_window
  reject_if (is_empty r.native_executable) empty_executable
  reject_if (is_some_and r.initial_prompt is_unsafe_prompt) unsafe_initial_prompt
  reject_if (any is_unsafe_argument r.profile_arguments) unsafe_profile_argument
  arguments ← mode_arguments r.tool r.mode r.initial_prompt r.working_directory
  reject_if (is_empty r.terminal_executable) empty_executable
  ok (managed_spec r (r.profile_arguments ++ arguments))

-- A change that `Command` makes to the environment which the child inherits, the latest last.
pub data EnvChange : Type 0 where
  set : Text → Text → EnvChange
  remove : Text → EnvChange

pub record Command : Type 0 where
  pub program : Text
  pub args : List Text
  pub current_dir : Text
  pub env : List EnvChange

abbrev pub launch_token_env : Text
launch_token_env = text "WORKBOARD_LAUNCH_TOKEN"

abbrev pub workflow_token_env : Text
workflow_token_env = text "WORKBOARD_WORKFLOW_TOKEN"

unfoldable pub workflow_change : Option Text → List EnvChange
workflow_change none = []
workflow_change (some token) = set workflow_token_env token ∷ []

unfoldable pub direct_child_command : ManagedLaunchSpec → Command
unfolding workflow_change
direct_child_command s = record {
  program = s.terminal.executable;
  args = s.terminal.arguments;
  current_dir = s.working_directory;
  env =
      (remove (text "NO_COLOR") ∷ remove (text "TERM") ∷ set launch_token_env s.launch_token ∷ [])
      ++ (workflow_change s.workflow_token
          ++ map (λ variable. set variable.0 variable.1) s.capability_environment);
}
