-- ===== src/Core/Launch.antt =====
-- crates/core/src/launch.rs: the data of a launch, and the command lines of terminals and
-- providers. A path or an argument is a text in which lone surrogates may stand.
pub mod Managed
pub mod Resume
pub mod Titles
pub mod Safety
pub mod Acceptance
pub mod Commands
pub mod Environment
mod Tests
use agent_workboard.Prelude.{
  ℕ, Bool, true, false, not, ◌&&◌, ◌||◌, List, [], ◌∷◌, ◌++◌, map, Option, none, some, Text, text,
  len, is_control, has_control, is_surrogate, is_empty, is_blank, any, all, keep, take, ltb, ◌==◌,
  Result, ok, err, ◌>>=◌, ◌>>◌, reject_if, if◌then◌else◌,
}
use agent_workboard.Core.Conversation.{Tool, claude, codex}

pub record CommandSpec : Type 0 where
  pub executable : Text
  pub arguments : List Text

pub data TerminalKind : Type 0 where
  windows_terminal xdg_terminal_exec x_terminal_emulator : TerminalKind

pub data LaunchSpecError : Type 0 where
  empty_executable unsafe_native_id unsafe_launch_token unsafe_initial_prompt : LaunchSpecError
  unsafe_terminal_window unsafe_capability_environment unsafe_profile_argument : LaunchSpecError
  working_directory_not_absolute unsafe_working_directory : Text → LaunchSpecError

abbrev pub product_name : Text
product_name = text "Agent Workboard"

unfoldable pub sanitise_terminal_title : Text → Text
sanitise_terminal_title value =
    let title = take 120 (keep (λ c. not (is_control c)) value) in
    if is_blank title then product_name else title

-- `OsStr::to_string_lossy`.
unfoldable pub to_string_lossy : Text → Text
to_string_lossy value = map (λ c. if is_surrogate c then 65533 else c) value

unfoldable pub contains_control : Text → Bool
contains_control value = has_control (to_string_lossy value)

-- `Path::is_absolute` is the platform's.
pub validate_path : (Text → Bool) → Text → Result (Unit {0}) LaunchSpecError
validate_path is_absolute path = do
  reject_if (not (is_absolute path)) (working_directory_not_absolute path)
  reject_if (contains_control path) (unsafe_working_directory path)

pub validate_native_id : Text → Result (Unit {0}) LaunchSpecError
validate_native_id native_id = reject_if (has_control native_id) unsafe_native_id

unfoldable pub prefixed_argument : Text → Text → Text
prefixed_argument prefix value = prefix ++ value

unfoldable pub window_or_new : Option Text → Text
window_or_new none = text "new"
window_or_new (some window) = window

unfoldable pub terminal_arguments : TerminalKind → Text → Text → Text → Option Text → List Text
unfolding window_or_new prefixed_argument
terminal_arguments windows_terminal working_directory title native_executable terminal_window =
    text "--window"
    ∷ window_or_new terminal_window
    ∷ text "new-tab"
    ∷ text "--startingDirectory"
    ∷ working_directory
    ∷ text "--title"
    ∷ title
    ∷ text "--suppressApplicationTitle"
    ∷ native_executable
    ∷ []
terminal_arguments xdg_terminal_exec working_directory title native_executable terminal_window =
    prefixed_argument (text "--title=") title
    ∷ prefixed_argument (text "--dir=") working_directory
    ∷ text "--"
    ∷ native_executable
    ∷ []
terminal_arguments x_terminal_emulator working_directory title native_executable terminal_window =
    text "-e" ∷ native_executable ∷ []

-- The arguments with which `ResumeLaunchSpec::new` has a provider take up a conversation.
pub resume_arguments : Tool → Text → Text → List Text
resume_arguments claude working_directory native_id = text "--resume" ∷ native_id ∷ []
resume_arguments codex working_directory native_id =
    text "--cd"
    ∷ working_directory
    ∷ text "--dangerously-bypass-hook-trust"
    ∷ text "resume"
    ∷ native_id
    ∷ []
