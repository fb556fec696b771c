-- ===== src/Core/Launch/Resume.antt =====
-- crates/core/src/launch.rs: `ResumeLaunchSpec`.
use agent_workboard.Prelude.{◌++◌, none, Text, is_empty, Bool, Result, ok, ◌>>◌, reject_if}
use agent_workboard.Core.Conversation.{ConversationRef}
use agent_workboard.Core.Launch.{
  CommandSpec, TerminalKind, LaunchSpecError, empty_executable, sanitise_terminal_title,
  validate_path, validate_native_id, terminal_arguments, resume_arguments,
}

pub record ResumeLaunchSpec : Type 0 where
  pub terminal : CommandSpec
  pub native : CommandSpec
  pub working_directory : Text
  pub title : Text

unfoldable pub new_resume_launch :
    (Text → Bool)
    → TerminalKind
    → Text
    → Text
    → ConversationRef
    → Text
    → Text
    → Result ResumeLaunchSpec LaunchSpecError
new_resume_launch is_absolute kind terminal_executable native_executable conversation
      working_directory value =
    do
      validate_path is_absolute working_directory
      validate_native_id conversation.native_id
      let title = sanitise_terminal_title value
      reject_if (is_empty native_executable) empty_executable
      let native_arguments =
          resume_arguments conversation.tool working_directory conversation.native_id
      reject_if (is_empty terminal_executable) empty_executable
      ok (record {
        terminal = record {
          executable = terminal_executable;
          arguments =
              terminal_arguments kind working_directory title native_executable none
              ++ native_arguments;
        };
        native = record { executable = native_executable; arguments = native_arguments };
        working_directory = working_directory;
        title = title;
      })
