-- ===== src/Core/Launch/Tests.antt =====
-- launch.rs at concrete requests.
use agent_workboard.Prelude.{
  ◌≡◌, refl, ◌↔◌, Bool, false, none, some, [], ◌∷◌, ◌++◌, Text, text, ok, is_blank, trim,
  trim_start, is_whitespace, is_control, has_control, is_surrogate, is_ascii_uppercase, text_eq,
  starts_with,
}
use agent_workboard.Core.Conversation.{codex, ConversationRef}
use agent_workboard.Core.Launch.{
  xdg_terminal_exec, sanitise_terminal_title, product_name, validate_path, contains_control,
  to_string_lossy, validate_native_id,
}
use agent_workboard.Core.Launch.Managed.{
  ManagedLaunchRequest, new_managed_launch, managed_spec, mode_arguments, direct_child_command,
  check_environment, is_unsafe_token, is_unsafe_variable, is_environment_character,
}
use agent_workboard.Core.Launch.Resume.{new_resume_launch}
use agent_workboard.Core.Launch.Titles.{IsTitle, sanitise_terminal_title_iff}
use agent_workboard.Core.Launch.Acceptance.{
  IsAcceptable, IsLaunch, expected, new_managed_launch_iff, provider_arguments,
}
use agent_workboard.Core.Launch.Commands.{resume_request, new_managed_launch-new_resume_launch}
use agent_workboard.Core.Launch.Environment.{
  lookup, is_set, launched, direct_child_command-launched,
}

bell : sanitise_terminal_title (7 ∷ text "Ship it") ≡ text "Ship it"
unfolding sanitise_terminal_title is_control is_blank trim trim_start is_whitespace
bell = refl

unnamed : sanitise_terminal_title (text "  ") ≡ product_name
unfolding sanitise_terminal_title is_control is_blank trim trim_start is_whitespace
unnamed = refl

-- Paths from the root, as on Linux.
abbrev rooted : Text → Bool
rooted path = starts_with path b'/'

abbrev thread : ConversationRef
thread = record { tool = codex; native_id = text "t-1" }

abbrev request : ManagedLaunchRequest
request =
    resume_request xdg_terminal_exec (text "xdg-terminal-exec") (text "codex") thread (text "/work")
      (text "Thread") (text "token") none ((text "CODEX_HOME", text "/x") ∷ [])

request_accepted : new_managed_launch rooted request ≡ ok (expected request)
unfolding new_managed_launch validate_path starts_with contains_control to_string_lossy is_surrogate
    has_control is_control is_unsafe_token check_environment is_unsafe_variable
    is_environment_character is_ascii_uppercase mode_arguments validate_native_id managed_spec
    provider_arguments
request_accepted = refl

new_managed_launch_iff_example :
    (new_managed_launch rooted request ≡ ok (expected request))
    ↔ (IsAcceptable rooted request × IsLaunch request (expected request))
new_managed_launch_iff_example = new_managed_launch_iff rooted request (expected request)

new_managed_launch-new_resume_launch_example :
    new_resume_launch rooted xdg_terminal_exec
      (text "xdg-terminal-exec")
      (text "codex")
      thread
      (text "/work")
      (text "Thread")
    ≡ ok (record {
      terminal = (expected request).terminal;
      native = (expected request).native;
      working_directory = (expected request).working_directory;
      title = (expected request).title;
    })
new_managed_launch-new_resume_launch_example =
    new_managed_launch-new_resume_launch rooted xdg_terminal_exec (text "xdg-terminal-exec")
      (text "codex") thread (text "/work") (text "Thread") (text "token") none
      ((text "CODEX_HOME", text "/x") ∷ []) (expected request) request_accepted

sanitise_terminal_title_iff_example :
    (sanitise_terminal_title (text "Ship it") ≡ text "Ship it") ↔ IsTitle (text "Ship it")
sanitise_terminal_title_iff_example = sanitise_terminal_title_iff (text "Ship it")

no_colour_set : is_set (text "TERM") (expected request).capability_environment ≡ false
unfolding is_set managed_spec text_eq
no_colour_set = refl

direct_child_command-launched_example :
    lookup (text "TERM") (some (text "dumb")) (direct_child_command (expected request)).env
    ≡ launched (expected request) (text "TERM") (some (text "dumb"))
direct_child_command-launched_example =
    direct_child_command-launched (expected request) (text "TERM") (some (text "dumb"))
      no_colour_set

terminal_removed : launched (expected request) (text "TERM") (some (text "dumb")) ≡ none
unfolding launched managed_spec text_eq
terminal_removed = refl

code_home : (expected request).capability_environment ≡ [] ++ (text "CODEX_HOME", text "/x") ∷ []
unfolding managed_spec
code_home = refl

none_later : is_set (text "CODEX_HOME") [] ≡ false
unfolding is_set
none_later = refl
