-- ===== src/Core/Launch/Commands.antt =====
-- The two ways of taking up a conversation, compared.
use agent_workboard.Prelude.{◌≡◌, refl, sym, Bool, false, not, List, [], Option, none, Text, ok}
use agent_workboard.Core.Conversation.{Tool, claude, codex, ConversationRef}
use agent_workboard.Core.Launch.{TerminalKind, validate_path, validate_native_id, resume_arguments}
use agent_workboard.Core.Launch.Managed.{
  resume, ManagedLaunchRequest, ManagedLaunchSpec, managed_spec, new_managed_launch,
}
use agent_workboard.Core.Launch.Resume.{new_resume_launch}
use agent_workboard.Core.Launch.Safety.{is_empty_iff, has_control_iff, contains_control_iff}
use agent_workboard.Core.Launch.Acceptance.{IsMode, provider_arguments, new_managed_launch_sound}

-- A managed launch that takes up a conversation, in a new window and with no profile.
abbrev pub resume_request :
    TerminalKind
    → Text
    → Text
    → ConversationRef
    → Text
    → Text
    → Text
    → Option Text
    → List (Text × Text)
    → ManagedLaunchRequest
resume_request kind terminal native conversation directory title token workflow environment =
    record {
      terminal_kind = kind;
      terminal_executable = terminal;
      native_executable = native;
      tool = conversation.tool;
      mode = resume conversation.native_id;
      working_directory = directory;
      title = title;
      terminal_window = none;
      launch_token = token;
      workflow_token = workflow;
      capability_environment = environment;
      profile_arguments = [];
      initial_prompt = none;
    }

-- The list that `ResumeLaunchSpec::new` writes, against the one that a managed launch ends in.
resume_arguments-provider_arguments :
    (tool : Tool) (native_id directory : Text)
    → resume_arguments tool directory native_id
      ≡ provider_arguments tool (resume native_id) none directory
unfolding resume_arguments provider_arguments
resume_arguments-provider_arguments claude native_id directory = refl
resume_arguments-provider_arguments codex native_id directory = refl

-- If a managed launch that takes up a conversation, in a new window and with no profile and no
-- prompt, is accepted, then
-- `ResumeLaunchSpec::new` accepts too, with the same commands, directory and title.
pub new_managed_launch-new_resume_launch :
    (is_absolute : Text → Bool) (kind : TerminalKind) (terminal native : Text)
    (conversation : ConversationRef) (directory title token : Text) (workflow : Option Text)
    (environment : List (Text × Text)) (s : ManagedLaunchSpec)
    → new_managed_launch is_absolute (
        resume_request kind terminal native conversation directory title token workflow environment)
      ≡ ok s
    → new_resume_launch is_absolute kind terminal native conversation directory title
      ≡ ok (record {
        terminal = s.terminal;
        native = s.native;
        working_directory = s.working_directory;
        title = s.title;
      })
unfolding new_resume_launch validate_path validate_native_id IsMode managed_spec
new_managed_launch-new_resume_launch is_absolute kind terminal native conversation directory title
      token workflow environment s h =
    let (l, same) = new_managed_launch_sound is_absolute _ s h in
    let t : not (is_absolute directory) ≡ false = rw (l.absolute) refl in
    rw (sym same) (
      simp (
        t,
        (contains_control_iff directory).1 l.directory,
        (has_control_iff conversation.native_id).1 l.mode.0,
        (is_empty_iff native).1 l.native,
        (is_empty_iff terminal).1 l.terminal,
        resume_arguments-provider_arguments conversation.tool conversation.native_id directory,
      ))
