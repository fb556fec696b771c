-- ===== src/Core/Launch/Acceptance.antt =====
-- Which requests `ManagedLaunchSpec::new` takes, and what it makes of them.
use agent_workboard.Prelude.{
  ◌≡◌, refl, sym, ap, ap₂, subst, ◌∙◌, ◌≢◌, ◌↔◌, Bool, true, false, not, List, [], ◌∷◌, ◌++◌,
  Option, none, some, Text, text, any, All, ok, passed, >>=-eq-ok, ok-injective, reject_if-eq-ok,
  or-eq-false, not-eq-false,
}
use agent_workboard.Core.Conversation.{Tool, claude, codex}
use agent_workboard.Core.Launch.{
  TerminalKind, windows_terminal, xdg_terminal_exec, x_terminal_emulator, sanitise_terminal_title,
  validate_path, validate_native_id, terminal_arguments, window_or_new, prefixed_argument,
}
use agent_workboard.Core.Launch.Managed.{
  ManagedLaunchMode, new, resume, ManagedLaunchRequest, ManagedLaunchSpec, is_unsafe_token,
  is_unsafe_variable, is_unsafe_window, is_unsafe_prompt, is_unsafe_argument, check_environment,
  mode_arguments, managed_spec, new_managed_launch, option_list,
}
use agent_workboard.Core.Launch.Safety.{
  IsPrintable, IsToken, IsVariable, IsWindow, IsPrompt, IsArgument, IsGiven, any_iff, IsGiven-iff,
  is_empty_iff, has_control_iff, contains_control_iff, is_unsafe_token_iff, is_unsafe_variable_iff,
  is_unsafe_window_iff, is_unsafe_prompt_iff, is_unsafe_argument_iff,
}

-- A conversation that is resumed gets no prompt, and its identity is printable.
unfoldable pub IsMode : ManagedLaunchMode → Option Text → Type 0
IsMode new prompt = Unit
IsMode (resume native_id) prompt = IsPrintable native_id × (prompt ≡ none)

-- A request whose parts may all stand in a command line or an environment.
pub record IsAcceptable (is_absolute : Text → Bool) (r : ManagedLaunchRequest) : Type 0 where
  pub absolute : is_absolute r.working_directory ≡ true
  pub directory : IsPrintable r.working_directory
  pub token : IsToken r.launch_token
  pub workflow : IsGiven IsToken r.workflow_token
  pub environment : All IsVariable r.capability_environment
  pub window : IsGiven IsWindow r.terminal_window
  pub native : r.native_executable ≢ []
  pub prompt : IsGiven IsPrompt r.initial_prompt
  pub arguments : All IsArgument r.profile_arguments
  pub mode : IsMode r.mode r.initial_prompt
  pub terminal : r.terminal_executable ≢ []

-- The arguments that the provider reads after those of the profile.
unfoldable pub provider_arguments : Tool → ManagedLaunchMode → Option Text → Text → List Text
provider_arguments claude new prompt directory = option_list prompt
provider_arguments claude (resume native_id) prompt directory = text "--resume" ∷ native_id ∷ []
provider_arguments codex new prompt directory =
    (text "--cd" ∷ directory ∷ text "--dangerously-bypass-hook-trust" ∷ []) ++ option_list prompt
provider_arguments codex (resume native_id) prompt directory =
    (text "--cd" ∷ directory ∷ text "--dangerously-bypass-hook-trust" ∷ [])
    ++ text "resume" ∷ native_id ∷ []

-- The arguments with which a terminal opens a window, up to the command that runs in it.
unfoldable pub window_arguments : TerminalKind → Text → Text → Option Text → List Text
window_arguments windows_terminal directory title (some window) =
    (text "--window" ∷ window ∷ [])
    ++ (text "new-tab" ∷ text "--startingDirectory" ∷ directory ∷ [])
    ++ text "--title" ∷ title ∷ text "--suppressApplicationTitle" ∷ []
window_arguments windows_terminal directory title none =
    (text "--window" ∷ text "new" ∷ [])
    ++ (text "new-tab" ∷ text "--startingDirectory" ∷ directory ∷ [])
    ++ text "--title" ∷ title ∷ text "--suppressApplicationTitle" ∷ []
window_arguments xdg_terminal_exec directory title window =
    (text "--title=" ++ title) ∷ (text "--dir=" ++ directory) ∷ text "--" ∷ []
window_arguments x_terminal_emulator directory title window = text "-e" ∷ []

-- The launch that a request asks for: the terminal runs the provider's command.
pub record IsLaunch (r : ManagedLaunchRequest) (s : ManagedLaunchSpec) : Type 0 where
  pub title : s.title ≡ sanitise_terminal_title r.title
  pub native_executable : s.native.executable ≡ r.native_executable
  pub native_arguments :
      s.native.arguments
      ≡ r.profile_arguments ++ provider_arguments r.tool r.mode r.initial_prompt r.working_directory
  pub terminal_executable : s.terminal.executable ≡ r.terminal_executable
  pub terminal_arguments :
      s.terminal.arguments
      ≡ window_arguments r.terminal_kind r.working_directory s.title r.terminal_window
        ++ s.native.executable ∷ s.native.arguments
  pub working_directory : s.working_directory ≡ r.working_directory
  pub launch_token : s.launch_token ≡ r.launch_token
  pub workflow_token : s.workflow_token ≡ r.workflow_token
  pub capability_environment : s.capability_environment ≡ r.capability_environment

IsMode-sound :
    (tool : Tool) (mode : ManagedLaunchMode) (prompt : Option Text) (directory : Text)
    {arguments : List Text}
    → mode_arguments tool mode prompt directory ≡ ok arguments
    → IsMode mode prompt × (provider_arguments tool mode prompt directory ≡ arguments)
unfolding mode_arguments validate_native_id provider_arguments IsMode
IsMode-sound claude new prompt directory h = (tt, ok-injective h)
IsMode-sound codex new prompt directory h = (tt, ok-injective h)
IsMode-sound claude (resume native_id) none directory h =
    let (a, e) = passed _ _ _ h in (((has_control_iff native_id).0 a, refl), ok-injective e)
IsMode-sound codex (resume native_id) none directory h =
    let (a, e) = passed _ _ _ h in (((has_control_iff native_id).0 a, refl), ok-injective e)
IsMode-sound claude (resume native_id) (some prompt) directory h = cc
IsMode-sound codex (resume native_id) (some prompt) directory h = cc

IsMode-complete :
    (tool : Tool) (mode : ManagedLaunchMode) (prompt : Option Text) (directory : Text)
    → IsMode mode prompt
    → mode_arguments tool mode prompt directory ≡ ok (provider_arguments tool mode prompt directory)
unfolding mode_arguments validate_native_id provider_arguments IsMode
IsMode-complete claude new prompt directory h = refl
IsMode-complete codex new prompt directory h = refl
IsMode-complete claude (resume native_id) none directory (a, e) =
    rw ((has_control_iff native_id).1 a) refl
IsMode-complete codex (resume native_id) none directory (a, e) =
    rw ((has_control_iff native_id).1 a) refl
IsMode-complete claude (resume native_id) (some prompt) directory (a, e) = cc
IsMode-complete codex (resume native_id) (some prompt) directory (a, e) = cc

environment_sound :
    (variables : List (Text × Text)) {u : Unit {0}}
    → check_environment variables ≡ ok u
    → any is_unsafe_variable variables ≡ false
unfolding check_environment
environment_sound [] h = refl
environment_sound (v ∷ variables) h =
    let (here, later) = passed (is_unsafe_variable v) _ _ h in
    rw here (environment_sound variables later)

environment_complete :
    (variables : List (Text × Text))
    → any is_unsafe_variable variables ≡ false
    → check_environment variables ≡ ok tt
unfolding check_environment
environment_complete [] h = refl
environment_complete (v ∷ variables) h =
    let (here, later) = or-eq-false (is_unsafe_variable v) _ h in
    rw here (environment_complete variables later)

abbrev pub expected : ManagedLaunchRequest → ManagedLaunchSpec
expected r =
    managed_spec r
      (r.profile_arguments ++ provider_arguments r.tool r.mode r.initial_prompt r.working_directory)

terminal_arguments-window_arguments :
    (kind : TerminalKind) (directory title native : Text) (window : Option Text)
    (arguments : List Text)
    → terminal_arguments kind directory title native window ++ arguments
      ≡ window_arguments kind directory title window ++ native ∷ arguments
unfolding terminal_arguments window_or_new prefixed_argument window_arguments
terminal_arguments-window_arguments windows_terminal directory title native none arguments = refl
terminal_arguments-window_arguments windows_terminal directory title native (some window)
      arguments =
    refl
terminal_arguments-window_arguments xdg_terminal_exec directory title native window arguments = refl
terminal_arguments-window_arguments x_terminal_emulator directory title native window arguments =
    refl

expected-IsLaunch : (r : ManagedLaunchRequest) → IsLaunch r (expected r)
unfolding managed_spec
expected-IsLaunch r = record {
  title = refl;
  native_executable = refl;
  native_arguments = refl;
  terminal_executable = refl;
  terminal_arguments =
      terminal_arguments-window_arguments r.terminal_kind r.working_directory _ r.native_executable
        r.terminal_window _;
  working_directory = refl;
  launch_token = refl;
  workflow_token = refl;
  capability_environment = refl;
}

-- A request asks for one launch.
IsLaunch-unique :
    (r : ManagedLaunchRequest) (s t : ManagedLaunchSpec) → IsLaunch r s → IsLaunch r t → s ≡ t
IsLaunch-unique r s t a b =
    let e1 = a.title ∙ sym b.title in
    let e2 = a.native_executable ∙ sym b.native_executable in
    let e3 = a.native_arguments ∙ sym b.native_arguments in
    let e4 = a.terminal_executable ∙ sym b.terminal_executable in
    let e5 =
      a.terminal_arguments
      ∙ (ap₂ (λ x y. x ++ y)
            (ap (λ x. window_arguments r.terminal_kind r.working_directory x r.terminal_window) e1)
            (ap₂ (λ x y. x ∷ y) e2 e3)
          ∙ sym b.terminal_arguments) in
    let e6 = a.working_directory ∙ sym b.working_directory in
    let e7 = a.launch_token ∙ sym b.launch_token in
    let e8 = a.workflow_token ∙ sym b.workflow_token in
    let e9 = a.capability_environment ∙ sym b.capability_environment in
    λ i. record {
      terminal = record { executable = e4 i; arguments = e5 i };
      native = record { executable = e2 i; arguments = e3 i };
      working_directory = e6 i;
      title = e1 i;
      launch_token = e7 i;
      workflow_token = e8 i;
      capability_environment = e9 i;
    }

pub new_managed_launch_sound :
    (is_absolute : Text → Bool) (r : ManagedLaunchRequest) (s : ManagedLaunchSpec)
    → new_managed_launch is_absolute r ≡ ok s
    → IsAcceptable is_absolute r × (expected r ≡ s)
unfolding new_managed_launch validate_path
new_managed_launch_sound is_absolute r s h =
    let (u, path, h1) = >>=-eq-ok (validate_path is_absolute r.working_directory) _ h in
    let (a, path1) = passed _ _ _ path in
    let (b, h2) = passed _ _ _ h1 in
    let (c, h3) = passed _ _ _ h2 in
    let (v, d, h4) = >>=-eq-ok (check_environment r.capability_environment) _ h3 in
    let (e, h5) = passed _ _ _ h4 in
    let (f, h6) = passed _ _ _ h5 in
    let (g, h7) = passed _ _ _ h6 in
    let (i, h8) = passed _ _ _ h7 in
    let (arguments, j, h9) =
      >>=-eq-ok (mode_arguments r.tool r.mode r.initial_prompt r.working_directory) _ h8 in
    let (k, h10) = passed _ _ _ h9 in
    let (mode, same) = IsMode-sound r.tool r.mode r.initial_prompt r.working_directory j in
    (
      record {
        absolute = not-eq-false _ a;
        directory = (contains_control_iff _).0 (reject_if-eq-ok _ _ path1);
        token = (is_unsafe_token_iff _).0 b;
        workflow = (IsGiven-iff is_unsafe_token IsToken is_unsafe_token_iff _).0 c;
        environment =
            (any_iff is_unsafe_variable IsVariable is_unsafe_variable_iff _).0
              (environment_sound r.capability_environment d);
        window = (IsGiven-iff is_unsafe_window IsWindow is_unsafe_window_iff _).0 e;
        native = (is_empty_iff _).0 f;
        prompt = (IsGiven-iff is_unsafe_prompt IsPrompt is_unsafe_prompt_iff _).0 g;
        arguments = (any_iff is_unsafe_argument IsArgument is_unsafe_argument_iff _).0 i;
        mode = mode;
        terminal = (is_empty_iff _).0 k;
      },
      rw same (ok-injective h10),
    )

new_managed_launch_complete :
    (is_absolute : Text → Bool) (r : ManagedLaunchRequest)
    → IsAcceptable is_absolute r
    → new_managed_launch is_absolute r ≡ ok (expected r)
unfolding new_managed_launch validate_path
new_managed_launch_complete is_absolute r l =
    let t1 : not (is_absolute r.working_directory) ≡ false = rw (l.absolute) refl in
    let environment =
      (any_iff is_unsafe_variable IsVariable is_unsafe_variable_iff r.capability_environment).1
        l.environment in
    simp (
      t1,
      (contains_control_iff r.working_directory).1 l.directory,
      (is_unsafe_token_iff r.launch_token).1 l.token,
      (IsGiven-iff is_unsafe_token IsToken is_unsafe_token_iff r.workflow_token).1 l.workflow,
      environment_complete r.capability_environment environment,
      (IsGiven-iff is_unsafe_window IsWindow is_unsafe_window_iff r.terminal_window).1 l.window,
      (is_empty_iff r.native_executable).1 l.native,
      (IsGiven-iff is_unsafe_prompt IsPrompt is_unsafe_prompt_iff r.initial_prompt).1 l.prompt,
      (any_iff is_unsafe_argument IsArgument is_unsafe_argument_iff r.profile_arguments).1
          l.arguments,
      IsMode-complete r.tool r.mode r.initial_prompt r.working_directory l.mode,
      (is_empty_iff r.terminal_executable).1 l.terminal,
    )

-- `ManagedLaunchSpec::new` accepts exactly the requests with an absolute printable directory, with
-- tokens, a window, a prompt, an environment, arguments and executables that may stand in a command
-- line, and with no prompt for a conversation that is resumed. The launch is then the one that the
-- request asks for: its terminal opens the window and runs the provider, with the profile's
-- arguments before those of the mode.
pub new_managed_launch_iff :
    (is_absolute : Text → Bool) (r : ManagedLaunchRequest) (s : ManagedLaunchSpec)
    → (new_managed_launch is_absolute r ≡ ok s) ↔ (IsAcceptable is_absolute r × IsLaunch r s)
new_managed_launch_iff is_absolute r s = (
  λ h.
      let (l, same) = new_managed_launch_sound is_absolute r s h in
      (l, subst (IsLaunch r) same (expected-IsLaunch r)),
  λ (l, k).
      new_managed_launch_complete is_absolute r l
      ∙ ap ok (IsLaunch-unique r (expected r) s (expected-IsLaunch r) k),
)
