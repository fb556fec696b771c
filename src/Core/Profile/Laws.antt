-- ===== src/Core/Profile/Laws.antt =====
-- What a launch profile must satisfy, and which profiles profile.rs builds.
use agent_workboard.Prelude.{
  ℕ, ◌≤◌, ◌≡◌, refl, sym, subst, ◌≢◌, ◌↔◌, ◌⊎◌, inl, inr, true, false, not, ◌&&◌, holds, none, some,
  [], ◌∷◌, Text, len, is_whitespace, is_control, any, all, is_empty, ok, ==_iff, ◌==◌,
  holds-eq-false, holds_refuted, not-eq-false, Bool-cases, and-eq-true, passed, ok_or-eq-ok,
  >>=-eq-ok, ok-injective, ap, reject_if-eq-ok, holds_sound, holds_complete, arith,
}
use agent_workboard.Core.Conversation.{Tool, claude, codex, Tool-discrete}
use agent_workboard.Core.Workflow.Kinds.{ManagedSessionRole, ManagedSessionRole-discrete}
use agent_workboard.Core.Profile.{
  LaunchProfile, LaunchProfileSource, ReasoningEffort, max, high, suggested, legacy_unknown,
  ReasoningEffort-discrete, LaunchProfileSource-discrete, launch_profile_schema_version,
  is_model_character, is_unsafe_model, validate_for_launch, new_launch_profile, suggested_profile,
  legacy_profile_cannot_launch, suggested_model,
}

-- A model's name: one to 128 characters of the model alphabet.
pub record IsSafeModel (model : Text) : Type 0 where
  pub nonempty : is_empty model ≡ false
  pub bounded : len model ≤ 128
  pub alphabet : all is_model_character model ≡ true

model_character :
    (c : ℕ) → is_model_character c ≡ true → (is_whitespace c ≡ false) × (is_control c ≡ false)
unfolding is_model_character is_whitespace is_control
model_character c h = ground arith

pub model_alphabet :
    (s : Text)
    → all is_model_character s ≡ true
    → (any is_whitespace s ≡ false) × (any is_control s ≡ false)
model_alphabet [] h = (refl, refl)
model_alphabet (c ∷ s) h = ground (arith, model_character c, model_alphabet s)

is_unsafe_model_iff : (m : Text) → (is_unsafe_model m ≡ false) ↔ IsSafeModel m
unfolding is_unsafe_model
is_unsafe_model_iff m =
    (λ h. ground (arith, model_alphabet m), λ h. ground (arith, model_alphabet m))

-- A profile that may start a session of the tool in the role.
pub record IsLaunchable (p : LaunchProfile) (tool : Tool) (role : ManagedSessionRole) : Type 0 where
  pub versioned : p.schema_version ≡ launch_profile_schema_version
  pub same_tool : p.tool ≡ tool
  pub same_role : p.role ≡ role
  pub model : (m : Text) × (p.model ≡ some m) × IsSafeModel m
  pub effort : (e : ReasoningEffort) × (p.effort ≡ some e) × ¬ ((tool ≡ codex) × (e ≡ max))
  pub known : p.source ≢ legacy_unknown

codex_max_iff :
    (tool : Tool) (e : ReasoningEffort)
    → ((holds (Tool-discrete tool codex) && holds (ReasoningEffort-discrete e max)) ≡ false)
      ↔ (¬ ((tool ≡ codex) × (e ≡ max)))
codex_max_iff tool e = (
  λ h q.
      let a = holds_complete (Tool-discrete tool codex) q.0 in
      let b = holds_complete (ReasoningEffort-discrete e max) q.1 in ground arith,
  λ h.
      elim (Bool-cases
        (holds (Tool-discrete tool codex) && holds (ReasoningEffort-discrete e max))) [
          | inl both ↦
              let (a, b) = and-eq-true _ _ both in absurd (h (holds_sound _ a, holds_sound _ b))
          | inr other ↦ other
        ],
)

holds_iff-eq-false {ℓ} : {P : Type ℓ} (d : Dec P) → (not (holds d) ≡ false) ↔ P
holds_iff-eq-false (yes p) = (λ h. p, λ h. refl)
holds_iff-eq-false (no np) = (λ h. cc, λ h. absurd (np h))

validate_sound :
    (p : LaunchProfile) (tool : Tool) (role : ManagedSessionRole)
    → validate_for_launch p tool role ≡ ok tt
    → IsLaunchable p tool role
unfolding validate_for_launch
validate_sound p tool role h =
    let (a, h1) = passed _ _ _ h in
    let (b, h2) = passed _ _ _ h1 in
    let (c, h3) = passed _ _ _ h2 in
    let (m, hm, h4) = >>=-eq-ok _ _ h3 in
    let (d, h5) = passed _ _ _ h4 in
    let (e, he, h6) = >>=-eq-ok _ _ h5 in
    let (f, h7) = passed _ _ _ h6 in
    record {
      versioned = (==_iff _ _).0 (not-eq-false _ a);
      same_tool = (holds_iff-eq-false _).0 b;
      same_role = (holds_iff-eq-false _).0 c;
      model = (m, ok_or-eq-ok _ _ hm, (is_unsafe_model_iff m).0 d);
      effort = (e, ok_or-eq-ok _ _ he, (codex_max_iff tool e).0 f);
      known = holds_refuted (LaunchProfileSource-discrete p.source legacy_unknown) (
          reject_if-eq-ok (holds (LaunchProfileSource-discrete p.source legacy_unknown))
            legacy_profile_cannot_launch h7);
    }

validate_complete :
    (p : LaunchProfile) (tool : Tool) (role : ManagedSessionRole)
    → IsLaunchable p tool role
    → validate_for_launch p tool role ≡ ok tt
unfolding validate_for_launch
validate_complete p tool role l =
    let (m, hm, safe) = l.model in
    let (e, he, effort) = l.effort in
    let t1 : not (p.schema_version == launch_profile_schema_version) ≡ false =
      rw ((==_iff _ _).1 l.versioned) in
    let t2 : not (holds (Tool-discrete p.tool tool)) ≡ false =
      (holds_iff-eq-false _).1 l.same_tool in
    let t3 : not (holds (ManagedSessionRole-discrete p.role role)) ≡ false =
      (holds_iff-eq-false _).1 l.same_role in
    let t4 : holds (LaunchProfileSource-discrete p.source legacy_unknown) ≡ false =
      holds-eq-false _ l.known in
    simp (t1, t2, t3, hm, (is_unsafe_model_iff m).1 safe, he, (codex_max_iff tool e).1 effort, t4)

-- `validate_for_launch` accepts exactly the profiles of the current schema, for this tool and role,
-- with a safe model, an effort that the tool has, and a source that is not legacy.
pub validate_for_launch_iff :
    (p : LaunchProfile) (tool : Tool) (role : ManagedSessionRole)
    → (validate_for_launch p tool role ≡ ok tt) ↔ IsLaunchable p tool role
validate_for_launch_iff p tool role = (validate_sound p tool role, validate_complete p tool role)

-- The profile that `new` validates.
abbrev pub profile_of :
    Tool → Text → ReasoningEffort → ManagedSessionRole → LaunchProfileSource → LaunchProfile
profile_of tool model e role source = record {
  schema_version = launch_profile_schema_version;
  tool = tool;
  model = some model;
  effort = some e;
  role = role;
  source = source;
}

module _ (tool : Tool) (model : Text) (e : ReasoningEffort) (role : ManagedSessionRole)
    (source : LaunchProfileSource) where
  new_launch_profile_complete :
      IsSafeModel model
      → (¬ ((tool ≡ codex) × (e ≡ max)))
      → source ≢ legacy_unknown
      → (new_launch_profile tool model e role source ≡ ok (profile_of tool model e role source))
        × IsLaunchable (profile_of tool model e role source) tool role
  unfolding new_launch_profile
  new_launch_profile_complete safe effort known =
      let l : IsLaunchable (profile_of tool model e role source) tool role = record {
        versioned = refl;
        same_tool = refl;
        same_role = refl;
        model = (model, refl, safe);
        effort = (e, refl, effort);
        known = known;
      } in
      (rw (validate_complete _ tool role l), l)

  new_launch_profile_sound :
      (p : LaunchProfile)
      → new_launch_profile tool model e role source ≡ ok p
      → (p ≡ profile_of tool model e role source) × IsLaunchable p tool role
  unfolding new_launch_profile
  new_launch_profile_sound p h =
      let built = profile_of tool model e role source in
      let (u, valid, same) = >>=-eq-ok (validate_for_launch built tool role) (λ x. ok built) h in
      let e' : built ≡ p = ok-injective same in
      (sym e', subst (λ x. IsLaunchable x tool role) e' (validate_sound built tool role valid))

  -- `new` gives a profile exactly if it has the given parts, the current schema, and is launchable
  -- for the tool and the role.
  pub new_launch_profile_iff :
      (p : LaunchProfile)
      → (new_launch_profile tool model e role source ≡ ok p)
        ↔ ((p ≡ profile_of tool model e role source) × IsLaunchable p tool role)
  unfolding new_launch_profile
  new_launch_profile_iff p = (
    new_launch_profile_sound p,
    λ (same, l).
        let l' = subst (λ x. IsLaunchable x tool role) same l in
        rw (validate_complete _ tool role l') (ap ok (sym same)),
  )

sonnet-IsSafeModel : (tool : Tool) → IsSafeModel (suggested_model tool)
unfolding suggested_model is_model_character len
sonnet-IsSafeModel claude = ground arith
sonnet-IsSafeModel codex = ground arith

-- The built-in profile of each provider is valid in each role, so the `expect` in `suggested` never
-- fails.
pub suggested_profile-IsLaunchable :
    (tool : Tool) (role : ManagedSessionRole)
    → (p : LaunchProfile) × (suggested_profile tool role ≡ ok p) × IsLaunchable p tool role
unfolding suggested_profile
suggested_profile-IsLaunchable tool role =
    let (built, l) =
      new_launch_profile_complete tool (suggested_model tool) high role suggested
        (sonnet-IsSafeModel tool) (λ q. cc (q.1)) (λ e. cc) in
    (profile_of tool (suggested_model tool) high role suggested, built, l)

-- A profile of legacy source, or with no model or no effort, launches for no tool in no role.
pub legacy_refused :
    (p : LaunchProfile) (tool : Tool) (role : ManagedSessionRole)
    → (p.source ≡ legacy_unknown) ⊎ ((p.model ≡ none) ⊎ (p.effort ≡ none))
    → validate_for_launch p tool role ≢ ok tt
legacy_refused p tool role h v =
    let l = (validate_for_launch_iff p tool role).0 v in
    let (m, same_m, _) = l.model in
    let (e, same_e, _) = l.effort in
    elim h [ inl legacy ↦ l.known legacy | inr (inl no_model) ↦ cc | inr (inr no_effort) ↦ cc ]
