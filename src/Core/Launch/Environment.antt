-- ===== src/Core/Launch/Environment.antt =====
-- The environment that the launched process sees.
use agent_workboard.Prelude.{
  ◌≡◌, refl, inl, inr, Bool, true, false, ◌&&◌, ◌||◌, List, [], ◌∷◌, ◌++◌, map, Option,
  Option-cases, or-eq-false, none, some, Text, text, text_eq, text_eq_self, any, if◌then◌else◌,
  arith, is_some_and,
}
use agent_workboard.Core.Launch.Managed.{
  ManagedLaunchSpec, EnvChange, set, remove, direct_child_command, workflow_change,
  launch_token_env, workflow_token_env,
}

-- What a process reads of a variable that it inherits with a value or without, after the changes.
pub lookup : Text → Option Text → List EnvChange → Option Text
lookup name inherited [] = inherited
lookup name inherited (set other value ∷ changes) =
    lookup name (if text_eq other name then some value else inherited) changes
lookup name inherited (remove other ∷ changes) =
    lookup name (if text_eq other name then none else inherited) changes

unfoldable pub is_set : Text → List (Text × Text) → Bool
is_set name variables = any (λ v. text_eq v.0 name) variables

lookup-append :
    (name : Text) (o : Option Text) (xs ys : List EnvChange)
    → lookup name o (xs ++ ys) ≡ lookup name (lookup name o xs) ys
unfolding lookup
lookup-append name o [] ys = refl
lookup-append name o (set other value ∷ xs) ys =
    lookup-append name (if text_eq other name then some value else o) xs ys
lookup-append name o (remove other ∷ xs) ys =
    lookup-append name (if text_eq other name then none else o) xs ys

-- Variables of other names leave the value alone.
lookup_others :
    (name : Text) (o : Option Text) (variables : List (Text × Text))
    → is_set name variables ≡ false
    → lookup name o (map (λ v. set v.0 v.1) variables) ≡ o
unfolding lookup is_set
lookup_others name o [] h = refl
lookup_others name o (v ∷ variables) h =
    let (here, later) = or-eq-false (text_eq v.0 name) _ h in
    rw (lookup, here) (lookup_others name o variables later)

-- What a process reads of a variable that no capability sets.
unfoldable pub launched : ManagedLaunchSpec → Text → Option Text → Option Text
launched s name inherited =
    if text_eq workflow_token_env name && is_some_and s.workflow_token (λ t. true)
    then s.workflow_token
    else if text_eq launch_token_env name
    then some s.launch_token
    else if text_eq (text "NO_COLOR") name || text_eq (text "TERM") name
    then none
    else inherited

-- A variable that no capability sets: the tokens are passed on, colours and the terminal's name
-- are not inherited, and every other variable is.
pub direct_child_command-launched :
    (s : ManagedLaunchSpec) (name : Text) (inherited : Option Text)
    → is_set name s.capability_environment ≡ false
    → lookup name inherited (direct_child_command s).env ≡ launched s name inherited
unfolding lookup direct_child_command workflow_change launched
direct_child_command-launched s name inherited h = elim (Option-cases s.workflow_token) [
  | inl e ↦ rw e (rw (lookup_others name _ s.capability_environment h) (ground arith))
  | inr (token, e) ↦ rw e (rw (lookup_others name _ s.capability_environment h) (ground arith))
]

lookup_last :
    (name value : Text) (o : Option Text) (earlier later : List (Text × Text))
    → is_set name later ≡ false
    → lookup name o (map (λ v. set v.0 v.1) (earlier ++ (name, value) ∷ later)) ≡ some value
unfolding lookup
lookup_last name value o [] later h =
    rw (lookup, text_eq_self name) (lookup_others name (some value) later h)
lookup_last name value o (v ∷ earlier) later h =
    lookup_last name value (if text_eq v.0 name then some v.1 else o) earlier later h

-- A variable of the capabilities is read with the last value that they give it, whatever the tokens
-- and the inherited environment have.
pub direct_child_command-capability :
    (s : ManagedLaunchSpec) (name value : Text) (inherited : Option Text)
    (earlier later : List (Text × Text))
    → s.capability_environment ≡ earlier ++ (name, value) ∷ later
    → is_set name later ≡ false
    → lookup name inherited (direct_child_command s).env ≡ some value
unfolding lookup direct_child_command
direct_child_command-capability s name value inherited earlier later e h =
    rw (lookup-append name _ (workflow_change s.workflow_token))
      (rw e (lookup_last name value _ earlier later h))
