-- ===== src/App/FollowUp/Query.antt =====
-- crates/application/src/follow_up.rs: the query for the next row that is due, with what it is
-- joined to.
use agent_workboard.Prelude.{
  ℕ, Bool, not, ◌&&◌, ◌||◌, List, [], ◌∷◌, Option, none, some, Text, text, text_eq, find, keep,
  ◌==◌, leb, ltb, if◌then◌else◌, is_some_and, is_none,
}
use agent_workboard.Core.Hierarchy.{Uuid, Instant}
use agent_workboard.Core.Conversation.{Tool}
use agent_workboard.App.FollowUp.{
  pending, leased, FollowUp, Association, ManagedSession, LiveObservation, Tables, is_in,
  is_current, same_id, accepts, and_then,
}

unfoldable pub is_due : Instant → FollowUp → Bool
unfolding is_in
is_due now f =
    is_in pending f || (is_in leased f && is_some_and f.leased_until (λ until. leb until now))

-- `ORDER BY created_at, session_id, sequence`.
unfoldable pub precedes : FollowUp → FollowUp → Bool
precedes f g =
    ltb f.created_at g.created_at
    || (f.created_at == g.created_at
        && (ltb f.session_id g.session_id
            || (f.session_id == g.session_id && ltb f.sequence g.sequence)))

unfoldable pub sooner : FollowUp → Option FollowUp → FollowUp
unfolding precedes
sooner f none = f
sooner f (some g) = if precedes g f then g else f

-- The first row in that order, the earlier in the table among equals.
unfoldable pub earliest : List FollowUp → Option FollowUp
unfolding sooner
earliest [] = none
earliest (f ∷ rows) = some (sooner f (earliest rows))

-- `ORDER BY observed_at DESC, id DESC LIMIT 1`.
unfoldable pub latest : List LiveObservation → Option LiveObservation
latest [] = none
latest (o ∷ others) = elim (latest others) [
  | none ↦ some o
  | some p ↦
      if ltb o.observed_at p.observed_at || (o.observed_at == p.observed_at && ltb o.id p.id)
      then some p
      else some o
]

-- The columns of the rows that are joined to a follow-up.
pub record Evidence : Type 0 where
  pub provider : Tool
  pub native_id : Text
  pub path : Text
  pub capability_bundle_root : Option Text
  pub live_status : Option Text
  pub executable : Option Text
  pub managed_generation : ℕ
  pub checkout_generation : ℕ
  pub is_bound : Bool

unfoldable pub is_bound_to : FollowUp → ManagedSession → Association → Bool
unfolding is_current same_id
is_bound_to f m a =
    is_none a.associated_until
    && is_none m.managed_until
    && is_current m.status
    && m.session_id == f.session_id
    && m.checkout_id == f.checkout_id
    && a.session_id == f.session_id
    && same_id a.feature_id f.feature_id
    && same_id a.work_item_id f.work_item_id

unfoldable pub joined : Tables → FollowUp → Option Evidence
unfolding and_then is_bound_to latest
joined tables f = and_then (find (λ s. s.id == f.session_id) tables.native_sessions) λ session.
    and_then (find (λ m. m.id == f.managed_session_id) tables.managed_sessions) λ managed.
      and_then (find (λ a. a.id == f.association_id) tables.associations) λ association.
        and_then
          (find (λ p. p.checkout_id == f.checkout_id && is_none p.observed_until)
            tables.checkout_paths)
          λ path.
            and_then (find (λ r. r.checkout_id == f.checkout_id) tables.checkout_readiness)
              λ readiness. and_then managed.launch_intent_id λ launch_intent_id.
                and_then (find (λ i. i.id == launch_intent_id) tables.launch_intents) λ intent.
                  let live =
                    latest (keep (λ o. o.session_id == f.session_id) tables.live_observations) in
                  some (record {
                    provider = session.provider;
                    native_id = session.native_id;
                    path = path.path;
                    capability_bundle_root = intent.capability_bundle_root;
                    live_status = and_then live λ o. some o.status;
                    executable = and_then live λ o. o.executable;
                    managed_generation = managed.binding_generation;
                    checkout_generation = readiness.reconciliation_generation;
                    is_bound = is_bound_to f managed association;
                  })

-- The row that the query finds.
unfoldable pub next_row : Tables → Option Uuid → Instant → Option FollowUp
unfolding accepts is_due earliest
next_row tables session_id now = earliest (
    keep (λ f. not (is_none (joined tables f)) && accepts session_id f.session_id && is_due now f)
      tables.session_follow_ups)

is_live : Text → Bool
is_live status = text_eq status (text "active") || text_eq status (text "idle")

-- An association's identifier is a number here, so that it is never empty.
unfoldable pub has_changed : FollowUp → Evidence → Bool
unfolding is_live
has_changed f e =
    not e.is_bound
    || not (e.managed_generation == f.binding_generation)
    || not (e.checkout_generation == f.checkout_generation)
    || is_none e.capability_bundle_root
    || is_none e.executable
    || not (is_some_and e.live_status is_live)
