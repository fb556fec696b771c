-- ===== src/App/FollowUp/Queue.antt =====
-- crates/application/src/follow_up.rs: a message is queued for the one session that can take it.
use agent_workboard.Prelude.{
  ℕ, ◌+◌, ◌^◌, max, Bool, false, not, ◌&&◌, ◌||◌, List, [], ◌∷◌, ◌++◌, Option, none, some, Text,
  text, text_eq, any, find, keep, ◌==◌, leb, ltb, if◌then◌else◌, is_some_and, is_none, Result, ok,
  err, ◌>>=◌, ◌>>◌, reject_if, ok_or, is_blank, len,
}
use agent_workboard.Core.Hierarchy.{Uuid, HierarchyOwner, workspace, epic, feature, work_item}
use agent_workboard.App.Error.{AppError, domain, database, external, idempotency_conflict}
use agent_workboard.App.FollowUp.{
  max_follow_up_bytes, SendSessionFollowUp, SessionFollowUpStatus, SessionFollowUpOutcome, FollowUp,
  Association, NativeSession, Readiness, ManagedSession, Tables, is_current, same_id, accepts,
  and_then, owner_columns, parse_owner, read_outcome, by_id,
}

-- `contains('\0')`.
has_nul : Text → Bool
has_nul s = any (λ c. c == 0) s

unfoldable pub is_invalid : SendSessionFollowUp → Bool
unfolding has_nul
is_invalid r =
    r.expected_binding_generation == 0
    || is_blank r.idempotency_key
    || ltb 512 (len r.idempotency_key)
    || has_nul r.idempotency_key
    || is_blank r.text
    || ltb max_follow_up_bytes (len r.text)
    || has_nul r.text

unfoldable pub validate_request : SendSessionFollowUp → Result (Unit {0}) AppError
validate_request r = do
  reject_if (is_invalid r)
      (external (text "follow_up_request_invalid") (text "the follow-up request is invalid"))
  columns ← owner_columns r.owner
  ok tt

unfoldable pub role_can_receive : HierarchyOwner → Text → Bool
role_can_receive (workspace id) role = false
role_can_receive (epic id) role = false
role_can_receive (feature id) role = text_eq role (text "feature_planning")
role_can_receive (work_item id) role =
    text_eq role (text "work_item_execution")
    || text_eq role (text "debugging")
    || text_eq role (text "review")

pub record FollowUpTarget : Type 0 where
  pub association_id : Uuid
  pub managed_session_id : Uuid
  pub session_id : Uuid
  pub binding_generation : ℕ
  pub checkout_id : Uuid
  pub checkout_generation : ℕ

-- What the query and the role ask of an association, a managed session and the session of both.
unfoldable pub is_candidate :
    HierarchyOwner
    → Option Uuid × Option Uuid
    → Option Uuid
    → Association
    → ManagedSession
    → NativeSession
    → Bool
unfolding is_current same_id accepts role_can_receive
is_candidate owner (feature_id, work_item_id) session_id a m session =
    m.session_id == session.id
    && is_none a.associated_until
    && is_none m.managed_until
    && is_current m.status
    && same_id a.feature_id feature_id
    && same_id a.work_item_id work_item_id
    && role_can_receive owner a.role
    && accepts session_id session.id

unfoldable pub target_of : Association → ManagedSession → NativeSession → Readiness → FollowUpTarget
target_of a m session readiness = record {
  association_id = a.id;
  managed_session_id = m.id;
  session_id = session.id;
  binding_generation = m.binding_generation;
  checkout_id = m.checkout_id;
  checkout_generation = readiness.reconciliation_generation;
}

-- A row of the query, from the rows joined to an association and a managed session.
unfoldable pub candidate :
    Tables
    → HierarchyOwner
    → Option Uuid × Option Uuid
    → Option Uuid
    → Association
    → ManagedSession
    → Option FollowUpTarget
unfolding and_then is_candidate target_of
candidate tables owner columns session_id a m =
    and_then (find (λ s. s.id == a.session_id) tables.native_sessions) λ session.
      and_then (find (λ r. r.checkout_id == m.checkout_id) tables.checkout_readiness) λ readiness.
        if is_candidate owner columns session_id a m session
        then some (target_of a m session readiness)
        else none

unfoldable pub filter_map {ℓ κ} : {A : Type ℓ} {B : Type κ} → (A → Option B) → List A → List B
filter_map f [] = []
filter_map f (x ∷ xs) = elim (f x) [ none ↦ filter_map f xs | some y ↦ y ∷ filter_map f xs ]

unfoldable pub flat_map {ℓ κ} : {A : Type ℓ} {B : Type κ} → (A → List B) → List A → List B
flat_map f [] = []
flat_map f (x ∷ xs) = f x ++ flat_map f xs

-- In the order of the tables: `queue` only asks whether there is exactly one.
unfoldable pub resolve_candidates :
    Tables → HierarchyOwner → Option Uuid → Result (List FollowUpTarget) AppError
unfolding filter_map flat_map candidate
resolve_candidates tables owner session_id = do
  columns ← owner_columns owner
  ok (
      flat_map
        (λ a. filter_map (candidate tables owner columns session_id a) tables.managed_sessions)
        tables.associations)

unfoldable pub with_key : Text → FollowUp → Bool
with_key key f = text_eq f.idempotency_key key

-- The outcome of the row whose identifier the query gives.
unfoldable pub read_found :
    List FollowUp → Option FollowUp → Result (Option SessionFollowUpOutcome) AppError
read_found rows none = ok none
read_found rows (some f) = do outcome ← read_outcome rows f.id; ok (some outcome)

unfoldable pub read_by_idempotency :
    List FollowUp → Text → Result (Option SessionFollowUpOutcome) AppError
unfolding with_key read_found
read_by_idempotency rows key = read_found rows (find (with_key key) rows)

unfoldable pub same_owner : HierarchyOwner → HierarchyOwner → Bool
same_owner (workspace a) (workspace b) = a == b
same_owner (epic a) (epic b) = a == b
same_owner (feature a) (feature b) = a == b
same_owner (work_item a) (work_item b) = a == b
same_owner _ _ = false

-- Whether a row holds another request than the given one.
unfoldable pub is_other : SendSessionFollowUp → Text → HierarchyOwner → FollowUp → Bool
unfolding same_owner
is_other r instruction_hash owner f =
    not (same_owner owner r.owner)
    || is_some_and r.session_id (λ id. not (id == f.session_id))
    || not (f.binding_generation == r.expected_binding_generation)
    || not (text_eq f.instruction_hash instruction_hash)

unfoldable pub of_binding : Uuid → ℕ → FollowUp → Bool
of_binding session_id binding_generation f =
    f.session_id == session_id && f.binding_generation == binding_generation

-- `COALESCE(MAX(sequence), 0)`.
unfoldable pub max_sequence : List FollowUp → ℕ
max_sequence [] = 0
max_sequence (f ∷ rows) = max f.sequence (max_sequence rows)

-- The constraints of the table that the insertion of a row may violate: the primary key, the unique
-- keys, the unique triples of a session, a binding and a sequence number, and the generations, which
-- are positive.
unfoldable pub violates : List FollowUp → FollowUp → Bool
unfolding of_binding with_key by_id
violates rows f =
    any (by_id f.id) rows
    || any (with_key f.idempotency_key) rows
    || any (λ g. of_binding f.session_id f.binding_generation g && g.sequence == f.sequence) rows
    || f.binding_generation == 0
    || f.checkout_generation == 0

-- The only target, or why there is none.
unfoldable pub only : List FollowUpTarget → Result FollowUpTarget AppError
only [] = err (
    external (text "follow_up_session_unavailable")
      (text "no current bound session can receive this follow-up"))
only (target ∷ []) = ok target
only (target ∷ other ∷ more) = err (
    external (text "follow_up_session_selection_required")
      (text "more than one current bound session can receive this follow-up"))

unfoldable pub new_row :
    Uuid
    → Uuid
    → SendSessionFollowUp
    → Text
    → FollowUpTarget
    → Option Uuid × Option Uuid
    → List FollowUp
    → FollowUp
unfolding of_binding max_sequence
new_row follow_up_id workspace_id r instruction_hash target (feature_id, work_item_id) rows =
    record {
      id = follow_up_id;
      workspace_id = workspace_id;
      feature_id = feature_id;
      work_item_id = work_item_id;
      session_id = target.session_id;
      association_id = target.association_id;
      managed_session_id = target.managed_session_id;
      binding_generation = target.binding_generation;
      checkout_id = target.checkout_id;
      checkout_generation = target.checkout_generation;
      sequence =
          max_sequence (keep (of_binding target.session_id target.binding_generation) rows) + 1;
      idempotency_key = r.idempotency_key;
      instruction = r.text;
      instruction_hash = instruction_hash;
      status = SessionFollowUpStatus.pending;
      lease_token = none;
      leased_until = none;
      attempt_count = 0;
      receipt = none;
      failure = none;
      created_at = r.requested_at;
      delivered_at = none;
    }

module _ (digest : Text → Text) where
  -- The earlier outcome for a key that a row has.
  unfoldable pub replay :
      List FollowUp
      → SendSessionFollowUp
      → SessionFollowUpOutcome
      → Result SessionFollowUpOutcome AppError
  unfolding is_other
  replay rows r existing = do
    f ← ok_or (find (by_id existing.follow_up_id) rows) database
    owner ← parse_owner f.feature_id f.work_item_id
    reject_if (is_other r (digest r.text) owner f) idempotency_conflict
    ok existing

  unfoldable pub insert :
      Uuid → Tables → Uuid → SendSessionFollowUp → Result (Tables × SessionFollowUpOutcome) AppError
  unfolding resolve_candidates only new_row violates
  insert follow_up_id tables workspace_id r = do
    candidates ← resolve_candidates tables r.owner r.session_id
    target ← only candidates
    reject_if (not (target.binding_generation == r.expected_binding_generation)) (
        external (text "follow_up_binding_generation_mismatch")
          (text "the selected Workboard session has been rebound"))
    columns ← owner_columns r.owner
    let rows = tables.session_follow_ups
    let f = new_row follow_up_id workspace_id r (digest r.text) target columns rows
    reject_if (leb (2 ^ 63) target.checkout_generation)
        (domain (text "out of range integral type conversion attempted"))
    reject_if (violates rows f) database
    outcome ← read_outcome (rows ++ f ∷ []) follow_up_id
    ok (record tables { session_follow_ups = rows ++ f ∷ [] }, outcome)

  unfoldable pub replay_or_insert :
      Uuid
      → Tables
      → Uuid
      → SendSessionFollowUp
      → Option SessionFollowUpOutcome
      → Result (Tables × SessionFollowUpOutcome) AppError
  unfolding replay insert
  replay_or_insert follow_up_id tables workspace_id r none =
      insert follow_up_id tables workspace_id r
  replay_or_insert follow_up_id tables workspace_id r (some existing) = do
    outcome ← replay tables.session_follow_ups r existing
    ok (tables, outcome)

  unfoldable pub queue :
      Uuid → Tables → Uuid → SendSessionFollowUp → Result (Tables × SessionFollowUpOutcome) AppError
  unfolding validate_request read_by_idempotency replay_or_insert
  queue follow_up_id tables workspace_id r = do
    validate_request r
    found ← read_by_idempotency tables.session_follow_ups r.idempotency_key
    replay_or_insert follow_up_id tables workspace_id r found
