-- ===== src/App/FollowUp/Holding.antt =====
-- A row that holds a request, and that a successful request leaves such a row.
use mathlib.Core.List.Memᴰ
use agent_workboard.Prelude.{
  find_sound, ℕ, Bool, true, false, not, ◌||◌, List, Option, none, some, Text, ◌≡◌, if◌then◌else◌,
  Option-cases, ◌>>=◌, ok_or, refl, sym, subst, ap, ◌∙◌, inl, inr, Memᴰ, ok, err, Result,
  text_eq_iff, ==_iff, ◌==◌, is_some_and, arith, find, >>=-eq-ok, ok_or-eq-ok, ok-injective, ap₂,
}
use agent_workboard.Core.Hierarchy.{HierarchyOwner, feature, work_item, workspace, epic}
use agent_workboard.App.Error.{database, idempotency_conflict}
use agent_workboard.App.FollowUp.{
  SendSessionFollowUp, SessionFollowUpOutcome, FollowUp, Tables, by_id, parse_owner, outcome_of,
  read_outcome, owner_columns, accepts,
}
use agent_workboard.App.FollowUp.Queue.{
  queue, new_row, read_found, replay_or_insert, read_by_idempotency, validate_request, is_other,
  with_key, same_owner,
}
use agent_workboard.App.FollowUp.Insertions.{insert_sound, IsInserted, inserted}
use agent_workboard.App.FollowUp.Stored.{IsStored}
use agent_workboard.App.FollowUp.Lookups.{queue-with_key}
use agent_workboard.App.FollowUp.Candidates.{resolve_candidates-accepts}
use agent_workboard.App.FollowUp.Rows.{IsAdvance, one}

unless_ok :
    {A E : Type 0} (b : Bool) (e : E) {x y : A}
    → ◌≡◌ {A = Result A E} (if b then err e else ok x) (ok y)
    → (b ≡ false) × (x ≡ y)
unless_ok true e h = cc
unless_ok false e h = (refl, ok-injective h)

module _ (digest : Text → Text) where
  -- A row that holds a request.
  pub record IsFor (r : SendSessionFollowUp) (f : FollowUp) : Type 0 where
    pub key : f.idempotency_key ≡ r.idempotency_key
    pub owner : parse_owner f.feature_id f.work_item_id ≡ ok r.owner
    pub same : is_other r (digest r.text) r.owner f ≡ false

  parse_owner_total :
      (a b : Option ℕ) → one a b ≡ true → (o : HierarchyOwner) × (parse_owner a b ≡ ok o)
  unfolding parse_owner one
  parse_owner_total none none h = cc
  parse_owner_total none (some b) h = (work_item b, refl)
  parse_owner_total (some a) none h = (feature a, refl)
  parse_owner_total (some a) (some b) h = cc

  parse_owner-owner_columns :
      (o : HierarchyOwner) {c : Option ℕ × Option ℕ}
      → owner_columns o ≡ ok c
      → parse_owner c.0 c.1 ≡ ok o
  unfolding parse_owner owner_columns
  parse_owner-owner_columns (workspace id) h = cc
  parse_owner-owner_columns (epic id) h = cc
  parse_owner-owner_columns (feature id) h = sym (ap (λ x. parse_owner x.0 x.1) (ok-injective h))
  parse_owner-owner_columns (work_item id) h = sym (ap (λ x. parse_owner x.0 x.1) (ok-injective h))

  same_owner_self : (o : HierarchyOwner) → same_owner o o ≡ true
  unfolding same_owner
  same_owner_self (workspace id) = (==_iff id id).1 refl
  same_owner_self (epic id) = (==_iff id id).1 refl
  same_owner_self (feature id) = (==_iff id id).1 refl
  same_owner_self (work_item id) = (==_iff id id).1 refl

  inserted-IsFor :
      (id ws : ℕ) (t : Tables) (r : SendSessionFollowUp) {after : Tables}
      {o : SessionFollowUpOutcome} (i : IsInserted digest id t ws r after o)
      → IsFor r (inserted digest id t ws r i.target i.columns)
  unfolding is_other new_row accepts
  inserted-IsFor id ws t r i = record {
    key = refl;
    owner = parse_owner-owner_columns r.owner i.owned;
    same =
        all_false (same_owner_self r.owner)
          (asked r.session_id _ (resolve_candidates-accepts t r.owner r.session_id i.resolved))
          ((==_iff _ _).1 i.generation) ((text_eq_iff (digest r.text) _).1 refl);
  }
    where
      asked :
          (sid : Option ℕ) (n : ℕ)
          → accepts sid n ≡ true
          → is_some_and sid (λ x. not (x == n)) ≡ false
      asked none n h = refl
      asked (some x) n h = ground arith

      all_false :
          {a b c d : Bool}
          → a ≡ true
          → b ≡ false
          → c ≡ true
          → d ≡ true
          → (((not a || b) || not c) || not d) ≡ false
      all_false h k l m = ground arith

  same_owner_sound : (a b : HierarchyOwner) → same_owner a b ≡ true → a ≡ b
  unfolding same_owner
  same_owner_sound (workspace a) (workspace b) h = ap workspace ((==_iff _ _).0 h)
  same_owner_sound (workspace a) (epic b) h = cc
  same_owner_sound (workspace a) (feature b) h = cc
  same_owner_sound (workspace a) (work_item b) h = cc
  same_owner_sound (epic a) (epic b) h = ap epic ((==_iff _ _).0 h)
  same_owner_sound (epic a) (workspace b) h = cc
  same_owner_sound (epic a) (feature b) h = cc
  same_owner_sound (epic a) (work_item b) h = cc
  same_owner_sound (feature a) (feature b) h = ap feature ((==_iff _ _).0 h)
  same_owner_sound (feature a) (workspace b) h = cc
  same_owner_sound (feature a) (epic b) h = cc
  same_owner_sound (feature a) (work_item b) h = cc
  same_owner_sound (work_item a) (work_item b) h = ap work_item ((==_iff _ _).0 h)
  same_owner_sound (work_item a) (workspace b) h = cc
  same_owner_sound (work_item a) (epic b) h = cc
  same_owner_sound (work_item a) (feature b) h = cc

  -- A row with the key that is not another request holds the request.
  same-IsFor :
      (r : SendSessionFollowUp) (f : FollowUp) {o : HierarchyOwner}
      → f.idempotency_key ≡ r.idempotency_key
      → parse_owner f.feature_id f.work_item_id ≡ ok o
      → is_other r (digest r.text) o f ≡ false
      → IsFor r f
  unfolding is_other
  same-IsFor r f {o} key parsed same =
      let owner = same_owner_sound o r.owner (first _ _ _ _ same) in
      record {
        key = key;
        owner = parsed ∙ ap ok owner;
        same = ap (λ x. is_other r (digest r.text) x f) (sym owner) ∙ same;
      }
    where
      first : (a b c d : Bool) → (((not a || b) || c) || d) ≡ false → a ≡ true
      first a b c d h = ground arith

  read_outcome-id :
      (rows : List FollowUp) (id : ℕ) {o : SessionFollowUpOutcome}
      → read_outcome rows id ≡ ok o
      → o.follow_up_id ≡ id
  unfolding read_outcome outcome_of by_id
  read_outcome-id rows id h =
      let (f, e, h1) = >>=-eq-ok (ok_or (find (by_id id) rows) database) _ h in
      let (own, _, h2) = >>=-eq-ok (parse_owner f.feature_id f.work_item_id) _ h1 in
      sym (ap (λ x. x.follow_up_id) (ok-injective h2))
      ∙ (==_iff _ _).0 (find_sound (by_id id) rows (ok_or-eq-ok _ _ e)).1

  -- What a successful request leaves: a row that holds it, and whose identifier is the answer's.
  pub record IsHolding (r : SendSessionFollowUp) (rows : List FollowUp) (id : ℕ) : Type 0 where
    pub valid : validate_request r ≡ ok tt
    pub row : FollowUp
    pub member : Memᴰ row rows
    pub request : IsFor r row
    pub identity : row.id ≡ id

  module _ (id : ℕ) (t : Tables) (ws : ℕ) (r : SendSessionFollowUp) {after : Tables}
      {o : SessionFollowUpOutcome} (s : IsStored t.session_follow_ups)
      (h : queue digest id t ws r ≡ ok (after, o)) where
    queue-valid :
        (validate_request r ≡ ok tt)
        × ((read_by_idempotency t.session_follow_ups r.idempotency_key
              >>= replay_or_insert digest id t ws r)
            ≡ ok (after, o))
    unfolding queue
    queue-valid = let (u, valid, h1) = >>=-eq-ok (validate_request r) _ h in (valid, h1)

    inserted_holds :
        find (with_key r.idempotency_key) t.session_follow_ups ≡ none
        → IsHolding r after.session_follow_ups o.follow_up_id
    unfolding replay_or_insert read_by_idempotency read_found
    inserted_holds e =
        let i = insert_sound digest id t ws r (
          sym (ap (λ x. read_found t.session_follow_ups x >>= replay_or_insert digest id t ws r) e)
          ∙ queue-valid.1) in
        let n = inserted digest id t ws r i.target i.columns in
        record {
          valid = queue-valid.0;
          row = n;
          member =
              subst (λ x. Memᴰ n x.session_follow_ups) (sym i.tables)
                (Memᴰ.append_right t.session_follow_ups (Memᴰ.head refl));
          request = inserted-IsFor id ws t r i;
          identity = sym (read_outcome-id _ id i.outcome);
        }

    replayed_holds :
        (f : FollowUp)
        → find (with_key r.idempotency_key) t.session_follow_ups ≡ some f
        → IsHolding r after.session_follow_ups o.follow_up_id
    unfolding with_key outcome_of
    replayed_holds f e =
        let (m, same) = find_sound (with_key r.idempotency_key) t.session_follow_ups e in
        let key = (text_eq_iff f.idempotency_key r.idempotency_key).0 same in
        let (own, parsed) =
          parse_owner_total f.feature_id f.work_item_id ((s.rows_sound f m).owned) in
        let answer = sym (queue-with_key digest t s f m id ws r queue-valid.0 key parsed) ∙ h in
        let (fits, pair) =
          unless_ok (is_other r (digest r.text) own f) idempotency_conflict answer in
        record {
          valid = queue-valid.0;
          row = f;
          member = subst (λ x. Memᴰ f x.session_follow_ups) (ap (λ x. x.0) pair) m;
          request = same-IsFor r f key parsed fits;
          identity = ap (λ x. x.1.follow_up_id) pair;
        }

    pub queue-IsHolding : IsHolding r after.session_follow_ups o.follow_up_id
    queue-IsHolding = elim (Option-cases (find (with_key r.idempotency_key) t.session_follow_ups)) [
      | inl e ↦ inserted_holds e
      | inr (f, e) ↦ replayed_holds f e
    ]

  -- A row that has advanced still holds its request.
  pub advanced-IsFor :
      {r : SendSessionFollowUp} {f g : FollowUp} → IsAdvance f g → IsFor r f → IsFor r g
  unfolding is_other
  advanced-IsFor {r} a i = record {
    key = a.kept.idempotency_key ∙ i.key;
    owner = ap₂ parse_owner a.kept.feature_id a.kept.work_item_id ∙ i.owner;
    same = rw a.kept.session_id (rw a.kept.binding_generation (rw a.kept.instruction_hash i.same));
  }
