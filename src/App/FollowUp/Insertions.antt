-- ===== src/App/FollowUp/Insertions.antt =====
-- What `queue` leaves of the tables.
use agent_workboard.Prelude.{
  ℕ, ◌^◌, true, false, not, List, [], ◌∷◌, ◌++◌, Option, none, some, Text, length, is_empty, leb,
  ◌≡◌, refl, sym, ap, ◌∙◌, ◌⊎◌, inl, inr, arith, ==_iff, ◌==◌, ok, passed, >>=-eq-ok, ok-injective,
  is_blank, not-eq-false,
}
use agent_workboard.Core.Hierarchy.{HierarchyOwner, feature, work_item, workspace, epic}
use agent_workboard.App.FollowUp.{
  FollowUp, Tables, is_in, read_outcome, SendSessionFollowUp, owner_columns, SessionFollowUpOutcome,
}
use agent_workboard.App.FollowUp.Queue.{
  violates, queue, insert, replay, new_row, FollowUpTarget, resolve_candidates, only, is_invalid,
  read_by_idempotency, replay_or_insert, validate_request,
}
use agent_workboard.App.FollowUp.Rows.{IsRow, one, is_some}
use agent_workboard.App.FollowUp.Stored.{violates-positive}

is_empty-is_blank : (s : Text) → is_blank s ≡ false → is_empty s ≡ false
unfolding is_blank
is_empty-is_blank [] h = cc
is_empty-is_blank (c ∷ s) h = refl

pub owner_columns-one :
    (o : HierarchyOwner) {c : Option ℕ × Option ℕ} → owner_columns o ≡ ok c → one c.0 c.1 ≡ true
unfolding owner_columns one
owner_columns-one (workspace id) h = cc
owner_columns-one (epic id) h = cc
owner_columns-one (feature id) h = sym (ap (λ x. one x.0 x.1) (ok-injective h))
owner_columns-one (work_item id) h = sym (ap (λ x. one x.0 x.1) (ok-injective h))

only-eq-ok : (l : List FollowUpTarget) {x : FollowUpTarget} → only l ≡ ok x → l ≡ x ∷ []
unfolding only
only-eq-ok [] h = cc
only-eq-ok (y ∷ []) h = ap (λ z. z ∷ []) (ok-injective h)
only-eq-ok (y ∷ z ∷ l) h = cc

module _ (digest : Text → Text) (id : ℕ) (t : Tables) (ws : ℕ) (r : SendSessionFollowUp) where
  abbrev pub inserted : FollowUpTarget → Option ℕ × Option ℕ → FollowUp
  inserted target columns = new_row id ws r (digest r.text) target columns t.session_follow_ups

  -- A row that `insert` has inserted.
  pub record IsInserted (after : Tables) (o : SessionFollowUpOutcome) : Type 0 where
    pub target : FollowUpTarget
    pub columns : Option ℕ × Option ℕ
    pub resolved : resolve_candidates t r.owner r.session_id ≡ ok (target ∷ [])
    pub generation : target.binding_generation ≡ r.expected_binding_generation
    pub owned : owner_columns r.owner ≡ ok columns
    pub fresh : violates t.session_follow_ups (inserted target columns) ≡ false
    pub outcome : read_outcome (t.session_follow_ups ++ inserted target columns ∷ []) id ≡ ok o
    pub tables :
        after
        ≡ record t { session_follow_ups = t.session_follow_ups ++ inserted target columns ∷ [] }

  pub insert_sound :
      {after : Tables} {o : SessionFollowUpOutcome}
      → insert digest id t ws r ≡ ok (after, o)
      → IsInserted after o
  unfolding insert
  insert_sound h =
      let (l, a, h1) = >>=-eq-ok (resolve_candidates t r.owner r.session_id) _ h in
      let (target, b, h2) = >>=-eq-ok (only l) _ h1 in
      let (d, h3) =
        passed (not (target.binding_generation == r.expected_binding_generation)) _ _ h2 in
      let (c, e, h4) = >>=-eq-ok (owner_columns r.owner) _ h3 in
      let (_, h5) = passed (leb (2 ^ 63) target.checkout_generation) _ _ h4 in
      let (f, h6) = passed (violates t.session_follow_ups (inserted target c)) _ _ h5 in
      let (o2, g, h7) =
        >>=-eq-ok (read_outcome (t.session_follow_ups ++ inserted target c ∷ []) id) _ h6 in
      let pair = ok-injective h7 in
      record {
        target = target;
        columns = c;
        resolved = a ∙ ap (λ z. ok z) (only-eq-ok l b);
        generation = (==_iff _ _).0 (not-eq-false _ d);
        owned = e;
        fresh = f;
        outcome = g ∙ ap (λ z. ok z.1) pair;
        tables = sym (ap (λ z. z.0) pair);
      }

  by_found :
      (found : Option SessionFollowUpOutcome) {after : Tables} {o : SessionFollowUpOutcome}
      → replay_or_insert digest id t ws r found ≡ ok (after, o)
      → (after ≡ t) ⊎ IsInserted after o
  unfolding replay_or_insert
  by_found none h = inr (insert_sound h)
  by_found (some x) h =
      let (o2, _, h1) = >>=-eq-ok (replay digest t.session_follow_ups r x) _ h in
      inl (sym (ap (λ z. z.0) (ok-injective h1)))

  -- `queue` leaves the tables as they are, or inserts a row for a valid request.
  pub queue-cases :
      {after : Tables} {o : SessionFollowUpOutcome}
      → queue digest id t ws r ≡ ok (after, o)
      → (is_invalid r ≡ false) × ((after ≡ t) ⊎ IsInserted after o)
  unfolding queue validate_request
  queue-cases h =
      let (u, valid, h1) = >>=-eq-ok (validate_request r) _ h in
      let (found, e, h2) =
        >>=-eq-ok (read_by_idempotency t.session_follow_ups r.idempotency_key) _ h1 in
      ((passed (is_invalid r) _ _ valid).0, by_found found h2)

module _ (digest : Text → Text) (hex : (s : Text) → length (digest s) ≡ 64) where
  pub new_row-IsRow :
      (id ws : ℕ) (r : SendSessionFollowUp) (target : FollowUpTarget) (c : Option ℕ × Option ℕ)
      (rows : List FollowUp)
      → is_invalid r ≡ false
      → one c.0 c.1 ≡ true
      → violates rows (new_row id ws r (digest r.text) target c rows) ≡ false
      → IsRow (new_row id ws r (digest r.text) target c rows)
  unfolding new_row is_invalid is_in is_some
  new_row-IsRow id ws r target c rows valid owned fresh = record {
    bound = (violates-positive rows (new_row id ws r (digest r.text) target c rows) fresh).0;
    checked_out = (violates-positive rows (new_row id ws r (digest r.text) target c rows) fresh).1;
    numbered = omega arith;
    keyed = is_empty-is_blank _ (ground arith);
    worded = is_empty-is_blank _ (ground arith);
    hashed = hex r.text;
    owned = owned;
    tokened = refl;
    timed = refl;
    receipted = refl;
    dated = refl;
  }
