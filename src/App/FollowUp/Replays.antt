-- ===== src/App/FollowUp/Replays.antt =====
-- A request that is repeated with its key.
use agent_workboard.Prelude.{
  ℕ, Bool, true, not, ◌||◌, Text, length, ◌≡◌, refl, sym, ◌∙◌, inl, inr, Memᴰ, ok, err, text_eq,
  text_eq_iff, ◌==◌, Bool-cases, is_some_and, ◌≢◌, or-eq-false, not-eq-false, or_right,
}
use agent_workboard.Core.Hierarchy.{HierarchyOwner}
use agent_workboard.App.Error.{idempotency_conflict}
use agent_workboard.App.FollowUp.{
  SendSessionFollowUp, SessionFollowUpOutcome, FollowUp, Tables, outcome_of,
}
use agent_workboard.App.FollowUp.Queue.{queue, validate_request, is_other, same_owner}
use agent_workboard.App.FollowUp.Stored.{IsStored}
use agent_workboard.App.FollowUp.Lookups.{queue-with_key}
use agent_workboard.App.FollowUp.Holding.{IsFor, IsHolding, queue-IsHolding, advanced-IsFor}
use agent_workboard.App.FollowUp.Histories.{
  History, History-mem, History-IsStored, further, start, queued,
}

unmatched : SendSessionFollowUp → HierarchyOwner → FollowUp → Bool
unmatched r owner f =
    not (same_owner owner r.owner)
    || is_some_and r.session_id (λ id. not (id == f.session_id))
    || not (f.binding_generation == r.expected_binding_generation)

module _ (digest : Text → Text) (hex : (s : Text) → length (digest s) ≡ 64) (id : ℕ) (t : Tables)
    (ws : ℕ) (r : SendSessionFollowUp) {after later : Tables} {o : SessionFollowUpOutcome}
    (s : IsStored t.session_follow_ups) (h : queue digest id t ws r ≡ ok (after, o))
    (history : History digest after later) where
  after-IsStored : IsStored after.session_follow_ups
  after-IsStored = History-IsStored digest hex (further start (queued id ws r h)) s

  later-IsHolding : IsHolding digest r later.session_follow_ups o.follow_up_id
  later-IsHolding =
      let i = queue-IsHolding digest id t ws r s h in
      let (g, m, a) = History-mem digest hex history after-IsStored i.row i.member in
      record {
        valid = i.valid;
        row = g;
        member = m;
        request = advanced-IsFor digest a i.request;
        identity = a.kept.id ∙ i.identity;
      }

  -- A request that has succeeded is answered, after any history, with the row that it queued, as
  -- it is then, and changes nothing.
  pub queue_replays :
      (new_id new_ws : ℕ)
      → (g : FollowUp) × Memᴰ g later.session_follow_ups
        × (g.id ≡ o.follow_up_id)
        × (queue digest new_id later new_ws r ≡ ok (later, outcome_of g r.owner))
  queue_replays new_id new_ws =
      let i = later-IsHolding in
      (
        i.row,
        i.member,
        i.identity,
        queue-with_key digest later (History-IsStored digest hex history after-IsStored) i.row
              i.member new_id new_ws r i.valid i.request.key i.request.owner
            ∙ rw i.request.same refl,
      )

  -- After any history, a valid request with the key of one that has succeeded is refused, if its
  -- text has another digest.
  pub queue_conflicts :
      (new_id new_ws : ℕ) (other : SendSessionFollowUp)
      → validate_request other ≡ ok tt
      → other.idempotency_key ≡ r.idempotency_key
      → digest other.text ≢ digest r.text
      → queue digest new_id later new_ws other ≡ err idempotency_conflict
  unfolding is_other unmatched
  queue_conflicts new_id new_ws other valid key apart =
      let i = later-IsHolding in
      queue-with_key digest later (History-IsStored digest hex history after-IsStored) i.row
        i.member new_id new_ws other valid (i.request.key ∙ sym key) i.request.owner
      ∙ rw (differs i.row i.request) refl
    where
      differs :
          (g : FollowUp) → IsFor digest r g → is_other other (digest other.text) r.owner g ≡ true
      differs g i =
          let hash : g.instruction_hash ≡ digest r.text =
            (text_eq_iff _ _).0 (not-eq-false _ (or-eq-false (unmatched r r.owner g) _ i.same).1) in
          or_right (unmatched other r.owner g)
            (elim (Bool-cases (text_eq g.instruction_hash (digest other.text))) [
              | inl e ↦ absurd (apart (sym ((text_eq_iff _ _).0 e) ∙ hash))
              | inr e ↦ rw e refl
            ])
