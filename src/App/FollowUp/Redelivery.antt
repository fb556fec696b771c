-- ===== src/App/FollowUp/Redelivery.antt =====
-- A delivery whose outcome is uncertain is not repeated.
use agent_workboard.Prelude.{
  ℕ, ◌+◌, ◌-◌, ◌^◌, ◌≤◌, Bool, true, false, Option, none, some, Text, ◌≡◌, refl, sym, ap, ◌∙◌, ok,
  err, Result, ok-injective, passed, ltb, leb, arith, length, keep, ◌==◌,
}
use agent_workboard.App.Error.{AppError}
use agent_workboard.App.FollowUp.{FollowUp, Tables}
use agent_workboard.App.FollowUp.Lease.{
  Generated, LeasedFollowUp, ProviderFollowUp, grant, lease_row, fail_or_lease, lease_found, update,
  is_leasable, lease_to, lease_from, lease_next, violates_credential, new_credential,
  leased_follow_up,
}
use agent_workboard.App.FollowUp.Query.{Evidence, next_row, joined, has_changed}
use agent_workboard.App.FollowUp.Delivery.{
  FollowUpExecutor, FollowUpDeliveryFailure, is_uncertain, after_reconcile, attempt, deliver_leased,
  after_lease, deliver_next,
}

-- A lease of a row, as its next attempt.
record IsLeaseOf (f : FollowUp) (l : LeasedFollowUp) : Type 0 where
  pub attempts : l.attempt_count ≡ f.attempt_count + 1
  pub failure : l.previous_failure ≡ f.failure

module _ (digest : Text → Text) (g : Generated) (now : ℕ) (f : FollowUp) {after : Tables}
    {l : LeasedFollowUp} where
  grant-IsLeaseOf :
      (t : Tables) (e : Evidence) (b : Bool)
      → grant digest g t now f e b ≡ ok (after, some l)
      → IsLeaseOf f l
  unfolding grant leased_follow_up
  grant-IsLeaseOf t e false h = cc
  grant-IsLeaseOf t e true h =
      let (_, h1) =
        passed (violates_credential digest t.workflow_credentials (new_credential digest g f now)) _
          _ h in
      leased (ap (λ x. x.1) (ok-injective h1))
    where
      leased : some (leased_follow_up g f e (f.attempt_count + 1)) ≡ some l → IsLeaseOf f l
      leased same =
          let p : leased_follow_up g f e (f.attempt_count + 1) ≡ l = cc in
          record {
            attempts = sym (ap (λ x. x.attempt_count) p);
            failure = sym (ap (λ x. x.previous_failure) p);
          }

  fail_or_lease-IsLeaseOf :
      (t : Tables) (e : Evidence) (b : Bool)
      → fail_or_lease digest g t now f e b ≡ ok (after, some l)
      → IsLeaseOf f l
  unfolding fail_or_lease lease_row
  fail_or_lease-IsLeaseOf t e true h = cc
  fail_or_lease-IsLeaseOf t e false h =
      grant-IsLeaseOf
        (update (is_leasable f.id now) (lease_to g.lease_token now (f.attempt_count + 1)) t) e
        (length (keep (is_leasable f.id now) t.session_follow_ups) == 1)
        (passed (leb (2 ^ 32 - 1) f.attempt_count) _ _ h).1

  lease_found-IsLeaseOf :
      (t : Tables) (e : Option Evidence)
      → lease_found digest g t now f e ≡ ok (after, some l)
      → IsLeaseOf f l
  unfolding lease_found
  lease_found-IsLeaseOf t none h = cc
  lease_found-IsLeaseOf t (some e) h = fail_or_lease-IsLeaseOf t e (has_changed f e) h

module _ (first second : FollowUpExecutor)
    (agree : (r : ProviderFollowUp) → first.reconcile r ≡ second.reconcile r) where
  after_reconcile-uncertain :
      (l : LeasedFollowUp) (found : Result (Option Text) FollowUpDeliveryFailure)
      → is_uncertain l.previous_failure ≡ true
      → after_reconcile first l found ≡ after_reconcile second l found
  unfolding after_reconcile
  after_reconcile-uncertain l (err failure) e = refl
  after_reconcile-uncertain l (ok (some receipt)) e = refl
  after_reconcile-uncertain l (ok none) e = rw e refl

  attempt-uncertain :
      (f : FollowUp) (l : LeasedFollowUp)
      → IsLeaseOf f l
      → is_uncertain f.failure ≡ true
      → 1 ≤ f.attempt_count
      → attempt first l ≡ attempt second l
  unfolding attempt
  attempt-uncertain f l i e tried =
      let again : ltb 1 l.attempt_count ≡ true = ground (arith, i.attempts) in
      rw again (
        rw (agree l.request) (
          after_reconcile-uncertain l (second.reconcile l.request) (ap is_uncertain i.failure ∙ e)))

  after_lease-uncertain :
      (digest : Text → Text) (g : Generated) (t : Tables) (now : ℕ) (f : FollowUp)
      (leasing : Result (Tables × Option LeasedFollowUp) AppError)
      → lease_found digest g t now f (joined t f) ≡ leasing
      → is_uncertain f.failure ≡ true
      → 1 ≤ f.attempt_count
      → after_lease t now first leasing ≡ after_lease t now second leasing
  unfolding after_lease deliver_leased
  after_lease-uncertain digest g t now f (err e) h uncertain tried = refl
  after_lease-uncertain digest g t now f (ok (after, none)) h uncertain tried = refl
  after_lease-uncertain digest g t now f (ok (after, some l)) h uncertain tried =
      rw
        (attempt-uncertain f l (lease_found-IsLeaseOf digest g now f t (joined t f) h) uncertain
          tried)
        refl

  -- If the next row has been tried and its last attempt ended uncertain, then what `deliver_next`
  -- does is the same with two executors that reconcile alike: it asks none of them to deliver.
  pub deliver_next-uncertain :
      (digest : Text → Text) (g : Generated) (t : Tables) (sid : Option ℕ) (now : ℕ) (f : FollowUp)
      → next_row t sid now ≡ some f
      → is_uncertain f.failure ≡ true
      → 1 ≤ f.attempt_count
      → deliver_next digest g t sid now first ≡ deliver_next digest g t sid now second
  unfolding deliver_next lease_next lease_from
  deliver_next-uncertain digest g t sid now f next uncertain tried =
      rw next (after_lease-uncertain digest g t now f _ refl uncertain tried)
