-- ===== src/App/FollowUp/Advances.antt =====
-- What each update sets in a row, as an advance of the row.
use agent_workboard.Prelude.{
  ℕ, ◌≤◌, Bool, true, false, ◌||◌, Option, Text, ◌≡◌, refl, sym, ◌∙◌, arith, or-eq-false,
  and-eq-true, ◌&&◌,
}
use agent_workboard.App.FollowUp.{
  SessionFollowUpStatus, same_status, pending, leased, delivered, failed, FollowUp, is_in, by_id,
}
use agent_workboard.App.FollowUp.Lease.{evidence_changed, lease_to}
use agent_workboard.App.FollowUp.Query.{is_due}
use agent_workboard.App.FollowUp.Delivery.{
  deliver_to, fail_with, FollowUpDeliveryFailure, status_after, holds_lease,
  FollowUpDeliveryFailureKind, deferred, rejected, uncertain,
}
use agent_workboard.App.FollowUp.Rows.{IsRow, IsAdvance, is_settled, is_some}

pub is_due-is_settled : (now : ℕ) (f : FollowUp) → is_due now f ≡ true → is_settled f ≡ false
unfolding is_due is_settled is_in
is_due-is_settled now f h = finished f.status _ h
  where
    finished :
        (s : SessionFollowUpStatus) (b : Bool)
        → (same_status pending s || (same_status leased s && b)) ≡ true
        → (same_status delivered s || same_status failed s) ≡ false
    finished pending b h = refl
    finished leased b h = refl
    finished delivered b h = cc
    finished failed b h = cc

-- A row with new values in the columns that the updates set.
pub advance :
    (f : FollowUp) (s : SessionFollowUpStatus) (token : Option Text) (until : Option ℕ) (n : ℕ)
    (receipt failure : Option Text) (at : Option ℕ)
    → is_settled f ≡ false
    → f.attempt_count ≤ n
    → (same_status leased s ≡ is_some token) × (same_status leased s ≡ is_some until)
    → (IsRow f
        → (same_status delivered s ≡ is_some receipt) × (same_status delivered s ≡ is_some at))
    → IsAdvance f (record f {
      status = s;
      lease_token = token;
      leased_until = until;
      attempt_count = n;
      receipt = receipt;
      failure = failure;
      delivered_at = at;
    })
unfolding is_in
advance f s token until n receipt failure at unfinished more leasing delivering = record {
  kept = record {
    id = refl;
    feature_id = refl;
    work_item_id = refl;
    session_id = refl;
    binding_generation = refl;
    sequence = refl;
    idempotency_key = refl;
    instruction_hash = refl;
    attempts = more;
  };
  final = λ e. cc;
  row = λ r. record {
    bound = r.bound;
    checked_out = r.checked_out;
    numbered = r.numbered;
    keyed = r.keyed;
    worded = r.worded;
    hashed = r.hashed;
    owned = r.owned;
    tokened = leasing.0;
    timed = leasing.1;
    receipted = (delivering r).0;
    dated = (delivering r).1;
  };
}

-- An unfinished row has no receipt.
undelivered :
    (f : FollowUp)
    → is_settled f ≡ false
    → IsRow f
    → (false ≡ is_some f.receipt) × (false ≡ is_some f.delivered_at)
unfolding is_settled
undelivered f unfinished r =
    let e = (or-eq-false (is_in delivered f) _ unfinished).0 in
    (sym e ∙ r.receipted, sym e ∙ r.dated)

pub evidence_changed-IsAdvance :
    (f : FollowUp) → is_settled f ≡ false → IsAdvance f (evidence_changed f)
unfolding evidence_changed is_some
evidence_changed-IsAdvance f unfinished =
    advance f _ _ _ _ _ _ _ unfinished (omega arith) (refl, refl) (undelivered f unfinished)

pub lease_to-IsAdvance :
    (token : Text) (now n : ℕ) (f : FollowUp)
    → is_settled f ≡ false
    → f.attempt_count ≤ n
    → IsAdvance f (lease_to token now n f)
unfolding lease_to is_some
lease_to-IsAdvance token now n f unfinished more =
    advance f _ _ _ _ _ _ _ unfinished more (refl, refl) (undelivered f unfinished)

pub deliver_to-IsAdvance :
    (receipt : Text) (now : ℕ) (f : FollowUp)
    → is_settled f ≡ false
    → IsAdvance f (deliver_to receipt now f)
unfolding deliver_to is_some
deliver_to-IsAdvance receipt now f unfinished =
    advance f _ _ _ _ _ _ _ unfinished (omega arith) (refl, refl) (λ _. (refl, refl))

-- A failure leaves a row pending or failed.
status_after-open :
    (k : FollowUpDeliveryFailureKind)
    → (same_status leased (status_after k) ≡ false)
      × (same_status delivered (status_after k) ≡ false)
unfolding status_after
status_after-open deferred = (refl, refl)
status_after-open rejected = (refl, refl)
status_after-open uncertain = (refl, refl)

pub fail_with-IsAdvance :
    (failure : FollowUpDeliveryFailure) (f : FollowUp)
    → is_settled f ≡ false
    → IsAdvance f (fail_with failure f)
unfolding fail_with is_some
fail_with-IsAdvance failure f unfinished =
    let (a, b) = status_after-open failure.kind in
    advance f _ _ _ _ _ _ _ unfinished (omega arith) (a, a)
      (λ r. (b ∙ (undelivered f unfinished r).0, b ∙ (undelivered f unfinished r).1))

pub holds_lease-is_settled :
    (id : ℕ) (token : Text) (f : FollowUp) → holds_lease id token f ≡ true → is_settled f ≡ false
unfolding holds_lease is_settled is_in
holds_lease-is_settled id token f h =
    held f.status (and-eq-true (by_id id f) _ (and-eq-true (by_id id f && is_in leased f) _ h).0).1
  where
    held :
        (s : SessionFollowUpStatus)
        → same_status leased s ≡ true
        → (same_status delivered s || same_status failed s) ≡ false
    held pending h = cc
    held leased h = refl
    held delivered h = cc
    held failed h = cc
