-- ===== src/App/FollowUp/Rows.antt =====
-- The rows of `session_follow_ups`: the constraints that the table checks, and how a row advances.
use agent_workboard.Prelude.{
  ℕ, ◌≤◌, ◌<◌, Bool, true, false, not, ◌||◌, Option, none, some, length, is_empty, is_none,
  if◌then◌else◌, Bool-cases, ◌≡◌, refl, ap, ◌∙◌, inl, inr, arith,
}
use agent_workboard.App.FollowUp.{leased, delivered, failed, FollowUp, is_in}

-- One of two columns is set.
unfoldable pub one : Option ℕ → Option ℕ → Bool
one none none = false
one none (some b) = true
one (some a) none = true
one (some a) (some b) = false

unfoldable pub is_some : {A : Type 0} → Option A → Bool
is_some o = not (is_none o)

-- The table's constraints on a row. That `attempt_count` is not negative is in its type.
pub record IsRow (f : FollowUp) : Type 0 where
  pub bound : 0 < f.binding_generation
  pub checked_out : 0 < f.checkout_generation
  pub numbered : 0 < f.sequence
  pub keyed : is_empty f.idempotency_key ≡ false
  pub worded : is_empty f.instruction ≡ false
  pub hashed : length f.instruction_hash ≡ 64
  pub owned : one f.feature_id f.work_item_id ≡ true
  pub tokened : is_in leased f ≡ is_some f.lease_token
  pub timed : is_in leased f ≡ is_some f.leased_until
  pub receipted : is_in delivered f ≡ is_some f.receipt
  pub dated : is_in delivered f ≡ is_some f.delivered_at

-- A row that no operation changes any more.
unfoldable pub is_settled : FollowUp → Bool
is_settled f = is_in delivered f || is_in failed f

-- What an operation leaves of a row that it changes.
pub record IsKept (f g : FollowUp) : Type 0 where
  pub id : g.id ≡ f.id
  pub feature_id : g.feature_id ≡ f.feature_id
  pub work_item_id : g.work_item_id ≡ f.work_item_id
  pub session_id : g.session_id ≡ f.session_id
  pub binding_generation : g.binding_generation ≡ f.binding_generation
  pub sequence : g.sequence ≡ f.sequence
  pub idempotency_key : g.idempotency_key ≡ f.idempotency_key
  pub instruction_hash : g.instruction_hash ≡ f.instruction_hash
  pub attempts : f.attempt_count ≤ g.attempt_count

pub record IsAdvance (f g : FollowUp) : Type 0 where
  pub kept : IsKept f g
  pub final : is_settled f ≡ true → g ≡ f
  pub row : IsRow f → IsRow g

pub IsAdvance-refl : (f : FollowUp) → IsAdvance f f
IsAdvance-refl f = record {
  kept = record {
    id = refl;
    feature_id = refl;
    work_item_id = refl;
    session_id = refl;
    binding_generation = refl;
    sequence = refl;
    idempotency_key = refl;
    instruction_hash = refl;
    attempts = omega arith;
  };
  final = λ _. refl;
  row = λ r. r;
}

-- An update advances the rows, if it advances those that its condition selects.
pub update_advances :
    (test : FollowUp → Bool) (set : FollowUp → FollowUp) (f : FollowUp)
    → (test f ≡ true → IsAdvance f (set f))
    → IsAdvance f (if test f then set f else f)
update_advances test set f h = elim (Bool-cases (test f)) [
  | inl e ↦ rw e (h e)
  | inr e ↦ rw e (IsAdvance-refl f)
]

pub IsAdvance-trans : {f g h : FollowUp} → IsAdvance f g → IsAdvance g h → IsAdvance f h
unfolding is_settled
IsAdvance-trans {f} {g} {h} a b = record {
  kept = record {
    id = b.kept.id ∙ a.kept.id;
    feature_id = b.kept.feature_id ∙ a.kept.feature_id;
    work_item_id = b.kept.work_item_id ∙ a.kept.work_item_id;
    session_id = b.kept.session_id ∙ a.kept.session_id;
    binding_generation = b.kept.binding_generation ∙ a.kept.binding_generation;
    sequence = b.kept.sequence ∙ a.kept.sequence;
    idempotency_key = b.kept.idempotency_key ∙ a.kept.idempotency_key;
    instruction_hash = b.kept.instruction_hash ∙ a.kept.instruction_hash;
    attempts = omega (arith, a.kept.attempts, b.kept.attempts);
  };
  final = λ e. b.final (ap is_settled (a.final e) ∙ e) ∙ a.final e;
  row = λ r. b.row (a.row r);
}
