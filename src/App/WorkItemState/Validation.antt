-- ===== src/App/WorkItemState/Validation.antt =====
-- Which texts and entries of an update pass their checks.
use agent_workboard.Prelude.{
  ◌*◌, ◌≡◌, refl, ◌≤◌, ◌↔◌, false, List, [], ◌∷◌, Option, none, some, Text, len, is_blank, any, All,
  ltb→ge, le→ltb, ◌==◌, Result, ok, >>=-eq-ok, reject_if-eq-ok, or-eq-false,
}
use agent_workboard.Core.WorkItemState.{WorkItemBlocker, WorkItemDecision, WorkItemVerification}
use agent_workboard.App.Error.{AppError}
use agent_workboard.App.WorkItemState.{
  validate_text, is_invalid_text, for_each, validate_blocker, validate_decision, validate_evidence,
  validate_verification, max_text_bytes,
}

-- A text that shows something, of 8192 bytes and without a NUL.
pub record IsProse (t : Text) : Type 0 where
  pub visible : is_blank t ≡ false
  pub bounded : len t ≤ 8 * 1024
  pub no_nul : any (λ c. c == 0) t ≡ false

pub validate_text_iff : (t : Text) → (validate_text t ≡ ok tt) ↔ IsProse t
unfolding validate_text is_invalid_text
validate_text_iff t = (
  λ h.
      let (ab, c) = or-eq-false _ _ (reject_if-eq-ok _ _ h) in
      let (a, b) = or-eq-false _ _ ab in record { visible = a; bounded = ltb→ge _ _ b; no_nul = c },
  λ p. simp (p.visible, le→ltb max_text_bytes (len t) p.bounded, p.no_nul),
)

pub for_each_iff {ℓ} :
    {A : Type ℓ} (body : A → Result (Unit {0}) AppError) (P : A → Type 0)
    → ((x : A) → (body x ≡ ok tt) ↔ P x)
    → (xs : List A) → (for_each body xs ≡ ok tt) ↔ All P xs
unfolding for_each
for_each_iff body P each [] = (λ h. tt, λ h. refl)
for_each_iff body P each (x ∷ xs) = (
  λ h. let (u, a, b) = >>=-eq-ok (body x) _ h in ((each x).0 a, (for_each_iff body P each xs).0 b),
  λ (p, ps). simp ((each x).1 p, (for_each_iff body P each xs).1 ps),
)

abbrev pub IsBlocker : WorkItemBlocker → Type 0
IsBlocker b = All IsProse (b.description ∷ b.owner ∷ b.unblock_action ∷ b.resume_when ∷ [])

abbrev pub IsDecision : WorkItemDecision → Type 0
IsDecision d = IsProse d.decision × IsProse d.rationale

pub IsEvidence : Option Text → Type 0
IsEvidence none = Unit
IsEvidence (some t) = IsProse t

abbrev pub IsVerification : WorkItemVerification → Type 0
IsVerification v = IsProse v.check × IsEvidence v.evidence

pub IsBlocker-iff : (b : WorkItemBlocker) → (validate_blocker b ≡ ok tt) ↔ IsBlocker b
unfolding validate_blocker
IsBlocker-iff b =
    for_each_iff validate_text IsProse validate_text_iff
      (b.description ∷ b.owner ∷ b.unblock_action ∷ b.resume_when ∷ [])

pub IsDecision-iff : (d : WorkItemDecision) → (validate_decision d ≡ ok tt) ↔ IsDecision d
unfolding validate_decision
IsDecision-iff d = (
  λ h.
      let (u, a, b) = >>=-eq-ok (validate_text d.decision) _ h in
      ((validate_text_iff d.decision).0 a, (validate_text_iff d.rationale).0 b),
  λ (p, q). simp ((validate_text_iff d.decision).1 p, (validate_text_iff d.rationale).1 q),
)

IsEvidence-iff : (o : Option Text) → (validate_evidence o ≡ ok tt) ↔ IsEvidence o
unfolding validate_evidence IsEvidence
IsEvidence-iff none = (λ h. tt, λ h. refl)
IsEvidence-iff (some t) = validate_text_iff t

pub IsVerification-iff :
    (v : WorkItemVerification) → (validate_verification v ≡ ok tt) ↔ IsVerification v
unfolding validate_verification
IsVerification-iff v = (
  λ h.
      let (u, a, b) = >>=-eq-ok (validate_text v.check) _ h in
      ((validate_text_iff v.check).0 a, (IsEvidence-iff v.evidence).0 b),
  λ (p, q). simp ((validate_text_iff v.check).1 p, (IsEvidence-iff v.evidence).1 q),
)
