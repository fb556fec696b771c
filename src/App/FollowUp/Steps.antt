-- ===== src/App/FollowUp/Steps.antt =====
-- What each operation does to the rows: it advances them, and `queue` adds one at most.
use agent_workboard.Prelude.{
  keep-mem, ℕ, ◌+◌, Bool, true, false, List, [], ◌∷◌, map, Option, none, some, Text, if◌then◌else◌,
  Bool-cases, ◌≡◌, refl, sym, subst, ap, ◌∙◌, ◌⊎◌, inl, inr, arith, ==_iff, Memᴰ, and-eq-true, ok,
  err, passed, >>=-eq-ok, ok-injective, Result, leb, ◌-◌, ◌^◌,
}
use agent_workboard.App.FollowUp.{FollowUp, Tables, by_id, read_outcome, SessionFollowUpOutcome}
use agent_workboard.App.FollowUp.Lease.{
  evidence_changed, lease_to, lease_next, lease_found, lease_row, grant, lease_from,
  violates_credential, new_credential, fail_or_lease, update, Generated, LeasedFollowUp,
  is_leasable,
}
use agent_workboard.App.FollowUp.Query.{
  precedes, sooner, is_due, earliest, next_row, joined, Evidence, has_changed,
}
use agent_workboard.App.FollowUp.Delivery.{
  deliver_to, fail_with, FollowUpDeliveryFailure, holds_lease, finish_delivery,
}
use agent_workboard.App.FollowUp.Rows.{IsAdvance, IsAdvance-refl, update_advances}
use agent_workboard.App.FollowUp.Stored.{IsStored}
use agent_workboard.App.FollowUp.Advances.{
  is_due-is_settled, evidence_changed-IsAdvance, lease_to-IsAdvance, deliver_to-IsAdvance,
  fail_with-IsAdvance, holds_lease-is_settled,
}

sooner-cases : (f : FollowUp) (o : Option FollowUp) → (sooner f o ≡ f) ⊎ (o ≡ some (sooner f o))
unfolding sooner
sooner-cases f none = inl refl
sooner-cases f (some g) = elim (Bool-cases (precedes g f)) [
  | inl e ↦ inr (rw e refl)
  | inr e ↦ inl (rw e refl)
]

earliest-mem : (rows : List FollowUp) {f : FollowUp} → earliest rows ≡ some f → Memᴰ f rows
unfolding earliest
earliest-mem [] h = cc
earliest-mem (r ∷ rows) {f} h =
    let same : sooner r (earliest rows) ≡ f = cc in
    elim (sooner-cases r (earliest rows)) [
      | inl e ↦ Memᴰ.head (sym same ∙ e)
      | inr e ↦ Memᴰ.tail (earliest-mem rows (e ∙ ap some same))
    ]

-- The row that is leased is one of the rows, and due.
pub next_row_sound :
    (t : Tables) (sid : Option ℕ) (now : ℕ) {f : FollowUp}
    → next_row t sid now ≡ some f
    → Memᴰ f t.session_follow_ups × (is_due now f ≡ true)
unfolding next_row
next_row_sound t sid now h =
    let (m, e) = keep-mem _ t.session_follow_ups (earliest-mem _ h) in (m, (and-eq-true _ _ e).1)

-- Rows that are an advance of others, in their places, and of which only some have changed.
pub record IsAdvanced (touched : FollowUp → Bool) (rows after : List FollowUp) : Type 0 where
  pub set : FollowUp → FollowUp
  pub same : after ≡ map set rows
  pub steps : (f : FollowUp) → Memᴰ f rows → IsAdvance f (set f)
  pub rest : (f : FollowUp) → Memᴰ f rows → touched f ≡ false → set f ≡ f

map_id : (rows : List FollowUp) → rows ≡ map (λ f. f) rows
map_id [] = refl
map_id (f ∷ rows) = ap (λ r. f ∷ r) (map_id rows)

pub IsAdvanced-refl :
    {touched : FollowUp → Bool} {rows after : List FollowUp}
    → after ≡ rows
    → IsAdvanced touched rows after
IsAdvanced-refl {rows} e = record {
  set = λ f. f;
  same = e ∙ map_id rows;
  steps = λ f _. IsAdvance-refl f;
  rest = λ f _ _. refl;
}

update_rows :
    (touched test : FollowUp → Bool) (set : FollowUp → FollowUp) (t : Tables)
    {after : List FollowUp}
    → ((f : FollowUp)
        → Memᴰ f t.session_follow_ups
        → test f ≡ true
        → IsAdvance f (set f) × (touched f ≡ true))
    → after ≡ (update test set t).session_follow_ups
    → IsAdvanced touched t.session_follow_ups after
unfolding update
update_rows touched test set t h e = record {
  set = λ f. if test f then set f else f;
  same = e;
  steps = λ f m. update_advances test set f (λ holds. (h f m holds).0);
  rest = λ f m untouched. elim (Bool-cases (test f)) [
    | inl holds ↦ absurd (clash ((h f m holds).1) untouched)
    | inr fails ↦ rw fails refl
  ];
}
  where
    clash : {b : Bool} → b ≡ true → b ≡ false → ⊥
    clash e h = cc

pub finish_delivery-IsAdvanced :
    (t : Tables) (id : ℕ) (token : Text) (d : Result Text FollowUpDeliveryFailure) (now : ℕ)
    {after : Tables} {o : SessionFollowUpOutcome}
    → finish_delivery t id token d now ≡ ok (after, o)
    → IsAdvanced (holds_lease id token) t.session_follow_ups after.session_follow_ups
unfolding finish_delivery
finish_delivery-IsAdvanced t id token (ok receipt) now h =
    let (_, h1) = passed _ _ _ h in
    let (o, _, h2) = >>=-eq-ok (read_outcome _ id) _ h1 in
    update_rows (holds_lease id token) (holds_lease id token) (deliver_to receipt now) t
      (λ f m e. (deliver_to-IsAdvance receipt now f (holds_lease-is_settled id token f e), e))
      (sym (ap (λ x. x.0.session_follow_ups) (ok-injective h2)))
finish_delivery-IsAdvanced t id token (err failure) now h =
    let (o, _, h2) = >>=-eq-ok (read_outcome _ id) _ h in
    update_rows (holds_lease id token) (holds_lease id token) (fail_with failure) t
      (λ f m e. (fail_with-IsAdvance failure f (holds_lease-is_settled id token f e), e))
      (sym (ap (λ x. x.0.session_follow_ups) (ok-injective h2)))

module _ (digest : Text → Text) (g : Generated) (t : Tables) (now : ℕ) {after : Tables}
    {l : Option LeasedFollowUp} (s : IsStored t.session_follow_ups) where
  grant-rows :
      (u : Tables) (f : FollowUp) (e : Evidence) (b : Bool)
      → grant digest g u now f e b ≡ ok (after, l)
      → after.session_follow_ups ≡ u.session_follow_ups
  unfolding grant
  grant-rows u f e false h = sym (ap (λ x. x.0.session_follow_ups) (ok-injective h))
  grant-rows u f e true h =
      let (_, h1) =
        passed (violates_credential digest u.workflow_credentials (new_credential digest g f now)) _
          _ h in
      sym (ap (λ x. x.0.session_follow_ups) (ok-injective h1))

  fail_or_lease-IsAdvanced :
      (f : FollowUp) (e : Evidence) (b : Bool)
      → Memᴰ f t.session_follow_ups
      → is_due now f ≡ true
      → fail_or_lease digest g t now f e b ≡ ok (after, l)
      → IsAdvanced (is_due now) t.session_follow_ups after.session_follow_ups
  unfolding fail_or_lease lease_row by_id is_leasable
  fail_or_lease-IsAdvanced f e true m due h =
      update_rows (is_due now) (by_id f.id) evidence_changed t
        (λ r n same.
          let due_too =
            subst (λ x. is_due now x ≡ true) (s.ids f r m n (sym ((==_iff _ _).0 same))) due in
          (evidence_changed-IsAdvance r (is_due-is_settled now r due_too), due_too))
        (sym (ap (λ x. x.0.session_follow_ups) (ok-injective h)))
  fail_or_lease-IsAdvanced f e false m due h =
      let (_, h1) = passed (leb (2 ^ 32 - 1) f.attempt_count) _ _ h in
      update_rows (is_due now) (is_leasable f.id now)
        (lease_to g.lease_token now (f.attempt_count + 1)) t
        (λ r n same.
          let (a, b) = and-eq-true (by_id f.id r) (is_due now r) same in
          let counts = ap (λ x. x.attempt_count) (s.ids f r m n (sym ((==_iff _ _).0 a))) in
          (
            lease_to-IsAdvance g.lease_token now (f.attempt_count + 1) r (is_due-is_settled now r b)
                (omega (arith, counts)),
            b,
          ))
        (grant-rows _ f e _ h1)

  lease_found-IsAdvanced :
      (f : FollowUp) (e : Option Evidence)
      → Memᴰ f t.session_follow_ups
      → is_due now f ≡ true
      → lease_found digest g t now f e ≡ ok (after, l)
      → IsAdvanced (is_due now) t.session_follow_ups after.session_follow_ups
  unfolding lease_found
  lease_found-IsAdvanced f none m due h =
      IsAdvanced-refl (sym (ap (λ x. x.0.session_follow_ups) (ok-injective h)))
  lease_found-IsAdvanced f (some e) m due h = fail_or_lease-IsAdvanced f e (has_changed f e) m due h

  lease_from-IsAdvanced :
      (o : Option FollowUp)
      → ((f : FollowUp) → o ≡ some f → Memᴰ f t.session_follow_ups × (is_due now f ≡ true))
      → lease_from digest g t now o ≡ ok (after, l)
      → IsAdvanced (is_due now) t.session_follow_ups after.session_follow_ups
  unfolding lease_from
  lease_from-IsAdvanced none sound h =
      IsAdvanced-refl (sym (ap (λ x. x.0.session_follow_ups) (ok-injective h)))
  lease_from-IsAdvanced (some f) sound h =
      let (m, due) = sound f refl in lease_found-IsAdvanced f (joined t f) m due h

  pub lease_next-IsAdvanced :
      (sid : Option ℕ)
      → lease_next digest g t sid now ≡ ok (after, l)
      → IsAdvanced (is_due now) t.session_follow_ups after.session_follow_ups
  unfolding lease_next
  lease_next-IsAdvanced sid h =
      lease_from-IsAdvanced (next_row t sid now) (λ f e. next_row_sound t sid now e) h
