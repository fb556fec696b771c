-- ===== src/App/FollowUp/Exclusive.antt =====
-- A lease excludes other workers until it expires.
use mathlib.Core.List.Memᴰ
use agent_workboard.Prelude.{
  ℕ, ◌<◌, Bool, false, List, ◌∷◌, [], some, Text, length, ◌≡◌, refl, sym, subst, inl, inr, Memᴰ,
  text_eq, text_eq_iff, ==_iff, ◌==◌, Bool-cases, arith,
}
use agent_workboard.App.FollowUp.{leased, FollowUp, Tables, is_in, by_id}
use agent_workboard.App.FollowUp.Query.{is_due}
use agent_workboard.App.FollowUp.Delivery.{holds_lease}
use agent_workboard.App.FollowUp.Insertions.{queue-cases, inserted}
use agent_workboard.App.FollowUp.Stored.{IsStored}
use agent_workboard.App.FollowUp.Steps.{
  IsAdvanced, lease_next-IsAdvanced, finish_delivery-IsAdvanced,
}
use agent_workboard.App.FollowUp.Histories.{Step, queued, leases, finishes, elsewhere}

-- A row that is leased with a token until an instant.
pub record IsHeld (f : FollowUp) (token : Text) (until : ℕ) : Type 0 where
  pub status : f.status ≡ leased
  pub lease_token : f.lease_token ≡ some token
  pub leased_until : f.leased_until ≡ some until

untouched-mem :
    {touched : FollowUp → Bool} {rows after : List FollowUp}
    → IsAdvanced touched rows after
    → (f : FollowUp) → Memᴰ f rows
    → touched f ≡ false
    → Memᴰ f after
untouched-mem {after} a f m e =
    subst (λ x. Memᴰ x after) (a.rest f m e)
      (subst (Memᴰ (a.set f)) (sym a.same) (Memᴰ.map a.set m))

IsHeld-is_due :
    {f : FollowUp} {token : Text} {until : ℕ} (now : ℕ)
    → IsHeld f token until
    → now < until
    → is_due now f ≡ false
unfolding is_due is_in
IsHeld-is_due now held early = rw held.status (rw held.leased_until (ground arith))

IsHeld-holds_lease :
    {f : FollowUp} {token : Text} {until : ℕ} (id : ℕ) (other : Text)
    → IsHeld f token until
    → ¬ ((id ≡ f.id) × (other ≡ token))
    → holds_lease id other f ≡ false
unfolding holds_lease by_id
IsHeld-holds_lease {f} {token} id other held differ = elim (Bool-cases (text_eq token other)) [
  | inl same ↦ elim (Bool-cases (f.id == id)) [
    | inl e ↦ absurd (differ (sym ((==_iff _ _).0 e), sym ((text_eq_iff _ _).0 same)))
    | inr e ↦ rw e refl
  ]
  | inr apart ↦ rw held.lease_token (rw apart (ground arith))
]

module _ (digest : Text → Text) (hex : (s : Text) → length (digest s) ≡ 64) where
  -- An operation that neither comes when the lease has expired nor names the row and its token.
  unfoldable pub IsForeign : FollowUp → Text → ℕ → {t after : Tables} → Step digest t after → Type 0
  IsForeign f token until (queued id ws r h) = Unit
  IsForeign f token until (leases g sid now h) = now < until
  IsForeign f token until (finishes id other d now h) = ¬ ((id ≡ f.id) × (other ≡ token))
  IsForeign f token until (elsewhere e) = Unit

  -- While a row is leased, no operation changes it that comes before the lease expires and does not
  -- end the delivery of this row with this token.
  pub Step-IsHeld :
      {t after : Tables} (step : Step digest t after) (f : FollowUp) (token : Text) (until : ℕ)
      → IsStored t.session_follow_ups
      → Memᴰ f t.session_follow_ups
      → IsHeld f token until
      → IsForeign f token until step
      → Memᴰ f after.session_follow_ups
  unfolding IsForeign
  Step-IsHeld {t} (queued id ws r h) f token until s m held foreign =
      elim ((queue-cases digest id t ws r h).1) [
        | inl e ↦ subst (λ x. Memᴰ f x.session_follow_ups) (sym e) m
        | inr i ↦
            subst (λ x. Memᴰ f x.session_follow_ups) (sym i.tables)
              (Memᴰ.append_left (inserted digest id t ws r i.target i.columns ∷ []) m)
      ]
  Step-IsHeld {t} (leases g sid now h) f token until s m held foreign =
      untouched-mem (lease_next-IsAdvanced digest g t now s sid h) f m
        (IsHeld-is_due now held foreign)
  Step-IsHeld {t} (finishes id other d now h) f token until s m held foreign =
      untouched-mem (finish_delivery-IsAdvanced t id other d now h) f m
        (IsHeld-holds_lease id other held foreign)
  Step-IsHeld (elsewhere e) f token until s m held foreign = subst (Memᴰ f) (sym e) m
