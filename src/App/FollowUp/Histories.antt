-- ===== src/App/FollowUp/Histories.antt =====
-- Histories of the tables: operations of any workers, and of the other parts of the program.
use mathlib.Core.List.Memᴰ
use agent_workboard.Prelude.{
  ℕ, Bool, true, List, [], ◌∷◌, Option, Text, length, ◌≡◌, sym, subst, ap, inl, inr, Memᴰ, ok,
  Result,
}
use agent_workboard.App.FollowUp.{FollowUp, Tables, SendSessionFollowUp, SessionFollowUpOutcome}
use agent_workboard.App.FollowUp.Queue.{queue}
use agent_workboard.App.FollowUp.Lease.{lease_next, Generated, LeasedFollowUp}
use agent_workboard.App.FollowUp.Delivery.{FollowUpDeliveryFailure, finish_delivery}
use agent_workboard.App.FollowUp.Rows.{IsAdvance, IsAdvance-refl, IsAdvance-trans, is_settled}
use agent_workboard.App.FollowUp.Stored.{IsStored, map-IsStored, append-IsStored}
use agent_workboard.App.FollowUp.Insertions.{
  queue-cases, inserted, new_row-IsRow, owner_columns-one,
}
use agent_workboard.App.FollowUp.Steps.{
  IsAdvanced, lease_next-IsAdvanced, finish_delivery-IsAdvanced,
}

module _ (digest : Text → Text) where
  -- One operation of a worker, or a change that other parts of the program make to the tables that
  -- they own.
  pub data Step : Tables → Tables → Type 0 where
    queued :
        {t after : Tables} (id ws : ℕ) (r : SendSessionFollowUp) {o : SessionFollowUpOutcome}
        → queue digest id t ws r ≡ ok (after, o)
        → Step t after
    leases :
        {t after : Tables} (g : Generated) (sid : Option ℕ) (now : ℕ) {l : Option LeasedFollowUp}
        → lease_next digest g t sid now ≡ ok (after, l)
        → Step t after
    finishes :
        {t after : Tables} (id : ℕ) (token : Text) (d : Result Text FollowUpDeliveryFailure)
        (now : ℕ) {o : SessionFollowUpOutcome}
        → finish_delivery t id token d now ≡ ok (after, o)
        → Step t after
    elsewhere : {t after : Tables} → after.session_follow_ups ≡ t.session_follow_ups → Step t after

  pub data History : Tables → Tables → Type 0 where
    start : {t : Tables} → History t t
    further : {t u v : Tables} → History t u → Step u v → History t v

  module _ (hex : (s : Text) → length (digest s) ≡ 64) where
    advanced-IsStored :
        {touched : FollowUp → Bool} {rows after : List FollowUp}
        → IsAdvanced touched rows after
        → IsStored rows
        → IsStored after
    advanced-IsStored {rows} a s = subst IsStored (sym a.same) (map-IsStored a.set rows a.steps s)

    Step-IsStored :
        {t after : Tables}
        → Step t after
        → IsStored t.session_follow_ups
        → IsStored after.session_follow_ups
    Step-IsStored {t} (queued id ws r h) s = elim ((queue-cases digest id t ws r h).1) [
      | inl e ↦ subst (λ x. IsStored x.session_follow_ups) (sym e) s
      | inr i ↦
          subst (λ x. IsStored x.session_follow_ups) (sym i.tables)
            (append-IsStored t.session_follow_ups (inserted digest id t ws r i.target i.columns)
              (new_row-IsRow digest hex id ws r i.target i.columns t.session_follow_ups
                (queue-cases digest id t ws r h).0 (owner_columns-one r.owner i.owned) i.fresh)
              i.fresh s)
    ]
    Step-IsStored {t} (leases g sid now h) s =
        advanced-IsStored (lease_next-IsAdvanced digest g t now s sid h) s
    Step-IsStored {t} (finishes id token d now h) s =
        advanced-IsStored (finish_delivery-IsAdvanced t id token d now h) s
    Step-IsStored (elsewhere e) s = subst IsStored (sym e) s

    -- If the digest has 64 characters, then the table's constraints on its rows and its unique columns
    -- hold after any history of operations, if they held before it: no update needs their check.
    pub History-IsStored :
        {t after : Tables}
        → History t after
        → IsStored t.session_follow_ups
        → IsStored after.session_follow_ups
    History-IsStored start s = s
    History-IsStored (further h step) s = Step-IsStored step (History-IsStored h s)

    advanced-mem :
        {touched : FollowUp → Bool} {rows after : List FollowUp}
        → IsAdvanced touched rows after
        → (f : FollowUp) → Memᴰ f rows
        → (g : FollowUp) × Memᴰ g after × IsAdvance f g
    advanced-mem a f m =
        (a.set f, subst (Memᴰ (a.set f)) (sym a.same) (Memᴰ.map a.set m), a.steps f m)

    same_rows-mem :
        {rows after : List FollowUp}
        → after ≡ rows
        → (f : FollowUp) → Memᴰ f rows
        → (g : FollowUp) × Memᴰ g after × IsAdvance f g
    same_rows-mem e f m = (f, subst (Memᴰ f) (sym e) m, IsAdvance-refl f)

    Step-mem :
        {t after : Tables}
        → Step t after
        → IsStored t.session_follow_ups
        → (f : FollowUp) → Memᴰ f t.session_follow_ups
        → (g : FollowUp) × Memᴰ g after.session_follow_ups × IsAdvance f g
    Step-mem {t} (queued id ws r h) s f m = elim ((queue-cases digest id t ws r h).1) [
      | inl e ↦ same_rows-mem (ap (λ x. x.session_follow_ups) e) f m
      | inr i ↦ (
        f,
        subst (λ x. Memᴰ f x.session_follow_ups) (sym i.tables)
            (Memᴰ.append_left (inserted digest id t ws r i.target i.columns ∷ []) m),
        IsAdvance-refl f,
      )
    ]
    Step-mem {t} (leases g sid now h) s f m =
        advanced-mem (lease_next-IsAdvanced digest g t now s sid h) f m
    Step-mem {t} (finishes id token d now h) s f m =
        advanced-mem (finish_delivery-IsAdvanced t id token d now h) f m
    Step-mem (elsewhere e) s f m = same_rows-mem e f m

    -- Through any history, a row keeps its identifier, owner, session, binding, sequence number and
    -- key, and its attempts are counted upwards.
    pub History-mem :
        {t after : Tables}
        → History t after
        → IsStored t.session_follow_ups
        → (f : FollowUp) → Memᴰ f t.session_follow_ups
        → (g : FollowUp) × Memᴰ g after.session_follow_ups × IsAdvance f g
    History-mem start s f m = (f, m, IsAdvance-refl f)
    History-mem (further h step) s f m =
        let (g, n, a) = History-mem h s f m in
        let (k, o, b) = Step-mem step (History-IsStored h s) g n in (k, o, IsAdvance-trans a b)

    -- A row that is delivered or has failed stays in the table as it is, through any history.
    pub History-is_settled :
        {t after : Tables}
        → History t after
        → IsStored t.session_follow_ups
        → (f : FollowUp) → Memᴰ f t.session_follow_ups
        → is_settled f ≡ true
        → Memᴰ f after.session_follow_ups
    History-is_settled {after} h s f m e =
        let (g, n, a) = History-mem h s f m in
        subst (λ x. Memᴰ x after.session_follow_ups) (a.final e) n
