-- ===== src/App/WorkProjection/Readiness.antt =====
-- When a work item is ready, and that exactly then it can be started.
use mathlib.Core.List.Memᴰ
use agent_workboard.Prelude.{
  ℕ, Bool, true, false, not, ◌&&◌, List, [], ◌∷◌, Option, none, some, Text, any, all, keep-mem,
  mem-keep, find, is_empty, ◌==◌, ==_iff, Bool-cases, ◌≡◌, ◌↔◌, refl, sym, subst, ap, ◌∙◌, inl, inr,
  Memᴰ, ok, >>=-eq-ok, ok-injective, and-eq-true, arith,
}
use agent_workboard.Core.Hierarchy.{HierarchyOwner, WorkItem}
use agent_workboard.Core.Actions.{enabled_action, disabled}
use agent_workboard.App.WorkProjection.{
  Edges, WorkItemDependencyFact, WorkItemReadiness, contains, from, fact, add_fact, facts,
  unsatisfied, is_launchable, dependency_satisfied, dependency_layer, readiness,
}
use agent_workboard.App.WorkProjection.Actions.{SessionChoice, start_action, plain_start}

-- Every dependency among the items is in review or done, and waits for no integration.
pub IsSatisfied : WorkItem → List WorkItem → Edges → List ℕ → Type 0
IsSatisfied item items edges blockers =
    (d : ℕ) (x : WorkItem)
    → Memᴰ (item.id, d) edges
    → find (λ i. i.id == d) items ≡ some x
    → (dependency_satisfied x.status ≡ true) × (contains blockers x.id ≡ false)

is_empty-unsatisfied :
    (ds : List WorkItemDependencyFact) → is_empty (unsatisfied ds) ≡ all (λ d. d.satisfied) ds
unfolding unsatisfied
is_empty-unsatisfied [] = refl
is_empty-unsatisfied (d ∷ ds) = elim (Bool-cases d.satisfied) [
  | inl e ↦ rw e (is_empty-unsatisfied ds)
  | inr e ↦ rw e refl
]

fact_iff :
    (blockers : List ℕ) (x : WorkItem)
    → ((fact blockers x).satisfied ≡ true)
      ↔ ((dependency_satisfied x.status ≡ true) × (contains blockers x.id ≡ false))
unfolding fact
fact_iff blockers x = both (dependency_satisfied x.status) (contains blockers x.id)
  where
    both : (a b : Bool) → ((a && not b) ≡ true) ↔ ((a ≡ true) × (b ≡ false))
    both a b = ground arith

all-add_fact :
    (blockers : List ℕ) (o : Option WorkItem) (ds : List WorkItemDependencyFact)
    → (all (λ d. d.satisfied) (add_fact blockers o ds) ≡ true) ↔ (
        ((x : WorkItem) → o ≡ some x → (fact blockers x).satisfied ≡ true)
        × (all (λ d. d.satisfied) ds ≡ true))
unfolding add_fact
all-add_fact blockers none ds = (λ h. (λ x e. cc, h), λ (_, h). h)
all-add_fact blockers (some y) ds = (
  λ h.
      let (a, b) = and-eq-true (fact blockers y).satisfied _ h in
      (λ x e. subst (λ z. (fact blockers z).satisfied ≡ true) (unwrap e) a, b),
  λ (f, h). rw (f y refl) h,
)
  where
    unwrap : {x : WorkItem} → some y ≡ some x → y ≡ x
    unwrap e = cc

all-facts :
    (items : List WorkItem) (blockers : List ℕ) (edges : Edges)
    → (all (λ d. d.satisfied) (facts items blockers edges) ≡ true) ↔ (
        (e : ℕ × ℕ) (x : WorkItem)
        → Memᴰ e edges
        → find (λ i. i.id == e.1) items ≡ some x
        → (fact blockers x).satisfied ≡ true)
unfolding facts
all-facts items blockers [] = (λ h e x m. absurd (Memᴰ.not-nil m), λ h. refl)
all-facts items blockers (e ∷ edges) =
    let rest = all-facts items blockers edges in
    let here = all-add_fact blockers (find (λ i. i.id == e.1) items) (facts items blockers edges) in
    (
      λ h e2 x m found.
          let (a, b) = here.0 h in
          elim (Memᴰ.cases_cons m) [
            | inl same ↦ a x (ap (λ y. find (λ i. i.id == y.1) items) (sym same) ∙ found)
            | inr n ↦ rest.0 b e2 x n found
          ],
      λ h.
          here.1 (λ x found. h e x (Memᴰ.head refl) found, rest.1 (λ e2 x n. h e2 x (Memᴰ.tail n))),
    )

IsSatisfied-iff :
    (item : WorkItem) (items : List WorkItem) (edges : Edges) (blockers : List ℕ)
    → (is_empty (unsatisfied (facts items blockers (from item.id edges))) ≡ true)
      ↔ IsSatisfied item items edges blockers
unfolding IsSatisfied from
IsSatisfied-iff item items edges blockers =
    let every = all-facts items blockers (from item.id edges) in
    let same = is_empty-unsatisfied (facts items blockers (from item.id edges)) in
    (
      λ h d x m found. (fact_iff blockers x).0 (
          every.0 (sym same ∙ h) (item.id, d) x
            (mem-keep (λ e. e.0 == item.id) edges m ((==_iff item.id item.id).1 refl)) found),
      λ h.
          same
          ∙ every.1 λ e x m found.
            let (n, starts) = keep-mem (λ e. e.0 == item.id) edges m in
            (fact_iff blockers x).1
              (h e.1 x (subst (λ i. Memᴰ (i, e.1) edges) ((==_iff _ _).0 starts) n) found),
    )

start_action-ready :
    (decimal : ℕ → Text) (owner : HierarchyOwner) (r : WorkItemReadiness)
    (sessions : List SessionChoice)
    → (start_action decimal owner r sessions).enabled ≡ r.ready
unfolding start_action plain_start enabled_action disabled
start_action-ready decimal owner r sessions = elim (Bool-cases r.ready) [
  | inr e ↦ rw e refl
  | inl e ↦ elim (Bool-cases (any (λ s. s.primary_writer) sessions)) [
    | inl w ↦ rw e (rw w (plain_enabled (is_empty sessions)))
    | inr w ↦ rw e (rw w (plain_enabled (is_empty sessions)))
  ]
]
  where
    plain_enabled : (b : Bool) → (plain_start b owner).enabled ≡ true
    plain_enabled true = refl
    plain_enabled false = refl

-- Whenever the readiness of an item is found, its start is enabled exactly if its status is
-- launchable and each of its dependencies among the items is in review or done, and waits for no
-- integration.
pub start_action_iff :
    (decimal : ℕ → Text) (item : WorkItem) (items : List WorkItem) (edges : Edges)
    (blockers : List ℕ) (sessions : List SessionChoice) (r : WorkItemReadiness)
    → readiness item items edges blockers ≡ ok r
    → ((start_action decimal (HierarchyOwner.work_item item.id) r sessions).enabled ≡ true)
      ↔ ((is_launchable item.status ≡ true) × IsSatisfied item items edges blockers)
unfolding readiness
start_action_iff decimal item items edges blockers sessions r h =
    let ((layer, memo), _, h1) = >>=-eq-ok (dependency_layer item.id edges) _ h in
    let ready : r.ready ≡ (
        is_empty (unsatisfied (facts items blockers (from item.id edges)))
        && is_launchable item.status) =
      sym (ap (λ x. x.ready) (ok-injective h1)) in
    let on = start_action-ready decimal (HierarchyOwner.work_item item.id) r sessions in
    let sat = IsSatisfied-iff item items edges blockers in
    (
      λ e. let (a, b) = and-eq-true _ _ (sym ready ∙ sym on ∙ e) in (b, sat.0 a),
      λ (b, s). on ∙ ready ∙ rw (sat.1 s) b,
    )
