-- ===== src/App/WorkProjection/Layers.antt =====
-- The layers that a search finds: each item stands above everything that it depends on.
use mathlib.Core.List.Memᴰ
use agent_workboard.Prelude.{
  mem-keep, ℕ, zero, suc, ◌+◌, ◌-◌, ◌^◌, ◌≤◌, min, max, Bool, true, false, ◌||◌, List, [], ◌∷◌,
  Option, none, some, length, ◌==◌, ==_iff, Bool-cases, ◌≡◌, refl, sym, subst, ap, ◌∙◌, inl, inr,
  Memᴰ, ok, err, Result, arith, >>=-eq-ok, ok-injective,
}
use agent_workboard.App.WorkProjection.{
  Edges, Memo, contains, layer_of, from, saturating_add, Stop, layer_above, record_layer, enter,
  visit, dependency_layer,
}

-- The memo knows what an item in it depends on, in lower layers.
IsLayered : Edges → Memo → Type 0
IsLayered edges memo =
    (i l d : ℕ)
    → layer_of memo i ≡ some l
    → Memᴰ (i, d) edges
    → (k : ℕ) × (layer_of memo d ≡ some k) × (saturating_add k 1 ≤ l)

-- The memo knows no item that is being visited.
IsFresh : List ℕ → Memo → Type 0
IsFresh visiting memo = (v : ℕ) → contains visiting v ≡ true → layer_of memo v ≡ none

-- What one memo knows, the other knows.
Extends : Memo → Memo → Type 0
Extends memo known = (i l : ℕ) → layer_of memo i ≡ some l → layer_of known i ≡ some l

record IsKnown (edges : Edges) (visiting : List ℕ) (memo known : Memo) : Type 0 where
  pub layered : IsLayered edges known
  pub fresh : IsFresh visiting known
  pub extends : Extends memo known

module _ (all : Edges) (visiting : List ℕ) where
  -- A search below an item, from any memo.
  IsSearch : (ℕ → Memo → Result (ℕ × Memo) Stop) → Type 0
  IsSearch below =
      (d : ℕ) (memo known : Memo) (l : ℕ)
      → IsLayered all memo
      → IsFresh visiting memo
      → below d memo ≡ ok (l, known)
      → IsKnown all visiting memo known × (layer_of known d ≡ some l)

  layer_above-IsKnown :
      (below : ℕ → Memo → Result (ℕ × Memo) Stop)
      → IsSearch below
      → (edges : Edges) (layer : ℕ) (memo : Memo) (top : ℕ) (known : Memo) → IsLayered all memo
      → IsFresh visiting memo
      → layer_above below edges layer memo ≡ ok (top, known)
      → IsKnown all visiting memo known
        × (layer ≤ top)
        × ((e : ℕ × ℕ)
            → Memᴰ e edges
            → (k : ℕ) × (layer_of known e.1 ≡ some k) × (saturating_add k 1 ≤ top))
  unfolding layer_above IsSearch Extends
  layer_above-IsKnown below search [] layer memo top known lay fresh h =
      let same = ok-injective h in
      (
        record {
          layered = subst (λ x. IsLayered all x.1) same lay;
          fresh = subst (λ x. IsFresh visiting x.1) same fresh;
          extends = λ i l e. subst (λ x. layer_of x.1 i ≡ some l) same e;
        },
        subst (λ x. layer ≤ x.0) same (omega arith),
        λ e m. absurd (Memᴰ.not-nil m),
      )
  layer_above-IsKnown below search (e ∷ edges) layer memo top known lay fresh h =
      let ((l, mid), e1, h1) = >>=-eq-ok (below e.1 memo) _ h in
      let (a, at) = search e.1 memo mid l lay fresh e1 in
      let (b, above, rest) =
        layer_above-IsKnown below search edges (max layer (saturating_add l 1)) mid top known
          a.layered a.fresh h1 in
      (
        record {
          layered = b.layered;
          fresh = b.fresh;
          extends = λ i l e. b.extends i l (a.extends i l e);
        },
        omega (arith, above),
        λ x m. elim (Memᴰ.cases_cons m) [
          | inl same ↦
              (l, ap (λ y. layer_of known y.1) same ∙ b.extends e.1 l at, omega (arith, above))
          | inr n ↦ rest x n
        ],
      )

layer_of_self : (memo : Memo) (id top : ℕ) → layer_of ((id, top) ∷ memo) id ≡ some top
unfolding layer_of
layer_of_self memo id top = rw ((==_iff id id).1 refl) refl

layer_of-other :
    (memo : Memo) (id top i : ℕ)
    → (id == i) ≡ false
    → layer_of ((id, top) ∷ memo) i ≡ layer_of memo i
unfolding layer_of
layer_of-other memo id top i e = rw e refl

cons-Extends :
    (memo : Memo) (id top : ℕ) → layer_of memo id ≡ none → Extends memo ((id, top) ∷ memo)
unfolding Extends
cons-Extends memo id top new i l known = elim (Bool-cases (id == i)) [
  | inl e ↦ absurd (clash (ap (layer_of memo) ((==_iff _ _).0 e)))
  | inr e ↦ layer_of-other memo id top i e ∙ known
]
  where
    clash : layer_of memo id ≡ layer_of memo i → ⊥
    clash same = let e : none ≡ some l = sym new ∙ same ∙ known in cc

mem-from : (edges : Edges) {i d : ℕ} → Memᴰ (i, d) edges → Memᴰ (i, d) (from i edges)
unfolding from
mem-from edges {i} m = mem-keep (λ e. e.0 == i) edges m ((==_iff i i).1 refl)

module _ (all : Edges) (visiting : List ℕ) (id : ℕ) (memo : Memo) where
  IsFresh-cons : IsFresh visiting memo → layer_of memo id ≡ none → IsFresh (id ∷ visiting) memo
  unfolding IsFresh contains
  IsFresh-cons fresh new v h = elim (Bool-cases (id == v)) [
    | inl e ↦ ap (layer_of memo) (sym ((==_iff _ _).0 e)) ∙ new
    | inr e ↦ fresh v (skipped _ e h)
  ]
    where
      skipped : (b : Bool) {c : Bool} → b ≡ false → (b || c) ≡ true → c ≡ true
      skipped b e h = ground arith

  module _ (m : Memo) (l : ℕ) (a : IsKnown all (id ∷ visiting) memo m)
      (deps : (d : ℕ)
        → Memᴰ (id, d) all
        → (k : ℕ) × (layer_of m d ≡ some k) × (saturating_add k 1 ≤ l))
      (new : contains visiting id ≡ false) where
    unknown : layer_of m id ≡ none
    unfolding IsFresh contains
    unknown = a.fresh id (rw ((==_iff id id).1 refl) refl)

    still : (i k : ℕ) → layer_of m i ≡ some k → layer_of ((id, l) ∷ m) i ≡ some k
    unfolding Extends
    still i k e = cons-Extends m id l unknown i k e

    grown-IsLayered : IsLayered all ((id, l) ∷ m)
    unfolding IsLayered
    grown-IsLayered i n d at edge = elim (Bool-cases (id == i)) [
      | inl e ↦
          let same : id ≡ i = (==_iff _ _).0 e in
          let tops : some l ≡ some n =
            sym (layer_of_self m id l) ∙ ap (layer_of ((id, l) ∷ m)) same ∙ at in
          let (k, known, above) = deps d (subst (λ x. Memᴰ (x, d) all) (sym same) edge) in
          (k, still d k known, subst (λ x. saturating_add k 1 ≤ x) (unwrap tops) above)
      | inr e ↦
          let (k, known, above) = a.layered i n d (sym (layer_of-other m id l i e) ∙ at) edge in
          (k, still d k known, above)
    ]
      where
        unwrap : {x y : ℕ} → some x ≡ some y → x ≡ y
        unwrap h = cc

    grown-IsFresh : IsFresh visiting ((id, l) ∷ m)
    unfolding IsFresh contains
    grown-IsFresh v h = elim (Bool-cases (id == v)) [
      | inl e ↦ absurd (clash v (ap (contains visiting) ((==_iff id v).0 e)) h)
      | inr e ↦ layer_of-other m id l v e ∙ a.fresh v (behind (id == v) h)
    ]
      where
        clash :
            (v : ℕ) → contains visiting id ≡ contains visiting v → contains visiting v ≡ true → ⊥
        clash v same h = let e : true ≡ false = sym h ∙ sym same ∙ new in cc

        behind : (b : Bool) {c : Bool} → c ≡ true → (b || c) ≡ true
        behind b h = ground arith

    grown-IsKnown : IsKnown all visiting memo ((id, l) ∷ m)
    unfolding Extends
    grown-IsKnown = record {
      layered = grown-IsLayered;
      fresh = grown-IsFresh;
      extends = λ i k e. still i k (a.extends i k e);
    }

  record_layer-IsKnown :
      (r : Result (ℕ × Memo) Stop) (top : ℕ) (known : Memo)
      → ((l : ℕ) (m : Memo)
          → r ≡ ok (l, m)
          → IsKnown all (id ∷ visiting) memo m
            × ((d : ℕ)
                → Memᴰ (id, d) all
                → (k : ℕ) × (layer_of m d ≡ some k) × (saturating_add k 1 ≤ l)))
      → contains visiting id ≡ false
      → record_layer id r ≡ ok (top, known)
      → IsKnown all visiting memo known × (layer_of known id ≡ some top)
  unfolding record_layer
  record_layer-IsKnown (err e) top known h new eq = cc
  record_layer-IsKnown (ok (l, m)) top known h new eq =
      let (a, deps) = h l m refl in
      let same = ok-injective eq in
      (
        subst (λ x. IsKnown all visiting memo x.1) same (grown-IsKnown m l a deps new),
        subst (λ x. layer_of x.1 id ≡ some x.0) same (layer_of_self m id l),
      )

  enter-IsKnown :
      (below : ℕ → Memo → Result (ℕ × Memo) Stop)
      → IsSearch all (id ∷ visiting) below
      → (o : Option ℕ) (visited : Bool) → layer_of memo id ≡ o
      → contains visiting id ≡ visited
      → (top : ℕ) (known : Memo) → IsLayered all memo
      → IsFresh visiting memo
      → enter below all id memo o visited ≡ ok (top, known)
      → IsKnown all visiting memo known × (layer_of known id ≡ some top)
  unfolding enter Extends
  enter-IsKnown below search (some l) visited at seen top known lay fresh eq =
      let same = ok-injective eq in
      (
        record {
          layered = subst (λ x. IsLayered all x.1) same lay;
          fresh = subst (λ x. IsFresh visiting x.1) same fresh;
          extends = λ i k e. subst (λ x. layer_of x.1 i ≡ some k) same e;
        },
        subst (λ x. layer_of x.1 id ≡ some x.0) same at,
      )
  enter-IsKnown below search none true at seen top known lay fresh eq = cc
  enter-IsKnown below search none false at seen top known lay fresh eq =
      record_layer-IsKnown (layer_above below (from id all) 0 memo) top known
        (λ l m e.
          let (a, _, deps) =
            layer_above-IsKnown all (id ∷ visiting) below search (from id all) 0 memo l m lay
              (IsFresh-cons fresh at) e in
          (a, λ d edge. deps (id, d) (mem-from all edge)))
        seen eq

visit-IsKnown :
    (all : Edges) (fuel : ℕ) (visiting : List ℕ) (id : ℕ) (memo known : Memo) (top : ℕ)
    → IsLayered all memo
    → IsFresh visiting memo
    → visit fuel all id memo visiting ≡ ok (top, known)
    → IsKnown all visiting memo known × (layer_of known id ≡ some top)
unfolding visit IsSearch
visit-IsKnown all zero visiting id memo known top lay fresh eq = cc
visit-IsKnown all (suc fuel) visiting id memo known top lay fresh eq =
    enter-IsKnown all visiting id memo (λ d m. visit fuel all d m (id ∷ visiting))
      (λ d m k l a b e. visit-IsKnown all fuel (id ∷ visiting) d m k l a b e) (layer_of memo id)
      (contains visiting id) refl refl top known lay fresh eq

-- If the search from an item ends with a layer, then its memo has the item in this layer, and with
-- each item that it has, everything which that one depends on, in a layer at least one lower, or in
-- the highest that a 32-bit number can hold.
pub dependency_layer-IsLayered :
    (edges : Edges) (id top : ℕ) (memo : Memo)
    → dependency_layer id edges ≡ ok (top, memo)
    → (layer_of memo id ≡ some top)
      × ((i l d : ℕ)
          → layer_of memo i ≡ some l
          → Memᴰ (i, d) edges
          → (k : ℕ) × (layer_of memo d ≡ some k) × (min (k + 1) (2 ^ 32 - 1) ≤ l))
unfolding dependency_layer IsLayered IsFresh contains saturating_add layer_of
dependency_layer-IsLayered edges id top memo eq =
    let (a, at) =
      visit-IsKnown edges (length edges + 1) [] id [] memo top (λ i l d e. cc) (λ v e. cc) eq in
    (at, a.layered)
