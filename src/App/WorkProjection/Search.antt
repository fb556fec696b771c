-- ===== src/App/WorkProjection/Search.antt =====
-- The search ends with a layer, or with an error that a cycle of the dependencies explains.
use mathlib.Core.List.Memᴰ
use agent_workboard.Prelude.{
  ℕ, zero, suc, ◌+◌, ◌≤◌, ◌<◌, Bool, true, false, not, ◌||◌, List, [], ◌∷◌, Option, none, some,
  keep-mem, keep, length, ◌==◌, ==_iff, Bool-cases, ◌≡◌, refl, sym, subst, ap, ◌∙◌, inl, inr, Memᴰ,
  ok, err, Result, arith, ◌>>=◌, max,
}
use agent_workboard.App.WorkProjection.{
  Edges, Memo, contains, layer_of, from, saturating_add, Stop, cyclic, layer_above, record_layer,
  enter, visit, dependency_layer,
}

-- A chain of dependencies from one item to another.
pub data Chain (edges : Edges) : ℕ → ℕ → Type 0 where
  here : {a : ℕ} → Chain edges a a
  onward : {a b c : ℕ} → Memᴰ (a, b) edges → Chain edges b c → Chain edges a c

extend : {edges : Edges} {a b c : ℕ} → Chain edges a b → Memᴰ (b, c) edges → Chain edges a c
extend here m = onward m here
extend (onward n chain) m = onward n (extend chain m)

-- An item that the first one depends on, over any number of edges, and that depends on itself.
pub record Cycle (edges : Edges) (root : ℕ) : Type 0 where
  pub item : ℕ
  pub dependency : ℕ
  pub edge : Memᴰ (item, dependency) edges
  pub back : Chain edges dependency item
  pub found : Chain edges root item

-- A result, or the error with its reason.
pub data IsOutcome (edges : Edges) (root : ℕ) : Result (ℕ × Memo) Stop → Type 0 where
  found : (x : ℕ × Memo) → IsOutcome edges root (ok x)
  refused : Cycle edges root → IsOutcome edges root (err cyclic)

length-keep-le :
    {A : Type 0} (p q : A → Bool) (xs : List A)
    → ((x : A) → q x ≡ true → p x ≡ true)
    → length (keep q xs) ≤ length (keep p xs)
length-keep-le p q [] h = omega arith
length-keep-le p q (x ∷ xs) h = let i = h x in ground (arith, length-keep-le p q xs h)

length-keep-lt :
    {A : Type 0} (p q : A → Bool) (xs : List A) {x : A}
    → ((x : A) → q x ≡ true → p x ≡ true)
    → Memᴰ x xs
    → p x ≡ true
    → q x ≡ false
    → length (keep q xs) < length (keep p xs)
length-keep-lt p q [] h m e f = absurd (Memᴰ.not-nil m)
length-keep-lt p q (y ∷ xs) h (Memᴰ.head same) e f =
    let e2 = sym (ap p same) ∙ e in
    let f2 = sym (ap q same) ∙ f in rw e2 (rw f2 (omega (arith, length-keep-le p q xs h)))
length-keep-lt p q (y ∷ xs) h (Memᴰ.tail m) e f =
    let i = h y in ground (arith, length-keep-lt p q xs h m e f)

length-keep : {A : Type 0} (p : A → Bool) (xs : List A) → length (keep p xs) ≤ length xs
length-keep p [] = omega arith
length-keep p (x ∷ xs) = ground (arith, length-keep p xs)

-- The edges of the items that are not being visited.
unvisited : List ℕ → Edges → ℕ
unvisited visiting edges = length (keep (λ e. not (contains visiting e.0)) edges)

unvisited-cons :
    (edges : Edges) (visiting : List ℕ) {id d : ℕ}
    → Memᴰ (id, d) edges
    → contains visiting id ≡ false
    → unvisited (id ∷ visiting) edges < unvisited visiting edges
unfolding unvisited contains
unvisited-cons edges visiting {id} m new =
    length-keep-lt (λ e. not (contains visiting e.0)) (λ e. not (contains (id ∷ visiting) e.0))
      edges (λ x h. ground arith) m (rw new refl) (rw ((==_iff id id).1 refl) refl)

from-mem : (edges : Edges) (id : ℕ) {e : ℕ × ℕ} → Memᴰ e (from id edges) → Memᴰ (id, e.1) edges
unfolding from
from-mem edges id {e} m =
    let (n, same) = keep-mem (λ x. x.0 == id) edges m in
    subst (λ x. Memᴰ (x, e.1) edges) ((==_iff _ _).0 same) n

-- The loop has an outcome, if the search below each of the dependencies has one.
layer_above-IsOutcome :
    (all : Edges) (root : ℕ) (below : ℕ → Memo → Result (ℕ × Memo) Stop) (edges : Edges)
    → ((e : ℕ × ℕ) → Memᴰ e edges → (memo : Memo) → IsOutcome all root (below e.1 memo))
    → (layer : ℕ) (memo : Memo) → IsOutcome all root (layer_above below edges layer memo)
unfolding layer_above
layer_above-IsOutcome all root below [] h layer memo = found (layer, memo)
layer_above-IsOutcome all root below (e ∷ edges) h layer memo =
    go (below e.1 memo) (h e (Memᴰ.head refl) memo)
      (λ l m. layer_above-IsOutcome all root below edges (λ x n. h x (Memᴰ.tail n)) l m)
  where
    go :
        (r : Result (ℕ × Memo) Stop)
        → IsOutcome all root r
        → ((l : ℕ) (m : Memo) → IsOutcome all root (layer_above below edges l m))
        → IsOutcome all root
            (r >>= (λ (l, m). layer_above below edges (max layer (saturating_add l 1)) m))
    go _ (found (l, m)) rest = rest (max layer (saturating_add l 1)) m
    go _ (refused c) rest = refused c

record_layer-IsOutcome :
    {all : Edges} {root : ℕ} (id : ℕ) (r : Result (ℕ × Memo) Stop)
    → IsOutcome all root r
    → IsOutcome all root (record_layer id r)
unfolding record_layer
record_layer-IsOutcome id _ (found (l, m)) = found (l, (id, l) ∷ m)
record_layer-IsOutcome id _ (refused c) = refused c

module _ (edges : Edges) (root : ℕ) where
  -- Each item that is being visited depends on the one that the search enters.
  LeadTo : List ℕ → ℕ → Type 0
  LeadTo visiting id =
      (v : ℕ) → contains visiting v ≡ true → (d : ℕ) × Memᴰ (v, d) edges × Chain edges d id

  LeadTo-cons :
      (visiting : List ℕ) (id : ℕ) {d : ℕ}
      → LeadTo visiting id
      → Memᴰ (id, d) edges
      → LeadTo (id ∷ visiting) d
  unfolding LeadTo contains
  LeadTo-cons visiting id {d} lead m v h = elim (Bool-cases (id == v)) [
    | inl e ↦ (d, subst (λ x. Memᴰ (x, d) edges) ((==_iff _ _).0 e) m, here)
    | inr e ↦ let (d2, n, chain) = lead v (skipped _ e h) in (d2, n, extend chain m)
  ]
    where
      skipped : (b : Bool) {c : Bool} → b ≡ false → (b || c) ≡ true → c ≡ true
      skipped b e h = ground arith

  enter-IsOutcome :
      (below : ℕ → Memo → Result (ℕ × Memo) Stop) (id : ℕ) (memo : Memo) (visiting : List ℕ)
      (known : Option ℕ) (visited : Bool)
      → Chain edges root id
      → (visited ≡ true → (d : ℕ) × Memᴰ (id, d) edges × Chain edges d id)
      → (visited ≡ false
          → (d : ℕ) → Memᴰ (id, d) edges
          → (memo : Memo) → IsOutcome edges root (below d memo))
      → IsOutcome edges root (enter below edges id memo known visited)
  unfolding enter
  enter-IsOutcome below id memo visiting (some l) visited chain back h = found (l, memo)
  enter-IsOutcome below id memo visiting none true chain back h =
      let (d, m, c) = back refl in
      refused (record { item = id; dependency = d; edge = m; back = c; found = chain })
  enter-IsOutcome below id memo visiting none false chain back h = record_layer-IsOutcome id _ (
      layer_above-IsOutcome edges root below (from id edges)
        (λ e m memo. h refl e.1 (from-mem edges id m) memo) 0 memo)

  visit-IsOutcome :
      (fuel id : ℕ) (memo : Memo) (visiting : List ℕ)
      → unvisited visiting edges < fuel
      → Chain edges root id
      → LeadTo visiting id
      → IsOutcome edges root (visit fuel edges id memo visiting)
  unfolding visit LeadTo
  visit-IsOutcome zero id memo visiting enough chain lead = absurd (omega arith)
  visit-IsOutcome (suc fuel) id memo visiting enough chain lead =
      enter-IsOutcome (λ d m. visit fuel edges d m (id ∷ visiting)) id memo visiting
        (layer_of memo id) (contains visiting id) chain (lead id)
        (λ new d m memo.
          visit-IsOutcome fuel d memo (id ∷ visiting)
            (omega (arith, unvisited-cons edges visiting m new)) (extend chain m)
            (LeadTo-cons visiting id lead m))

-- The search from an item always ends within its fuel: with a layer, or with the error for a cycle
-- that the item depends on.
pub dependency_layer-IsOutcome :
    (edges : Edges) (id : ℕ) → IsOutcome edges id (dependency_layer id edges)
unfolding dependency_layer LeadTo contains unvisited
dependency_layer-IsOutcome edges id =
    visit-IsOutcome edges id (length edges + 1) id [] []
      (omega (arith, length-keep (λ e. not (contains [] e.0)) edges)) here (λ v h. cc)
