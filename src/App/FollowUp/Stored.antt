-- ===== src/App/FollowUp/Stored.antt =====
-- The rows as a table: told apart by the unique columns, while they advance and when one is added.
use mathlib.Core.List.Memᴰ
use agent_workboard.Prelude.{
  ℕ, ◌<◌, Bool, true, false, ◌||◌, List, [], ◌∷◌, ◌++◌, map, ◌≡◌, refl, sym, subst, ap, ◌∙◌, inl,
  inr, arith, Memᴰ, ◌≢◌, text_eq_iff, any, or-eq-false, ==_iff, ◌==◌, ◌&&◌,
}
use agent_workboard.App.FollowUp.{FollowUp, by_id}
use agent_workboard.App.FollowUp.Queue.{violates, of_binding, with_key}
use agent_workboard.App.FollowUp.Rows.{IsRow, IsAdvance}

-- The rows of the table: each as the constraints have it, and told apart by the unique columns.
pub record IsStored (rows : List FollowUp) : Type 0 where
  pub rows_sound : (f : FollowUp) → Memᴰ f rows → IsRow f
  pub ids : (f g : FollowUp) → Memᴰ f rows → Memᴰ g rows → f.id ≡ g.id → f ≡ g
  pub keys :
      (f g : FollowUp) → Memᴰ f rows → Memᴰ g rows → f.idempotency_key ≡ g.idempotency_key → f ≡ g
  pub numbers :
      (f g : FollowUp)
      → Memᴰ f rows
      → Memᴰ g rows
      → f.session_id ≡ g.session_id
      → f.binding_generation ≡ g.binding_generation
      → f.sequence ≡ g.sequence
      → f ≡ g

pub any-mem {ℓ} :
    {A : Type ℓ} (p : A → Bool) (xs : List A) {x : A} → any p xs ≡ false → Memᴰ x xs → p x ≡ false
any-mem p [] h m = absurd (Memᴰ.not-nil m)
any-mem p (y ∷ xs) h (Memᴰ.head e) = ap p e ∙ (or-eq-false _ _ h).0
any-mem p (y ∷ xs) h (Memᴰ.tail m) = any-mem p xs (or-eq-false (p y) _ h).1 m

-- Rows that only advance stay as the constraints have them.
pub map-IsStored :
    (g : FollowUp → FollowUp) (rows : List FollowUp)
    → ((f : FollowUp) → Memᴰ f rows → IsAdvance f (g f))
    → IsStored rows
    → IsStored (map g rows)
map-IsStored g rows steps s = record {
  rows_sound = λ f m.
      let (a, ma, e) = Memᴰ.of_map g rows m in subst IsRow e ((steps a ma).row (s.rows_sound a ma));
  ids = λ f h mf mh same.
      let (a, ma, e) = Memᴰ.of_map g rows mf in
      let (b, mb, d) = Memᴰ.of_map g rows mh in
      let kept : a.id ≡ b.id =
        sym ((steps a ma).kept.id)
        ∙ ap (λ x. x.id) e
        ∙ same
        ∙ sym (ap (λ x. x.id) d)
        ∙ (steps b mb).kept.id in
      sym e ∙ ap g (s.ids a b ma mb kept) ∙ d;
  keys = λ f h mf mh same.
      let (a, ma, e) = Memᴰ.of_map g rows mf in
      let (b, mb, d) = Memᴰ.of_map g rows mh in
      let kept : a.idempotency_key ≡ b.idempotency_key =
        sym ((steps a ma).kept.idempotency_key)
        ∙ ap (λ x. x.idempotency_key) e
        ∙ same
        ∙ sym (ap (λ x. x.idempotency_key) d)
        ∙ (steps b mb).kept.idempotency_key in
      sym e ∙ ap g (s.keys a b ma mb kept) ∙ d;
  numbers = λ f h mf mh s1 s2 s3.
      let (a, ma, e) = Memᴰ.of_map g rows mf in
      let (b, mb, d) = Memᴰ.of_map g rows mh in
      let ka = (steps a ma).kept in
      let kb = (steps b mb).kept in
      let k1 : a.session_id ≡ b.session_id =
        sym ka.session_id
        ∙ ap (λ x. x.session_id) e
        ∙ s1
        ∙ sym (ap (λ x. x.session_id) d)
        ∙ kb.session_id in
      let k2 : a.binding_generation ≡ b.binding_generation =
        sym ka.binding_generation
        ∙ ap (λ x. x.binding_generation) e
        ∙ s2
        ∙ sym (ap (λ x. x.binding_generation) d)
        ∙ kb.binding_generation in
      let k3 : a.sequence ≡ b.sequence =
        sym ka.sequence
        ∙ ap (λ x. x.sequence) e
        ∙ s3
        ∙ sym (ap (λ x. x.sequence) d)
        ∙ kb.sequence in
      sym e ∙ ap g (s.numbers a b ma mb k1 k2 k3) ∙ d;
}

-- A predicate on pairs of rows that holds among the rows, of the new row and each of them, in both
-- orders, and of the new row and itself.
append_pairs :
    (P : FollowUp → FollowUp → Type 0) (rows : List FollowUp) (n : FollowUp)
    → ((f g : FollowUp) → Memᴰ f rows → Memᴰ g rows → P f g)
    → ((f : FollowUp) → Memᴰ f rows → P f n × P n f)
    → P n n
    → (f g : FollowUp) → Memᴰ f (rows ++ n ∷ [])
    → Memᴰ g (rows ++ n ∷ [])
    → P f g
append_pairs P rows n old mixed new f g mf mg = elim (Memᴰ.append_cases rows mf) [
  | inl a ↦ elim (Memᴰ.append_cases rows mg) [
    | inl b ↦ old f g a b
    | inr b ↦ subst (P f) (sym (Memᴰ.eq_of_singleton b)) ((mixed f a).0)
  ]
  | inr a ↦ elim (Memᴰ.append_cases rows mg) [
    | inl b ↦ subst (λ x. P x g) (sym (Memᴰ.eq_of_singleton a)) ((mixed g b).1)
    | inr b ↦
        subst (λ x. P x g) (sym (Memᴰ.eq_of_singleton a))
          (subst (P n) (sym (Memᴰ.eq_of_singleton b)) new)
  ]
]

-- A row that the unique columns tell apart.
violates-mem :
    (rows : List FollowUp) (n : FollowUp) {f : FollowUp}
    → violates rows n ≡ false
    → Memᴰ f rows
    → (by_id n.id f ≡ false)
      × (with_key n.idempotency_key f ≡ false)
      × ((of_binding n.session_id n.binding_generation f && f.sequence == n.sequence) ≡ false)
unfolding violates
violates-mem rows n h m =
    let (most, _) = or-eq-false _ (n.checkout_generation == 0) h in
    let (unique, _) = or-eq-false _ (n.binding_generation == 0) most in
    let (rest, c) =
      or-eq-false (any (by_id n.id) rows || any (with_key n.idempotency_key) rows) _ unique in
    let (a, b) = or-eq-false (any (by_id n.id) rows) _ rest in
    (any-mem _ rows a m, any-mem _ rows b m, any-mem _ rows c m)

-- An inserted row has positive generations.
pub violates-positive :
    (rows : List FollowUp) (n : FollowUp)
    → violates rows n ≡ false
    → (0 < n.binding_generation) × (0 < n.checkout_generation)
unfolding violates
violates-positive rows n h =
    let (most, a) = or-eq-false _ (n.checkout_generation == 0) h in
    let (_, b) = or-eq-false _ (n.binding_generation == 0) most in
    (positive n.binding_generation b, positive n.checkout_generation a)
  where
    positive : (k : ℕ) → (k == 0) ≡ false → 0 < k
    positive k e = ground arith

pub append-IsStored :
    (rows : List FollowUp) (n : FollowUp)
    → IsRow n
    → violates rows n ≡ false
    → IsStored rows
    → IsStored (rows ++ n ∷ [])
unfolding by_id with_key of_binding
append-IsStored rows n r v s = record {
  rows_sound = λ f m. elim (Memᴰ.append_cases rows m) [
    | inl a ↦ s.rows_sound f a
    | inr a ↦ subst IsRow (sym (Memᴰ.eq_of_singleton a)) r
  ];
  ids =
      append_pairs (λ f g. f.id ≡ g.id → f ≡ g) rows n s.ids
        (λ f m.
          let no : f.id ≢ n.id = λ e. clash ((==_iff _ _).1 e) ((violates-mem rows n v m).0) in
          (λ e. absurd (no e), λ e. absurd (no (sym e))))
        (λ _. refl);
  keys =
      append_pairs (λ f g. f.idempotency_key ≡ g.idempotency_key → f ≡ g) rows n s.keys
        (λ f m.
          let no : f.idempotency_key ≢ n.idempotency_key =
            λ e. clash ((text_eq_iff _ _).1 e) ((violates-mem rows n v m).1) in
          (λ e. absurd (no e), λ e. absurd (no (sym e))))
        (λ _. refl);
  numbers =
      append_pairs
        (λ f g.
          f.session_id ≡ g.session_id
          → f.binding_generation ≡ g.binding_generation
          → f.sequence ≡ g.sequence
          → f ≡ g)
        rows n s.numbers
        (λ f m.
          let no : f.session_id ≡ n.session_id
              → f.binding_generation ≡ n.binding_generation
              → f.sequence ≢ n.sequence =
            λ a b c.
              clash (all_true ((==_iff _ _).1 a) ((==_iff _ _).1 b) ((==_iff _ _).1 c))
                ((violates-mem rows n v m).2) in
          (λ a b c. absurd (no a b c), λ a b c. absurd (no (sym a) (sym b) (sym c))))
        (λ _ _ _. refl);
}
  where
    clash : {b : Bool} → b ≡ true → b ≡ false → ⊥
    clash e h = cc

    all_true : {a b c : Bool} → a ≡ true → b ≡ true → c ≡ true → ((a && b) && c) ≡ true
    all_true h k l = ground arith
