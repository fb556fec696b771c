-- ===== src/Core/Names/Keys.antt =====
-- Which texts are slugs, and which are keys of work items.
use agent_workboard.Prelude.{
  starts_with, ends_with, ℕ, ◌≤◌, ◌≡◌, refl, sym, ap, subst, ◌↔◌, Bool, true, false, not, ◌||◌,
  List, [], ◌∷◌, Text, is_empty, any, all, All, len, ◌==◌, is_ascii_lowercase, is_ascii_digit,
  Bool-cases, passed, is_ok, ok, err, Result, arith, inl, inr, ltb→ge, le→ltb, ok-injective,
  or-eq-false, not-eq-false, ◌∙◌,
}
use agent_workboard.Core.Names.{
  Slug, WorkItemKey, NameError, new_slug, new_work_item_key, split, is_slug_character, invalid_key,
}
use agent_workboard.Core.Names.Split.{
  join, HasNo, split-ne-nil, empty_split, join-split, split-join, ends_with_empty,
  starts_with_empty,
}

-- Lower-case ASCII letters, digits and interior hyphens, at most 100 of them.
pub record IsSlug (s : Text) : Type 0 where
  pub nonempty : is_empty s ≡ false
  pub bounded : len s ≤ 100
  pub starts : starts_with s b'-' ≡ false
  pub ends : ends_with s b'-' ≡ false
  pub alphabet : all is_slug_character s ≡ true

any-not {ℓ} : {A : Type ℓ} (p : A → Bool) (xs : List A) → any (λ x. not (p x)) xs ≡ not (all p xs)
any-not p [] = refl
any-not p (x ∷ xs) = ground (arith, any-not p xs)

-- `Slug::new` accepts exactly the slugs, and keeps the text.
pub new_slug_iff :
    (s : Text) (slug : Slug) → (new_slug s ≡ ok slug) ↔ (IsSlug s × (slug.as_str ≡ s))
unfolding new_slug
new_slug_iff s slug = (sound, complete)
  where
    sound : new_slug s ≡ ok slug → IsSlug s × (slug.as_str ≡ s)
    sound h = ground (arith, any-not is_slug_character s)

    complete : IsSlug s × (slug.as_str ≡ s) → new_slug s ≡ ok slug
    complete (v, e) = ground (arith, any-not is_slug_character s)

IsSlug-iff : (s : Text) → (is_ok (new_slug s) ≡ true) ↔ IsSlug s
IsSlug-iff s = (λ h. sound (new_slug s) refl h, complete)
  where
    sound : (r : Result Slug NameError) → new_slug s ≡ r → is_ok r ≡ true → IsSlug s
    sound (ok slug) e h = ((new_slug_iff s slug).0 e).0
    sound (err x) e h = cc

    complete : IsSlug s → is_ok (new_slug s) ≡ true
    complete v = rw ((new_slug_iff s (record { as_str = s })).1 (v, refl))

slugs_iff : (ps : List Text) → (any (λ p. not (is_ok (new_slug p))) ps ≡ false) ↔ All IsSlug ps
slugs_iff [] = (λ h. tt, λ a. refl)
slugs_iff (p ∷ ps) = (
  λ h.
      let (here, later) = or-eq-false (not (is_ok (new_slug p))) _ h in
      ((IsSlug-iff p).0 (not-eq-false _ here), (slugs_iff ps).0 later),
  λ (v, a). rw ((IsSlug-iff p).1 v) ((slugs_iff ps).1 a),
)

slug_character-ne-slash : (c : ℕ) → is_slug_character c ≡ true → not (c == b'/') ≡ true
unfolding is_slug_character is_ascii_lowercase is_ascii_digit
slug_character-ne-slash c h = ground arith

alphabet-HasNo : (s : Text) → all is_slug_character s ≡ true → HasNo b'/' s
alphabet-HasNo [] h = refl
alphabet-HasNo (c ∷ s) h = ground (arith, slug_character-ne-slash c, alphabet-HasNo s)

slugs-HasNo : (ps : List Text) → All IsSlug ps → All (HasNo b'/') ps
slugs-HasNo [] a = tt
slugs-HasNo (p ∷ ps) (v, a) = (alphabet-HasNo p v.alphabet, slugs-HasNo ps a)

slugs_nonempty : (ps : List Text) → All IsSlug ps → any is_empty ps ≡ false
slugs_nonempty [] a = refl
slugs_nonempty (p ∷ ps) (v, a) = rw v.nonempty (slugs_nonempty ps a)

-- A key: slugs joined by slashes, at least one, of at most 300 bytes.
pub record IsKey (value : Text) : Type 0 where
  pub segments : List Text
  pub some_segment : is_empty segments ≡ false
  pub slugs : All IsSlug segments
  pub joined : value ≡ join b'/' segments
  pub bounded : len value ≤ 300

new_work_item_key-IsKey :
    (value : Text) (key : WorkItemKey) → new_work_item_key value ≡ ok key → IsKey value
unfolding new_work_item_key
new_work_item_key-IsKey value key h =
    let slug_tests = any (λ p. not (is_ok (new_slug p))) (split b'/' value) in
    let shape_tests = starts_with value b'/' || ends_with value b'/' || slug_tests in
    let (nonempty, h1) = passed _ _ _ h in
    let (bounded, h2) = passed _ _ _ h1 in
    let (shape, _) = passed shape_tests invalid_key (ok (record { as_str = value })) h2 in
    let (_, slugs) =
      or-eq-false (starts_with value b'/' || ends_with value b'/') slug_tests shape in
    record {
      segments = split b'/' value;
      some_segment = split-ne-nil b'/' value;
      slugs = (slugs_iff (split b'/' value)).0 slugs;
      joined = sym (join-split b'/' value);
      bounded = ltb→ge 300 (len value) bounded;
    }

split_of_key : (value : Text) (k : IsKey value) → split b'/' value ≡ k.segments
split_of_key value k =
    subst (λ v. split b'/' v ≡ k.segments) (sym k.joined)
      (split-join b'/' k.segments k.some_segment (slugs-HasNo k.segments k.slugs))

refute : {b : Bool} → (b ≡ true → ⊥) → b ≡ false
refute {b} f = elim (Bool-cases b) [ inl h ↦ absurd (f h) | inr h ↦ h ]

key_complete :
    (value : Text) → IsKey value → new_work_item_key value ≡ ok (record { as_str = value })
unfolding new_work_item_key
key_complete value k =
    let parts = split_of_key value k in
    let slugs : any (λ p. not (is_ok (new_slug p))) (split b'/' value) ≡ false =
      (slugs_iff (split b'/' value)).1 (subst (All IsSlug) (sym parts) k.slugs) in
    let full : any is_empty (split b'/' value) ≡ false =
      slugs_nonempty (split b'/' value) (subst (All IsSlug) (sym parts) k.slugs) in
    let starts : starts_with value b'/' ≡ false =
      refute (λ h. cc (starts_with_empty b'/' value h, full)) in
    let ends : ends_with value b'/' ≡ false =
      refute (λ h. cc (ends_with_empty b'/' value h, full)) in
    let nonempty : is_empty value ≡ false = refute (λ h. cc (empty_split b'/' value h, full)) in
    simp (nonempty, le→ltb 300 (len value) k.bounded, starts, ends, slugs)

-- `WorkItemKey::new` accepts exactly the texts of at most 300 bytes that join one or more slugs by
-- slashes, and keeps the text.
pub new_work_item_key_iff :
    (value : Text) (key : WorkItemKey)
    → (new_work_item_key value ≡ ok key) ↔ (IsKey value × (key.as_str ≡ value))
new_work_item_key_iff value key = (
  λ h. let k = new_work_item_key-IsKey value key h in (k, same_text value key k h),
  λ (k, e). key_complete value k ∙ ap ok (sym (key_path e)),
)
  where
    key_path : key.as_str ≡ value → key ≡ record { as_str = value }
    key_path e = λ i. record { as_str = e i }

    same_text : (v : Text) (k : WorkItemKey) → IsKey v → new_work_item_key v ≡ ok k → k.as_str ≡ v
    same_text v k valid h =
        sym (ap WorkItemKey.as_str (ok-injective (sym (key_complete v valid) ∙ h)))
