-- ===== src/Native/Jsonl/Passed.antt =====
-- The bytes that a scan has passed, and how another scan passes them.
use agent_workboard.Prelude.{
  ℕ, zero, suc, ◌+◌, ◌≡◌, refl, sym, ap, ◌∙◌, subst, ◌⊎◌, inl, inr, true, false, List, [], ◌∷◌,
  ◌++◌, append_assoc, append-nil, Option, some, length, length-append, is_empty, ok-path, ends_with,
  Result, ok, arith,
}
use agent_workboard.Native.Jsonl.{ScanLimits, AdapterFailure, Progress, stop, next, round, rounds}
use agent_workboard.Native.Jsonl.Loop.{
  read_until-append, read_until_again, first_round, stops, goes_on, fails, bytes_of, rest_of,
  rounds-stop, rounds-next, rounds-fail, After,
}

ends_with-append :
    (s t : List ℕ) (c : ℕ) → is_empty t ≡ false → ends_with (s ++ t) c ≡ ends_with t c
unfolding ends_with
ends_with-append [] t c h = refl
ends_with-append (d ∷ []) [] c h = cc
ends_with-append (d ∷ []) (e ∷ t) c h = refl
ends_with-append (d ∷ e ∷ s) t c h = ends_with-append (e ∷ s) t c h

abbrev pub EndsLine : List ℕ → Type 0
EndsLine s = (is_empty s ≡ true) ⊎ (ends_with s b'\n' ≡ true)

EndsLine-append : (s t : List ℕ) → ends_with s b'\n' ≡ true → EndsLine t → EndsLine (s ++ t)
EndsLine-append s [] h e = inr (rw append-nil h)
EndsLine-append s (c ∷ t) h (inl e) = cc
EndsLine-append s (c ∷ t) h (inr e) = inr (ends_with-append s (c ∷ t) b'\n' refl ∙ e)

module _ {Value : Type 0} (parse : List ℕ → Option Value) (limits : ScanLimits) where
  -- The progress `q`, as the start of another scan.
  abbrev pub restarted : Progress Value → Progress Value → Progress Value
  restarted p q = record q { incomplete_tail = p.incomplete_tail }

  -- The bytes that a scan from `p` to `q` has passed: whole lines, after which the scan of any
  -- file that begins with them goes on as from `q`.
  pub record Passed (file : List ℕ) (p q : Progress Value) : Type 0 where
    pub before : List ℕ
    pub later : List ℕ
    pub parts : file ≡ before ++ later
    pub counted : q.offset ≡ p.offset + length before
    pub line_end : EndsLine before
    pub again :
        (more : List ℕ) (g : ℕ) {r : Result (Progress Value) AdapterFailure}
        → rounds parse limits g (before ++ more) p ≡ some r
        → (h : ℕ) × (rounds parse limits h more (restarted p q) ≡ some r)

  rounds-next_again :
      (g : ℕ) (file more : List ℕ) (p s : Progress Value)
      → round parse limits (bytes_of limits file) p ≡ next s
      → ends_with (bytes_of limits file) b'\n' ≡ true
      → rounds parse limits (suc g) (bytes_of limits file ++ more) p ≡ rounds parse limits g more s
  rounds-next_again g file more p s e whole =
      let same = read_until_again (limits.max_record_bytes + 2) file more whole in
      let bytes = bytes_of limits file in
      rounds-next parse limits g (bytes ++ more) p
        (subst (λ b. round parse limits b p ≡ next s) (sym (ap (λ x. x.0) same)) e)
      ∙ ap (λ x. rounds parse limits g x.1 s) same

  stop-Passed :
      (file : List ℕ) {p s q : Progress Value}
      → s ≡ q
      → After parse limits (bytes_of limits file) p (stop s)
      → Passed file p q
  stop-Passed file {p} {s} {q} same a = record {
    before = [];
    later = file;
    parts = refl;
    counted = omega (arith, ap (λ x. x.offset) same, a.1);
    line_end = inl refl;
    again = λ more g e. (g, rw restart e);
  }
    where
      restart : restarted p q ≡ p
      restart = λ i. record {
        records = (ap Progress.records (sym same) ∙ a.0) i;
        offset = (ap Progress.offset (sym same) ∙ a.1) i;
        incomplete_tail = p.incomplete_tail;
      }

  next_again :
      (file : List ℕ) (p s q : Progress Value)
      → round parse limits (bytes_of limits file) p ≡ next s
      → After parse limits (bytes_of limits file) p (next s)
      → (r : Passed (rest_of limits file) s q)
      → (more : List ℕ) (g : ℕ) {x : Result (Progress Value) AdapterFailure}
      → rounds parse limits g ((bytes_of limits file ++ r.before) ++ more) p ≡ some x
      → (h : ℕ) × (rounds parse limits h more (restarted p q) ≡ some x)
  unfolding rounds
  next_again file p s q e a r more zero h = cc
  next_again file p s q e a r more (suc g) {x} h =
      let bytes = bytes_of limits file in
      let regrouped : rounds parse limits (suc g) (bytes ++ (r.before ++ more)) p ≡ some x =
        subst (λ l. rounds parse limits (suc g) l p ≡ some x) (append_assoc bytes r.before more)
          h in
      let (k, done) =
        r.again more g (sym (rounds-next_again g file (r.before ++ more) p s e a.0) ∙ regrouped) in
      (
        k,
        subst (λ b. rounds parse limits k more (record q { incomplete_tail = b }) ≡ some x) a.3
            done,
      )

  next-Passed :
      (file : List ℕ) {p s q : Progress Value}
      → round parse limits (bytes_of limits file) p ≡ next s
      → After parse limits (bytes_of limits file) p (next s)
      → Passed (rest_of limits file) s q
      → Passed file p q
  next-Passed file {p} {s} {q} e a r =
      let bytes = bytes_of limits file in
      let whole = read_until-append (limits.max_record_bytes + 2) file in
      record {
        before = bytes ++ r.before;
        later = r.later;
        parts =
            sym whole ∙ ap (λ x. bytes ++ x) r.parts ∙ sym (append_assoc bytes r.before r.later);
        counted = omega (arith, r.counted, a.2, length-append bytes r.before);
        line_end = EndsLine-append bytes r.before a.0 r.line_end;
        again = next_again file p s q e a r;
      }

  pub rounds-Passed :
      (f : ℕ) (file : List ℕ) (p q : Progress Value)
      → rounds parse limits f file p ≡ some (ok q)
      → Passed file p q
  unfolding rounds
  rounds-Passed zero file p q h = cc
  rounds-Passed (suc f) file p q h = elim (first_round parse limits file p) [
    | stops s e a ↦ stop-Passed file (ok-path (sym (rounds-stop parse limits f file p e) ∙ h)) a
    | goes_on s e a ↦
        next-Passed file e a (
          rounds-Passed f (rest_of limits file) s q (sym (rounds-next parse limits f file p e) ∙ h))
    | fails x e ↦ cc (rounds-fail parse limits f file p e)
  ]
