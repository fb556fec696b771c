-- ===== src/Native/Jsonl/Bounds.antt =====
-- How many records a scan keeps, and where they stand.
use agent_workboard.Prelude.{
  ℕ, zero, suc, ◌+◌, ◌≤◌, ◌<◌, ◌≡◌, sym, ◌∙◌, subst, inl, inr, false, List, [], ◌∷◌, ◌++◌, Option,
  some, length, length-append, is_empty, ok-path, ends_with, ltb, ◌==◌, Bool-cases, Option-cases,
  All, All-append, ok, arith,
}
use agent_workboard.Native.Jsonl.{
  ScanLimits, Progress, Round, JsonlRecord, stop, next, fail, round, round_line, rounds,
  trim_line_end,
}
use agent_workboard.Native.Jsonl.Loop.{
  length_pos, first_round, stops, goes_on, fails, bytes_of, rest_of, rounds-stop, rounds-next,
  rounds-fail,
}

module _ {Value : Type 0} (parse : List ℕ → Option Value) (limits : ScanLimits) where
  -- No more records than the limit, each before the offset.
  pub record IsBounded (p : Progress Value) : Type 0 where
    pub few : length p.records ≤ limits.max_records
    pub behind : All (λ r. r.offset < p.offset) p.records

  All-weaken :
      (m n : ℕ) (rs : List (JsonlRecord Value))
      → m ≤ n
      → All (λ r. r.offset < m) rs
      → All (λ r. r.offset < n) rs
  All-weaken m n [] h a = tt
  All-weaken m n (r ∷ rs) h (b, a) = (omega arith, All-weaken m n rs h a)

  abbrev Keeps : Round Value → Type 0
  Keeps (stop q) = IsBounded q
  Keeps (next q) = IsBounded q
  Keeps (fail e) = Unit

  line-Keeps :
      (bytes : List ℕ) (p : Progress Value)
      → is_empty bytes ≡ false
      → IsBounded p
      → Keeps (round_line parse limits bytes p)
  unfolding round_line
  line-Keeps bytes p full b = elim (Bool-cases (is_empty (trim_line_end bytes))) [
    | inl blank ↦ rw blank (record { few = b.few; behind = further })
    | inr line ↦ rw line (elim (Bool-cases (length p.records == limits.max_records)) [
      | inl many ↦ rw many tt
      | inr room ↦ rw room (elim (Option-cases (parse (trim_line_end bytes))) [
        | inl bad ↦ rw bad tt
        | inr (v, good) ↦ rw good (record { few = one_more _ room; behind = and_this v })
      ])
    ])
  ]
    where
      further : All (λ r. r.offset < p.offset + length bytes) p.records
      further = All-weaken p.offset (p.offset + length bytes) p.records (omega arith) b.behind

      one_more :
          (r : JsonlRecord Value)
          → (length p.records == limits.max_records) ≡ false
          → length (p.records ++ r ∷ []) ≤ limits.max_records
      one_more r room = ground (arith, length-append p.records (r ∷ []), b.few)

      and_this :
          (v : Value)
          → All
              (λ r. r.offset < p.offset + length bytes)
              (p.records ++ record { offset = p.offset; value = v } ∷ [])
      and_this v =
          All-append (λ r. r.offset < p.offset + length bytes) p.records _ further
            (omega (arith, length_pos bytes full), tt)

  round-Keeps :
      (bytes : List ℕ) (p : Progress Value) → IsBounded p → Keeps (round parse limits bytes p)
  unfolding round
  round-Keeps bytes p b = elim (Bool-cases (is_empty bytes)) [
    | inl none_read ↦ rw none_read b
    | inr full ↦ rw full (elim (Bool-cases (ltb (limits.max_record_bytes + 1) (length bytes))) [
      | inl large ↦ rw large tt
      | inr fits ↦ rw fits (elim (Bool-cases (ends_with bytes b'\n')) [
        | inr cut ↦ rw cut (record { few = b.few; behind = b.behind })
        | inl whole ↦ rw whole (line-Keeps bytes p full b)
      ])
    ])
  ]

  pub rounds-IsBounded :
      (f : ℕ) (file : List ℕ) (p q : Progress Value)
      → IsBounded p
      → rounds parse limits f file p ≡ some (ok q)
      → IsBounded q
  unfolding rounds
  rounds-IsBounded zero file p q b h = cc
  rounds-IsBounded (suc f) file p q b h = elim (first_round parse limits file p) [
    | stops s e a ↦
        subst IsBounded (ok-path (sym (rounds-stop parse limits f file p e) ∙ h))
          (subst Keeps e (round-Keeps (bytes_of limits file) p b))
    | goes_on s e a ↦
        rounds-IsBounded f (rest_of limits file) s q
          (subst Keeps e (round-Keeps (bytes_of limits file) p b))
          (sym (rounds-next parse limits f file p e) ∙ h)
    | fails x e ↦ cc (rounds-fail parse limits f file p e)
  ]

  -- A round on which a scan goes on keeps within the limits.
  pub next-IsBounded :
      (bytes : List ℕ) (p q : Progress Value)
      → IsBounded p
      → round parse limits bytes p ≡ next q
      → IsBounded q
  next-IsBounded bytes p q b e = subst Keeps e (round-Keeps bytes p b)
