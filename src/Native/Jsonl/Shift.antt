-- ===== src/Native/Jsonl/Shift.antt =====
-- A scan with records in hand reads what a scan without them reads.
use agent_workboard.Prelude.{
  ℕ, zero, suc, ◌+◌, ◌≤◌, ◌≡◌, refl, sym, ap, ◌∙◌, subst, ◌⊎◌, inl, inr, false, List, ◌++◌,
  append_assoc, Option, some, length, length-append, is_empty, ok-path, ends_with, ltb, ◌==◌,
  Bool-cases, Option-cases, ok, arith,
}
use agent_workboard.Native.Jsonl.{
  ScanLimits, AdapterFailure, Progress, Round, JsonlRecord, stop, next, fail, round, round_line,
  rounds, trim_line_end,
}
use agent_workboard.Native.Jsonl.Loop.{
  first_round, stops, goes_on, fails, bytes_of, rest_of, rounds-stop, rounds-next, rounds-fail,
}
use agent_workboard.Native.Jsonl.Bounds.{IsBounded, next-IsBounded}

module _ {Value : Type 0} (parse : List ℕ → Option Value) (limits : ScanLimits) where
  -- A progress with older records in front.
  abbrev pub shift : List (JsonlRecord Value) → Progress Value → Progress Value
  shift old p = record p { records = old ++ p.records }

  abbrev shift_round : List (JsonlRecord Value) → Round Value → Round Value
  shift_round old (stop q) = stop (shift old q)
  shift_round old (next q) = next (shift old q)
  shift_round old (fail e) = fail e

  -- Older records change a round only by exhausting the limit.
  abbrev Shifts : List (JsonlRecord Value) → Round Value → Round Value → Type 0
  Shifts old r r' = (r' ≡ shift_round old r) ⊎ ((e : AdapterFailure) × (r' ≡ fail e))

  room_before :
      (old : List (JsonlRecord Value)) (p : Progress Value)
      → length (old ++ p.records) ≤ limits.max_records
      → (length (old ++ p.records) == limits.max_records) ≡ false
      → (length p.records == limits.max_records) ≡ false
  room_before old p few room = ground (arith, length-append old p.records)

  line-Shifts :
      (old : List (JsonlRecord Value)) (bytes : List ℕ) (p : Progress Value)
      → length (old ++ p.records) ≤ limits.max_records
      → Shifts old (round_line parse limits bytes p) (round_line parse limits bytes (shift old p))
  unfolding round_line
  line-Shifts old bytes p few = elim (Bool-cases (is_empty (trim_line_end bytes))) [
    | inl blank ↦ rw blank (inl refl)
    | inr line ↦ rw line (elim (Bool-cases (length (old ++ p.records) == limits.max_records)) [
      | inl many ↦ rw many (inr (_, refl))
      | inr room ↦
          rw (room, room_before old p few room)
            (elim (Option-cases (parse (trim_line_end bytes))) [
              | inl bad ↦ rw bad (inl refl)
              | inr (v, good) ↦ rw good (
                  inl (
                    ap
                      (λ rs. next (record {
                        records = rs;
                        offset = p.offset + length bytes;
                        incomplete_tail = p.incomplete_tail;
                      }))
                      (append_assoc old p.records _)))
            ])
    ])
  ]

  round-Shifts :
      (old : List (JsonlRecord Value)) (bytes : List ℕ) (p : Progress Value)
      → length (old ++ p.records) ≤ limits.max_records
      → Shifts old (round parse limits bytes p) (round parse limits bytes (shift old p))
  unfolding round
  round-Shifts old bytes p few = elim (Bool-cases (is_empty bytes)) [
    | inl none_read ↦ rw none_read (inl refl)
    | inr full ↦ rw full (elim (Bool-cases (ltb (limits.max_record_bytes + 1) (length bytes))) [
      | inl large ↦ rw large (inl refl)
      | inr fits ↦ rw fits (elim (Bool-cases (ends_with bytes b'\n')) [
        | inr cut ↦ rw cut (inl refl)
        | inl whole ↦ rw whole (line-Shifts old bytes p few)
      ])
    ])
  ]

  -- The result of a scan with older records in front, taken back to one without them.
  pub rounds-shift :
      (f : ℕ) (file : List ℕ) (old : List (JsonlRecord Value)) (p q : Progress Value)
      → IsBounded parse limits (shift old p)
      → rounds parse limits f file (shift old p) ≡ some (ok q)
      → (q' : Progress Value) × (rounds parse limits f file p ≡ some (ok q')) × (q ≡ shift old q')
  unfolding rounds
  rounds-shift zero file old p q b h = cc
  rounds-shift (suc f) file old p q b h =
      let shifts = round-Shifts old (bytes_of limits file) p b.few in
      let shifted = round parse limits (bytes_of limits file) (shift old p) in
      elim (first_round parse limits file p) [
        | stops s e a ↦ elim (subst (λ r. Shifts old r shifted) e shifts) [
          | inl e' ↦ (
            s,
            rounds-stop parse limits f file p e,
            ok-path (sym h ∙ rounds-stop parse limits f file (shift old p) e'),
          )
          | inr (x, e') ↦ cc (rounds-fail parse limits f file (shift old p) e')
        ]
        | goes_on s e a ↦ elim (subst (λ r. Shifts old r shifted) e shifts) [
          | inl e' ↦
              let b' =
                next-IsBounded parse limits (bytes_of limits file) (shift old p) (shift old s) b
                  e' in
              let later = sym (rounds-next parse limits f file (shift old p) e') ∙ h in
              let (q', read, same) = rounds-shift f (rest_of limits file) old s q b' later in
              (q', rounds-next parse limits f file p e ∙ read, same)
          | inr (x, e') ↦ cc (rounds-fail parse limits f file (shift old p) e')
        ]
        | fails x e ↦ elim (subst (λ r. Shifts old r shifted) e shifts) [
          | inl e' ↦ cc (rounds-fail parse limits f file (shift old p) e')
          | inr (y, e') ↦ cc (rounds-fail parse limits f file (shift old p) e')
        ]
      ]
