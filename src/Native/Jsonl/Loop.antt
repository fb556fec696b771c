-- ===== src/Native/Jsonl/Loop.antt =====
-- The scan's loop: what a round reads, that the loop ends, and what it passes over.
use agent_workboard.Prelude.{
  ℕ, zero, suc, ◌+◌, ◌<◌, ◌≡◌, refl, sym, ap, ◌∙◌, inl, inr, true, false, List, [], ◌∷◌, ◌++◌,
  Option, some, length, length-append, is_empty, ends_with, ltb, ◌==◌, Bool-cases, Option-cases,
  Result, ok, err, arith,
}
use agent_workboard.Native.Jsonl.{
  ScanLimits, AdapterFailure, Progress, Round, stop, next, fail, round, round_line, trim_line_end,
  rounds, read_until,
}

pub read_until-append :
    (limit : ℕ) (file : List ℕ) → (read_until limit file).0 ++ (read_until limit file).1 ≡ file
unfolding read_until
read_until-append zero file = refl
read_until-append (suc limit) [] = refl
read_until-append (suc limit) (byte ∷ file) = ground (arith, read_until-append limit file)

ends_with-cons :
    (d c : ℕ) (s : List ℕ) → (d == c) ≡ false → ends_with (d ∷ s) c ≡ true → ends_with s c ≡ true
unfolding ends_with
ends_with-cons d c [] other h = cc
ends_with-cons d c (e ∷ s) other h = h

-- A line that was read whole is read again, whatever follows it.
pub read_until_again :
    (limit : ℕ) (file more : List ℕ)
    → ends_with (read_until limit file).0 b'\n' ≡ true
    → read_until limit ((read_until limit file).0 ++ more) ≡ ((read_until limit file).0, more)
unfolding read_until ends_with
read_until_again zero file more h = cc
read_until_again (suc limit) [] more h = cc
read_until_again (suc limit) (byte ∷ file) more h = elim (Bool-cases (byte == b'\n')) [
  | inl line_end ↦ simp line_end
  | inr other ↦
      let whole = ends_with-cons byte b'\n' (read_until limit file).0 other (rw other at h) in
      simp (other, read_until_again limit file more whole)
]

pub length_pos : (s : List ℕ) → is_empty s ≡ false → 0 < length s
length_pos [] h = cc
length_pos (c ∷ s) h = omega arith

-- What a round reads of the file, and what it leaves.
abbrev pub bytes_of : ScanLimits → List ℕ → List ℕ
bytes_of limits file = (read_until (limits.max_record_bytes + 2) file).0

abbrev pub rest_of : ScanLimits → List ℕ → List ℕ
rest_of limits file = (read_until (limits.max_record_bytes + 2) file).1

module _ {Value : Type 0} (parse : List ℕ → Option Value) (limits : ScanLimits) where
  -- What each way to end a round leaves behind.
  abbrev pub After : List ℕ → Progress Value → Round Value → Type 0
  After bytes p (stop q) = (q.records ≡ p.records) × (q.offset ≡ p.offset)
  After bytes p (next q) =
      (ends_with bytes b'\n' ≡ true)
      × (is_empty bytes ≡ false)
      × (q.offset ≡ p.offset + length bytes)
      × (q.incomplete_tail ≡ p.incomplete_tail)
  After bytes p (fail e) = Unit

  pub round-After :
      (bytes : List ℕ) (p : Progress Value) → After bytes p (round parse limits bytes p)
  unfolding round round_line
  round-After bytes p = elim (Bool-cases (is_empty bytes)) [
    | inl none_read ↦ rw none_read (refl, refl)
    | inr full ↦ rw full (elim (Bool-cases (ltb (limits.max_record_bytes + 1) (length bytes))) [
      | inl large ↦ rw large tt
      | inr fits ↦ rw fits (elim (Bool-cases (ends_with bytes b'\n')) [
        | inr cut ↦ rw cut (refl, refl)
        | inl whole ↦ rw whole (line_After whole full)
      ])
    ])
  ]
    where
      line_After :
          ends_with bytes b'\n' ≡ true
          → is_empty bytes ≡ false
          → After bytes p (round_line parse limits bytes p)
      line_After whole full = elim (Bool-cases (is_empty (trim_line_end bytes))) [
        | inl blank ↦ rw blank (whole, full, refl, refl)
        | inr line ↦ rw line (elim (Bool-cases (length p.records == limits.max_records)) [
          | inl many ↦ rw many tt
          | inr room ↦ rw room (elim (Option-cases (parse (trim_line_end bytes))) [
            | inl bad ↦ rw bad tt
            | inr (v, good) ↦ rw good (whole, full, refl, refl)
          ])
        ])
      ]

  abbrev pub Outcome : Type 0
  Outcome = Result (Progress Value) AdapterFailure

  -- How the first round on a file ends, with what it leaves behind.
  pub data FirstRound (file : List ℕ) (p : Progress Value) : Type 0 where
    stops :
        (q : Progress Value)
        → round parse limits (bytes_of limits file) p ≡ stop q
        → After (bytes_of limits file) p (stop q)
        → FirstRound file p
    goes_on :
        (q : Progress Value)
        → round parse limits (bytes_of limits file) p ≡ next q
        → After (bytes_of limits file) p (next q)
        → FirstRound file p
    fails :
        (e : AdapterFailure)
        → round parse limits (bytes_of limits file) p ≡ fail e
        → FirstRound file p

  pub first_round : (file : List ℕ) (p : Progress Value) → FirstRound file p
  first_round file p =
      go (round parse limits (bytes_of limits file) p) refl (round-After (bytes_of limits file) p)
    where
      go :
          (r : Round Value)
          → round parse limits (bytes_of limits file) p ≡ r
          → After (bytes_of limits file) p r
          → FirstRound file p
      go (stop q) e a = stops q e a
      go (next q) e a = goes_on q e a
      go (fail x) e a = fails x e

  module _ (fuel : ℕ) (file : List ℕ) (p : Progress Value) where
    pub rounds-stop :
        {q : Progress Value}
        → round parse limits (bytes_of limits file) p ≡ stop q
        → rounds parse limits (suc fuel) file p ≡ some (ok q)
    unfolding rounds
    rounds-stop e = rw (e, rounds)

    pub rounds-next :
        {q : Progress Value}
        → round parse limits (bytes_of limits file) p ≡ next q
        → rounds parse limits (suc fuel) file p ≡ rounds parse limits fuel (rest_of limits file) q
    unfolding rounds
    rounds-next e = rw (e, rounds)

    pub rounds-fail :
        {x : AdapterFailure}
        → round parse limits (bytes_of limits file) p ≡ fail x
        → rounds parse limits (suc fuel) file p ≡ some (err x)
    unfolding rounds
    rounds-fail e = rw (e, rounds)

  pub rest-lt :
      (file : List ℕ)
      → is_empty (bytes_of limits file) ≡ false
      → length (rest_of limits file) < length file
  rest-lt file h =
      let whole = ap length (read_until-append (limits.max_record_bytes + 2) file) in
      omega (
        arith,
        whole,
        length-append (bytes_of limits file) (rest_of limits file),
        length_pos (bytes_of limits file) h,
      )

  -- Fuel above the file's length is enough.
  pub rounds_total :
      (fuel : ℕ) (file : List ℕ) (p : Progress Value)
      → length file < fuel
      → (r : Outcome) × (rounds parse limits fuel file p ≡ some r)
  rounds_total zero file p h = elim h [ ]
  rounds_total (suc fuel) file p h = elim (first_round file p) [
    | stops q e a ↦ (ok q, rounds-stop fuel file p e)
    | goes_on q e a ↦
        let (r, done) =
          rounds_total fuel (rest_of limits file) q (omega (arith, rest-lt file a.1)) in
        (r, rounds-next fuel file p e ∙ done)
    | fails x e ↦ (err x, rounds-fail fuel file p e)
  ]

  -- The result does not depend on the fuel.
  pub rounds_agree :
      (f g : ℕ) (file : List ℕ) (p : Progress Value) {r r' : Outcome}
      → rounds parse limits f file p ≡ some r
      → rounds parse limits g file p ≡ some r'
      → r ≡ r'
  unfolding rounds
  rounds_agree zero g file p h k = cc
  rounds_agree (suc f) zero file p h k = cc
  rounds_agree (suc f) (suc g) file p {r} {r'} h k = elim (first_round file p) [
    | stops q e a ↦ cc (rounds-stop f file p e, rounds-stop g file p e)
    | goes_on q e a ↦
        rounds_agree f g (rest_of limits file) q (sym (rounds-next f file p e) ∙ h)
          (sym (rounds-next g file p e) ∙ k)
    | fails x e ↦ cc (rounds-fail f file p e, rounds-fail g file p e)
  ]
