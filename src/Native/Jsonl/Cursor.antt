-- ===== src/Native/Jsonl/Cursor.antt =====
-- The cursor that a scan returns, and the offset at which the next one takes it up.
use agent_workboard.Prelude.{
  ℕ, zero, suc, ◌≤◌, ◌<◌, ◌≡◌, refl, sym, ap, ◌∙◌, subst, inl, inr, true, false, List, [], ◌∷◌,
  ◌++◌, Option, none, some, length, length-append, ok-path, ltb, Result, ok, err, arith, take, drop,
  le→ltb, All, Result-cases, ◌-◌, min,
}
use agent_workboard.Native.Jsonl.{
  ScanLimits, ScanCursor, JsonlStream, fingerprint, FileFingerprint, same_fingerprint,
  finish_stream, stream_at, stream_jsonl, validated_start_offset, AdapterFailure, Progress, rounds,
}
use agent_workboard.Native.Jsonl.Passed.{EndsLine, rounds-Passed}
use agent_workboard.Native.Jsonl.Bounds.{rounds-IsBounded}
use agent_workboard.Native.Jsonl.Loop.{rounds_agree, rounds_total}

take-append : (n : ℕ) (s t : List ℕ) → n ≤ length s → take n (s ++ t) ≡ take n s
take-append zero s t h = refl
take-append (suc n) [] t h = elim h [ ]
take-append (suc n) (c ∷ s) t h = ap (λ x. c ∷ x) (take-append n s t (omega arith))

drop-append : (n : ℕ) (s t : List ℕ) → n ≤ length s → drop n (s ++ t) ≡ drop n s ++ t
drop-append zero s t h = refl
drop-append (suc n) [] t h = elim h [ ]
drop-append (suc n) (c ∷ s) t h = drop-append n s t (omega arith)

pub take-length : (s t : List ℕ) → take (length s) (s ++ t) ≡ s
take-length [] t = refl
take-length (c ∷ s) t = ap (λ x. c ∷ x) (take-length s t)

pub drop-length : (s t : List ℕ) → drop (length s) (s ++ t) ≡ t
drop-length [] t = refl
drop-length (c ∷ s) t = drop-length s t

length-drop : (n : ℕ) (s : List ℕ) → length (drop n s) ≡ length s - n
length-drop zero s = omega arith
length-drop (suc n) [] = omega arith
length-drop (suc n) (c ∷ s) = omega (arith, length-drop n s)

-- The fingerprint of a checkpoint depends on the bytes before it alone.
fingerprint_local :
    (before s t : List ℕ)
    → fingerprint (before ++ s) (length before) ≡ fingerprint (before ++ t) (length before)
unfolding fingerprint
fingerprint_local before s t =
    let n = length before in
    let cut : n - min n 256 ≤ length before = omega arith in
    let head : (x : List ℕ) → take (min n 256) (before ++ x) ≡ take (min n 256) before =
      λ x. take-append (min n 256) before x (omega arith) in
    let tail : (x : List ℕ)
        → take (min n 256) (drop (n - min n 256) (before ++ x))
          ≡ take (min n 256) (drop (n - min n 256) before) =
      λ x.
        ap (take (min n 256)) (drop-append (n - min n 256) before x cut)
        ∙ take-append (min n 256) (drop (n - min n 256) before) x
            (omega (arith, length-drop (n - min n 256) before)) in
    cc (head s, head t, tail s, tail t)

same_fingerprint_self : (f : FileFingerprint) → same_fingerprint f f ≡ true
unfolding same_fingerprint
same_fingerprint_self f = ground arith

-- A cursor is taken up where the bytes before it are those of the scan that made it.
pub validated_start :
    (before later more : List ℕ) (size : ℕ)
    → validated_start_offset (before ++ more) (
        some (record {
          byte_offset = length before;
          source_size = size;
          fingerprint = fingerprint (before ++ later) (length before);
        }))
      ≡ length before
unfolding validated_start_offset
validated_start before later more size =
    let long : ltb (length (before ++ more)) (length before) ≡ false =
      le→ltb _ _ (omega (arith, length-append before more)) in
    simp (long, fingerprint_local before more later, same_fingerprint_self)

pub split_at : (n : ℕ) (s : List ℕ) → s ≡ take n s ++ drop n s
split_at zero s = refl
split_at (suc n) [] = refl
split_at (suc n) (c ∷ s) = ap (λ x. c ∷ x) (split_at n s)

-- The variables of the loop before its first round.
abbrev pub first_at : {Value : Type 0} → ℕ → Progress Value
first_at offset = record { records = []; offset = offset; incomplete_tail = false }

module _ {Value : Type 0} (parse : List ℕ → Option Value) (limits : ScanLimits) where
  pub stream_at-inverse :
      (file : List ℕ) (start : ℕ) (s : JsonlStream Value)
      → stream_at parse limits file start ≡ some (ok s)
      → (p : Progress Value) × (g : ℕ) × (rounds parse limits g (drop start file) (first_at start)
          ≡ some (ok p))
        × (s ≡ finish_stream file start p)
  unfolding stream_at
  stream_at-inverse file start s h =
      let fuel = suc (length (drop start file)) in
      let (r, total) =
        rounds_total parse limits fuel (drop start file) (first_at start) (omega arith) in
      go r total (rw (total, stream_at) at h)
    where
      go :
          (r : Result (Progress Value) AdapterFailure)
          → rounds parse limits (suc (length (drop start file))) (drop start file) (first_at start)
            ≡ some r
          → elim r [ ok p ↦ some (ok (finish_stream file start p)) | err e ↦ some (err e) ]
            ≡ some (ok s)
          → (p : Progress Value) × (g : ℕ) × (rounds parse limits g
                (drop start file)
                (first_at start)
              ≡ some (ok p))
            × (s ≡ finish_stream file start p)
      go (ok p) e q = (p, _, e, ok-path (sym q))
      go (err x) e q = cc

  pub stream_at-of :
      (file rest : List ℕ) (start h : ℕ) (q : Progress Value)
      → drop start file ≡ rest
      → rounds parse limits h rest (first_at start) ≡ some (ok q)
      → stream_at parse limits file start ≡ some (ok (finish_stream file start q))
  unfolding stream_at
  stream_at-of file rest start h q e read =
      let (r, total) =
        rounds_total parse limits (suc (length rest)) rest (first_at start) (omega arith) in
      let same = rounds_agree parse limits h (suc (length rest)) rest (first_at start) read total in
      rw (e, total, ← same, stream_at)

  -- Whatever the file and the cursor, the loop ends: a scan returns a stream or a failure.
  pub stream_jsonl_total :
      (file : List ℕ) (prior : Option ScanCursor)
      → (r : Result (JsonlStream Value) AdapterFailure) × (stream_jsonl parse limits file prior
          ≡ some r)
  unfolding stream_jsonl stream_at
  stream_jsonl_total file prior =
      let start = validated_start_offset file prior in
      let rest = drop start file in
      let (r, total) =
        rounds_total parse limits (suc (length rest)) rest (first_at start) (omega arith) in
      elim (Result-cases r) [
        | inl (p, e) ↦ (ok (finish_stream file start p), rw (total, e, stream_at))
        | inr (x, e) ↦ (err x, rw (total, e, stream_at))
      ]

  -- A stream that was read: no more records than the limit, each before the cursor; the scan starts
  -- and the cursor stands within the file, and what lies between them is whole lines.
  pub record IsScanned (file : List ℕ) (s : JsonlStream Value) : Type 0 where
    pub few : length s.records ≤ limits.max_records
    pub behind : All (λ r. r.offset < s.cursor.byte_offset) s.records
    pub forward : s.start_offset ≤ s.cursor.byte_offset
    pub within : s.cursor.byte_offset ≤ length file
    pub line_end :
        EndsLine (take (s.cursor.byte_offset - s.start_offset) (drop s.start_offset file))

  start-le :
      (file : List ℕ) (prior : Option ScanCursor) → validated_start_offset file prior ≤ length file
  unfolding validated_start_offset
  start-le file none = omega arith
  start-le file (some c) = ground arith

  -- If a scan gives a stream, then the stream has at most as many records as the limit, each before
  -- its cursor; the cursor stands in the file and not before the scan's start, and what lies between
  -- is empty or ends a line.
  pub stream_jsonl-IsScanned :
      (file : List ℕ) (prior : Option ScanCursor) (s : JsonlStream Value)
      → stream_jsonl parse limits file prior ≡ some (ok s)
      → IsScanned file s
  unfolding stream_jsonl finish_stream
  stream_jsonl-IsScanned file prior s h =
      let start = validated_start_offset file prior in
      let (p, g, scan, s_is) = stream_at-inverse file start s h in
      let passed = rounds-Passed parse limits g (drop start file) (first_at start) p scan in
      let bounded =
        rounds-IsBounded parse limits g (drop start file) (first_at start) p
          (record { few = omega arith; behind = tt }) scan in
      let size = ap length passed.parts ∙ length-append passed.before passed.later in
      let lines : take (p.offset - start) (drop start file) ≡ passed.before =
        ap (λ n. take n (drop start file)) (omega (arith, passed.counted))
        ∙ ap (take (length passed.before)) passed.parts
        ∙ take-length passed.before passed.later in
      subst (IsScanned file) (sym s_is) (record {
        few = bounded.few;
        behind = bounded.behind;
        forward = omega (arith, passed.counted);
        within = omega (arith, passed.counted, size, length-drop start file, start-le file prior);
        line_end = subst EndsLine (sym lines) passed.line_end;
      })
