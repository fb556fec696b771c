-- ===== src/Native/Jsonl/Resume.antt =====
-- A scan that resumes from a cursor reads what a scan of the whole file would read after it.
use mathlib.Core.Path.{subst₂}
use agent_workboard.Prelude.{
  ℕ, ◌≡◌, sym, ap, ◌∙◌, subst, false, List, ◌++◌, append-nil, Option, none, some, length, ok, arith,
  take, drop,
}
use agent_workboard.Native.Jsonl.{
  ScanLimits, JsonlStream, fingerprint, finish_stream, stream_at, stream_jsonl,
  validated_start_offset, Progress, rounds,
}
use agent_workboard.Native.Jsonl.Passed.{Passed, restarted, rounds-Passed}
use agent_workboard.Native.Jsonl.Cursor.{
  first_at, stream_at-inverse, stream_at-of, validated_start, split_at, take-length, drop-length,
}
use agent_workboard.Native.Jsonl.Bounds.{IsBounded, rounds-IsBounded}
use agent_workboard.Native.Jsonl.Shift.{shift, rounds-shift}

module _ {Value : Type 0} (parse : List ℕ → Option Value) (limits : ScanLimits) where
  -- What follows the bytes that a scan has passed is read alike with and without its records.
  read_on :
      (file more : List ℕ) (f g : ℕ) (p p' : Progress Value)
      → rounds parse limits f file (first_at 0) ≡ some (ok p)
      → (passed : Passed parse limits file (first_at 0) p)
      → rounds parse limits g (passed.before ++ more) (first_at 0) ≡ some (ok p')
      → (q : Progress Value) × (h : ℕ) × (rounds parse limits h more (first_at p.offset)
          ≡ some (ok q))
        × (p' ≡ shift parse limits p.records q)
  read_on file more f g p p' scan passed whole =
      let (h, later) = passed.again more g whole in
      let same : restarted parse limits (first_at 0) p
          ≡ shift parse limits p.records (first_at p.offset) =
        λ i. record {
          records = sym (append-nil p.records) i;
          offset = p.offset;
          incomplete_tail = false;
        } in
      let bounded =
        rounds-IsBounded parse limits f file (first_at 0) p
          (record { few = omega arith; behind = tt }) scan in
      let (q, read, is_shift) =
        rounds-shift parse limits h more p.records (first_at p.offset) p'
          (subst
            (λ rs.
              IsBounded parse limits
                (record { records = rs; offset = p.offset; incomplete_tail = false }))
            (sym (append-nil p.records)) (record { few = bounded.few; behind = bounded.behind }))
          (subst (λ x. rounds parse limits h more x ≡ some (ok p')) same later) in
      (q, h, read, is_shift)

  stream_from :
      (before later more : List ℕ) (size h : ℕ) (q : Progress Value)
      → rounds parse limits h more (first_at (length before)) ≡ some (ok q)
      → stream_jsonl parse limits (before ++ more) (
          some (record {
            byte_offset = length before;
            source_size = size;
            fingerprint = fingerprint (before ++ later) (length before);
          }))
        ≡ some (ok (finish_stream (before ++ more) (length before) q))
  unfolding stream_jsonl
  stream_from before later more size h q read =
      ap (stream_at parse limits (before ++ more)) (validated_start before later more size)
      ∙ stream_at-of parse limits (before ++ more) more (length before) h q
          (drop-length before more) read

  -- What a scan that resumes promises, against the scans of the old and the new file.
  pub record Resumes (new : List ℕ) (s full : JsonlStream Value) : Type 0 where
    pub resumed : JsonlStream Value
    pub read : stream_jsonl parse limits new (some s.cursor) ≡ some (ok resumed)
    pub from : resumed.start_offset ≡ s.cursor.byte_offset
    pub records : full.records ≡ s.records ++ resumed.records
    pub cursor : resumed.cursor ≡ full.cursor
    pub tail : resumed.incomplete_tail ≡ full.incomplete_tail

  resume_from :
      (before later more : List ℕ) (p p' q : Progress Value) (h : ℕ)
      → p.offset ≡ length before
      → rounds parse limits h more (first_at p.offset) ≡ some (ok q)
      → p' ≡ shift parse limits p.records q
      → Resumes
          (before ++ more)
          (finish_stream (before ++ later) 0 p)
          (finish_stream (before ++ more) 0 p')
  unfolding finish_stream
  resume_from before later more p p' q h at read is_shift = record {
    resumed = finish_stream (before ++ more) (length before) q;
    read =
        subst
          (λ o.
            stream_jsonl parse limits (before ++ more) (
              some (record {
                byte_offset = o;
                source_size = length (before ++ later);
                fingerprint = fingerprint (before ++ later) o;
              }))
            ≡ some (ok (finish_stream (before ++ more) (length before) q)))
          (sym at)
          (stream_from before later more (length (before ++ later)) h q
            (subst (λ o. rounds parse limits h more (first_at o) ≡ some (ok q)) at read));
    from = sym at;
    records = ap (λ x. x.records) is_shift;
    cursor = ap (λ x. (finish_stream (before ++ more) 0 x).cursor) (sym is_shift);
    tail = ap (λ x. x.incomplete_tail) (sym is_shift);
  }

  -- If a scan of the old file from its start gives a stream, the new file has the same bytes before
  -- that stream's cursor, and a scan of the new file from its start gives a stream too, then a scan
  -- of the new file from the cursor starts there, finds exactly the records that the whole scan
  -- finds after the old ones, and ends with the same cursor and the same incomplete tail.
  pub stream_jsonl-Resumes :
      (old new : List ℕ) (s full : JsonlStream Value)
      → stream_jsonl parse limits old none ≡ some (ok s)
      → take s.cursor.byte_offset new ≡ take s.cursor.byte_offset old
      → stream_jsonl parse limits new none ≡ some (ok full)
      → Resumes new s full
  unfolding stream_jsonl validated_start_offset finish_stream
  stream_jsonl-Resumes old new s full h same k =
      let (p, f, old_scan, s_is) = stream_at-inverse parse limits old 0 s h in
      let (p', g, new_scan, full_is) = stream_at-inverse parse limits new 0 full k in
      let passed = rounds-Passed parse limits f old (first_at 0) p old_scan in
      let before = passed.before in
      let more = drop (length before) new in
      let at : p.offset ≡ length before = omega (arith, passed.counted) in
      let cursor_at : s.cursor.byte_offset ≡ length before =
        ap (λ x. x.cursor.byte_offset) s_is ∙ at in
      let kept : take (length before) new ≡ before =
        subst (λ n. take n new ≡ take n old) cursor_at same
        ∙ ap (take (length before)) passed.parts
        ∙ take-length before passed.later in
      let new_is : new ≡ before ++ more = split_at (length before) new ∙ ap (λ x. x ++ more) kept in
      let whole =
        subst (λ x. rounds parse limits g x (first_at 0) ≡ some (ok p')) new_is new_scan in
      let (q, r, read, is_shift) = read_on old more f g p p' old_scan passed whole in
      let r1 = resume_from before passed.later more p p' q r at read is_shift in
      let r2 =
        subst (λ n. Resumes n (finish_stream (before ++ passed.later) 0 p) (finish_stream n 0 p'))
          (sym new_is) r1 in
      let r3 =
        subst (λ o. Resumes new (finish_stream o 0 p) (finish_stream new 0 p')) (sym passed.parts)
          r2 in
      subst₂ (λ x y. Resumes new x y) (sym s_is) (sym full_is) r3
