-- ===== src/Native/Transcript/Content.antt =====
-- What a transcript builder holds, and how a word changes it.
use agent_workboard.Prelude.{
  ℕ, ◌+◌, ◌≤◌, ◌≡◌, refl, sym, ap, ◌∙◌, ◌⊎◌, inl, inr, true, false, [], Text, length, is_empty,
  Bool-cases, arith,
}
use agent_workboard.Native.Transcript.{TranscriptBuilder, flush, append_word, added_chars}
use agent_workboard.Native.Transcript.Glue.{
  glue, glue_chunks, glue_chunks-append, glue_assoc, length-glue, glue_some, glue_empty,
  is_empty-glue, glue_fresh,
}

-- What the builder holds so far.
unfoldable pub content : TranscriptBuilder → Text
content b = glue (glue_chunks [] b.chunks) b.current

-- Between two words: the count is that of the content and within the limit, and a builder with an
-- empty current chunk has no others.
pub record IsBuilder (b : TranscriptBuilder) : Type 0 where
  pub counted : b.total_chars ≡ length (content b)
  pub bounded : b.total_chars ≤ b.max_transcript_chars
  pub begun : (is_empty b.current ≡ false) ⊎ ((b.current ≡ []) × (b.chunks ≡ []))

-- A builder whose current chunk is empty holds nothing.
pub content_empty :
    (b : TranscriptBuilder)
    → IsBuilder b
    → is_empty b.current ≡ true
    → (b.chunks ≡ []) × (b.current ≡ [])
content_empty b i h = elim i.begun [ inl some ↦ cc | inr (e, f) ↦ (f, e) ]

pub content_none :
    (b : TranscriptBuilder) → IsBuilder b → is_empty b.current ≡ true → content b ≡ []
unfolding content glue_chunks glue
content_none b i e = let (f, g) = content_empty b i e in rw (f, g) refl

pub content_some :
    (b : TranscriptBuilder) → is_empty b.current ≡ false → is_empty (content b) ≡ false
unfolding content
content_some b e = is_empty-glue (glue_chunks [] b.chunks) b.current e

pub added_first :
    (b : TranscriptBuilder) (w : Text) → is_empty b.current ≡ true → added_chars b w ≡ length w
unfolding added_chars
added_first b w e = rw e (omega arith)

pub added_next :
    (b : TranscriptBuilder) (w : Text) → is_empty b.current ≡ false → added_chars b w ≡ length w + 1
unfolding added_chars
added_next b w e = rw e refl

module _ (b : TranscriptBuilder) (i : IsBuilder b) (w : Text) (visible : is_empty w ≡ false) where
  -- Without a flush.
  pub appended : (added : ℕ) → content (append_word added w b) ≡ glue (content b) w
  unfolding content append_word
  appended added = elim (Bool-cases (is_empty b.current)) [
    | inl e ↦ let (f, g) = content_empty b i e in rw (f, g) (glue_fresh w)
    | inr e ↦ rw e (
        ap (glue (glue_chunks [] b.chunks)) (sym (glue_some b.current w e visible))
        ∙ sym (glue_assoc (glue_chunks [] b.chunks) b.current w))
  ]

  -- Behind a flush.
  pub flushed :
      (added : ℕ)
      → is_empty b.current ≡ false
      → content (append_word added w (flush b)) ≡ glue (content b) w
  unfolding content append_word flush
  flushed added e = rw e (ap (λ x. glue x w) (glue_chunks-append [] b.chunks _))

  -- The count of characters.
  counted_on : length (glue (content b) w) ≡ b.total_chars + added_chars b w
  counted_on = elim (Bool-cases (is_empty b.current)) [
    | inl e ↦
        let c = content_none b i e in
        let long : length (glue (content b) w) ≡ length w =
          ap (λ x. length (glue x w)) c ∙ ap length (glue_empty w) in
        let total : b.total_chars ≡ 0 = i.counted ∙ ap length c in
        omega (arith, long, total, added_first b w e)
    | inr e ↦
        omega
          (arith, length-glue (content b) w (content_some b e) visible, i.counted, added_next b w e)
  ]

  pub within :
      (b' : TranscriptBuilder)
      → content b' ≡ glue (content b) w
      → b'.total_chars ≡ b.total_chars + added_chars b w
      → b'.max_transcript_chars ≡ b.max_transcript_chars
      → is_empty b'.current ≡ false
      → b.total_chars + added_chars b w ≤ b.max_transcript_chars
      → IsBuilder b'
  within b' c t m e l = record {
    counted = t ∙ (sym counted_on ∙ ap length (sym c));
    bounded = omega (arith, t, m, l);
    begun = inl e;
  }
