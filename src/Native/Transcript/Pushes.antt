-- ===== src/Native/Transcript/Pushes.antt =====
-- What a transcript's chunks say: the words that were pushed, with single spaces.
use agent_workboard.Prelude.{
  ℕ, ◌+◌, ◌≤◌, ◌≡◌, refl, ap, subst, ◌∙◌, ◌⊎◌, inl, inr, true, false, List, [], ◌∷◌, map, Text,
  length, is_empty, ltb, ltb→ge, Bool-cases, ok, >>=-eq-ok, ok-injective, arith,
}
use agent_workboard.Native.Transcript.{
  TranscriptBuilder, new_builder, split_whitespace, flush, append_word, added_chars, push_word,
  clean, push_words, push, finish,
}
use agent_workboard.Native.Transcript.Glue.{
  glue, glue_all, glue_chunks, glue_chunks-append, is_empty-append, glue_nothing,
}
use agent_workboard.Native.Transcript.Content.{content, IsBuilder, appended, flushed, within}

pub unpushed :
    (offset : ℕ) (b : TranscriptBuilder) (w : Text) (b' : TranscriptBuilder)
    → is_empty w ≡ true
    → push_word offset b w ≡ ok b'
    → b ≡ b'
unfolding push_word
unpushed offset b w b' e h = cc

-- How a round with a word ends, if it succeeds.
push_word-cases :
    (offset : ℕ) (b : TranscriptBuilder) (w : Text) (b' : TranscriptBuilder)
    → is_empty w ≡ false
    → push_word offset b w ≡ ok b'
    → (b.total_chars + added_chars b w ≤ b.max_transcript_chars)
      × (((is_empty b.current ≡ false) × (append_word (added_chars b w) w (flush b) ≡ b'))
          ⊎ (append_word (added_chars b w) w b ≡ b'))
unfolding push_word
push_word-cases offset b w b' e h =
    elim (Bool-cases (ltb b.max_transcript_chars (b.total_chars + added_chars b w))) [
      | inl over ↦ cc
      | inr fits ↦ elim (Bool-cases (is_empty b.current)) [
        | inl fresh ↦ (ltb→ge _ _ fits, inr cc)
        | inr begun ↦
            elim (Bool-cases (ltb b.max_chunk_chars (length b.current + added_chars b w))) [
              | inl full ↦ (ltb→ge _ _ fits, inl (begun, cc))
              | inr room ↦ (ltb→ge _ _ fits, inr cc)
            ]
      ]
    ]

append_word-fields :
    (added : ℕ) (w : Text) (b : TranscriptBuilder)
    → is_empty w ≡ false
    → ((append_word added w b).total_chars ≡ b.total_chars + added)
      × ((append_word added w b).max_transcript_chars ≡ b.max_transcript_chars)
      × (is_empty (append_word added w b).current ≡ false)
unfolding append_word
append_word-fields added w b e = (refl, refl, is_empty-append _ w e)

flush-fields :
    (b : TranscriptBuilder)
    → ((flush b).total_chars ≡ b.total_chars)
      × ((flush b).max_transcript_chars ≡ b.max_transcript_chars)
unfolding flush
flush-fields b = elim (Bool-cases (is_empty b.current)) [
  | inl e ↦ rw e (refl, refl)
  | inr e ↦ rw e (refl, refl)
]

-- What a round leaves of the builder.
abbrev pub Pushed : TranscriptBuilder → Text → TranscriptBuilder → Type 0
Pushed b w b' =
    IsBuilder b'
    × (content b' ≡ glue (content b) w)
    × (b'.max_transcript_chars ≡ b.max_transcript_chars)

push_word-Pushed :
    (offset : ℕ) (b : TranscriptBuilder) (w : Text) (b' : TranscriptBuilder)
    → IsBuilder b
    → push_word offset b w ≡ ok b'
    → Pushed b w b'
push_word-Pushed offset b w b' i h = elim (Bool-cases (is_empty w)) [
  | inl e ↦ subst (Pushed b w) (unpushed offset b w b' e h) (i, glue_nothing (content b) w e, refl)
  | inr e ↦
      let added = added_chars b w in
      let (fits, ends) = push_word-cases offset b w b' e h in
      elim ends [
        | inl (begun, same) ↦
            let (t, m, c) = append_word-fields added w (flush b) e in
            let (ft, fm) = flush-fields b in
            let says = flushed b i w e added begun in
            subst (Pushed b w) same (
              within b i w e (append_word added w (flush b)) says (t ∙ ap (λ x. x + added) ft)
                  (m ∙ fm) c fits,
              says,
              m ∙ fm,
            )
        | inr same ↦
            let (t, m, c) = append_word-fields added w b e in
            let says = appended b i w e added in
            subst (Pushed b w) same
              (within b i w e (append_word added w b) says t m c fits, says, m)
      ]
]

push_words-Pushed :
    (offset : ℕ) (b : TranscriptBuilder) (words : List Text) (b' : TranscriptBuilder)
    → IsBuilder b
    → push_words offset b words ≡ ok b'
    → IsBuilder b'
      × (content b' ≡ glue_all (content b) (map clean words))
      × (b'.max_transcript_chars ≡ b.max_transcript_chars)
unfolding push_words glue_all
push_words-Pushed offset b [] b' i h =
    let e : b ≡ b' = ok-injective h in
    subst
      (λ x.
        IsBuilder x × (content x ≡ content b) × (x.max_transcript_chars ≡ b.max_transcript_chars))
      e (i, refl, refl)
push_words-Pushed offset b (word ∷ words) b' i h =
    let (c, first, rest) = >>=-eq-ok (push_word offset b (clean word)) _ h in
    let (j, says, limit) = push_word-Pushed offset b (clean word) c i first in
    let (k, says', limit') = push_words-Pushed offset c words b' j rest in
    (k, says' ∙ ap (λ x. glue_all x (map clean words)) says, limit' ∙ limit)

new_builder-IsBuilder :
    (max_chunk max_transcript : ℕ) → IsBuilder (new_builder max_chunk max_transcript)
unfolding content glue glue_chunks
new_builder-IsBuilder max_chunk max_transcript = record {
  counted = refl;
  bounded = omega arith;
  begun = inr (refl, refl);
}

new_content :
    (max_chunk max_transcript : ℕ) (texts : List Text)
    → glue_all (content (new_builder max_chunk max_transcript)) texts ≡ glue_all [] texts
unfolding content glue glue_chunks
new_content max_chunk max_transcript texts = refl

finish-content : (b : TranscriptBuilder) → IsBuilder b → glue_chunks [] (finish b) ≡ content b
unfolding finish flush content
finish-content b i = elim (Bool-cases (is_empty b.current)) [
  | inl e ↦ rw (finish, e) (glue_nothing (glue_chunks [] b.chunks) b.current e)
  | inr e ↦ rw (finish, e) (glue_chunks-append [] b.chunks _)
]

-- If a new builder takes a text, then its chunks, joined by spaces, say the text's words without
-- their control characters, with single spaces, in at most as many characters as the limit.
pub push-finish :
    (max_chunk max_transcript offset : ℕ) (s : Text) (b : TranscriptBuilder)
    → push offset (new_builder max_chunk max_transcript) s ≡ ok b
    → (glue_chunks [] (finish b) ≡ glue_all [] (map clean (split_whitespace s)))
      × (length (glue_chunks [] (finish b)) ≤ max_transcript)
unfolding push
push-finish max_chunk max_transcript offset s b h =
    let (i, says, limit) =
      push_words-Pushed offset (new_builder max_chunk max_transcript) (split_whitespace s) b
        (new_builder-IsBuilder max_chunk max_transcript) h in
    let whole = finish-content b i in
    (
      whole ∙ (says ∙ new_content max_chunk max_transcript (map clean (split_whitespace s))),
      omega (arith, ap length whole, i.counted, i.bounded, limit),
    )
