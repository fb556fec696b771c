-- ===== src/Native/Transcript/Chunks.antt =====
-- How long the chunks of a transcript are.
use agent_workboard.Prelude.{
  ℕ, ◌+◌, ◌≤◌, ◌≡◌, refl, sym, subst, ◌∙◌, ◌⊎◌, inl, inr, Bool, true, false, List, [], ◌∷◌, ◌++◌,
  Text, length, is_empty, any, All, All-append, length-append, ltb, ltb→ge, ◌==◌, if◌then◌else◌,
  Bool-cases, or-eq-false, is_whitespace, is_control, ok, >>=-eq-ok, ok-injective, arith,
}
use agent_workboard.Native.Transcript.{
  TranscriptChunk, TranscriptBuilder, new_builder, words_after, split_whitespace, flush,
  append_word, added_chars, push_word, clean, push_words, push, finish,
}
use agent_workboard.Native.Transcript.Pushes.{unpushed}

abbrev pub is_space : ℕ → Bool
is_space c = c == b' '

-- A chunk within the limit, or a single word.
abbrev pub IsChunk : ℕ → Text → Type 0
IsChunk limit t = (length t ≤ limit) ⊎ (any is_space t ≡ false)

abbrev IsCut : TranscriptBuilder → ℕ → Type 0
IsCut b limit =
    (b.max_chunk_chars ≡ limit) × All (λ c. IsChunk limit c.text) b.chunks × IsChunk limit b.current

any-append {ℓ} :
    {A : Type ℓ} (p : A → Bool) (xs ys : List A)
    → any p xs ≡ false
    → any p ys ≡ false
    → any p (xs ++ ys) ≡ false
any-append p [] ys h k = k
any-append p (x ∷ xs) ys h k = ground (arith, any-append p xs ys)

space_whitespace : (c : ℕ) → is_whitespace c ≡ false → is_space c ≡ false
unfolding is_whitespace
space_whitespace c h = ground arith

words_after-spaces :
    (word s : Text)
    → any is_space word ≡ false
    → All (λ w. any is_space w ≡ false) (words_after word s)
unfolding words_after
words_after-spaces word [] h = elim (Bool-cases (is_empty word)) [
  | inl e ↦ rw e tt
  | inr e ↦ rw e (h, tt)
]
words_after-spaces word (c ∷ s) h = elim (Bool-cases (is_whitespace c)) [
  | inl e ↦ elim (Bool-cases (is_empty word)) [
    | inl f ↦ rw e (rw f (words_after-spaces [] s refl))
    | inr f ↦ rw e (rw f (h, words_after-spaces [] s refl))
  ]
  | inr e ↦ rw e (
      words_after-spaces (word ++ c ∷ []) s
        (any-append is_space word (c ∷ []) h (only c (space_whitespace c e))))
]
  where
    only : (c : ℕ) → is_space c ≡ false → any is_space (c ∷ []) ≡ false
    only c h = rw h refl

clean-spaces : (w : Text) → any is_space w ≡ false → any is_space (clean w) ≡ false
unfolding clean
clean-spaces [] h = refl
clean-spaces (c ∷ w) h =
    let (here, later) = or-eq-false (is_space c) _ h in
    elim (Bool-cases (is_control c)) [
      | inl e ↦ rw (clean, e) (clean-spaces w later)
      | inr e ↦ rw (clean, e) (rw here (clean-spaces w later))
    ]

flush-IsCut :
    (b : TranscriptBuilder) (limit : ℕ)
    → IsCut b limit
    → ((flush b).max_chunk_chars ≡ limit) × All (λ c. IsChunk limit c.text) (flush b).chunks
unfolding flush
flush-IsCut b limit (m, chunks, current) = elim (Bool-cases (is_empty b.current)) [
  | inl e ↦ rw e (m, chunks)
  | inr e ↦ rw e (m, All-append (λ c. IsChunk limit c.text) b.chunks _ chunks (current, tt))
]

-- The three ways of adding a word.
push_word-ends :
    (offset : ℕ) (b : TranscriptBuilder) (w : Text) (b' : TranscriptBuilder)
    → is_empty w ≡ false
    → push_word offset b w ≡ ok b'
    → ((is_empty b.current ≡ true) × (append_word (added_chars b w) w b ≡ b'))
      ⊎ (((is_empty b.current ≡ false) × (append_word (added_chars b w) w (flush b) ≡ b'))
          ⊎ ((is_empty b.current ≡ false)
              × (length b.current + added_chars b w ≤ b.max_chunk_chars)
              × (append_word (added_chars b w) w b ≡ b')))
unfolding push_word
push_word-ends offset b w b' e h =
    elim (Bool-cases (ltb b.max_transcript_chars (b.total_chars + added_chars b w))) [
      | inl over ↦ cc
      | inr fits ↦ elim (Bool-cases (is_empty b.current)) [
        | inl fresh ↦ inl (fresh, cc)
        | inr begun ↦
            elim (Bool-cases (ltb b.max_chunk_chars (length b.current + added_chars b w))) [
              | inl full ↦ inr (inl (begun, cc))
              | inr room ↦ inr (inr (begun, ltb→ge _ _ room, cc))
            ]
      ]
    ]

flush_current :
    (b : TranscriptBuilder) → is_empty b.current ≡ false → is_empty (flush b).current ≡ true
unfolding flush
flush_current b e = rw e refl

alone :
    (limit added : ℕ) (w : Text) (b : TranscriptBuilder)
    → is_empty b.current ≡ true
    → any is_space w ≡ false
    → IsChunk limit (append_word added w b).current
unfolding append_word
alone limit added w b e h = rw e (inr (any-append is_space b.current w (none_there b.current e) h))
  where
    none_there : (t : Text) → is_empty t ≡ true → any is_space t ≡ false
    none_there [] e = refl
    none_there (c ∷ t) e = cc

longer :
    (limit : ℕ) (w : Text) (b : TranscriptBuilder)
    → is_empty b.current ≡ false
    → length b.current + added_chars b w ≤ limit
    → IsChunk limit (append_word (added_chars b w) w b).current
unfolding append_word added_chars
longer limit w b e h =
    let room : length b.current + (length w + 1) ≤ limit =
      subst (λ x. length b.current + (length w + (if x then 0 else 1)) ≤ limit) e h in
    rw e (
      inl (
        omega (
          arith,
          room,
          length-append (b.current ++ b' ' ∷ []) w,
          length-append b.current (b' ' ∷ []),
        )))

append_word-kept :
    (added : ℕ) (w : Text) (b : TranscriptBuilder)
    → ((append_word added w b).max_chunk_chars ≡ b.max_chunk_chars)
      × ((append_word added w b).chunks ≡ b.chunks)
unfolding append_word
append_word-kept added w b = (refl, refl)

push_word-IsCut :
    (offset limit : ℕ) (b : TranscriptBuilder) (w : Text) (b' : TranscriptBuilder)
    → IsCut b limit
    → any is_space w ≡ false
    → push_word offset b w ≡ ok b'
    → IsCut b' limit
push_word-IsCut offset limit b w b' i spaceless h = elim (Bool-cases (is_empty w)) [
  | inl e ↦ subst (λ x. IsCut x limit) (unpushed offset b w b' e h) i
  | inr e ↦
      let added = added_chars b w in
      let (m, chunks, current) = i in
      let (m', c') = append_word-kept added w b in
      let all = λ (cs : List TranscriptChunk). All (λ c. IsChunk limit c.text) cs in
      elim (push_word-ends offset b w b' e h) [
        | inl (fresh, same) ↦
            subst (λ x. IsCut x limit) same
              (m' ∙ m, subst all (sym c') chunks, alone limit added w b fresh spaceless)
        | inr (inl (begun, same)) ↦
            let (fm, fc) = flush-IsCut b limit i in
            let (m2, c2) = append_word-kept added w (flush b) in
            subst (λ x. IsCut x limit) same
              (
                m2 ∙ fm,
                subst all (sym c2) fc,
                alone limit added w (flush b) (flush_current b begun) spaceless,
              )
        | inr (inr (begun, room, same)) ↦
            subst (λ x. IsCut x limit) same
              (
                m' ∙ m,
                subst all (sym c') chunks,
                longer limit w b begun (subst (λ n. length b.current + added_chars b w ≤ n) m room),
              )
      ]
]

push_words-IsCut :
    (offset limit : ℕ) (b : TranscriptBuilder) (words : List Text) (b' : TranscriptBuilder)
    → IsCut b limit
    → All (λ w. any is_space w ≡ false) words
    → push_words offset b words ≡ ok b'
    → IsCut b' limit
unfolding push_words
push_words-IsCut offset limit b [] b' i s h = subst (λ x. IsCut x limit) (ok-injective h) i
push_words-IsCut offset limit b (word ∷ words) b' i (s, ss) h =
    let (c, first, rest) = >>=-eq-ok (push_word offset b (clean word)) _ h in
    push_words-IsCut offset limit c words b'
      (push_word-IsCut offset limit b (clean word) c i (clean-spaces word s) first) ss rest

-- If a new builder takes a text, then each of its chunks has at most the limit's characters, or is a
-- single word.
pub push-IsChunk :
    (max_chunk max_transcript offset : ℕ) (s : Text) (b : TranscriptBuilder)
    → push offset (new_builder max_chunk max_transcript) s ≡ ok b
    → All (λ c. IsChunk max_chunk c.text) (finish b)
unfolding push split_whitespace finish
push-IsChunk max_chunk max_transcript offset s b h =
    (flush-IsCut b max_chunk (
      push_words-IsCut offset max_chunk (new_builder max_chunk max_transcript) (split_whitespace s)
        b (refl, tt, inr refl) (words_after-spaces [] s refl) h)).1
