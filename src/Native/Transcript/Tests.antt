-- ===== src/Native/Transcript/Tests.antt =====
-- A transcript of two chunks.
use agent_workboard.Prelude.{
  All, ◌≡◌, refl, ◌≤◌, [], ◌∷◌, map, text, length, is_whitespace, is_control, ok,
}
use agent_workboard.Native.Transcript.{
  TranscriptBuilder, new_builder, split_whitespace, words_after, flush, append_word, added_chars,
  push_word, clean, push_words, push, finish,
}
use agent_workboard.Native.Transcript.Glue.{glue_all, glue_chunks}
use agent_workboard.Native.Transcript.Pushes.{push-finish}
use agent_workboard.Native.Transcript.Chunks.{IsChunk, push-IsChunk}

-- Chunks of at most 8 characters, at most 100 in all.
abbrev pushed : TranscriptBuilder
pushed = record {
  chunks = record { ordinal = 0; text = text "fix the" } ∷ [];
  current = text "build";
  max_chunk_chars = 8;
  max_transcript_chars = 100;
  total_chars = 13;
}

two_lines : push 40 (new_builder 8 100) (text "fix  the\nbuild ") ≡ ok pushed
unfolding push push_words push_word split_whitespace words_after flush append_word added_chars clean
    is_whitespace is_control
two_lines = refl

chunk_texts : map (λ c. c.text) (finish pushed) ≡ text "fix the" ∷ text "build" ∷ []
unfolding finish flush
chunk_texts = refl

push-finish_example :
    (glue_chunks [] (finish pushed)
      ≡ glue_all [] (map clean (split_whitespace (text "fix  the\nbuild "))))
    × (length (glue_chunks [] (finish pushed)) ≤ 100)
push-finish_example = push-finish 8 100 40 (text "fix  the\nbuild ") pushed two_lines

push-IsChunk_example : All (λ c. IsChunk 8 c.text) (finish pushed)
push-IsChunk_example = push-IsChunk 8 100 40 (text "fix  the\nbuild ") pushed two_lines
