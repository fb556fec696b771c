-- ===== src/Native/Transcript.antt =====
-- crates/native/src/model.rs: `TranscriptBuilder`, which cuts the words of a transcript into chunks.
pub mod Glue
pub mod Content
pub mod Pushes
pub mod Chunks
mod Tests
use agent_workboard.Prelude.{
  ℕ, ◌+◌, Bool, true, false, not, ◌&&◌, List, [], ◌∷◌, ◌++◌, Text, length, is_empty, keep,
  is_control, is_whitespace, ltb, if◌then◌else◌, Result, ok, err, ◌>>=◌,
}
use agent_workboard.Native.Jsonl.{AdapterFailure, transcript_limit_exceeded}

pub record TranscriptChunk : Type 0 where
  pub ordinal : ℕ
  pub text : Text

pub record TranscriptBuilder : Type 0 where
  pub chunks : List TranscriptChunk
  pub current : Text
  pub max_chunk_chars : ℕ
  pub max_transcript_chars : ℕ
  pub total_chars : ℕ

abbrev pub new_builder : ℕ → ℕ → TranscriptBuilder
new_builder max_chunk_chars max_transcript_chars = record {
  chunks = [];
  current = [];
  max_chunk_chars = max_chunk_chars;
  max_transcript_chars = max_transcript_chars;
  total_chars = 0;
}

-- `str::split_whitespace`, behind the characters of a word that has begun.
pub words_after : Text → Text → List Text
words_after word [] = if is_empty word then [] else word ∷ []
words_after word (c ∷ s) =
    let finished = words_after [] s in
    let continued = words_after (word ++ c ∷ []) s in
    if is_whitespace c then (if is_empty word then finished else word ∷ finished) else continued

pub split_whitespace : Text → List Text
unfolding words_after
split_whitespace s = words_after [] s

pub flush : TranscriptBuilder → TranscriptBuilder
flush b = if is_empty b.current then b else record b {
  chunks = b.chunks ++ record { ordinal = length b.chunks; text = b.current } ∷ [];
  current = [];
}

-- The end of a round: the word goes behind what the current chunk has.
pub append_word : ℕ → Text → TranscriptBuilder → TranscriptBuilder
append_word added word b = record b {
  current = (if is_empty b.current then b.current else b.current ++ b' ' ∷ []) ++ word;
  total_chars = b.total_chars + added;
}

pub added_chars : TranscriptBuilder → Text → ℕ
added_chars b word = length word + (if is_empty b.current then 0 else 1)

-- One round of `push`, for a word without its control characters.
pub push_word : ℕ → TranscriptBuilder → Text → Result TranscriptBuilder AdapterFailure
unfolding flush append_word added_chars
push_word offset b word =
    let added = added_chars b word in
    if is_empty word
    then ok b
    else if ltb b.max_transcript_chars (b.total_chars + added)
    then err (record { byte_offset = offset; kind = transcript_limit_exceeded })
    else if not (is_empty b.current) && ltb b.max_chunk_chars (length b.current + added)
    then ok (append_word added word (flush b))
    else ok (append_word added word b)

pub clean : Text → Text
clean word = keep (λ c. not (is_control c)) word

pub push_words : ℕ → TranscriptBuilder → List Text → Result TranscriptBuilder AdapterFailure
unfolding push_word clean
push_words offset b [] = ok b
push_words offset b (word ∷ words) =
    push_word offset b (clean word) >>= λ c. push_words offset c words

pub push : ℕ → TranscriptBuilder → Text → Result TranscriptBuilder AdapterFailure
unfolding push_words split_whitespace
push offset b s = push_words offset b (split_whitespace s)

pub finish : TranscriptBuilder → List TranscriptChunk
unfolding flush
finish b = (flush b).chunks
