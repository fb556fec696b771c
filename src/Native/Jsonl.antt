-- ===== src/Native/Jsonl.antt =====
-- crates/native/src/jsonl.rs: a scan of a file of JSON lines, from the start or from a cursor. A
-- file is its bytes; the JSON parser is a parameter; a failure keeps its offset and its kind, not
-- its message.
pub mod Loop
pub mod Bounds
pub mod Shift
pub mod Passed
pub mod Cursor
pub mod Resume
mod Tests
use Prim.Native.Nat.{bit_xor}
use agent_workboard.Prelude.{
  ℕ, zero, suc, ◌+◌, ◌-◌, ◌*◌, ◌%◌, ◌^◌, min, Bool, true, false, not, ◌&&◌, ◌||◌, List, [], ◌∷◌,
  ◌++◌, reverse, Option, none, some, length, is_empty, take, drop, ends_with, ltb, ◌==◌,
  if◌then◌else◌, Result, ok, err,
}

pub record ScanLimits : Type 0 where
  pub max_record_bytes : ℕ
  pub max_records : ℕ
  pub max_sources : ℕ
  pub max_preview_chars : ℕ
  pub max_search_chunk_chars : ℕ
  pub max_transcript_chars : ℕ

abbrev pub default_limits : ScanLimits
default_limits = record {
  max_record_bytes = 1024 * 1024;
  max_records = 100_000;
  max_sources = 10_000;
  max_preview_chars = 280;
  max_search_chunk_chars = 8 * 1024;
  max_transcript_chars = 20 * 1024 * 1024;
}

pub record FileFingerprint : Type 0 where
  pub head_len : ℕ
  pub head_hash : ℕ
  pub tail_len : ℕ
  pub tail_hash : ℕ

pub record ScanCursor : Type 0 where
  pub byte_offset : ℕ
  pub source_size : ℕ
  pub fingerprint : FileFingerprint

pub data AdapterFailureKind : Type 0 where
  io invalid_json record_too_large record_limit_exceeded source_limit_exceeded : AdapterFailureKind
  missing_identity conflicting_identity transcript_limit_exceeded : AdapterFailureKind

pub record AdapterFailure : Type 0 where
  pub byte_offset : ℕ
  pub kind : AdapterFailureKind

pub record JsonlRecord (Value : Type 0) : Type 0 where
  pub offset : ℕ
  pub value : Value

pub record JsonlStream (Value : Type 0) : Type 0 where
  pub records : List (JsonlRecord Value)
  pub start_offset : ℕ
  pub source_size : ℕ
  pub cursor : ScanCursor
  pub incomplete_tail : Bool

abbrev pub fingerprint_bytes : ℕ
fingerprint_bytes = 256

-- The fold of `hash`: FNV-1a on 64 bits. The text that the code makes of it has the same content.
hash_from : ℕ → List ℕ → ℕ
hash_from value [] = value
hash_from value (byte ∷ bytes) = hash_from ((bit_xor value byte * 0x100000001b3) % 2 ^ 64) bytes

hash : List ℕ → ℕ
unfolding hash_from
hash bytes = hash_from 0xcbf29ce484222325 bytes

-- `read_exact` after a `seek`, for a checkpoint within the file.
pub fingerprint : List ℕ → ℕ → FileFingerprint
unfolding hash
fingerprint file checkpoint_offset =
    let head_len = min checkpoint_offset fingerprint_bytes in
    let tail_len = min checkpoint_offset fingerprint_bytes in
    record {
      head_len = head_len;
      head_hash = hash (take head_len file);
      tail_len = tail_len;
      tail_hash = hash (take tail_len (drop (checkpoint_offset - tail_len) file));
    }

pub same_fingerprint : FileFingerprint → FileFingerprint → Bool
same_fingerprint a b =
    a.head_len == b.head_len
    && a.head_hash == b.head_hash
    && a.tail_len == b.tail_len
    && a.tail_hash == b.tail_hash

pub validated_start_offset : List ℕ → Option ScanCursor → ℕ
unfolding same_fingerprint
validated_start_offset file none = 0
validated_start_offset file (some prior) =
    if ltb (length file) prior.byte_offset
      || not (same_fingerprint (fingerprint file prior.byte_offset) prior.fingerprint)
    then 0
    else prior.byte_offset

-- `take(limit).read_until(b'\n')`: the bytes read, and the rest of the file.
pub read_until : ℕ → List ℕ → List ℕ × List ℕ
read_until zero file = ([], file)
read_until (suc limit) [] = ([], [])
read_until (suc limit) (byte ∷ file) =
    let (bytes, rest) = read_until limit file in
    if byte == b'\n' then (byte ∷ [], file) else (byte ∷ bytes, rest)

drop_line_ends : List ℕ → List ℕ
drop_line_ends [] = []
drop_line_ends (byte ∷ bytes) =
    if byte == b'\n' || byte == b'\r' then drop_line_ends bytes else byte ∷ bytes

-- The loop that pops `\n` and `\r` off the end.
pub trim_line_end : List ℕ → List ℕ
unfolding drop_line_ends
trim_line_end bytes = reverse (drop_line_ends (reverse bytes))

-- The variables of the scan's loop; `offset` and `checkpoint_offset` are equal between two rounds.
pub record Progress (Value : Type 0) : Type 0 where
  pub records : List (JsonlRecord Value)
  pub offset : ℕ
  pub incomplete_tail : Bool

-- How a round ends: `break`, an error, or the next round.
pub data Round (Value : Type 0) : Type 0 where
  stop next : Progress Value → Round Value
  fail : AdapterFailure → Round Value

-- The record that a finished loop returns.
pub finish_stream : {Value : Type 0} → List ℕ → ℕ → Progress Value → JsonlStream Value
unfolding fingerprint
finish_stream file start_offset p = record {
  records = p.records;
  start_offset = start_offset;
  source_size = length file;
  cursor = record {
    byte_offset = p.offset;
    source_size = length file;
    fingerprint = fingerprint file p.offset;
  };
  incomplete_tail = p.incomplete_tail;
}

module _ {Value : Type 0} (parse : List ℕ → Option Value) (limits : ScanLimits) where
  -- A round that read a whole line, its end included.
  round_line : List ℕ → Progress Value → Round Value
  round_line bytes p =
      let line = trim_line_end bytes in
      let after = p.offset + length bytes in
      if is_empty line
      then next (record p { offset = after })
      else if length p.records == limits.max_records
      then fail (record { byte_offset = p.offset; kind = record_limit_exceeded })
      else elim (parse line) [
        | none ↦ fail (record { byte_offset = p.offset; kind = invalid_json })
        | some value ↦ next (record p {
          records = p.records ++ record { offset = p.offset; value = value } ∷ [];
          offset = after;
        })
      ]

  -- One round, given the bytes that it read.
  pub round : List ℕ → Progress Value → Round Value
  round bytes p =
      if is_empty bytes
      then stop p
      else if ltb (limits.max_record_bytes + 1) (length bytes)
      then fail (record { byte_offset = p.offset; kind = record_too_large })
      else if ends_with bytes b'\n'
      then round_line bytes p
      else stop (record p { incomplete_tail = true })

  -- The loop on fuel; `none` means that the fuel ran out.
  pub rounds : ℕ → List ℕ → Progress Value → Option (Result (Progress Value) AdapterFailure)
  rounds zero file p = none
  rounds (suc fuel) file p =
      let (bytes, rest) = read_until (limits.max_record_bytes + 2) file in
      elim (round bytes p) [
        | stop q ↦ some (ok q)
        | fail e ↦ some (err e)
        | next q ↦ rounds fuel rest q
      ]

  -- The scan behind `seek(start_offset)`.
  pub stream_at : List ℕ → ℕ → Option (Result (JsonlStream Value) AdapterFailure)
  stream_at file start_offset =
      let rest = drop start_offset file in
      let first : Progress Value = record {
        records = [];
        offset = start_offset;
        incomplete_tail = false;
      } in
      elim (rounds (suc (length rest)) rest first) [
        | none ↦ none
        | some (ok p) ↦ some (ok (finish_stream file start_offset p))
        | some (err e) ↦ some (err e)
      ]

  pub stream_jsonl : List ℕ → Option ScanCursor → Option (Result (JsonlStream Value) AdapterFailure)
  stream_jsonl file prior = stream_at file (validated_start_offset file prior)
