-- ===== src/Native/Jsonl/Tests.antt =====
-- Scans of small files. The parser of these tests takes any line that does not begin with `!`.
use agent_workboard.Prelude.{
  ℕ, ◌≡◌, refl, true, false, List, [], ◌∷◌, Option, none, some, Text, text, ends_with, starts_with,
  if◌then◌else◌, Result, ok, err,
}
use agent_workboard.Native.Jsonl.{
  ScanLimits, JsonlStream, AdapterFailure, default_limits, record_too_large, record_limit_exceeded,
  fingerprint, trim_line_end, stream_jsonl, stream_at, rounds, round, round_line, read_until,
  validated_start_offset, finish_stream,
}
use agent_workboard.Native.Jsonl.Cursor.{stream_jsonl_total, stream_jsonl-IsScanned, IsScanned}
use agent_workboard.Native.Jsonl.Resume.{Resumes, stream_jsonl-Resumes}

parse : List ℕ → Option Text
parse bytes = if starts_with bytes b'!' then none else some bytes

abbrev small : ScanLimits
small = record default_limits { max_record_bytes = 3; max_records = 2 }

abbrev old : Text
old = text "a\n\nbc\r\nd"

abbrev new : Text
new = text "a\n\nbc\r\nddd\n"

abbrev old_stream : JsonlStream Text
old_stream = record {
  records = record { offset = 0; value = text "a" } ∷ record { offset = 3; value = text "bc" } ∷ [];
  start_offset = 0;
  source_size = 8;
  cursor = record { byte_offset = 7; source_size = 8; fingerprint = fingerprint old 7 };
  incomplete_tail = true;
}

abbrev new_stream : JsonlStream Text
new_stream = record {
  records =
      record { offset = 0; value = text "a" }
      ∷ record { offset = 3; value = text "bc" }
      ∷ record { offset = 7; value = text "ddd" }
      ∷ [];
  start_offset = 0;
  source_size = 11;
  cursor = record { byte_offset = 11; source_size = 11; fingerprint = fingerprint new 11 };
  incomplete_tail = false;
}

reads_old : stream_jsonl parse default_limits old none ≡ some (ok old_stream)
unfolding stream_jsonl stream_at validated_start_offset rounds round round_line read_until
    trim_line_end finish_stream parse starts_with ends_with
reads_old = refl

reads_new : stream_jsonl parse default_limits new none ≡ some (ok new_stream)
unfolding stream_jsonl stream_at validated_start_offset rounds round round_line read_until
    trim_line_end finish_stream parse starts_with ends_with
reads_new = refl

too_many :
    stream_jsonl parse small new none
    ≡ some (err (record { byte_offset = 7; kind = record_limit_exceeded }))
unfolding stream_jsonl stream_at validated_start_offset rounds round round_line read_until
    trim_line_end finish_stream parse starts_with ends_with
too_many = refl

too_large :
    stream_jsonl parse small (text "a\nbcdef\n") none
    ≡ some (err (record { byte_offset = 2; kind = record_too_large }))
unfolding stream_jsonl stream_at validated_start_offset rounds round round_line read_until
    trim_line_end finish_stream parse starts_with ends_with
too_large = refl

stream_jsonl_total_example :
    (r : Result (JsonlStream Text) AdapterFailure) × (stream_jsonl parse small old
        (some old_stream.cursor)
      ≡ some r)
stream_jsonl_total_example = stream_jsonl_total parse small old (some old_stream.cursor)

stream_jsonl-IsScanned_example : IsScanned parse default_limits old old_stream
stream_jsonl-IsScanned_example =
    stream_jsonl-IsScanned parse default_limits old none old_stream reads_old

stream_jsonl-Resumes_example : Resumes parse default_limits new old_stream new_stream
stream_jsonl-Resumes_example =
    stream_jsonl-Resumes parse default_limits old new old_stream new_stream reads_old refl reads_new
