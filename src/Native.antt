-- ===== src/Native.antt =====
-- crates/native: reading the transcripts that the providers write.
pub mod Jsonl
pub mod Transcript
