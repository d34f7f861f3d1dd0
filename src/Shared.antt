-- ===== src/Shared.antt =====
-- src/shared/jsonl.ts: files of one JSON object per line.
pub mod Jsonl
