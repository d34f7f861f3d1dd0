-- ===== src/Shared/Jsonl.antt =====
-- `jsonlIO` of src/shared/jsonl.ts on the bytes of a file. The text of one object, `JSON.stringify` and
-- `JSON.parse` with the UTF-8 coder, is a parameter.
pub mod Chunks
pub mod Lines
pub mod Crash
use deputy_agent.Prelude.{
  ℕ, zero, suc, ◌+◌, ◌-◌, ◌≡◌, ◌≢◌, Bool, true, false, not, List, [], ◌∷◌, ◌++◌, Option, none, some,
  ◌==◌, if◌then◌else◌, take, length, All, map,
}
use deputy_agent.Value.{Fields}
use deputy_agent.Messaging.Log.{Line, json, corrupt}

abbrev pub lf : ℕ
lf = 10

-- What the module relies on: `decode` is `JSON.parse(decoder.decode(segment))` with the test that
-- the value is an object, `none` where one of them throws.
pub record Codec : Type 0 where
  pub encode : Fields → List ℕ
  pub decode : List ℕ → Option Fields

-- `JSON.stringify` writes the object without control characters, and `JSON.parse` reads it back.
pub record Encodes (c : Codec) (o : Fields) : Type 0 where
  pub one_line : All (λ b. (b == lf) ≡ false) (c.encode o)
  pub not_empty : c.encode o ≢ []
  pub decode-encode : c.decode (c.encode o) ≡ some o

-- A file's bytes; `none` where there is no file.
abbrev pub File : Type 0
File = Option (List ℕ)

-- `lastByte`
unfoldable pub last_byte : List ℕ → Option ℕ
last_byte [] = none
last_byte (b ∷ []) = some b
last_byte (b ∷ c ∷ bs) = last_byte (c ∷ bs)

-- whether the last byte is there and is not LF
unfoldable pub has_partial_tail : List ℕ → Bool
unfolding last_byte
has_partial_tail bs = elim (last_byte bs) [ none ↦ false | some b ↦ not (b == lf) ]

abbrev pub content : File → List ℕ
content none = []
content (some bs) = bs

-- `appendLine`, without a failure of the file system
unfoldable pub append_line : Codec → Fields → File → File
unfolding has_partial_tail
append_line c o file =
    let line = c.encode o ++ lf ∷ [] in
    some (content file ++ (if has_partial_tail (content file) then lf ∷ line else line))

-- one more byte in front of lines that are split
unfoldable pub push_byte : ℕ → List (List ℕ) × List ℕ → List (List ℕ) × List ℕ
push_byte b ([], leftover) = if b == lf then ([] ∷ [], leftover) else ([], b ∷ leftover)
push_byte b (segment ∷ segments, leftover) =
    if b == lf then ([] ∷ segment ∷ segments, leftover) else ((b ∷ segment) ∷ segments, leftover)

-- the lines that end with LF, and the bytes after the last of them
unfoldable pub split_lines : List ℕ → List (List ℕ) × List ℕ
unfolding push_byte
split_lines [] = ([], [])
split_lines (b ∷ bs) = push_byte b (split_lines bs)

-- `parseSegment`
unfoldable pub parse_segment : Codec → List ℕ → Line
parse_segment c [] = corrupt
parse_segment c (b ∷ bs) = elim (c.decode (b ∷ bs)) [ none ↦ corrupt | some o ↦ json o ]

-- the loop of `readLines` over the chunks of the stream, with the bytes left over from the last one
unfoldable pub read_chunks : Codec → List ℕ → List (List ℕ) → List Line
unfolding split_lines parse_segment
read_chunks c leftover [] = []
read_chunks c leftover (chunk ∷ chunks) =
    let (segments, leftover') = split_lines (leftover ++ chunk) in
    map (parse_segment c) segments ++ read_chunks c leftover' chunks

-- `readLines`: what it yields in turn, with `corrupt` for a throw. A reader sees nothing after the
-- first of these.
unfoldable pub read_lines : Codec → List (List ℕ) → List Line
unfolding read_chunks
read_lines c chunks = read_chunks c [] chunks

-- `lastIndexOf(LF) + 1`, which is 0 where there is none
unfoldable pub complete_len : List ℕ → ℕ
complete_len [] = 0
complete_len (b ∷ bs) =
    let n = complete_len bs in if n == 0 then (if b == lf then 1 else 0) else n + 1

-- `truncatePartialTail`, without a failure of the file system
unfoldable pub truncate_partial_tail : File → Bool × File
unfolding has_partial_tail complete_len
truncate_partial_tail none = (false, none)
truncate_partial_tail (some bs) =
    if has_partial_tail bs then (true, some (take (complete_len bs) bs)) else (false, some bs)
