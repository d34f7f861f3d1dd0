-- ===== src/Scenarios/Files.antt =====
-- A file of one-line objects (src/shared/jsonl.ts) through a write that a crash cuts short.
use deputy_agent.Prelude.{
  ℕ, ◌≡◌, ◌==◌, if◌then◌else◌, length, refl, sym, List, [], ◌∷◌, ◌++◌, Option, none, some, map,
}
use mathlib.Core.List.{nil≢cons}
use deputy_agent.Value.{Fields, end}
use deputy_agent.Messaging.Log.{json}
use deputy_agent.Shared.Jsonl.{
  Codec, Encodes, File, content, append_line, truncate_partial_tail, read_lines, parse_segment,
  split_lines, has_partial_tail,
}
use deputy_agent.Shared.Jsonl.Chunks.{read_lines-joined}
use deputy_agent.Shared.Jsonl.Lines.{lines_of}
use deputy_agent.Shared.Jsonl.Crash.{
  broken_tail, lines_of-append_line, append_line-repaired, truncate_partial_tail_restores,
}

-- knows only the empty object, `{}`
brace_encode : Fields → List ℕ
brace_encode o = 123 ∷ 125 ∷ []

brace_decode : List ℕ → Option Fields
brace_decode bs = if length bs == 2 then some end else none

abbrev braces : Codec
braces = record { encode = brace_encode; decode = brace_decode }

braces-Encodes : Encodes braces end
unfolding brace_encode brace_decode
braces-Encodes = record {
  one_line = (refl, (refl, tt));
  not_empty = λ e. nil≢cons (sym e);
  decode-encode = refl;
}

-- `{}`, a line feed and `{`
abbrev cut : File
cut = some (123 ∷ 125 ∷ 10 ∷ 123 ∷ [])

reads_up_to_the_cut : read_lines braces ((123 ∷ []) ∷ (125 ∷ 10 ∷ 123 ∷ []) ∷ []) ≡ json end ∷ []
unfolding read_lines brace_decode
reads_up_to_the_cut = refl

isolates_the_cut :
    content (append_line braces end cut) ≡ 123 ∷ 125 ∷ 10 ∷ 123 ∷ 10 ∷ 123 ∷ 125 ∷ 10 ∷ []
unfolding append_line brace_encode
isolates_the_cut = refl

read_lines-joined_example :
    read_lines braces ((123 ∷ []) ∷ (125 ∷ 10 ∷ 123 ∷ []) ∷ [])
    ≡ map (parse_segment braces) (split_lines (123 ∷ 125 ∷ 10 ∷ 123 ∷ [])).0
read_lines-joined_example = read_lines-joined braces ((123 ∷ []) ∷ (125 ∷ 10 ∷ 123 ∷ []) ∷ [])

lines_of-append_line_example :
    lines_of braces (content (append_line braces end cut))
    ≡ lines_of braces (content cut) ++ (broken_tail braces (content cut) ++ json end ∷ [])
lines_of-append_line_example = lines_of-append_line braces end braces-Encodes cut

append_line-repaired_example :
    lines_of braces (content (append_line braces end (truncate_partial_tail cut).1))
    ≡ lines_of braces (content cut) ++ json end ∷ []
append_line-repaired_example = append_line-repaired braces end braces-Encodes cut

truncate_partial_tail_restores_example : (truncate_partial_tail cut).1 ≡ some (123 ∷ 125 ∷ 10 ∷ [])
unfolding has_partial_tail brace_encode
truncate_partial_tail_restores_example =
    truncate_partial_tail_restores braces end braces-Encodes (123 ∷ 125 ∷ 10 ∷ []) (123 ∷ [])
      (125 ∷ []) refl refl
