-- ===== src/Shared/Jsonl/Crash.antt =====
-- The append of src/shared/jsonl.ts, whole and cut short by a crash, and the repair after it.
use deputy_agent.Prelude.{
  ℕ, suc, ◌≡◌, refl, sym, ap, subst, ◌∙◌, arith, false, List, [], ◌∷◌, ◌++◌, none, some,
  if◌then◌else◌, map, take, length, Bool-cases, inl, inr,
}
use mathlib.Core.List.{append-nil, append_assoc, map-append}
use deputy_agent.Value.{Fields}
use deputy_agent.Messaging.Log.{Line, json}
use deputy_agent.Shared.Jsonl.{
  Codec, Encodes, File, content, lf, last_byte, has_partial_tail, split_lines, parse_segment,
  append_line, complete_len, truncate_partial_tail,
}
use deputy_agent.Shared.Jsonl.Chunks.{split_lines-append}
use deputy_agent.Shared.Jsonl.Lines.{
  split_lines-line, split_lines-ended, complete_len-zero, is_zero-suc, plus_one,
  split_lines_complete, split_lines-whole, whole-split_lines, split_lines-IsLine,
  parse_segment-decode, IsLine, lines_of,
}

-- Half of a line at the end of the file is one line to a reader once more is appended behind it.
abbrev pub broken_tail : Codec → List ℕ → List Line
broken_tail c bs = if has_partial_tail bs then parse_segment c (split_lines bs).1 ∷ [] else []

lines_of-line :
    (c : Codec) (o : Fields) → Encodes c o → lines_of c (c.encode o ++ lf ∷ []) ≡ json o ∷ []
lines_of-line c o h =
    ap (λ p. map (parse_segment c) p.0) (split_lines-ended (c.encode o) (h.one_line))
    ∙ ap (λ x. x ∷ []) (parse_segment-decode c (c.encode o) (h.not_empty) (h.decode-encode))

lines_of-append :
    (c : Codec) (xs ys : List ℕ)
    → lines_of c (xs ++ ys) ≡ lines_of c xs ++ lines_of c ((split_lines xs).1 ++ ys)
lines_of-append c xs ys =
    ap (λ p. map (parse_segment c) p.0) (split_lines-append xs ys)
    ∙ map-append (parse_segment c) (split_lines xs).0 (split_lines ((split_lines xs).1 ++ ys)).0

lines_of-next :
    (c : Codec) (l ys : List ℕ)
    → IsLine l
    → lines_of c (l ++ lf ∷ ys) ≡ parse_segment c l ∷ lines_of c ys
lines_of-next c l ys h =
    ap (lines_of c) (sym (append_assoc l (lf ∷ []) ys))
    ∙ lines_of-append c (l ++ lf ∷ []) ys
    ∙ ap (λ p. map (parse_segment c) p.0 ++ lines_of c (p.1 ++ ys)) (split_lines-ended l h)

-- After an append a reader has what it had before, the broken tail where there was one, and the
-- object.
pub lines_of-append_line :
    (c : Codec) (o : Fields)
    → Encodes c o
    → (f : File)
    → lines_of c (content (append_line c o f))
      ≡ lines_of c (content f) ++ (broken_tail c (content f) ++ json o ∷ [])
lines_of-append_line c o h none =
    unfold has_partial_tail split_lines append_line in lines_of-line c o h
lines_of-append_line c o h (some bs) = elim (Bool-cases (has_partial_tail bs)) [
  | inl e ↦
      unfold append_line in
      rw e (
        lines_of-append c bs (lf ∷ c.encode o ++ lf ∷ [])
        ∙ ap (λ l. lines_of c bs ++ l)
            (lines_of-next c (split_lines bs).1 (c.encode o ++ lf ∷ []) (split_lines-IsLine bs)
              ∙ ap (λ l. parse_segment c (split_lines bs).1 ∷ l) (lines_of-line c o h)))
  | inr e ↦
      unfold append_line in
      rw e (
        lines_of-append c bs (c.encode o ++ lf ∷ [])
        ∙ rw (split_lines-whole bs e) (ap (λ l. lines_of c bs ++ l) (lines_of-line c o h)))
]

-- without a broken tail
lines_of-append_whole :
    (c : Codec) (o : Fields)
    → Encodes c o
    → (f : File) → has_partial_tail (content f) ≡ false
    → lines_of c (content (append_line c o f)) ≡ lines_of c (content f) ++ json o ∷ []
lines_of-append_whole c o h f k = rw k at (lines_of-append_line c o h f)

-- Repairing the file and appending an object adds the object to the lines, whatever the file was.
pub append_line-repaired :
    (c : Codec) (o : Fields)
    → Encodes c o
    → (f : File)
    → lines_of c (content (append_line c o (truncate_partial_tail f).1))
      ≡ lines_of c (content f) ++ json o ∷ []
unfolding truncate_partial_tail
append_line-repaired c o h none = lines_of-append_whole c o h none (unfold has_partial_tail in refl)
append_line-repaired c o h (some bs) = elim (Bool-cases (has_partial_tail bs)) [
  | inl e ↦
      unfold truncate_partial_tail in
      rw e (
        lines_of-append_whole c o h (some (take (complete_len bs) bs))
          (whole-split_lines (take (complete_len bs) bs) (ap (λ p. p.1) (split_lines_complete bs)))
        ∙ ap (λ p. map (parse_segment c) p.0 ++ json o ∷ []) (split_lines_complete bs))
  | inr e ↦ unfold truncate_partial_tail in rw e (lines_of-append_whole c o h (some bs) e)
]

IsLine-append : (l m : List ℕ) → IsLine (l ++ m) → IsLine l
IsLine-append [] m h = tt
IsLine-append (b ∷ l) m h = (h.0, IsLine-append l m h.1)

complete_len-append :
    (bs l : List ℕ) → has_partial_tail bs ≡ false → IsLine l → complete_len (bs ++ l) ≡ length bs
unfolding complete_len has_partial_tail
complete_len-append [] l h k = complete_len-zero l (ap (λ p. p.0) (split_lines-line l k))
complete_len-append (b ∷ []) l h k =
    rw (complete_len-append [] l refl k) (unfold last_byte in ground arith)
complete_len-append (b ∷ c ∷ bs) l h k =
    rw (complete_len-append (c ∷ bs) l h k, is_zero-suc (length bs)) (plus_one (suc (length bs)))

take-append : (bs l : List ℕ) → take (length bs) (bs ++ l) ≡ bs
take-append [] l = refl
take-append (b ∷ bs) l = ap (λ m. b ∷ m) (take-append bs l)

leftover-append :
    (bs l : List ℕ) → has_partial_tail bs ≡ false → IsLine l → (split_lines (bs ++ l)).1 ≡ l
leftover-append bs l h k =
    ap (λ p. p.1) (split_lines-append bs l)
    ∙ rw (split_lines-whole bs h) (ap (λ p. p.1) (split_lines-line l k))

-- An append that a crash cuts short before the line feed is undone by the repair, byte for byte.
pub truncate_partial_tail_restores :
    (c : Codec) (o : Fields)
    → Encodes c o
    → (bs written lost : List ℕ) → has_partial_tail bs ≡ false
    → c.encode o ≡ written ++ lost
    → (truncate_partial_tail (some (bs ++ written))).1 ≡ some bs
unfolding truncate_partial_tail
truncate_partial_tail_restores c o h bs written lost k e =
    let line = IsLine-append written lost (subst IsLine e (h.one_line)) in
    elim (Bool-cases (has_partial_tail (bs ++ written))) [
      | inl t ↦ rw t (rw (complete_len-append bs written k line) (ap some (take-append bs written)))
      | inr t ↦ rw t (
          ap (λ l. some (bs ++ l))
            (sym (leftover-append bs written k line) ∙ split_lines-whole (bs ++ written) t)
          ∙ ap some (append-nil bs))
    ]
