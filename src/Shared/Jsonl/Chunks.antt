-- ===== src/Shared/Jsonl/Chunks.antt =====
-- What `readLines` of src/shared/jsonl.ts yields does not depend on how the stream cuts the file.
use deputy_agent.Prelude.{
  ℕ, ◌≡◌, refl, sym, ap, ◌∙◌, arith, true, false, List, [], ◌∷◌, ◌++◌, ◌==◌, map, Bool-cases, inl,
  inr,
}
use mathlib.Core.List.{append-nil, append_assoc, map-append}
use deputy_agent.Shared.Jsonl.{
  Codec, lf, push_byte, split_lines, parse_segment, read_chunks, read_lines,
}

-- The bytes of the chunks in order.
abbrev pub joined : List (List ℕ) → List ℕ
joined [] = []
joined (chunk ∷ chunks) = chunk ++ joined chunks

-- more lines behind lines that are split, whose rest is split into `next`
abbrev continued : List (List ℕ) → List (List ℕ) × List ℕ → List (List ℕ) × List ℕ
continued segments (more, leftover) = (segments ++ more, leftover)

pub push_byte-lf :
    (a : ℕ) (p : List (List ℕ) × List ℕ) → (a == lf) ≡ true → push_byte a p ≡ ([] ∷ p.0, p.1)
unfolding push_byte
push_byte-lf a ([], l) h = ground arith
push_byte-lf a (s ∷ segments, l) h = ground arith

push_byte-first : (a : ℕ) (l : List ℕ) → (a == lf) ≡ false → push_byte a ([], l) ≡ ([], a ∷ l)
unfolding push_byte
push_byte-first a l h = ground arith

push_byte-next :
    (a : ℕ) (s : List ℕ) (segments : List (List ℕ)) (l : List ℕ)
    → (a == lf) ≡ false
    → push_byte a (s ∷ segments, l) ≡ ((a ∷ s) ∷ segments, l)
unfolding push_byte
push_byte-next a s segments l h = ground arith

push-continued :
    (a : ℕ) (segments : List (List ℕ)) (leftover : List ℕ) (next : List ℕ → List (List ℕ) × List ℕ)
    → ((l : List ℕ) → next (a ∷ l) ≡ push_byte a (next l))
    → push_byte a (continued segments (next leftover))
      ≡ continued (push_byte a (segments, leftover)).0 (next (push_byte a (segments, leftover)).1)
push-continued a [] leftover next h = elim (Bool-cases (a == lf)) [
  | inl e ↦
      push_byte-lf a (next leftover) e
      ∙ sym (ap (λ p. continued p.0 (next p.1)) (push_byte-lf a ([], leftover) e))
  | inr e ↦
      sym (h leftover) ∙ sym (ap (λ p. continued p.0 (next p.1)) (push_byte-first a leftover e))
]
push-continued a (s ∷ segments) leftover next h = elim (Bool-cases (a == lf)) [
  | inl e ↦
      push_byte-lf a (continued (s ∷ segments) (next leftover)) e
      ∙ sym (ap (λ p. continued p.0 (next p.1)) (push_byte-lf a (s ∷ segments, leftover) e))
  | inr e ↦
      push_byte-next a s (segments ++ (next leftover).0) (next leftover).1 e
      ∙ sym (ap (λ p. continued p.0 (next p.1)) (push_byte-next a s segments leftover e))
]

-- Bytes with more bytes after them are split into the lines of the former and those of what the
-- former leave over with the latter.
pub split_lines-append :
    (xs ys : List ℕ)
    → split_lines (xs ++ ys) ≡ continued (split_lines xs).0 (split_lines ((split_lines xs).1 ++ ys))
unfolding split_lines
split_lines-append [] ys = refl
split_lines-append (x ∷ xs) ys =
    ap (push_byte x) (split_lines-append xs ys)
    ∙ push-continued x (split_lines xs).0 (split_lines xs).1 (λ l. split_lines (l ++ ys))
        (λ l. refl)

leftover-push :
    (x : ℕ) (segments : List (List ℕ)) (leftover : List ℕ)
    → split_lines leftover ≡ ([], leftover)
    → split_lines (push_byte x (segments, leftover)).1 ≡ ([], (push_byte x (segments, leftover)).1)
unfolding split_lines
leftover-push x [] leftover h = elim (Bool-cases (x == lf)) [
  | inl e ↦ rw (push_byte-lf x ([], leftover) e) h
  | inr e ↦ rw (push_byte-first x leftover e) (ap (push_byte x) h ∙ push_byte-first x leftover e)
]
leftover-push x (s ∷ segments) leftover h = elim (Bool-cases (x == lf)) [
  | inl e ↦ rw (push_byte-lf x (s ∷ segments, leftover) e) h
  | inr e ↦ rw (push_byte-next x s segments leftover e) h
]

-- No line ends in what is left over.
pub split_lines-leftover : (xs : List ℕ) → split_lines (split_lines xs).1 ≡ ([], (split_lines xs).1)
unfolding split_lines
split_lines-leftover [] = refl
split_lines-leftover (x ∷ xs) =
    leftover-push x (split_lines xs).0 (split_lines xs).1 (split_lines-leftover xs)

read_chunks-joined :
    (c : Codec) (leftover : List ℕ) (chunks : List (List ℕ))
    → split_lines leftover ≡ ([], leftover)
    → read_chunks c leftover chunks
      ≡ map (parse_segment c) (split_lines (leftover ++ joined chunks)).0
unfolding read_chunks
read_chunks-joined c leftover [] h = rw (append-nil leftover) (rw h refl)
read_chunks-joined c leftover (chunk ∷ chunks) h =
    let rest = (split_lines (leftover ++ chunk)).1 in
    ap (λ l. map (parse_segment c) (split_lines (leftover ++ chunk)).0 ++ l)
      (read_chunks-joined c rest chunks (split_lines-leftover (leftover ++ chunk)))
    ∙ sym (
        map-append (parse_segment c) (split_lines (leftover ++ chunk)).0
          (split_lines (rest ++ joined chunks)).0)
    ∙ ap (λ p. map (parse_segment c) p.0)
        (sym (split_lines-append (leftover ++ chunk) (joined chunks)))
    ∙ ap (λ l. map (parse_segment c) (split_lines l).0)
        (append_assoc leftover chunk (joined chunks))

-- However the stream cuts a file into chunks, `readLines` yields the parsed lines of the whole
-- file, without the bytes after the last line feed.
pub read_lines-joined :
    (c : Codec) (chunks : List (List ℕ))
    → read_lines c chunks ≡ map (parse_segment c) (split_lines (joined chunks)).0
unfolding read_lines split_lines
read_lines-joined c chunks = read_chunks-joined c [] chunks refl
