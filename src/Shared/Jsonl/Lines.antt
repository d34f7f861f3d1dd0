-- ===== src/Shared/Jsonl/Lines.antt =====
-- The lines of a file of src/shared/jsonl.ts and the bytes after them, against `has_partial_tail` and
-- `complete_len`.
use deputy_agent.Prelude.{
  ℕ, zero, suc, ◌+◌, ◌≡◌, ◌≢◌, refl, sym, ap, subst, ◌∙◌, arith, true, false, List, [], ◌∷◌, ◌++◌,
  ◌==◌, some, if◌then◌else◌, map, take, All, Bool-cases, inl, inr,
}
use deputy_agent.Value.{Fields}
use deputy_agent.Messaging.Log.{Line, json}
use deputy_agent.Shared.Jsonl.{
  Codec, lf, last_byte, has_partial_tail, push_byte, split_lines, parse_segment, complete_len,
}
use deputy_agent.Shared.Jsonl.Chunks.{push_byte-lf}

-- bytes of one line, without its line feed
abbrev pub IsLine : List ℕ → Type 0
IsLine = All (λ b. (b == lf) ≡ false)

-- What `readLines` yields of a file with these bytes (see Chunks).
abbrev pub lines_of : Codec → List ℕ → List Line
lines_of c bs = map (parse_segment c) (split_lines bs).0

pub split_lines-line : (l : List ℕ) → IsLine l → split_lines l ≡ ([], l)
unfolding split_lines
split_lines-line [] h = refl
split_lines-line (b ∷ l) h = rw (split_lines-line l h.1) (unfold push_byte in ground arith)

pub split_lines-ended : (l : List ℕ) → IsLine l → split_lines (l ++ lf ∷ []) ≡ (l ∷ [], [])
unfolding split_lines push_byte
split_lines-ended [] h = refl
split_lines-ended (b ∷ l) h = rw (split_lines-ended l h.1) (rw h.0 refl)

push_byte_complete :
    (b : ℕ) (p : List (List ℕ) × List ℕ) → (push_byte b p).0 ≡ [] → ((b == lf) ≡ false) × (p.0 ≡ [])
unfolding push_byte
push_byte_complete b ([], l) h = ground arith
push_byte_complete b (s ∷ segments, l) h = ground arith

pub complete_len-zero : (bs : List ℕ) → (split_lines bs).0 ≡ [] → complete_len bs ≡ 0
unfolding complete_len split_lines
complete_len-zero [] h = refl
complete_len-zero (b ∷ bs) h =
    let (e, k) = push_byte_complete b (split_lines bs) h in rw (complete_len-zero bs k) (rw e refl)

push_byte-repaired :
    (b : ℕ) (p : List (List ℕ) × List ℕ)
    → p.0 ≢ []
    → push_byte b (p.0, []) ≡ ((push_byte b p).0, [])
unfolding push_byte
push_byte-repaired b ([], l) h = absurd (h refl)
push_byte-repaired b (s ∷ segments, l) h = ground arith

push_byte-ends :
    (b : ℕ) (p : List (List ℕ) × List ℕ) → (b == lf) ≡ true → p.0 ≡ [] → (push_byte b p).0 ≡ [] ∷ []
unfolding push_byte
push_byte-ends b ([], l) h k = ground arith
push_byte-ends b (s ∷ segments, l) h k = ground arith

push_byte-goes_on :
    (b : ℕ) (p : List (List ℕ) × List ℕ) → (b == lf) ≡ false → p.0 ≡ [] → (push_byte b p).0 ≡ []
unfolding push_byte
push_byte-goes_on b ([], l) h k = ground arith
push_byte-goes_on b (s ∷ segments, l) h k = ground arith

pub is_zero-suc : (n : ℕ) → (suc n == 0) ≡ false
is_zero-suc n = ground arith

pub plus_one : (n : ℕ) → n + 1 ≡ suc n
plus_one n = omega arith

complete-push :
    (b : ℕ) (bs : List ℕ) (n : ℕ) (p : List (List ℕ) × List ℕ)
    → split_lines (take n bs) ≡ (p.0, [])
    → (p.0 ≡ [] → n ≡ 0)
    → split_lines (take (if n == 0 then (if b == lf then 1 else 0) else n + 1) (b ∷ bs))
      ≡ ((push_byte b p).0, [])
unfolding split_lines
complete-push b bs zero p h k = elim (Bool-cases (b == lf)) [
  | inl e ↦ rw (e, push_byte-ends b p e (sym (ap (λ q. q.0) h))) (push_byte-lf b ([], []) e)
  | inr e ↦ rw (e, push_byte-goes_on b p e (sym (ap (λ q. q.0) h))) refl
]
complete-push b bs (suc n) p h k = rw (is_zero-suc n) (
    subst (λ m. split_lines (take m (b ∷ bs)) ≡ ((push_byte b p).0, [])) (sym (plus_one (suc n)))
      (ap (push_byte b) h ∙ push_byte-repaired b p (λ e. absurd (omega (arith, k e)))))

-- The bytes up to the last line feed have the complete lines, and nothing left over.
pub split_lines_complete :
    (bs : List ℕ) → split_lines (take (complete_len bs) bs) ≡ ((split_lines bs).0, [])
unfolding complete_len split_lines
split_lines_complete [] = refl
split_lines_complete (b ∷ bs) =
    complete-push b bs (complete_len bs) (split_lines bs) (split_lines_complete bs)
      (complete_len-zero bs)

push_byte-whole :
    (b : ℕ) (p : List (List ℕ) × List ℕ) → p.1 ≡ [] → p.0 ≢ [] → (push_byte b p).1 ≡ []
unfolding push_byte
push_byte-whole b ([], l) h k = absurd (k refl)
push_byte-whole b (s ∷ segments, l) h k = ground arith

push_byte-not_empty :
    (b : ℕ) (p : List (List ℕ) × List ℕ) → (push_byte b p).0 ≡ [] → (push_byte b p).1 ≢ []
unfolding push_byte
push_byte-not_empty b ([], l) h k = ground arith
push_byte-not_empty b (s ∷ segments, l) h k = ground arith

pub split_lines-whole : (bs : List ℕ) → has_partial_tail bs ≡ false → (split_lines bs).1 ≡ []
unfolding split_lines has_partial_tail
split_lines-whole [] h = refl
split_lines-whole (b ∷ []) h = unfold push_byte last_byte in ground arith
split_lines-whole (b ∷ c ∷ bs) h =
    push_byte-whole b (split_lines (c ∷ bs)) (split_lines-whole (c ∷ bs) h)
      (λ e. push_byte-not_empty c (split_lines bs) e (split_lines-whole (c ∷ bs) h))

push_byte-kept : (b : ℕ) (p : List (List ℕ) × List ℕ) → (push_byte b p).1 ≡ [] → p.1 ≡ []
unfolding push_byte
push_byte-kept b ([], l) h = ground arith
push_byte-kept b (s ∷ segments, l) h = ground arith

pub whole-split_lines : (bs : List ℕ) → (split_lines bs).1 ≡ [] → has_partial_tail bs ≡ false
unfolding split_lines has_partial_tail
whole-split_lines [] h = refl
whole-split_lines (b ∷ []) h = unfold push_byte last_byte in ground arith
whole-split_lines (b ∷ c ∷ bs) h =
    whole-split_lines (c ∷ bs) (push_byte-kept b (split_lines (c ∷ bs)) h)

push_byte-IsLine : (b : ℕ) (p : List (List ℕ) × List ℕ) → IsLine p.1 → IsLine (push_byte b p).1
unfolding push_byte
push_byte-IsLine b ([], l) h = elim (Bool-cases (b == lf)) [ inl e ↦ rw e h | inr e ↦ rw e (e, h) ]
push_byte-IsLine b (s ∷ segments, l) h = elim (Bool-cases (b == lf)) [
  | inl e ↦ rw e h
  | inr e ↦ rw e h
]

pub split_lines-IsLine : (bs : List ℕ) → IsLine (split_lines bs).1
unfolding split_lines
split_lines-IsLine [] = tt
split_lines-IsLine (b ∷ bs) = push_byte-IsLine b (split_lines bs) (split_lines-IsLine bs)

pub parse_segment-decode :
    (c : Codec) (l : List ℕ) {o : Fields}
    → l ≢ []
    → c.decode l ≡ some o
    → parse_segment c l ≡ json o
unfolding parse_segment
parse_segment-decode c [] h k = absurd (h refl)
parse_segment-decode c (b ∷ l) h k = rw (parse_segment, k) refl
