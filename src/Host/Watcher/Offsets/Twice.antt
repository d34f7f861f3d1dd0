-- ===== src/Host/Watcher/Offsets/Twice.antt =====
-- The reads of src/host/watcher/offsetTracker.ts one after the other.
use deputy_agent.Prelude.{
  ℕ, zero, suc, ◌+◌, ◌≤◌, leb, ◌==◌, ◌≡◌, refl, sym, ap, ap₂, leb→le, ◌∙◌, subst, arith, false,
  List, [], ◌∷◌, ◌++◌, some, take, drop, length, length-append, if◌then◌else◌, Bool-cases, inl, inr,
}
use deputy_agent.Value.{Fields}
use deputy_agent.Shared.Jsonl.{Codec, lf, push_byte, split_lines, complete_len}
use deputy_agent.Shared.Jsonl.Chunks.{push_byte-lf, split_lines-append}
use deputy_agent.Shared.Jsonl.Lines.{split_lines_complete, complete_len-zero, is_zero-suc, plus_one}
use deputy_agent.Host.Watcher.Offsets.{
  ReadIncrementResult, line_events, append_events, events_of, read_stream_increment,
}

push_byte-rest :
    (b : ℕ) (p : List (List ℕ) × List ℕ)
    → (b == lf) ≡ false
    → p.0 ≡ []
    → (push_byte b p).1 ≡ b ∷ p.1
unfolding push_byte
push_byte-rest b ([], l) h k = ground arith
push_byte-rest b (s ∷ segments, l) h k = ground arith

push_byte-same : (b : ℕ) (p : List (List ℕ) × List ℕ) → (p.0 ≡ [] → ⊥) → (push_byte b p).1 ≡ p.1
unfolding push_byte
push_byte-same b ([], l) h = absurd (h refl)
push_byte-same b (s ∷ segments, l) h = ground arith

none_complete : (bs : List ℕ) → complete_len bs ≡ 0 → (split_lines bs).0 ≡ []
none_complete bs h =
    sym (
      ap (λ p. p.0)
        (subst (λ n. split_lines (take n bs) ≡ ((split_lines bs).0, [])) h
          (split_lines_complete bs)))
    ∙ unfold split_lines in refl

rest-push :
    (b : ℕ) (bs : List ℕ) (n : ℕ) (p : List (List ℕ) × List ℕ)
    → drop n bs ≡ p.1
    → (p.0 ≡ [] → n ≡ 0)
    → (n ≡ 0 → p.0 ≡ [])
    → drop (if n == 0 then (if b == lf then 1 else 0) else n + 1) (b ∷ bs) ≡ (push_byte b p).1
rest-push b bs zero p h k none = elim (Bool-cases (b == lf)) [
  | inl e ↦ rw (e, push_byte-lf b p e) h
  | inr e ↦ rw (e, push_byte-rest b p e (none refl)) (ap (λ l. b ∷ l) h)
]
rest-push b bs (suc n) p h k none =
    rw (is_zero-suc n, push_byte-same b p (λ e. absurd (omega (arith, k e))))
      (subst (λ m. drop m (b ∷ bs) ≡ p.1) (sym (plus_one (suc n))) h)

-- The bytes behind the complete lines are those that are left over.
drop-complete_len : (bs : List ℕ) → drop (complete_len bs) bs ≡ (split_lines bs).1
unfolding complete_len split_lines
drop-complete_len [] = refl
drop-complete_len (b ∷ bs) =
    rest-push b bs (complete_len bs) (split_lines bs) (drop-complete_len bs) (complete_len-zero bs)
      (none_complete bs)

pub length-drop : (n : ℕ) (bs : List ℕ) → n ≤ length bs → length (drop n bs) + n ≡ length bs
length-drop zero bs h = omega arith
length-drop (suc n) [] h = absurd (omega (arith, h))
length-drop (suc n) (b ∷ bs) h = omega (arith, length-drop n bs (omega (arith, h)))

pub complete_len-length : (bs : List ℕ) → complete_len bs ≤ length bs
unfolding complete_len
complete_len-length [] = omega arith
complete_len-length (b ∷ bs) = ground (arith, complete_len-length bs)

-- The complete lines and what is left over are all of the bytes.
complete_len-leftover : (bs : List ℕ) → length (split_lines bs).1 + complete_len bs ≡ length bs
complete_len-leftover bs =
    ap (λ l. length l + complete_len bs) (sym (drop-complete_len bs))
    ∙ length-drop (complete_len bs) bs (complete_len-length bs)

complete_len-append :
    (bs more : List ℕ)
    → complete_len (bs ++ more) ≡ complete_len bs + complete_len ((split_lines bs).1 ++ more)
complete_len-append bs more =
    let left = (split_lines bs).1 in
    let same = ap (λ p. length p.1) (split_lines-append bs more) in
    omega (
      arith,
      complete_len-leftover (bs ++ more),
      complete_len-leftover bs,
      complete_len-leftover ((split_lines bs).1 ++ more),
      same,
      length-append bs more,
      length-append (split_lines bs).1 more,
    )

drop-append : (n : ℕ) (bs more : List ℕ) → n ≤ length bs → drop n (bs ++ more) ≡ drop n bs ++ more
drop-append zero bs more h = refl
drop-append (suc n) [] more h = absurd (omega (arith, h))
drop-append (suc n) (b ∷ bs) more h = drop-append n bs more (omega (arith, h))

drop-nil : (n : ℕ) → drop {A = ℕ} n [] ≡ []
drop-nil zero = refl
drop-nil (suc n) = refl

plus_suc : (n m : ℕ) → suc n + m ≡ suc (n + m)
plus_suc n m = omega arith

drop-drop : (n m : ℕ) (bs : List ℕ) → drop (n + m) bs ≡ drop m (drop n bs)
drop-drop zero m bs = ap (λ k. drop k bs) (omega arith)
drop-drop (suc n) m [] = drop-nil (suc n + m) ∙ sym (drop-nil m)
drop-drop (suc n) m (b ∷ bs) = ap (λ k. drop k (b ∷ bs)) (plus_suc n m) ∙ drop-drop n m bs

pub drop-all : (n : ℕ) (bs : List ℕ) → length bs ≤ n → drop n bs ≡ []
drop-all zero [] h = refl
drop-all zero (b ∷ bs) h = absurd (omega (arith, h))
drop-all (suc n) [] h = refl
drop-all (suc n) (b ∷ bs) h = drop-all n bs (omega (arith, h))

pub append_events_assoc :
    (xs ys zs : List Fields)
    → append_events (append_events xs ys) zs ≡ append_events xs (append_events ys zs)
append_events_assoc [] ys zs = refl
append_events_assoc (x ∷ xs) ys zs = ap (λ l. x ∷ l) (append_events_assoc xs ys zs)

events_of-append :
    (c : Codec) (xs ys : List (List ℕ))
    → events_of c (xs ++ ys) ≡ append_events (events_of c xs) (events_of c ys)
unfolding events_of
events_of-append c [] ys = refl
events_of-append c (x ∷ xs) ys =
    ap (append_events (line_events c x)) (events_of-append c xs ys)
    ∙ sym (append_events_assoc (line_events c x) (events_of c xs) (events_of c ys))

-- what a read is, whatever branch it takes
abbrev pub read_of : Codec → List ℕ → ℕ → ReadIncrementResult
read_of c buf from_offset = record {
  events = events_of c (split_lines buf).0;
  new_offset = from_offset + complete_len buf;
}

abbrev result : List Fields → ℕ → ReadIncrementResult
result events new_offset = record { events = events; new_offset = new_offset }

plus_zero : (n : ℕ) → n ≡ n + 0
plus_zero n = omega arith

read_of-nothing :
    (c : Codec) (buf : List ℕ) (from_offset : ℕ)
    → complete_len buf ≡ 0
    → record { events = []; new_offset = from_offset } ≡ read_of c buf from_offset
read_of-nothing c buf from_offset h =
    rw (none_complete buf h, h) (unfold events_of in ap (result []) (plus_zero from_offset))

pub read_stream_increment-read_of :
    (c : Codec) (bytes : List ℕ) (from_offset : ℕ)
    → read_stream_increment c (some bytes) from_offset
      ≡ read_of c (drop from_offset bytes) from_offset
unfolding read_stream_increment
read_stream_increment-read_of c bytes from_offset =
    elim (Bool-cases (leb (length bytes) from_offset)) [
      | inl e ↦ rw e (
          read_of-nothing c (drop from_offset bytes) from_offset (
            ap complete_len (drop-all from_offset bytes (leb→le _ _ e))
            ∙ unfold complete_len in refl))
      | inr e ↦ elim (Bool-cases (complete_len (drop from_offset bytes) == 0)) [
        | inl z ↦
            rw (e, z) (read_of-nothing c (drop from_offset bytes) from_offset (ground (arith, z)))
        | inr z ↦ rw (e, z) (rw (split_lines_complete (drop from_offset bytes)) refl)
      ]
    ]

grown :
    (bytes more : List ℕ) (from_offset : ℕ)
    → from_offset ≤ length bytes
    → drop (from_offset + complete_len (drop from_offset bytes)) (bytes ++ more)
      ≡ (split_lines (drop from_offset bytes)).1 ++ more
grown bytes more from_offset h =
    let buf = drop from_offset bytes in
    drop-drop from_offset (complete_len buf) (bytes ++ more)
    ∙ ap (drop (complete_len buf)) (drop-append from_offset bytes more h)
    ∙ drop-append (complete_len buf) buf more (complete_len-length buf)
    ∙ ap (λ l. l ++ more) (drop-complete_len buf)

plus_assoc : (a b c : ℕ) → a + (b + c) ≡ (a + b) + c
plus_assoc a b c = omega arith

-- A read before the file has grown and a read after it, from the offset that the first one left,
-- give the events of one read after it, in order and each once, and end where that one ends.
pub read_stream_increment_twice :
    (c : Codec) (bytes more : List ℕ) (from_offset : ℕ)
    → from_offset ≤ length bytes
    → read_stream_increment c (some (bytes ++ more)) from_offset ≡ (
        let once = read_stream_increment c (some bytes) from_offset in
        let again = read_stream_increment c (some (bytes ++ more)) once.new_offset in
        record { events = append_events once.events again.events; new_offset = again.new_offset })
read_stream_increment_twice c bytes more from_offset h =
    let buf = drop from_offset bytes in
    let rest = (split_lines buf).1 ++ more in
    rw
      (
        read_stream_increment-read_of c bytes from_offset,
        read_stream_increment-read_of c (bytes ++ more) from_offset,
        read_stream_increment-read_of c (bytes ++ more)
            (from_offset + complete_len (drop from_offset bytes)),
        grown bytes more from_offset h,
        drop-append from_offset bytes more h,
      )
      (ap₂ result
        (ap (λ p. events_of c p.0) (split_lines-append buf more)
          ∙ events_of-append c (split_lines buf).0 (split_lines rest).0)
        (ap (λ n. from_offset + n) (complete_len-append buf more)
          ∙ plus_assoc from_offset (complete_len buf) (complete_len rest)))
