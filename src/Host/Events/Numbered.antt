-- ===== src/Host/Events/Numbered.antt =====
-- The numbers of the events in events.jsonl.
use deputy_agent.Prelude.{
  ℕ, ◌+◌, ◌<◌, ◌≡◌, refl, arith, String, Bool, true, false, List, [], ◌∷◌, ◌++◌, Option, none, some,
  pos, Bool-cases, inl, inr,
}
use deputy_agent.Value.{Value, int, Fields, property}
use deputy_agent.Messaging.Log.{
  Line, json, corrupt, Cut, untouched, separated, partial, unterminated, written, tail_lines,
  after_cut, next_cut, IsInside, AreInside, AreInside-next, AreInside-later, IsPartial,
}
use deputy_agent.Task.Stage.{Stage}
use deputy_agent.Host.Events.{
  HostEventInput, EventsFile, later_seq, fold_max_event_seq, scan_ended, append, append_numbered,
  append_ended, append_ended_idempotent_core, append_worker_ended_idempotent,
  append_reviewer_ended_idempotent, event_object, append_object, with_events_lock,
  truncate_events_tail, next_outcome, used, is_worker_session, ended_event, worker_ended_details,
  reviewer_ended_details, is_reviewer_session,
}
use deputy_agent.Host.Events.Calls.{
  EventsCall, event, worker_ended, reviewer_ended, truncation, perform_call, perform_calls,
}

-- The objects in the lines have numbers as `event_seq` that ascend strictly from above `n`.
abbrev pub Ascends : ℕ → List Line → Type 0
Ascends n [] = Unit
Ascends n (corrupt ∷ ls) = Ascends n ls
Ascends n (json ev ∷ ls) =
    (k : ℕ) × (property "event_seq" ev ≡ int (pos k)) × (n < k) × Ascends k ls

-- A file whose events are numbered upwards, with no object after its last line feed.
abbrev pub IsNumbered : EventsFile → Type 0
IsNumbered f = IsPartial f.tail × Ascends 0 f.lines

-- the same, where no append that throws leaves its line without the line feed
abbrev StaysNumbered : EventsFile → Type 0
StaysNumbered f = IsNumbered f × AreInside f.cuts

-- A partial line that becomes a line of its own does not count.
Ascends-tail :
    (n : ℕ) (ls : List Line) (t : Option Line)
    → IsPartial t
    → Ascends n ls
    → Ascends n (ls ++ tail_lines t)
Ascends-tail n [] none p a = tt
Ascends-tail n [] (some corrupt) p a = tt
Ascends-tail n [] (some (json o)) p a = absurd p
Ascends-tail n (corrupt ∷ ls) t p a = Ascends-tail n ls t p a
Ascends-tail n (json ev ∷ ls) t p (k, e, lt, a) = (k, e, lt, Ascends-tail k ls t p a)

later_seq-lt : (n k : ℕ) (v : Value) → v ≡ int (pos k) → n < k → later_seq n v ≡ k
later_seq-lt n k v e h = rw e (ground arith)

-- The greatest number is found, and an event with the next one can follow.
fold_max_event_seq-Ascends :
    (n m : ℕ) (ev : Fields) (ls : List Line) (t : Option Line)
    → property "event_seq" ev ≡ int (pos (m + 1))
    → IsPartial t
    → Ascends n ls
    → fold_max_event_seq n ls ≡ some m
    → Ascends n (ls ++ (tail_lines t ++ json ev ∷ []))
unfolding fold_max_event_seq
fold_max_event_seq-Ascends n m ev [] none e p a h = (m + 1, e, ground arith, tt)
fold_max_event_seq-Ascends n m ev [] (some corrupt) e p a h = (m + 1, e, ground arith, tt)
fold_max_event_seq-Ascends n m ev [] (some (json o)) e p a h = absurd p
fold_max_event_seq-Ascends n m ev (corrupt ∷ ls) t e p a h = cc h
fold_max_event_seq-Ascends n m ev (json o ∷ ls) t e p (k, s, lt, a) h =
    (k, s, lt, fold_max_event_seq-Ascends k m ev ls t e p a (rw (later_seq-lt n k _ s lt) at h))

-- What an append that throws leaves is numbered, if the whole line would be.
after_cut-IsNumbered :
    (c : Cut) (o : Fields) (ls : List Line) (t : Option Line)
    → IsInside c
    → IsPartial t
    → Ascends 0 ls
    → Ascends 0 (ls ++ (tail_lines t ++ json o ∷ []))
    → IsPartial (after_cut c o ls t).1 × Ascends 0 (after_cut c o ls t).0
after_cut-IsNumbered untouched o ls t i p a whole = (p, a)
after_cut-IsNumbered separated o ls t i p a whole = (tt, Ascends-tail 0 ls t p a)
after_cut-IsNumbered partial o ls t i p a whole = (tt, Ascends-tail 0 ls t p a)
after_cut-IsNumbered unterminated o ls t i p a whole = absurd i
after_cut-IsNumbered written o ls t i p a whole = (tt, whole)

-- The scan for an event finds the same number.
scan_ended-fold_max :
    (match : Fields → Bool) (n : ℕ) (already : Bool) (ls : List Line) {m : ℕ} {b : Bool}
    → scan_ended match n already ls ≡ some (m, b)
    → fold_max_event_seq n ls ≡ some m
unfolding scan_ended fold_max_event_seq
scan_ended-fold_max match n already [] h = cc h
scan_ended-fold_max match n already (corrupt ∷ ls) h = cc h
scan_ended-fold_max match n already (json ev ∷ ls) h =
    scan_ended-fold_max match (later_seq n (property "event_seq" ev)) _ ls h

event_object-seq :
    (e : HostEventInput) (n : ℕ) (ts : String)
    → property "event_seq" (event_object e n ts) ≡ int (pos n)
unfolding event_object property
event_object-seq e n ts = refl

-- An event with the next number is appended, or what is left of it does not count.
append_object-IsNumbered :
    (e : HostEventInput) (m : ℕ) (f : EventsFile)
    → StaysNumbered f
    → fold_max_event_seq 0 f.lines ≡ some m
    → StaysNumbered (append_object (event_object e (m + 1) f.clock) f).1
unfolding append_object
append_object-IsNumbered e m f ((t, a), c) h =
    let whole = fold_max_event_seq-Ascends 0 m _ f.lines f.tail (event_object-seq e _ _) t a h in
    elim (Bool-cases (next_outcome f)) [
      | inl w ↦ rw w ((tt, whole), c)
      | inr w ↦ rw w (
        after_cut-IsNumbered (next_cut f.cuts) _ f.lines f.tail (AreInside-next f.cuts c) t a whole,
        AreInside-later f.cuts c,
      )
    ]

append_numbered-IsNumbered :
    (e : HostEventInput) (o : Option ℕ) (f : EventsFile)
    → StaysNumbered f
    → fold_max_event_seq 0 f.lines ≡ o
    → StaysNumbered (append_numbered e o f).1
unfolding append_numbered
append_numbered-IsNumbered e none f h k = h
append_numbered-IsNumbered e (some m) f h k = append_object-IsNumbered e m f h k

append_ended-IsNumbered :
    (match : Fields → Bool) (stage : Stage) (details : Fields) (o : Option (ℕ × Bool))
    (f : EventsFile)
    → StaysNumbered f
    → scan_ended match 0 false f.lines ≡ o
    → StaysNumbered (append_ended stage details o f).1
unfolding append_ended
append_ended-IsNumbered match stage details none f h k = h
append_ended-IsNumbered match stage details (some (m, true)) f h k = h
append_ended-IsNumbered match stage details (some (m, false)) f h k =
    append_object-IsNumbered (ended_event stage details) m f h
      (scan_ended-fold_max match 0 false f.lines k)

core-IsNumbered :
    (match : Fields → Bool) (stage : Stage) (details : Fields) (f : EventsFile)
    → StaysNumbered f
    → StaysNumbered (append_ended_idempotent_core stage match details f).1
unfolding append_ended_idempotent_core with_events_lock
core-IsNumbered match stage details f h = elim (Bool-cases (next_outcome f)) [
  | inl w ↦ rw w (append_ended-IsNumbered match stage details _ (used f) h refl)
  | inr w ↦ rw w h
]

append-IsNumbered :
    (e : HostEventInput) (f : EventsFile) → StaysNumbered f → StaysNumbered (append e f).1
unfolding append with_events_lock
append-IsNumbered e f h = elim (Bool-cases (next_outcome f)) [
  | inl w ↦ rw w (append_numbered-IsNumbered e _ (used f) h refl)
  | inr w ↦ rw w h
]

perform_call-IsNumbered :
    (c : EventsCall) (f : EventsFile) → StaysNumbered f → StaysNumbered (perform_call c f)
unfolding perform_call append_worker_ended_idempotent append_reviewer_ended_idempotent
    truncate_events_tail
perform_call-IsNumbered (event e) f h = append-IsNumbered e f h
perform_call-IsNumbered (worker_ended stage id seq reason) f h =
    core-IsNumbered (is_worker_session seq) stage (worker_ended_details id seq reason) f h
perform_call-IsNumbered (reviewer_ended stage id reason) f h =
    core-IsNumbered (is_reviewer_session id) stage (reviewer_ended_details id reason) f h
perform_call-IsNumbered truncation f ((t, a), c) = ((tt, a), c)

perform_calls-StaysNumbered :
    (cs : List EventsCall) (f : EventsFile) → StaysNumbered f → StaysNumbered (perform_calls cs f)
unfolding perform_calls
perform_calls-StaysNumbered [] f h = h
perform_calls-StaysNumbered (c ∷ cs) f h =
    perform_calls-StaysNumbered cs (perform_call c f) (perform_call-IsNumbered c f h)

-- Whatever calls are made on events.jsonl, with whatever locks that time out and appends that
-- throw, of which none leaves its line whole but for the line feed: the events in it have the
-- numbers of their order. From a file in which they ascend strictly, with no object after the last
-- line feed, they ascend strictly, and there is no object after the last line feed.
pub perform_calls-IsNumbered :
    (cs : List EventsCall) (f : EventsFile)
    → IsNumbered f
    → AreInside f.cuts
    → IsNumbered (perform_calls cs f)
perform_calls-IsNumbered cs f h c = (perform_calls-StaysNumbered cs f (h, c)).0
