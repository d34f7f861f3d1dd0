-- ===== src/Host/Events/Once.antt =====
-- At most one `agent_session_ended` of a worker session stands in events.jsonl.
use deputy_agent.Prelude.{
  ℕ, suc, ◌+◌, ◌≤◌, ◌≡◌, ◌⊎◌, inl, inr, refl, ◌∙◌, arith, String, Bool, true, false, List, [], ◌∷◌,
  ◌++◌, Option, none, some, if◌then◌else◌, ℤ, eqb_ℤ, eqb_ℤ-eq, eqb_ℤ_refl, Bool-cases, All, ◌||◌,
}
use deputy_agent.Value.{property, Fields}
use deputy_agent.Messaging.Log.{
  Line, json, corrupt, Cut, untouched, separated, partial, unterminated, written, tail_lines,
  after_cut, next_cut, IsInside, AreInside, AreInside-next, AreInside-later, IsPartial,
}
use deputy_agent.Host.Events.Calls.{
  EventsCall, event, worker_ended, reviewer_ended, truncation, perform_call, perform_calls,
}
use deputy_agent.Task.Stage.{Stage}
use deputy_agent.Host.Events.{
  HostEventInput, EventsFile, ok, AppendEndedIdempotentResult, scan_ended, is_ended,
  is_worker_session, ended_event, worker_ended_details, reviewer_ended_details, is_reviewer_session,
  append, append_numbered, append_ended, append_worker_ended_idempotent,
  append_reviewer_ended_idempotent, event_object, append_object, next_outcome, used,
  append_ended_idempotent_core, later_seq, with_events_lock, truncate_events_tail,
}

-- how many events of a list of lines `is_ended` counts
abbrev pub ended_count : (Fields → Bool) → List Line → ℕ
ended_count m [] = 0
ended_count m (corrupt ∷ ls) = ended_count m ls
ended_count m (json ev ∷ ls) =
    let rest = ended_count m ls in if is_ended m ev then suc rest else rest

pub ended_count-append :
    (m : Fields → Bool) (ls ks : List Line)
    → ended_count m (ls ++ ks) ≡ ended_count m ls + ended_count m ks
ended_count-append m [] ks = omega arith
ended_count-append m (corrupt ∷ ls) ks = ended_count-append m ls ks
ended_count-append m (json ev ∷ ls) ks = ground (arith, ended_count-append m ls ks)

-- What the scan says of the lines.
abbrev Scanned : (Fields → Bool) → Bool → List Line → Option (ℕ × Bool) → Type 0
Scanned m already ls none = Unit
Scanned m already ls (some (max, true)) = (already ≡ true) ⊎ (1 ≤ ended_count m ls)
Scanned m already ls (some (max, false)) = (already ≡ false) × (ended_count m ls ≡ 0)

Scanned-step :
    (m : Fields → Bool) (already : Bool) (ev : Fields) (ls : List Line) (o : Option (ℕ × Bool))
    → Scanned m (already || is_ended m ev) ls o
    → Scanned m already (json ev ∷ ls) o
Scanned-step m already ev ls none h = tt
Scanned-step m true ev ls (some (max, true)) h = inl refl
Scanned-step m false ev ls (some (max, true)) h = elim (Bool-cases (is_ended m ev)) [
  | inl e ↦ inr (rw e (omega arith))
  | inr e ↦ elim (rw e at h) [ inl a ↦ inl a | inr n ↦ inr (rw e n) ]
]
Scanned-step m true ev ls (some (max, false)) h = cc h.0
Scanned-step m false ev ls (some (max, false)) h = (refl, rw h.0 h.1)

scan_ended-Scanned :
    (m : Fields → Bool) (max : ℕ) (already : Bool) (ls : List Line)
    → Scanned m already ls (scan_ended m max already ls)
unfolding scan_ended
scan_ended-Scanned m max true [] = inl refl
scan_ended-Scanned m max false [] = (refl, refl)
scan_ended-Scanned m max already (corrupt ∷ ls) = tt
scan_ended-Scanned m max already (json ev ∷ ls) =
    Scanned-step m already ev ls _
      (scan_ended-Scanned m (later_seq max (property "event_seq" ev)) (already || is_ended m ev) ls)

-- A worker's ENDED event counts for the session that it names, and for no other.
worker_ended_counts :
    (stage : Stage) (id : String) (s t : ℤ) (reason : String) (n : ℕ) (ts : String)
    → is_ended
        (is_worker_session s)
        (event_object (ended_event stage (worker_ended_details id t reason)) n ts)
      ≡ eqb_ℤ t s
unfolding is_ended is_worker_session event_object
worker_ended_counts stage id s t reason n ts = refl

-- a reviewer's is none of a worker
reviewer_ended_counts :
    (stage : Stage) (id : String) (s : ℤ) (reason : String) (n : ℕ) (ts : String)
    → is_ended
        (is_worker_session s)
        (event_object (ended_event stage (reviewer_ended_details id reason)) n ts)
      ≡ false
unfolding is_ended is_worker_session event_object
reviewer_ended_counts stage id s reason n ts = refl

-- There is no object after the last line feed, and at most one ENDED event of the worker session.
abbrev pub AtMostOnce : ℤ → EventsFile → Type 0
AtMostOnce s f = IsPartial f.tail × (ended_count (is_worker_session s) f.lines ≤ 1)

-- the same, where no append that throws leaves its line without the line feed
abbrev pub StaysOnce : ℤ → EventsFile → Type 0
StaysOnce s f = AtMostOnce s f × AreInside f.cuts

module _ (m : Fields → Bool) where
  ended_count-tail :
      (ls : List Line) (t : Option Line)
      → IsPartial t
      → ended_count m (ls ++ tail_lines t) ≡ ended_count m ls
  ended_count-tail ls none p = ended_count-append m ls [] ∙ omega arith
  ended_count-tail ls (some corrupt) p = ended_count-append m ls (corrupt ∷ []) ∙ omega arith
  ended_count-tail ls (some (json o)) p = absurd p

  ended_count-whole :
      (ls : List Line) (t : Option Line) (o : Fields)
      → IsPartial t
      → ended_count m (ls ++ (tail_lines t ++ json o ∷ []))
        ≡ ended_count m ls + (if is_ended m o then 1 else 0)
  ended_count-whole ls none o p = ended_count-append m ls (json o ∷ [])
  ended_count-whole ls (some corrupt) o p = ended_count-append m ls (corrupt ∷ json o ∷ [])
  ended_count-whole ls (some (json x)) o p = absurd p

  after_cut-bound :
      (c : Cut) (o : Fields) (ls : List Line) (t : Option Line)
      → IsInside c
      → IsPartial t
      → IsPartial (after_cut c o ls t).1
        × (ended_count m (after_cut c o ls t).0
            ≤ ended_count m ls + (if is_ended m o then 1 else 0))
  after_cut-bound untouched o ls t i p = (p, omega arith)
  after_cut-bound separated o ls t i p = (tt, omega (arith, ended_count-tail ls t p))
  after_cut-bound partial o ls t i p = (tt, omega (arith, ended_count-tail ls t p))
  after_cut-bound unterminated o ls t i p = absurd i
  after_cut-bound written o ls t i p = (tt, omega (arith, ended_count-whole ls t o p))

  -- The file has at most that event more, and none that is not in a line.
  append_object-bound :
      (o : Fields) (f : EventsFile)
      → IsPartial f.tail
      → AreInside f.cuts
      → (IsPartial (append_object o f).1.tail
          × (ended_count m (append_object o f).1.lines
              ≤ ended_count m f.lines + (if is_ended m o then 1 else 0)))
        × AreInside (append_object o f).1.cuts
  unfolding append_object
  append_object-bound o f t c = elim (Bool-cases (next_outcome f)) [
    | inl w ↦ rw w ((tt, omega (arith, ended_count-whole f.lines f.tail o t)), c)
    | inr w ↦ rw w (
      after_cut-bound (next_cut f.cuts) o f.lines f.tail (AreInside-next f.cuts c) t,
      AreInside-later f.cuts c,
    )
  ]

  -- An append that returns adds its event.
  append_object-counted :
      (o : Fields) (f : EventsFile)
      → IsPartial f.tail
      → (append_object o f).0 ≡ true
      → ended_count m (append_object o f).1.lines
        ≡ ended_count m f.lines + (if is_ended m o then 1 else 0)
  unfolding append_object
  append_object-counted o f t r = elim (Bool-cases (next_outcome f)) [
    | inl w ↦ rw w (ended_count-whole f.lines f.tail o t)
    | inr w ↦ cc (rw w at r)
  ]

-- an event by `append` that is no ENDED event of the worker session
abbrev pub IsOther : ℤ → EventsCall → Type 0
IsOther s (event e) =
    (n : ℕ) (ts : String) → is_ended (is_worker_session s) (event_object e n ts) ≡ false
IsOther s c = Unit

-- An event that does not count keeps the count, and so does an attempt that fails.
append_object-StaysOnce :
    (s : ℤ) (o : Fields) (f : EventsFile)
    → StaysOnce s f
    → is_ended (is_worker_session s) o ≡ false
    → StaysOnce s (append_object o f).1
append_object-StaysOnce s o f ((t, h), c) e =
    let ((t', n), c') = append_object-bound (is_worker_session s) o f t c in
    ((t', ground arith), c')

append_numbered-StaysOnce :
    (s : ℤ) (e : HostEventInput) (o : Option ℕ) (f : EventsFile)
    → StaysOnce s f
    → IsOther s (event e)
    → StaysOnce s (append_numbered e o f).1
unfolding append_numbered
append_numbered-StaysOnce s e none f h other = h
append_numbered-StaysOnce s e (some m) f h other = append_object-StaysOnce s _ f h (other _ _)

-- The same for the ENDED event of another session, and of a reviewer.
append_ended-StaysOnce_other :
    (s : ℤ) (stage : Stage) (d : Fields) (o : Option (ℕ × Bool)) (f : EventsFile)
    → StaysOnce s f
    → IsOther s (event (ended_event stage d))
    → StaysOnce s (append_ended stage d o f).1
unfolding append_ended
append_ended-StaysOnce_other s stage d none f h other = h
append_ended-StaysOnce_other s stage d (some (m, true)) f h other = h
append_ended-StaysOnce_other s stage d (some (m, false)) f h other =
    append_object-StaysOnce s _ f h (other _ _)

-- Where the scan of its session has found none, the ENDED event is the first.
append_ended-StaysOnce :
    (s : ℤ) (stage : Stage) (d : Fields) (o : Option (ℕ × Bool)) (f : EventsFile)
    → StaysOnce s f
    → Scanned (is_worker_session s) false f.lines o
    → StaysOnce s (append_ended stage d o f).1
unfolding append_ended
append_ended-StaysOnce s stage d none f h k = h
append_ended-StaysOnce s stage d (some (m, true)) f h k = h
append_ended-StaysOnce s stage d (some (m, false)) f ((t, h), c) k =
    let ((t', n), c') =
      append_object-bound (is_worker_session s) (event_object (ended_event stage d) (m + 1) f.clock)
        f t c in
    ((t', ground arith), c')

append-StaysOnce :
    (s : ℤ) (e : HostEventInput) (f : EventsFile)
    → StaysOnce s f
    → IsOther s (event e)
    → StaysOnce s (append e f).1
unfolding append with_events_lock
append-StaysOnce s e f h other = elim (Bool-cases (next_outcome f)) [
  | inl w ↦ rw w (append_numbered-StaysOnce s e _ (used f) h other)
  | inr w ↦ rw w h
]

worker_ended-StaysOnce_self :
    (s : ℤ) (stage : Stage) (id reason : String) (f : EventsFile)
    → StaysOnce s f
    → StaysOnce s (append_worker_ended_idempotent stage id s reason f).1
unfolding append_worker_ended_idempotent append_ended_idempotent_core with_events_lock
worker_ended-StaysOnce_self s stage id reason f h = elim (Bool-cases (next_outcome f)) [
  | inl w ↦ rw w (
      append_ended-StaysOnce s stage (worker_ended_details id s reason) _ (used f) h
        (scan_ended-Scanned _ 0 false f.lines))
  | inr w ↦ rw w h
]

core-StaysOnce_other :
    (s : ℤ) (stage : Stage) (m : Fields → Bool) (d : Fields) (f : EventsFile)
    → StaysOnce s f
    → IsOther s (event (ended_event stage d))
    → StaysOnce s (append_ended_idempotent_core stage m d f).1
unfolding append_ended_idempotent_core with_events_lock
core-StaysOnce_other s stage m d f h other = elim (Bool-cases (next_outcome f)) [
  | inl w ↦ rw w (append_ended-StaysOnce_other s stage d _ (used f) h other)
  | inr w ↦ rw w h
]

perform_call-StaysOnce :
    (s : ℤ) (c : EventsCall) (f : EventsFile)
    → StaysOnce s f
    → IsOther s c
    → StaysOnce s (perform_call c f)
unfolding perform_call append_worker_ended_idempotent append_reviewer_ended_idempotent
    truncate_events_tail
perform_call-StaysOnce s (event e) f h other = append-StaysOnce s e f h other
perform_call-StaysOnce s (worker_ended stage id t reason) f h other =
    elim (Bool-cases (eqb_ℤ t s)) [
      | inl e ↦ rw (eqb_ℤ-eq t s e) (worker_ended-StaysOnce_self s stage id reason f h)
      | inr e ↦
          core-StaysOnce_other s stage (is_worker_session t) (worker_ended_details id t reason) f h
            (λ n ts. worker_ended_counts stage id s t reason n ts ∙ e)
    ]
perform_call-StaysOnce s (reviewer_ended stage id reason) f h other =
    core-StaysOnce_other s stage (is_reviewer_session id) (reviewer_ended_details id reason) f h
      (reviewer_ended_counts stage id s reason)
perform_call-StaysOnce s truncation f ((t, h), c) other = ((tt, h), c)

pub perform_calls-StaysOnce :
    (s : ℤ) (cs : List EventsCall) (f : EventsFile)
    → StaysOnce s f
    → All (IsOther s) cs
    → StaysOnce s (perform_calls cs f)
unfolding perform_calls
perform_calls-StaysOnce s [] f h others = h
perform_calls-StaysOnce s (c ∷ cs) f h others =
    perform_calls-StaysOnce s cs (perform_call c f) (perform_call-StaysOnce s c f h others.0)
      others.1

-- The session is found in the lines, or is written there.
append_ended-counted :
    (s : ℤ) (stage : Stage) (id reason : String) (o : Option (ℕ × Bool)) (f : EventsFile)
    → IsPartial f.tail
    → Scanned (is_worker_session s) false f.lines o
    → (r : AppendEndedIdempotentResult)
    → (append_ended stage (worker_ended_details id s reason) o f).0 ≡ ok r
    → r.scan_ok ≡ true
    → 1
      ≤ ended_count
          (is_worker_session s)
          (append_ended stage (worker_ended_details id s reason) o f).1.lines
unfolding append_ended
append_ended-counted s stage id reason none f t k r h scanned = cc (h, scanned)
append_ended-counted s stage id reason (some (m, true)) f t k r h scanned = elim k [
  | inl e ↦ cc e
  | inr n ↦ n
]
append_ended-counted s stage id reason (some (m, false)) f t k r h scanned =
    let o = event_object (ended_event stage (worker_ended_details id s reason)) (m + 1) f.clock in
    elim (Bool-cases (append_object o f).0) [
      | inl w ↦
          let n = append_object-counted (is_worker_session s) o f t w in
          ground (arith, worker_ended_counts stage id s s reason (m + 1) f.clock, eqb_ℤ_refl s)
      | inr w ↦ cc (rw w at h)
    ]

pub worker_ended-counted :
    (s : ℤ) (stage : Stage) (id reason : String) (f : EventsFile)
    → IsPartial f.tail
    → (r : AppendEndedIdempotentResult)
    → (append_worker_ended_idempotent stage id s reason f).0 ≡ ok r
    → r.scan_ok ≡ true
    → 1
      ≤ ended_count
          (is_worker_session s)
          (append_worker_ended_idempotent stage id s reason f).1.lines
unfolding append_worker_ended_idempotent append_ended_idempotent_core with_events_lock
worker_ended-counted s stage id reason f t r e scanned = elim (Bool-cases (next_outcome f)) [
  | inl w ↦ rw w (
      append_ended-counted s stage id reason _ (used f) t (scan_ended-Scanned _ 0 false f.lines) r
        (rw w at e) scanned)
  | inr w ↦ cc (rw w at e)
]

-- Whatever is done to an events.jsonl with no object after its last line feed, in which a worker
-- session has at most one ENDED event, where `append` is given none of that session, and no append
-- that throws leaves its line whole but for the line feed: where `appendWorkerEndedIdempotent` of
-- the session then says that it could scan the file, there is exactly one.
pub append_worker_ended_idempotent_once :
    (s : ℤ) (cs : List EventsCall) (stage : Stage) (id reason : String) (f : EventsFile)
    → AtMostOnce s f
    → AreInside f.cuts
    → All (IsOther s) cs
    → (r : AppendEndedIdempotentResult)
    → (append_worker_ended_idempotent stage id s reason (perform_calls cs f)).0 ≡ ok r
    → r.scan_ok ≡ true
    → ended_count
        (is_worker_session s)
        (append_worker_ended_idempotent stage id s reason (perform_calls cs f)).1.lines
      ≡ 1
append_worker_ended_idempotent_once s cs stage id reason f h c others r e scanned =
    let g = perform_calls-StaysOnce s cs f (h, c) others in
    let most = worker_ended-StaysOnce_self s stage id reason (perform_calls cs f) g in
    let least = worker_ended-counted s stage id reason (perform_calls cs f) g.0.0 r e scanned in
    omega arith
