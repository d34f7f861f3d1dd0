-- ===== src/Host/Recovery/Settled.antt =====
-- A worker that a repair has dealt with is not found again as one that crashed.
use deputy_agent.Prelude.{
  ℕ, ◌≤◌, ◌≡◌, ◌≢◌, refl, subst, sym, ◌∙◌, arith, String, Bool, true, false, List, [], ◌∷◌, Option,
  none, some, ℤ, Bool-cases, inl, inr, if◌then◌else◌, ltb_ℤ, ◌||◌, ◌&&◌,
}
use deputy_agent.Value.{Value, Fields, property, undefined, null, bool, int, float, str, arr, obj}
use deputy_agent.Messaging.Log.{Line, json, corrupt}
use deputy_agent.Task.Stage.{Stage, running, stage_eq}
use deputy_agent.Host.Events.{
  EventsFile, AppendEndedIdempotentResult, ok, is_ended, is_worker_session, objects_of, is_readable,
  append_worker_ended_idempotent, scan_ended, later_seq, append_ended, append_object,
  append_ended_idempotent_core, with_events_lock, worker_ended_details, details_of_type, is_text,
  is_number,
}
use deputy_agent.Host.Events.Once.{ended_count, worker_ended-counted}
use deputy_agent.Prelude.{Dict}
use deputy_agent.Prelude.Maybe.{some_inj}
use deputy_agent.Messaging.State.{EnvelopeState}
use deputy_agent.Messaging.Bus
use deputy_agent.Messaging.Bus.{Bus}
use deputy_agent.Messaging.Bus.Query.{fold}
use deputy_agent.Host.Sessions.{WorkerExitReason, sdk_crash, exit_reason_name, is_active_exit}
use deputy_agent.Host.Recovery.{
  Host, Outside, RepairResult, no_repair, restore_end, restored, end_repair, crash_repair,
  synthesize_end, synthesize_crash, repair_crashed, repair_unmatched, repair_without_signal,
  repair_due, repair_folded, maybe_append_paired_worker_ended, try_enqueue_end,
  safe_enqueue_host_event, repair_half_completed_worker,
}
use deputy_agent.Host.Recovery.Reads.{
  SessionEndContext, SignalCandidate, find_latest_active_signal, UnmatchedWorkerStarted,
  worker_ended_seq, as_number, is_seq, has_ended, greatest_unmatched, started_from,
  find_unmatched_worker_started,
}

seq_same :
    (s : ℤ) (worker : Bool) (v : Value)
    → (worker && is_number s v) ≡ is_seq s (if worker then as_number v else none)
unfolding as_number
seq_same s false v = refl
seq_same s true (int z) = refl
seq_same s true undefined = refl
seq_same s true null = refl
seq_same s true (bool b) = refl
seq_same s true (float x) = refl
seq_same s true (str t) = refl
seq_same s true (arr vs) = refl
seq_same s true (obj fs) = refl

details_same :
    (s : ℤ) (o : Option Fields)
    → (elim o [ none ↦ false | some d ↦ is_worker_session s d ])
      ≡ is_seq s (elim o [
        | none ↦ none
        | some d ↦
            if is_text "worker" (property "role" d)
            then as_number (property "session_seq" d)
            else none
      ])
unfolding is_worker_session
details_same s none = refl
details_same s (some d) =
    seq_same s (is_text "worker" (property "role" d)) (property "session_seq" d)

-- The idempotent append and the search for a crash mean the same by an ENDED event of a session.
ended_same :
    (s : ℤ) (ev : Fields) → is_ended (is_worker_session s) ev ≡ is_seq s (worker_ended_seq ev)
unfolding is_ended worker_ended_seq
ended_same s ev = details_same s (details_of_type "agent_session_ended" ev)

has_ended_of_count :
    (s : ℤ) (ls : List Line)
    → is_readable ls ≡ true
    → 1 ≤ ended_count (is_worker_session s) ls
    → has_ended s (objects_of ls) ≡ true
unfolding is_readable objects_of has_ended
has_ended_of_count s [] r h = absurd (omega arith)
has_ended_of_count s (corrupt ∷ ls) r h = cc r
has_ended_of_count s (json ev ∷ ls) r h = ground (arith, ended_same s ev, has_ended_of_count s ls r)

abbrev IsOpen : List Fields → Option UnmatchedWorkerStarted → Type 0
IsOpen evs none = Unit
IsOpen evs (some u) = has_ended u.session_seq evs ≡ false

-- The search yields a session without an ENDED event.
greatest_unmatched-IsOpen :
    (evs : List Fields) (best : Option UnmatchedWorkerStarted) (us : List UnmatchedWorkerStarted)
    → IsOpen evs best
    → IsOpen evs (greatest_unmatched evs best us)
unfolding greatest_unmatched
greatest_unmatched-IsOpen evs best [] h = h
greatest_unmatched-IsOpen evs none (u ∷ us) h = elim (Bool-cases (has_ended u.session_seq evs)) [
  | inl e ↦ rw e (greatest_unmatched-IsOpen evs none us h)
  | inr e ↦ rw e (greatest_unmatched-IsOpen evs (some u) us e)
]
greatest_unmatched-IsOpen evs (some v) (u ∷ us) h =
    elim (Bool-cases (has_ended u.session_seq evs)) [
      | inl e ↦ rw e (greatest_unmatched-IsOpen evs (some v) us h)
      | inr e ↦ elim (Bool-cases (ltb_ℤ v.session_seq u.session_seq)) [
        | inl l ↦ rw (e, l) (greatest_unmatched-IsOpen evs (some u) us e)
        | inr l ↦ rw (e, l) (greatest_unmatched-IsOpen evs (some v) us h)
      ]
    ]

-- A session with an ENDED event is not found.
find_unmatched-ended :
    (s : ℤ) (ls : List Line) (u : UnmatchedWorkerStarted)
    → 1 ≤ ended_count (is_worker_session s) ls
    → find_unmatched_worker_started ls ≡ some u
    → u.session_seq ≢ s
unfolding find_unmatched_worker_started
find_unmatched-ended s ls u h found same = elim (Bool-cases (is_readable ls)) [
  | inr r ↦ cc (rw r at found)
  | inl r ↦
      let found' = rw r at found in
      let is_open : IsOpen (objects_of ls) (some u) =
        subst (IsOpen (objects_of ls)) found'
          (greatest_unmatched-IsOpen (objects_of ls) none (started_from [] (objects_of ls)) tt) in
      cc (same, is_open, has_ended_of_count s ls r h)
]

scan_readable :
    (m : Fields → Bool) (n : ℕ) (b : Bool) (ls : List Line)
    → is_readable ls ≡ true
    → (x : ℕ × Bool) × (scan_ended m n b ls ≡ some x)
unfolding scan_ended is_readable
scan_readable m n b [] r = ((n, b), refl)
scan_readable m n b (corrupt ∷ ls) r = cc r
scan_readable m n b (json ev ∷ ls) r =
    scan_readable m (later_seq n (property "event_seq" ev)) (b || is_ended m ev) ls r

-- An events.jsonl that can be read, without a partial line, whose locks and writes succeed.
pub record IsClean (f : EventsFile) : Type 0 where
  pub whole : f.tail ≡ none
  pub readable : is_readable f.lines ≡ true
  pub succeeds : f.outcomes ≡ []

-- There the idempotent append says that it has scanned the file.
append_ended-scans :
    (stage : Stage) (d : Fields) (x : ℕ × Bool) (f : EventsFile)
    → f.outcomes ≡ []
    → (r : AppendEndedIdempotentResult) × ((append_ended stage d (some x) f).0 ≡ ok r)
      × (r.scan_ok ≡ true)
unfolding append_ended append_object
append_ended-scans stage d (n, true) f e = (record { appended = false; scan_ok = true }, refl, refl)
append_ended-scans stage d (n, false) f e =
    (record { appended = true; scan_ok = true }, ground arith, refl)

worker_ended-scans :
    (stage : Stage) (id : String) (s : ℤ) (reason : String) (f : EventsFile)
    → IsClean f
    → (r : AppendEndedIdempotentResult) × ((append_worker_ended_idempotent stage id s reason f).0
        ≡ ok r)
      × (r.scan_ok ≡ true)
unfolding append_worker_ended_idempotent append_ended_idempotent_core with_events_lock
worker_ended-scans stage id s reason f c =
    let (x, e) = scan_readable (is_worker_session s) 0 false f.lines c.readable in
    rw (c.succeeds, e)
      (append_ended-scans stage (worker_ended_details id s reason) x (record f { outcomes = [] })
        refl)

-- After it the session is not found.
pub worker_ended-settles :
    (stage : Stage) (id : String) (s : ℤ) (reason : String) (f : EventsFile)
    (u : UnmatchedWorkerStarted)
    → IsClean f
    → find_unmatched_worker_started (append_worker_ended_idempotent stage id s reason f).1.lines
      ≡ some u
    → u.session_seq ≢ s
worker_ended-settles stage id s reason f u c found =
    let (r, e, scanned) = worker_ended-scans stage id s reason f c in
    find_unmatched-ended s _ u
      (worker_ended-counted s stage id reason f (rw c.whole tt) r e scanned) found

-- the session of the worker that the result names
abbrev pub named_seq : RepairResult → Option ℤ
named_seq r = elim r.synthesized_worker_end [
  | some w ↦ some w.session_seq
  | none ↦ elim r.crash_pending [ some c ↦ some c.session_seq | none ↦ none ]
]

-- A start after this one does not find the worker that the repair names.
abbrev pub IsSettled : RepairResult × Host → Type 0
IsSettled (r, h) =
    (s : ℤ) (u : UnmatchedWorkerStarted)
    → named_seq r ≡ some s
    → find_unmatched_worker_started h.events.lines ≡ some u
    → u.session_seq ≢ s

pub restored-named : (e : SessionEndContext) → named_seq (restored e) ≡ some e.session_seq
unfolding restored end_repair crash_repair
restored-named e = elim (Bool-cases (is_active_exit e.exit_reason)) [ inl a ↦ rw a | inr a ↦ rw a ]

end_repair-named :
    (sent : Bool) (id : String) (t s : ℤ) (reason : WorkerExitReason) (env_id : String)
    → named_seq (if sent then end_repair id t reason env_id else no_repair) ≡ some s
    → t ≡ s
unfolding end_repair
end_repair-named true id t s reason env_id h = some_inj h
end_repair-named false id t s reason env_id h = cc h

module _ (o : Outside) (h : Host) (c : IsClean h.events) where
  paired-settles :
      (id : String) (t s : ℤ) (reason : WorkerExitReason) (u : UnmatchedWorkerStarted)
      → t ≡ s
      → find_unmatched_worker_started (maybe_append_paired_worker_ended id t reason h).events.lines
        ≡ some u
      → u.session_seq ≢ s
  unfolding maybe_append_paired_worker_ended
  paired-settles id t s reason u e found =
      subst (λ x. u.session_seq ≢ x) e
        (worker_ended-settles running id t (exit_reason_name reason) h.events u c found)

  restore_end-IsSettled : (e : SessionEndContext) → IsSettled (restore_end e h)
  unfolding restore_end
  restore_end-IsSettled e s u n found =
      paired-settles e.worker_session_id e.session_seq s e.exit_reason u
        (some_inj (sym (restored-named e) ∙ n)) found

  synthesize_end-IsSettled : (g : SignalCandidate) → IsSettled (synthesize_end o false g h)
  unfolding synthesize_end try_enqueue_end safe_enqueue_host_event maybe_append_paired_worker_ended
  synthesize_end-IsSettled g s u n found =
      paired-settles g.worker_session_id g.session_seq s g.exit_reason u
        (end_repair-named _ g.worker_session_id g.session_seq s g.exit_reason o.end_id n) found

  synthesize_crash-IsSettled : (v : UnmatchedWorkerStarted) → IsSettled (synthesize_crash o v h)
  unfolding synthesize_crash crash_repair maybe_append_paired_worker_ended try_enqueue_end
      safe_enqueue_host_event
  synthesize_crash-IsSettled v s u n found =
      paired-settles v.worker_session_id v.session_seq s sdk_crash u (some_inj n) found

  repair_crashed-IsSettled :
      (v : UnmatchedWorkerStarted) (e : Option SessionEndContext)
      → IsSettled (repair_crashed o v e h)
  unfolding repair_crashed
  repair_crashed-IsSettled v (some e) = restore_end-IsSettled e
  repair_crashed-IsSettled v none = synthesize_crash-IsSettled v

  repair_unmatched-IsSettled :
      (snap : Dict EnvelopeState) (v : Option UnmatchedWorkerStarted)
      → IsSettled (repair_unmatched o snap v h)
  unfolding repair_unmatched
  repair_unmatched-IsSettled snap none = λ s u n found. cc n
  repair_unmatched-IsSettled snap (some v) = repair_crashed-IsSettled v _

  repair_without_signal-IsSettled :
      (snap : Dict EnvelopeState) (g : Option SignalCandidate) (e : Option SessionEndContext)
      → IsSettled (repair_without_signal o false snap g e h)
  unfolding repair_without_signal
  repair_without_signal-IsSettled snap g (some e) = restore_end-IsSettled e
  repair_without_signal-IsSettled snap g none = repair_unmatched-IsSettled snap _

  repair_due-IsSettled :
      (snap : Dict EnvelopeState) (g : Option SignalCandidate) (e : Option SessionEndContext)
      (due : Option SignalCandidate)
      → IsSettled (repair_due o false snap g e due h)
  unfolding repair_due
  repair_due-IsSettled snap g e (some x) = synthesize_end-IsSettled x
  repair_due-IsSettled snap g e none = repair_without_signal-IsSettled snap g e

  repair_folded-IsSettled :
      (r : Bus.Result (Dict EnvelopeState)) → IsSettled (repair_folded o false r h)
  unfolding repair_folded
  repair_folded-IsSettled (Bus.ok snap) =
      repair_due-IsSettled snap (find_latest_active_signal h.bus.payloads snap) _ _
  repair_folded-IsSettled (Bus.err e) = λ s u n found. cc n

-- Where events.jsonl can be read, has no partial line, and its locks and writes succeed, whatever
-- happens to the messages: a worker session that the repair names, as crashed or as ended, is not
-- among the crashed ones for the next start.
pub repair_half_completed_worker-settles :
    (o : Outside) (stage : Stage) (h : Host) (s : ℤ) (u : UnmatchedWorkerStarted)
    → IsClean h.events
    → named_seq (repair_half_completed_worker o stage false h).0 ≡ some s
    → find_unmatched_worker_started (repair_half_completed_worker o stage false h).1.events.lines
      ≡ some u
    → u.session_seq ≢ s
unfolding repair_half_completed_worker
repair_half_completed_worker-settles o stage h s u c n found =
    elim (Bool-cases (stage_eq stage running)) [
      | inl e ↦
          repair_folded-IsSettled o (record h { bus = (fold h.bus).1 }) c (fold h.bus).0 s u
            (rw e at n) (rw e at found)
      | inr e ↦ cc (rw e at n)
    ]
