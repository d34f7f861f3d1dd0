-- ===== src/Host/Events.antt =====
-- src/host/events.ts: the events of a task in control/events.jsonl, numbered and appended under the
-- lock of the file. Numbers are integers: the writers give no others, and a fraction counts as none.
pub mod Calls
pub mod Once
pub mod Numbered
use Prim.Native.Char.{Char, code}
use deputy_agent.Prelude.{
  ℕ, zero, suc, ◌+◌, ◌-◌, String, str_append, Bool, true, false, ◌&&◌, ◌||◌, leb, ltb, List, [],
  ◌∷◌, ◌++◌, Option, none, some, str_eq, if◌then◌else◌, ℤ, pos, negsuc, eqb_ℤ, drop, length,
}
use deputy_agent.Value.{
  Value, undefined, null, bool, int, float, str, arr, obj, Items, nil, cons, Fields, end, field,
  property,
}
use deputy_agent.Messaging.Schema.{set_property}
use deputy_agent.Messaging.Log.{
  Line, json, corrupt, Cut, tail_lines, after_cut, next_cut, later_cuts,
}
use deputy_agent.Task.Stage.{
  Stage, submitted, clarifying, bootstrapping, running, awaiting_user, done, failed, cancelled,
  paused,
}

abbrev pub stage_name : Stage → String
stage_name submitted = "submitted"
stage_name clarifying = "clarifying"
stage_name bootstrapping = "bootstrapping"
stage_name running = "running"
stage_name awaiting_user = "awaiting_user"
stage_name done = "done"
stage_name failed = "failed"
stage_name cancelled = "cancelled"
stage_name paused = "paused"

-- `HostEventInput`; the details are an object
pub record HostEventInput : Type 0 where
  pub type : String
  pub stage : Stage
  pub details : Fields

-- events.jsonl: its complete lines, and what its bytes after the last line feed would be read as if
-- one followed. `outcomes` says of each next lock and write whether it succeeds, and
-- `cuts` what each next append that throws leaves.
pub record EventsFile : Type 0 where
  pub lines : List Line
  pub tail : Option Line
  pub quarantined : List (List Line)
  pub clock : String
  pub outcomes : List Bool
  pub cuts : List Cut

pub data EventsError : Type 0 where
  lock_timeout corrupt_jsonl io_error : EventsError

pub data Result (A : Type 0) : Type 0 where
  ok : A → Result A
  err : EventsError → Result A

-- the letter of the alphabet at a place
unfoldable pub letter_at : ℕ → String → String
letter_at n String.[] = ""
letter_at zero (String.◌∷◌ c s) = String.◌∷◌ c String.[]
letter_at (suc n) (String.◌∷◌ c s) = letter_at n s

-- `camelToSnakeKey`
unfoldable pub camel_to_snake_key : String → String
unfolding letter_at
camel_to_snake_key String.[] = ""
camel_to_snake_key (String.◌∷◌ c s) =
    let rest = camel_to_snake_key s in
    if leb b'A' (code c) && leb (code c) b'Z'
    then str_append "_" (str_append (letter_at (code c - b'A') "abcdefghijklmnopqrstuvwxyz") rest)
    else String.◌∷◌ c rest

-- `detailsToSnake`
unfoldable mutual
  unfolding camel_to_snake_key set_property

  pub details_to_snake : Value → Value
  details_to_snake (arr vs) = arr (items_to_snake vs)
  details_to_snake (obj fs) = obj (fields_to_snake end fs)
  details_to_snake undefined = undefined
  details_to_snake null = null
  details_to_snake (bool b) = bool b
  details_to_snake (int z) = int z
  details_to_snake (float x) = float x
  details_to_snake (str s) = str s

  pub items_to_snake : Items → Items
  items_to_snake nil = nil
  items_to_snake (cons v vs) = cons (details_to_snake v) (items_to_snake vs)

  pub fields_to_snake : Fields → Fields → Fields
  fields_to_snake out end = out
  fields_to_snake out (field k v fs) =
      fields_to_snake (set_property (camel_to_snake_key k) (details_to_snake v) out) fs

-- one round of the search for the greatest `event_seq`
abbrev pub later_seq : ℕ → Value → ℕ
later_seq max (int (pos n)) = if ltb max n then n else max
later_seq max _ = max

-- `foldMaxEventSeq` from the number so far; `none` where `readLines` throws
unfoldable pub fold_max_event_seq : ℕ → List Line → Option ℕ
unfolding property
fold_max_event_seq max [] = some max
fold_max_event_seq max (corrupt ∷ ls) = none
fold_max_event_seq max (json ev ∷ ls) =
    fold_max_event_seq (later_seq max (property "event_seq" ev)) ls

abbrev pub next_outcome : EventsFile → Bool
next_outcome f = elim f.outcomes [ [] ↦ true | o ∷ os ↦ o ]

abbrev pub used : EventsFile → EventsFile
used f = record f { outcomes = drop 1 f.outcomes }

-- `withLock(paths.eventsLock, body)`
unfoldable pub with_events_lock :
    {A : Type 0} → (EventsFile → Result A × EventsFile) → EventsFile → Result A × EventsFile
with_events_lock body f = if next_outcome f then body (used f) else (err lock_timeout, used f)

-- `jsonlIO.appendLine(paths.eventsPath, o)`: bytes after the last line feed become a line
unfoldable pub append_object : Fields → EventsFile → Bool × EventsFile
append_object o f =
    if next_outcome f
    then (
      true,
      record (used f) { lines = f.lines ++ (tail_lines f.tail ++ json o ∷ []); tail = none },
    )
    else (let (lines, tail) = after_cut (next_cut f.cuts) o f.lines f.tail in
        (false, record (used f) { lines = lines; tail = tail; cuts = later_cuts f.cuts }))

-- the object that is appended
unfoldable pub event_object : HostEventInput → ℕ → String → Fields
unfolding fields_to_snake
event_object e event_seq ts = field "type" (str e.type) (
    field "ts" (str ts) (
      field "stage" (str (stage_name e.stage)) (
        field "event_seq" (int (pos event_seq))
          (field "details" (obj (fields_to_snake end e.details)) end))))

unfoldable pub append_numbered :
    HostEventInput → Option ℕ → EventsFile → Result (Unit {0}) × EventsFile
unfolding append_object event_object
append_numbered e none f = (err corrupt_jsonl, f)
append_numbered e (some max) f =
    let (written, f') = append_object (event_object e (max + 1) f.clock) f in
    (if written then ok tt else err io_error, f')

-- `append`
unfoldable pub append : HostEventInput → EventsFile → Result (Unit {0}) × EventsFile
unfolding with_events_lock append_numbered fold_max_event_seq
append e = with_events_lock (λ f. append_numbered e (fold_max_event_seq 0 f.lines) f)

pub record AppendEndedIdempotentResult : Type 0 where
  pub appended : Bool
  pub scan_ok : Bool

-- `ev["type"] === type` with `details` an object; arrays have none of the properties looked at
unfoldable pub details_of_type : String → Fields → Option Fields
unfolding property
details_of_type type ev = elim (property "type" ev) [
  | str t ↦
      if str_eq t type
      then (elim (property "details" ev) [ obj d ↦ some d | arr vs ↦ some end | _ ↦ none ])
      else none
  | _ ↦ none
]

unfoldable pub is_ended : (Fields → Bool) → Fields → Bool
unfolding details_of_type
is_ended match ev = elim (details_of_type "agent_session_ended" ev) [
  | none ↦ false
  | some d ↦ match d
]

-- the scan of `appendEndedIdempotentCore`: the greatest number, and whether an event matches
unfoldable pub scan_ended : (Fields → Bool) → ℕ → Bool → List Line → Option (ℕ × Bool)
unfolding is_ended property
scan_ended match max already [] = some (max, already)
scan_ended match max already (corrupt ∷ ls) = none
scan_ended match max already (json ev ∷ ls) =
    scan_ended match (later_seq max (property "event_seq" ev)) (already || is_ended match ev) ls

abbrev pub ended_event : Stage → Fields → HostEventInput
ended_event stage details = record {
  type = "agent_session_ended";
  stage = stage;
  details = details;
}

unfoldable pub append_ended :
    Stage
    → Fields
    → Option (ℕ × Bool)
    → EventsFile
    → Result AppendEndedIdempotentResult × EventsFile
unfolding append_object event_object
append_ended stage details none f = (ok (record { appended = false; scan_ok = false }), f)
append_ended stage details (some (max, true)) f =
    (ok (record { appended = false; scan_ok = true }), f)
append_ended stage details (some (max, false)) f =
    let e : HostEventInput = record {
      type = "agent_session_ended";
      stage = stage;
      details = details;
    } in
    let (written, f') = append_object (event_object e (max + 1) f.clock) f in
    (if written then ok (record { appended = true; scan_ok = true }) else err io_error, f')

-- `appendEndedIdempotentCore`
unfoldable pub append_ended_idempotent_core :
    Stage → (Fields → Bool) → Fields → EventsFile → Result AppendEndedIdempotentResult × EventsFile
unfolding with_events_lock scan_ended append_ended
append_ended_idempotent_core stage match details =
    with_events_lock (λ f. append_ended stage details (scan_ended match 0 false f.lines) f)

abbrev pub is_text : String → Value → Bool
is_text s (str t) = str_eq t s
is_text s _ = false

abbrev pub is_number : ℤ → Value → Bool
is_number n (int z) = eqb_ℤ z n
is_number n _ = false

unfoldable pub is_worker_session : ℤ → Fields → Bool
unfolding property
is_worker_session session_seq d =
    is_text "worker" (property "role" d) && is_number session_seq (property "session_seq" d)

unfoldable pub is_reviewer_session : String → Fields → Bool
unfolding property
is_reviewer_session session_id d =
    is_text "reviewer" (property "role" d) && is_text session_id (property "session_id" d)

abbrev pub worker_ended_details : String → ℤ → String → Fields
worker_ended_details session_id session_seq exit_reason = field "role" (str "worker") (
    field "sessionId" (str session_id)
      (field "sessionSeq" (int session_seq) (field "exitReason" (str exit_reason) end)))

abbrev pub reviewer_ended_details : String → String → Fields
reviewer_ended_details session_id exit_reason =
    field "role" (str "reviewer")
      (field "sessionId" (str session_id) (field "exitReason" (str exit_reason) end))

-- `appendWorkerEndedIdempotent`
unfoldable pub append_worker_ended_idempotent :
    Stage → String → ℤ → String → EventsFile → Result AppendEndedIdempotentResult × EventsFile
unfolding append_ended_idempotent_core is_worker_session
append_worker_ended_idempotent stage session_id session_seq exit_reason =
    append_ended_idempotent_core stage (is_worker_session session_seq)
      (worker_ended_details session_id session_seq exit_reason)

-- `appendReviewerEndedIdempotent`
unfoldable pub append_reviewer_ended_idempotent :
    Stage → String → String → EventsFile → Result AppendEndedIdempotentResult × EventsFile
unfolding append_ended_idempotent_core is_reviewer_session
append_reviewer_ended_idempotent stage session_id exit_reason =
    append_ended_idempotent_core stage (is_reviewer_session session_id)
      (reviewer_ended_details session_id exit_reason)

-- `truncatePartialTail`, where the file can be written
unfoldable pub truncate_events_tail : EventsFile → EventsFile
truncate_events_tail f = record f { tail = none }

-- `jsonlIO.readLines` yields each object before a corrupt line, at which it throws.
unfoldable pub objects_of : List Line → List Fields
objects_of [] = []
objects_of (corrupt ∷ ls) = []
objects_of (json ev ∷ ls) = ev ∷ objects_of ls

unfoldable pub is_readable : List Line → Bool
is_readable [] = true
is_readable (corrupt ∷ ls) = false
is_readable (json ev ∷ ls) = is_readable ls

-- the events of `readRecentSummaries`, without their text
unfoldable pub recent_events : ℕ → List Line → List Fields
unfolding objects_of is_readable
recent_events limit ls =
    let all = objects_of ls in
    if is_readable ls then (if ltb 0 limit then drop (length all - limit) all else all) else []
