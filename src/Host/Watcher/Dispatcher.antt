-- ===== src/Host/Watcher/Dispatcher.antt =====
-- The windows of src/host/watcher/dispatcher.ts: one dispatch with its four outcomes, and the loop that
-- makes up for all windows that are due. Monotonic time and the length of a window are whole seconds,
-- and a time of the wall clock is its milliseconds.
pub mod Lossless
pub mod CaughtUp
use deputy_agent.Prelude.{
  ℕ, zero, suc, ◌+◌, ◌-◌, ◌*◌, ◌/◌, max, leb, ltb, String, Bool, true, false, List, [], ◌∷◌, ◌++◌,
  Option, none, some, if◌then◌else◌, any, str_eq, ◌&&◌,
}
use deputy_agent.Value.{Value, str, Fields, property}
use deputy_agent.Shared.Jsonl.{Codec, File}
use deputy_agent.Host.Watcher.Offsets.{ReadIncrementResult, read_stream_increment}

pub record OffsetTracker : Type 0 where
  pub worker_session_id : String
  pub stream_path : String
  pub started_at_mono : ℕ
  pub started_at_wall_ms : ℕ
  pub next_window_due_mono : ℕ
  pub last_stream_offset : ℕ
  pub pending_window_start : Option ℕ

-- the tracker that `onWorkerSessionStarted` puts into the table
unfoldable pub started : String → String → ℕ → ℕ → ℕ → OffsetTracker
started worker_session_id stream_path mono wall_ms window_seconds = record {
  worker_session_id = worker_session_id;
  stream_path = stream_path;
  started_at_mono = mono;
  started_at_wall_ms = wall_ms;
  next_window_due_mono = mono + window_seconds;
  last_stream_offset = 0;
  pending_window_start = none;
}

pub data WindowOutcome : Type 0 where
  dispatched : (env_id : String) → WindowOutcome
  skipped enqueue_failed read_failed : WindowOutcome

-- the event of events.jsonl, and whether the final window is reported as degraded
pub record WindowEvent : Type 0 where
  pub window_start : ℕ
  pub window_end : ℕ
  pub outcome : WindowOutcome
  pub surfaced : Bool

-- What one dispatch meets: the stream file, whether it can be read, the time of its last record, the
-- clock, and the identifier that `enqueue` returns, `none` where it throws.
pub record WindowInput : Type 0 where
  pub file : File
  pub readable : Bool
  pub last_received_ms : Option ℕ
  pub now_ms : ℕ
  pub enqueued : Option String

-- `Math.round` of a quotient
unfoldable pub rounded : ℕ → ℕ → ℕ
rounded a b = (2 * a + b) / (2 * b)

-- the number of the window
unfoldable pub window_index : ℕ → OffsetTracker → ℕ
unfolding rounded
window_index window_seconds t = rounded (t.next_window_due_mono - t.started_at_mono) window_seconds

unfoldable pub nominal_start : ℕ → OffsetTracker → ℕ
unfolding window_index
nominal_start window_seconds t =
    t.started_at_wall_ms + (window_index window_seconds t - 1) * window_seconds * 1000

unfoldable pub nominal_end : ℕ → OffsetTracker → Bool → ℕ → ℕ
unfolding window_index
nominal_end window_seconds t is_final now_ms =
    if is_final
    then now_ms
    else t.started_at_wall_ms + window_index window_seconds t * window_seconds * 1000

unfoldable pub window_start_of : ℕ → OffsetTracker → ℕ
unfolding nominal_start
window_start_of window_seconds t = elim t.pending_window_start [
  | some start ↦ start
  | none ↦ nominal_start window_seconds t
]

-- the later of the nominal end and the last record
unfoldable pub end_after : Option ℕ → ℕ → ℕ
end_after none end_ms = end_ms
end_after (some received_ms) end_ms = if ltb end_ms received_ms then received_ms else end_ms

-- a window that is tried again: the offset stays, and the start is kept for the next one
unfoldable pub kept_back : ℕ → OffsetTracker → OffsetTracker
unfolding window_start_of
kept_back window_seconds t = record t {
  next_window_due_mono = t.next_window_due_mono + window_seconds;
  pending_window_start = some (window_start_of window_seconds t);
}

unfoldable pub advanced : ℕ → ℕ → OffsetTracker → OffsetTracker
advanced window_seconds new_offset t = record t {
  last_stream_offset = new_offset;
  next_window_due_mono = t.next_window_due_mono + window_seconds;
  pending_window_start = none;
}

abbrev pub window_event : ℕ → ℕ → WindowOutcome → Bool → WindowEvent
window_event window_start window_end outcome surfaced = record {
  window_start = window_start;
  window_end = window_end;
  outcome = outcome;
  surfaced = surfaced;
}

-- the kinds for which `processEvent` of src/host/watcher/preprocess.ts returns null
unfoldable pub skipped_kinds : List String
skipped_kinds =
    "subagent_progress" ∷ "tool_invoked" ∷ "turn_started" ∷ "turn_ended" ∷ "assistant_delta"
    ∷ "inject_accepted" ∷ "inject_queued" ∷ "inject_delivered" ∷ "inject_cancelled"
    ∷ "inject_dropped" ∷ "inject_rejected" ∷ "retry_started" ∷ "retry_ended" ∷ "usage_snapshot"
    ∷ "synthetic_state_snapshot" ∷ []

unfoldable pub is_skipped_kind : Value → Bool
unfolding skipped_kinds
is_skipped_kind (str kind) = any (str_eq kind) skipped_kinds
is_skipped_kind _ = false

-- `isEmptyWindow(preprocessEvents(...))`: every event is skipped, since another one leaves a record,
-- also where its rendering throws.
unfoldable pub is_empty_window : List Fields → Bool
unfolding is_skipped_kind property
is_empty_window [] = true
is_empty_window (ev ∷ events) =
    let rest = is_empty_window events in is_skipped_kind (property "kind" ev) && rest

module _ (c : Codec) (window_seconds : ℕ) where
  unfoldable pub dispatch_read :
      OffsetTracker → Bool → WindowInput → ReadIncrementResult → OffsetTracker × WindowEvent
  unfolding window_start_of nominal_end end_after kept_back advanced is_empty_window
  dispatch_read t is_final input read =
      let window_start = window_start_of window_seconds t in
      let window_end =
        end_after input.last_received_ms (nominal_end window_seconds t is_final input.now_ms) in
      if is_empty_window read.events
      then (
        advanced window_seconds read.new_offset t,
        window_event window_start window_end skipped false,
      )
      else elim input.enqueued [
        | none ↦ (
          kept_back window_seconds t,
          window_event window_start window_end enqueue_failed is_final,
        )
        | some env_id ↦ (
          advanced window_seconds read.new_offset t,
          window_event window_start window_end (dispatched env_id) false,
        )
      ]

  unfoldable pub dispatch_window : OffsetTracker → Bool → WindowInput → OffsetTracker × WindowEvent
  unfolding dispatch_read read_stream_increment window_start_of nominal_end kept_back
  dispatch_window t is_final input =
      if input.readable
      then dispatch_read t is_final input (read_stream_increment c input.file t.last_stream_offset)
      else (
        kept_back window_seconds t,
        window_event (window_start_of window_seconds t)
            (nominal_end window_seconds t is_final input.now_ms) read_failed is_final,
      )

  -- the loop of `tick`, on fuel; `inputs` gives what the dispatch of a due time meets
  unfoldable pub catch_up :
      ℕ → ℕ → (ℕ → WindowInput) → OffsetTracker → OffsetTracker × List WindowEvent
  unfolding dispatch_window
  catch_up zero mono inputs t = (t, [])
  catch_up (suc fuel) mono inputs t = elim (leb t.next_window_due_mono mono) [
    | false ↦ (t, [])
    | true ↦
        let (next, event) = dispatch_window t false (inputs t.next_window_due_mono) in
        let (last, events) = catch_up fuel mono inputs next in (last, event ∷ events)
  ]

  -- `onWorkerSessionEnded`: the windows that are due, and the final one
  unfoldable pub session_ended :
      ℕ → ℕ → (ℕ → WindowInput) → WindowInput → OffsetTracker → OffsetTracker × List WindowEvent
  unfolding catch_up dispatch_window
  session_ended fuel mono inputs final_input t =
      let (last, events) = catch_up fuel mono inputs t in
      let (end_tracker, event) = dispatch_window last true final_input in
      (end_tracker, events ++ event ∷ [])
