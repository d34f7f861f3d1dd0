-- ===== src/Host/Watcher/Dispatcher/Lossless.antt =====
-- What the windows of src/host/watcher/dispatcher.ts deliver of a stream that grows.
use deputy_agent.Prelude.{ℕ, ◌≡◌, ◌⊎◌, false, if◌then◌else◌, List, [], ◌∷◌, ◌++◌, some}
use deputy_agent.Value.{Fields, property}
use deputy_agent.Shared.Jsonl.{Codec}
use deputy_agent.Host.Watcher.Offsets.{ReadIncrementResult, append_events, read_stream_increment}
use deputy_agent.Host.Watcher.Dispatcher.{
  OffsetTracker, WindowOutcome, dispatched, WindowInput, WindowEvent, dispatch_window,
  is_skipped_kind,
}

-- the dispatch of a window that is due, before which the stream grows
pub record Round : Type 0 where
  pub more : List ℕ
  pub input : WindowInput

-- the stream when a round reads it
abbrev pub at_round : List ℕ → Round → WindowInput
at_round bytes r = record r.input { file = some (bytes ++ r.more) }

-- the events that go into an envelope
abbrev pub sent : WindowOutcome → List Fields → List Fields
sent (dispatched env_id) events = events
sent _ events = []

-- the events that the watcher is to see
unfoldable pub shown : List Fields → List Fields
unfolding is_skipped_kind property
shown [] = []
shown (ev ∷ events) =
    let rest = shown events in if is_skipped_kind (property "kind" ev) then rest else ev ∷ rest

-- the stream after the rounds
abbrev pub all_bytes : List ℕ → List Round → List ℕ
all_bytes bytes [] = bytes
all_bytes bytes (r ∷ rounds) = all_bytes (bytes ++ r.more) rounds

module _ (c : Codec) (w : ℕ) where
  -- the tracker after the rounds, and the events sent
  abbrev pub run_rounds : OffsetTracker → List ℕ → List Round → OffsetTracker × List Fields
  run_rounds t bytes [] = (t, [])
  run_rounds t bytes (r ∷ rounds) =
      let (next, event) = dispatch_window c w t false (at_round bytes r) in
      let read = read_stream_increment c (some (bytes ++ r.more)) t.last_stream_offset in
      let (last, events) = run_rounds next (bytes ++ r.more) rounds in
      (last, append_events (sent event.outcome read.events) events)

  -- a window that moves the offset has sent all that it has read of the events to be seen, and
  -- another one nothing
  abbrev Moves : OffsetTracker → ReadIncrementResult → OffsetTracker × WindowEvent → Type 0
  Moves t read (next, event) =
      ((next.last_stream_offset ≡ read.new_offset)
        × (shown (sent event.outcome read.events) ≡ shown read.events))
      ⊎ ((next.last_stream_offset ≡ t.last_stream_offset)
          × (shown (sent event.outcome read.events) ≡ []))

-- the events of the whole stream from an offset on
abbrev pub events_from : Codec → List ℕ → ℕ → List Fields
events_from c bytes from_offset = (read_stream_increment c (some bytes) from_offset).events
