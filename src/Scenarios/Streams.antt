-- ===== src/Scenarios/Streams.antt =====
-- Two reads of a stream file that grows between them (src/host/watcher/offsetTracker.ts).
use deputy_agent.Prelude.{
  String, true, false, ℕ, ◌==◌, ◌≡◌, refl, if◌then◌else◌, List, [], ◌∷◌, Option, none, some,
}
use deputy_agent.Value.{Fields, end}
use deputy_agent.Shared.Jsonl.{Codec}
use deputy_agent.Host.Watcher.Offsets.{read_stream_increment}
use deputy_agent.Host.Watcher.Dispatcher.{
  OffsetTracker, started, WindowInput, dispatched, skipped, window_event, dispatch_window, catch_up,
  is_empty_window,
}
use deputy_agent.Host.Watcher.Dispatcher.Lossless.{Round, run_rounds}

-- every line that starts with `{` is the empty object
stream_decode : List ℕ → Option Fields
stream_decode [] = none
stream_decode (b ∷ bs) = if b == 123 then some end else none

abbrev stream_codec : Codec
stream_codec = record { encode = λ o. 123 ∷ 125 ∷ []; decode = stream_decode }

-- `{}`, a line feed, `x`, a line feed and `{`
abbrev stream : List ℕ
stream = 123 ∷ 125 ∷ 10 ∷ 120 ∷ 10 ∷ 123 ∷ []

reads_whole_lines :
    read_stream_increment stream_codec (some stream) 0
    ≡ record { events = end ∷ []; new_offset = 5 }
unfolding read_stream_increment stream_decode
reads_whole_lines = refl

abbrev window_input : ℕ → Option String → WindowInput
window_input now_ms enqueued = record {
  file = some stream;
  readable = true;
  last_received_ms = none;
  now_ms = now_ms;
  enqueued = enqueued;
}

abbrev fresh : OffsetTracker
fresh = started "w1" "workspace/streams/1.jsonl" 100 5000 180

-- two windows are due at 500: the first is enqueued, the second has nothing new
catches_up :
    (catch_up stream_codec 180 300 500 (λ due. window_input 0 (some "0a1b2c3d")) fresh).1
    ≡ window_event 5000 185000 (dispatched "0a1b2c3d") false
      ∷ window_event 185000 365000 skipped false
      ∷ []
unfolding catch_up is_empty_window stream_decode started
catches_up = refl

-- the first window cannot be enqueued
abbrev two_rounds : List Round
two_rounds =
    record { more = 123 ∷ 125 ∷ 10 ∷ []; input = window_input 0 none }
    ∷ record { more = 123 ∷ []; input = window_input 9000 (some "0a1b2c3d") }
    ∷ []

hands_on_late : (run_rounds stream_codec 180 fresh [] two_rounds).1 ≡ end ∷ []
unfolding read_stream_increment dispatch_window is_empty_window stream_decode started
hands_on_late = refl
