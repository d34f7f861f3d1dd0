-- ===== src/Host/Watcher/Offsets.antt =====
-- `readStreamIncrement` of src/host/watcher/offsetTracker.ts on the bytes of the stream file; the coder
-- of one line is a parameter (see Shared/Jsonl). `lastReceivedAt`, of which the dispatcher makes the end of
-- a window, is left out.
pub mod Twice
use deputy_agent.Prelude.{
  ℕ, zero, suc, ◌+◌, leb, ◌==◌, Bool, true, false, List, [], ◌∷◌, Option, none, some, take, drop,
  length, if◌then◌else◌,
}
use deputy_agent.Value.{Fields}
use deputy_agent.Shared.Jsonl.{Codec, File, split_lines, complete_len}

pub record ReadIncrementResult : Type 0 where
  pub events : List Fields
  pub new_offset : ℕ

-- one line: empty, unreadable and other than an object is skipped
unfoldable pub line_events : Codec → List ℕ → List Fields
line_events c [] = []
line_events c (b ∷ bs) = elim (c.decode (b ∷ bs)) [ none ↦ [] | some ev ↦ ev ∷ [] ]

abbrev pub append_events : List Fields → List Fields → List Fields
append_events [] more = more
append_events (ev ∷ events) more = ev ∷ append_events events more

-- the loop over the complete lines
unfoldable pub events_of : Codec → List (List ℕ) → List Fields
unfolding line_events
events_of c [] = []
events_of c (segment ∷ segments) = append_events (line_events c segment) (events_of c segments)

unfoldable pub read_stream_increment : Codec → File → ℕ → ReadIncrementResult
unfolding events_of split_lines complete_len
read_stream_increment c none from_offset = record { events = []; new_offset = from_offset }
read_stream_increment c (some bytes) from_offset =
    if leb (length bytes) from_offset
    then record { events = []; new_offset = from_offset }
    else (let buf = drop from_offset bytes in
        if complete_len buf == 0 then record { events = []; new_offset = from_offset } else record {
          events = events_of c (split_lines (take (complete_len buf) buf)).0;
          new_offset = from_offset + complete_len buf;
        })
