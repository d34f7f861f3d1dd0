-- ===== src/Host/Events/Calls.antt =====
-- What the processes of a task do to events.jsonl, one call after another.
use deputy_agent.Prelude.{String, List, [], ◌∷◌, ℤ}
use deputy_agent.Task.Stage.{Stage}
use deputy_agent.Host.Events.{
  HostEventInput, EventsFile, append, append_worker_ended_idempotent,
  append_reviewer_ended_idempotent, truncate_events_tail,
}

pub data EventsCall : Type 0 where
  event : HostEventInput → EventsCall
  worker_ended :
      (stage : Stage) (session_id : String) (session_seq : ℤ) (exit_reason : String) → EventsCall
  reviewer_ended : (stage : Stage) (session_id : String) (exit_reason : String) → EventsCall
  truncation : EventsCall

-- the file after a call, whatever it answers
unfoldable pub perform_call : EventsCall → EventsFile → EventsFile
unfolding append append_worker_ended_idempotent append_reviewer_ended_idempotent
    truncate_events_tail
perform_call (event e) f = (append e f).1
perform_call (worker_ended stage session_id session_seq exit_reason) f =
    (append_worker_ended_idempotent stage session_id session_seq exit_reason f).1
perform_call (reviewer_ended stage session_id exit_reason) f =
    (append_reviewer_ended_idempotent stage session_id exit_reason f).1
perform_call truncation f = truncate_events_tail f

unfoldable pub perform_calls : List EventsCall → EventsFile → EventsFile
unfolding perform_call
perform_calls [] f = f
perform_calls (c ∷ cs) f = perform_calls cs (perform_call c f)
