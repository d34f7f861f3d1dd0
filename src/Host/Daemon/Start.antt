-- ===== src/Host/Daemon/Start.antt =====
-- `startWorker` and the start of a worker in `reconcileWorker` of src/host/daemon.ts.
use deputy_agent.Prelude.{
  ℕ, String, str_append, Bool, true, false, not, ◌&&◌, [], Option, none, some, if◌then◌else◌, pos,
  put,
}
use deputy_agent.Value.{bool, int, str, Fields, end, field}
use deputy_agent.Task.Stage.{running}
use deputy_agent.Host.Events
use deputy_agent.Host.Events.{
  EventsFile, AppendEndedIdempotentResult, append, append_worker_ended_idempotent,
}
use deputy_agent.Host.Sessions.{allocate_worker_session_seq}
use deputy_agent.Host.Daemon
use deputy_agent.Host.Daemon.{
  Outside, Daemon, DaemonState, enqueue_host_event, unread_instructions, awaits_meta, cleared,
}

-- how `startWorker` ends: true, false, or with what the write of a prompt or of an event throws
pub data Start : Type 0 where
  started not_started threw : Start

-- `enqueueHostEvent` whose failure is ignored
unfoldable pub report : String → String → String → Fields → Daemon → Daemon
unfolding enqueue_host_event
report env_id kind body details d = record d {
  bus = (enqueue_host_event env_id kind body details d.bus).1;
}

abbrev pub session_details : Outside → ℕ → Fields → Fields
session_details w seq rest =
    field "role" (str "worker")
      (field "sessionId" (str w.session_id) (field "sessionSeq" (int (pos seq)) rest))

abbrev pub scan_failed : Events.Result AppendEndedIdempotentResult → Bool
scan_failed (Events.ok r) = not r.scan_ok
scan_failed (Events.err e) = true

-- `startSession` has failed: the STARTED event gets its ENDED event, and Meta is told
unfoldable pub abandon_session : Outside → ℕ → Daemon → Daemon
unfolding append_worker_ended_idempotent report
abandon_session w seq d =
    let (r, f) =
      append_worker_ended_idempotent running w.session_id (pos seq) "host_internal_error"
        d.events in
    let d₁ = record d { events = f } in
    let d₂ =
      if scan_failed r
      then report w.ended_failed_id "agent_session_start_failed"
          (str_append "worker startSession-fail paired ENDED write failed (seq "
            (str_append (w.number_text (pos seq)) ")"))
          (session_details w seq end) d₁
      else d₁ in
    report w.failed_id "agent_session_start_failed"
      (str_append "worker startSession failed: " w.error_text)
      (session_details w seq (field "finalFailure" (bool true) end)) d₂

-- the state with a new worker
unfoldable pub with_worker : Outside → ℕ → DaemonState → DaemonState
with_worker w seq s = record s {
  worker_handle = some w.session_id;
  worker_session_id = some w.session_id;
  worker_session_seq = some seq;
  worker_tool_history = [];
  worker_watchdog = some (record { last_tool_use_at = w.now; recent_signatures = [] });
  worker_turn_ended = false;
  worker_inject_failed = false;
  worker_ended_written = false;
}

-- the first message is sent
unfoldable pub send_first_message : Outside → ℕ → Daemon → Daemon
unfolding report
send_first_message w seq d =
    if w.first_message_delivered
    then d
    else report w.failed_id "worker_inject_failed"
        (str_append "worker session " (
          str_append w.session_id (
            str_append " (seq " (
              str_append (w.number_text (pos seq))
                (str_append ") first message inject failed: " w.error_text)))))
        (field "workerSessionId" (str w.session_id) (field "sessionSeq" (int (pos seq)) end))
        (record d {
          state = record d.state { worker_inject_failed = true; worker_turn_ended = true };
        })

unfoldable pub start_session : Outside → ℕ → Daemon → Start × Daemon
unfolding abandon_session with_worker send_first_message
start_session w seq d =
    if w.session_starts
    then (started, send_first_message w seq (record d { state = with_worker w seq d.state }))
    else (not_started, abandon_session w seq d)

unfoldable pub after_started_event :
    Outside → ℕ → Events.Result (Unit {0}) → Daemon → Start × Daemon
unfolding start_session
after_started_event w seq (Events.err e) d = (threw, d)
after_started_event w seq (Events.ok u) d = start_session w seq d

-- the prompts are written, and then the STARTED event
unfoldable pub start_with_seq : Outside → ℕ → Daemon → Start × Daemon
unfolding append after_started_event
start_with_seq w seq d =
    if w.prompts_written
    then (let (r, f) =
          append
            (record {
              type = "agent_session_started";
              stage = running;
              details = session_details w seq (field "reason" (str "meta_requested_start") end);
            })
            d.events in
        after_started_event w seq r (record d { events = f }))
    else (threw, d)

-- `state.workerSeqBySession.set(sessionId, sessionSeq)`
abbrev pub note_session : Outside → ℕ → Daemon → Daemon
note_session w seq d = record d {
  state = record d.state {
    worker_seq_by_session = put w.session_id seq d.state.worker_seq_by_session;
  };
}

unfoldable pub start_allocated : Outside → Option ℕ → Daemon → Start × Daemon
unfolding start_with_seq report
start_allocated w none d = (
  not_started,
  report w.failed_id "agent_session_start_failed"
      (str_append
        "worker sessionSeq allocation failed (start aborted, awaiting Meta explicit start_worker/send_to_worker): "
        w.error_text)
      (field "role" (str "worker") end) d,
)
start_allocated w (some seq) d = start_with_seq w seq (note_session w seq d)

-- `startWorker`
unfoldable pub start_worker : Outside → Daemon → Start × Daemon
unfolding allocate_worker_session_seq start_allocated
start_worker w d =
    let (seq, file) = allocate_worker_session_seq d.events.lines w.seq_written d.next_seq in
    start_allocated w seq (record d { next_seq = file })

-- `captureWorkerStartFailedBaseline`
unfoldable pub capture_worker_start_failed_baseline : Daemon → Daemon
unfolding unread_instructions
capture_worker_start_failed_baseline d =
    let (ids, b) = unread_instructions d.bus in
    record d {
      state = record d.state {
        worker_start_failed_pending = true;
        worker_start_failed_baseline_env_ids = some ids;
      };
      bus = b;
    }

unfoldable pub after_start : Start × Daemon → Daemon
unfolding capture_worker_start_failed_baseline
after_start (started, d) = record d {
  state = record d.state {
    want_worker_start = false;
    worker_start_failed_pending = false;
    worker_start_failed_baseline_env_ids = none;
    orchestration = cleared d.state.orchestration;
  };
}
after_start (not_started, d) =
    capture_worker_start_failed_baseline
      (record d { state = record d.state { want_worker_start = false } })
after_start (threw, d) = d

abbrev pub is_none : Option String → Bool
is_none none = true
is_none (some s) = false

-- a worker was never started, and nothing is waited for
abbrev pub is_first_start : DaemonState → Bool
is_first_start s =
    is_none s.worker_session_id
    && (not (awaits_meta s.orchestration) && not s.worker_start_failed_pending)

-- `reconcileWorker` up to the monitoring of the worker
unfoldable pub start_if_wanted : Outside → Daemon → Daemon
unfolding start_worker after_start
start_if_wanted w d =
    if not (is_none d.state.worker_handle)
    then d
    else if not d.state.want_worker_start && not (is_first_start d.state)
    then d
    else after_start (start_worker w d)

-- the two in the order of a tick
unfoldable pub reconcile : Outside → Daemon → Daemon
unfolding start_if_wanted Daemon.reconcile_worker_completion_pending
reconcile w d = start_if_wanted w (Daemon.reconcile_worker_completion_pending w d)
