-- ===== src/Host/Daemon.antt =====
-- The part of src/host/daemon.ts that decides in each tick of a running task whether a worker is
-- started: `reconcileWorkerCompletionPending` and `reconcileWorker` with `startWorker`. What the
-- sessions and their runtime answer is an input of the tick; a worker that runs is left to the rest of
-- the tick, which is not modelled.
pub mod Start
pub mod Waits
pub mod Failed
use deputy_agent.Prelude.{
  ℕ, ◌+◌, ◌==◌, String, str_append, str_eq, Bool, true, false, not, ◌&&◌, ◌||◌, List, [], ◌∷◌,
  Option, none, some, if◌then◌else◌, ℤ, pos, Dict, map, filter, any,
}
use deputy_agent.Value.{Value, null, int, str, obj, Fields, end, field}
use deputy_agent.Messaging.Kinds.{meta, worker, host_event}
use deputy_agent.Messaging.Bus
use deputy_agent.Messaging.Bus.{Bus, Action}
use deputy_agent.Messaging.Bus.Write.{enqueue}
use deputy_agent.Messaging.Bus.Deliver.{Envelope, peek_unread}
use deputy_agent.Host.Events.{EventsFile}
use deputy_agent.Host.Watchdog.{WorkerWatchdogState}
use deputy_agent.Host.Sessions.{
  WorkerExitReason, exit_reason_name, NextSeqFile, ToolEvent, WorkerOrchestrationState,
}

-- the fields of `DaemonState` about the worker; a handle is the identifier of its session
pub record DaemonState : Type 0 where
  pub orchestration : WorkerOrchestrationState
  pub worker_start_failed_pending : Bool
  pub worker_start_failed_baseline_env_ids : Option (List String)
  pub meta_reminder_posted_for_current_idle : Bool
  pub want_worker_start : Bool
  pub worker_handle : Option String
  pub worker_session_id : Option String
  pub worker_session_seq : Option ℕ
  pub worker_seq_by_session : Dict ℕ
  pub worker_tool_history : List ToolEvent
  pub worker_watchdog : Option WorkerWatchdogState
  pub worker_turn_ended : Bool
  pub worker_inject_failed : Bool
  pub worker_ended_written : Bool

pub record Daemon : Type 0 where
  pub state : DaemonState
  pub bus : Bus
  pub events : EventsFile
  pub next_seq : NextSeqFile

-- What a tick meets. `meta_idle`: Meta has a session, and it is idle. The others say how the steps of
-- a start end, and what is drawn for the envelopes and texts.
pub record Outside : Type 0 where
  pub meta_idle : Bool
  pub number_text : ℤ → String
  pub reminder_id : String
  pub session_id : String
  pub seq_written : Bool
  pub prompts_written : Bool
  pub session_starts : Bool
  pub first_message_delivered : Bool
  pub failed_id : String
  pub ended_failed_id : String
  pub error_text : String
  pub now : ℕ

-- `enqueueHostEvent` of src/host/main_loop.ts
unfoldable pub enqueue_host_event : String → String → String → Fields → Action String
unfolding enqueue
enqueue_host_event env_id event_kind body details b =
    enqueue
      (record {
        channel = meta;
        kind = host_event;
        from = "host";
        body = body;
        extras = obj (field "eventKind" (str event_kind) (field "details" (obj details) end));
        env_id = env_id;
        created_at = b.clock;
      })
      b

unfoldable pub instruction_ids : Bus.Result (List Envelope) → List String
instruction_ids (Bus.ok unread) =
    map (λ e. e.env_id) (filter (λ e. str_eq e.kind "meta_instruction") unread)
instruction_ids (Bus.err e) = []

-- the identifiers of the unread instructions of the worker's inbox, none where they cannot be read
unfoldable pub unread_instructions : Bus → List String × Bus
unfolding peek_unread instruction_ids
unread_instructions b = let (r, b') = peek_unread worker b in (instruction_ids r, b')

abbrev pub awaits_meta : WorkerOrchestrationState → Bool
awaits_meta o =
    o.session_end_pending
    || (o.worker_completion_pending
        || (o.meta_stop_no_restart || o.meta_interrupt_default_continue))

abbrev pub is_in : List String → String → Bool
is_in ids id = any (str_eq id) ids

-- whether one of the instructions is beyond the baseline
unfoldable pub is_triggered : Option (List String) → List String → Bool
is_triggered none ids = any (λ id. true) ids
is_triggered (some baseline) ids = any (λ id. not (is_in baseline id)) ids

abbrev pub baseline_of : DaemonState → Option (List String)
baseline_of s =
    if s.worker_start_failed_pending then s.worker_start_failed_baseline_env_ids else none

abbrev pub set_reminder_posted : Bool → DaemonState → DaemonState
set_reminder_posted b s = record s { meta_reminder_posted_for_current_idle = b }

abbrev pub cleared : WorkerOrchestrationState → WorkerOrchestrationState
cleared o = record o {
  worker_completion_pending = false;
  session_end_pending = false;
  meta_stop_no_restart = false;
  meta_interrupt_default_continue = false;
  worker_completion_reminder_seq = 0;
}

-- the inbox gate: an instruction of Meta continues with a new worker
unfoldable pub open_gate : DaemonState → DaemonState
open_gate s = record s {
  orchestration = cleared s.orchestration;
  worker_start_failed_pending = false;
  worker_start_failed_baseline_env_ids = none;
  meta_reminder_posted_for_current_idle = false;
  want_worker_start = true;
}

-- after an interrupt, where Meta is silent: the worker is continued
unfoldable pub continue_by_default : DaemonState → DaemonState
continue_by_default s = record s {
  orchestration = record s.orchestration { meta_interrupt_default_continue = false };
  meta_reminder_posted_for_current_idle = false;
  want_worker_start = true;
}

-- the last worker, where all is known of it
pub record LastWorker : Type 0 where
  pub end_env_id : String
  pub session_id : String
  pub session_seq : ℤ
  pub exit_reason : WorkerExitReason

unfoldable pub last_worker_of :
    Option String → Option String → Option ℤ → Option WorkerExitReason → Option LastWorker
last_worker_of (some e) (some id) (some seq) (some reason) =
    some (record { end_env_id = e; session_id = id; session_seq = seq; exit_reason = reason })
last_worker_of _ _ _ _ = none

abbrev pub last_worker : WorkerOrchestrationState → Option LastWorker
last_worker o =
    last_worker_of o.last_worker_session_end_env_id o.last_worker_session_id
      o.last_worker_session_seq o.last_worker_exit_reason

-- the body of `enqueueWorkerCompletionReminder` of src/host/main_loop.ts
abbrev pub reminder_body : Outside → LastWorker → ℕ → String
reminder_body w l n =
    let worker_text =
      str_append l.session_id
        (str_append " (seq " (str_append (w.number_text l.session_seq) ")")) in
    let see = str_append "See worker_session_end envelope " (str_append l.end_env_id ".") in
    if n == 1
    then str_append "[reminder] Worker session " (
        str_append worker_text (
          str_append " exited (" (
            str_append (exit_reason_name l.exit_reason) (
              str_append
                "). Please decide next action (advance stage / start worker / stop / send instruction). "
                see))))
    else str_append "[reminder #" (
        str_append (w.number_text (pos n)) (
          str_append "] Still awaiting Meta decision for worker session "
            (str_append worker_text (str_append ". " see))))

-- `enqueueWorkerCompletionReminder`
unfoldable pub enqueue_worker_completion_reminder : Outside → LastWorker → ℕ → Action String
unfolding enqueue_host_event
enqueue_worker_completion_reminder w l n =
    enqueue_host_event w.reminder_id "worker_completion_reminder" (reminder_body w l n) (
      field "workerSessionId" (str l.session_id) (
        field "sessionSeq" (int l.session_seq) (
          field "exitReason" (str (exit_reason_name l.exit_reason)) (
            field "workerSessionEndEnvId" (str l.end_env_id)
              (field "relatedWorkerSignalEnvId" null (field "reminderSeq" (int (pos n)) end))))))

-- a reminder counts only if it was sent
unfoldable pub count_reminder : ℕ → Bus.Result String → DaemonState → DaemonState
count_reminder n (Bus.err e) s = s
count_reminder n (Bus.ok id) s = record s {
  orchestration = record s.orchestration { worker_completion_reminder_seq = n };
  meta_reminder_posted_for_current_idle = true;
}

unfoldable pub remind : Outside → Option LastWorker → Daemon → Daemon
unfolding enqueue_worker_completion_reminder count_reminder
remind w none d = d
remind w (some l) d =
    let n = d.state.orchestration.worker_completion_reminder_seq + 1 in
    let (r, b) = enqueue_worker_completion_reminder w l n d.bus in
    record d { state = count_reminder n r d.state; bus = b }

-- the third part: one reminder for each time that Meta is idle
unfoldable pub remind_if_idle : Outside → Daemon → Daemon
unfolding remind
remind_if_idle w d =
    if not w.meta_idle
    then record d { state = set_reminder_posted false d.state }
    else if d.state.meta_reminder_posted_for_current_idle
    then d
    else remind w (last_worker d.state.orchestration) d

-- the parts after the inbox gate
unfoldable pub keep_waiting : Outside → Daemon → Daemon
unfolding continue_by_default remind_if_idle
keep_waiting w d =
    if d.state.orchestration.meta_interrupt_default_continue
    then (if w.meta_idle then record d { state = continue_by_default d.state } else d)
    else if not d.state.orchestration.worker_completion_pending
    then d
    else remind_if_idle w d

unfoldable pub gate : Outside → List String → Daemon → Daemon
unfolding is_triggered open_gate keep_waiting
gate w ids d =
    if is_triggered (baseline_of d.state) ids
    then record d { state = open_gate d.state }
    else keep_waiting w d

-- `reconcileWorkerCompletionPending`
unfoldable pub reconcile_worker_completion_pending : Outside → Daemon → Daemon
unfolding unread_instructions gate
reconcile_worker_completion_pending w d =
    if awaits_meta d.state.orchestration || d.state.worker_start_failed_pending
    then (let (ids, b) = unread_instructions d.bus in gate w ids (record d { bus = b }))
    else record d { state = set_reminder_posted false d.state }
