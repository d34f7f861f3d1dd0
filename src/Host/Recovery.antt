-- ===== src/Host/Recovery.antt =====
-- src/host/recovery.ts: the start of the host on a task. The repair of the events, of the messages and
-- of a worker that the last host left behind, every step of it fail-soft.
pub mod Reads
pub mod Start
pub mod Sorted
pub mod Settled
pub mod Durable
use deputy_agent.Prelude.{
  ℕ, String, str_append, Bool, true, false, not, ◌&&◌, ◌||◌, List, [], ◌∷◌, ◌++◌, Option, none,
  some, if◌then◌else◌, ℤ, ltb_ℤ, Dict, drop,
}
use deputy_agent.Value.{Value, bool, int, str, arr, Items, nil, cons, obj, Fields, end, field}
use deputy_agent.Messaging.Kinds.{meta, host_event}
use deputy_agent.Messaging.State.{EnvelopeState}
use deputy_agent.Messaging.Bus
use deputy_agent.Messaging.Bus.{Bus}
use deputy_agent.Messaging.Bus.Write.{enqueue}
use deputy_agent.Messaging.Bus.Query.{fold}
use deputy_agent.Messaging.Recovery
use deputy_agent.Messaging.Recovery.{RecoveryReport, recover_after_crash}
use deputy_agent.Task.Stage.{Stage, submitted, running, paused, is_terminal, stage_eq}
use deputy_agent.Task.Manifest
use deputy_agent.Task.Manifest.{Manifest, Store, load}
use deputy_agent.Host.Events.{
  HostEventInput, EventsFile, next_outcome, used, append, append_worker_ended_idempotent,
  is_readable, recent_events, stage_name,
}
use deputy_agent.Host.Sessions.{
  WorkerExitReason, meta_interrupt, meta_stop, sdk_crash, exit_reason_name, is_active_exit,
  enqueue_worker_session_end,
}
use deputy_agent.Host.Recovery.Reads.{
  SignalCandidate, find_latest_active_signal, SessionEndContext, find_latest_session_end,
  find_session_end_for_seq, fold_max_worker_started_seq, UnmatchedWorkerStarted,
  find_unmatched_worker_started,
}

-- What the repair works on: the messages and the events of the task.
pub record Host : Type 0 where
  pub bus : Bus
  pub events : EventsFile

-- What a start draws from outside: the identifiers of the envelopes that it may send, the text of a
-- number and of an error, the path of events.jsonl, and what the repair of the messages asks.
pub record Outside : Type 0 where
  pub end_id : String
  pub crash_event_id : String
  pub failed_event_id : String
  pub corrupted_event_id : String
  pub number_text : ℤ → String
  pub events_path : String
  pub error_text : Bus.BusError → String
  pub pid : ℤ
  pub messaging : Recovery.Outside

pub data CrashPendingWaitState : Type 0 where
  session_end_pending meta_interrupt_default_continue meta_stop_no_restart : CrashPendingWaitState

-- `waitStateForExitReason`
abbrev pub wait_state_for_exit_reason : WorkerExitReason → CrashPendingWaitState
wait_state_for_exit_reason meta_interrupt = meta_interrupt_default_continue
wait_state_for_exit_reason meta_stop = meta_stop_no_restart
wait_state_for_exit_reason _ = session_end_pending

pub record SynthesizedWorkerEnd : Type 0 where
  pub end_env_id : String
  pub worker_session_id : String
  pub session_seq : ℤ
  pub exit_reason : WorkerExitReason

pub record CrashPendingWorker : Type 0 where
  pub worker_session_id : String
  pub session_seq : ℤ
  pub exit_reason : WorkerExitReason
  pub wait_state : CrashPendingWaitState

pub record RepairResult : Type 0 where
  pub synthesized_worker_end : Option SynthesizedWorkerEnd
  pub crash_pending : Option CrashPendingWorker

abbrev pub no_repair : RepairResult
no_repair = record { synthesized_worker_end = none; crash_pending = none }

-- `safeAppend`
unfoldable pub safe_append : String → Stage → Fields → Host → Host
unfolding append
safe_append type stage details h = record h {
  events = (append (record { type = type; stage = stage; details = details }) h.events).1;
}

-- `safeEnqueueHostEvent`
unfoldable pub safe_enqueue_host_event : String → String → Fields → Host → Host
unfolding enqueue
safe_enqueue_host_event env_id event_kind details h = record h {
  bus =
      (enqueue
        (record {
          channel = meta;
          kind = host_event;
          from = "host";
          body = str_append "[host_event] " event_kind;
          extras = obj (field "eventKind" (str event_kind) (field "details" (obj details) end));
          env_id = env_id;
          created_at = h.bus.clock;
        })
        h.bus).1;
}

-- `maybeAppendPairedWorkerEnded`
unfoldable pub maybe_append_paired_worker_ended : String → ℤ → WorkerExitReason → Host → Host
unfolding append_worker_ended_idempotent
maybe_append_paired_worker_ended id seq reason h = record h {
  events = (append_worker_ended_idempotent running id seq (exit_reason_name reason) h.events).1;
}

abbrev pub did_enqueue : Bus.Result String → Bool
did_enqueue (Bus.ok id) = true
did_enqueue (Bus.err e) = false

-- the enqueue of a `worker_session_end` in a `try`, and whether it returned
unfoldable pub try_enqueue_end :
    Outside → String → ℤ → WorkerExitReason → String → Host → Bool × Host
unfolding enqueue_worker_session_end
try_enqueue_end o id seq reason body h =
    let (r, b) = enqueue_worker_session_end id seq reason none body o.end_id h.bus.clock h.bus in
    (did_enqueue r, record h { bus = b })

abbrev pub crash_event : Outside → Fields → Host → Host
crash_event o = safe_enqueue_host_event o.crash_event_id "worker_crash_on_host_restart"

-- the signal whose session has no `worker_session_end` yet
unfoldable pub synthesis_due :
    Option SignalCandidate → Option SessionEndContext → Option SignalCandidate
synthesis_due none latest_end = none
synthesis_due (some s) none = some s
synthesis_due (some s) (some e) = if ltb_ℤ e.session_seq s.session_seq then some s else none

unfoldable pub end_repair : String → ℤ → WorkerExitReason → String → RepairResult
end_repair id seq reason env_id = record {
  synthesized_worker_end = some (record {
    end_env_id = env_id;
    worker_session_id = id;
    session_seq = seq;
    exit_reason = reason;
  });
  crash_pending = none;
}

unfoldable pub crash_repair : String → ℤ → WorkerExitReason → RepairResult
crash_repair id seq reason = record {
  synthesized_worker_end = none;
  crash_pending = some (record {
    worker_session_id = id;
    session_seq = seq;
    exit_reason = reason;
    wait_state = wait_state_for_exit_reason reason;
  });
}

-- the first case: the end that a signal of the worker announced is made up
unfoldable pub synthesize_end : Outside → Bool → SignalCandidate → Host → RepairResult × Host
unfolding try_enqueue_end safe_enqueue_host_event maybe_append_paired_worker_ended end_repair
synthesize_end o events_corrupted s h =
    let (sent, h₁) =
      try_enqueue_end o s.worker_session_id s.session_seq s.exit_reason
        "[synthesized on host restart] worker session ended without explicit worker_session_end; reconstructed from latest worker signal."
        h in
    let h₂ = crash_event o (field "reconstructed" (bool true) end) h₁ in
    let h₃ =
      if events_corrupted
      then h₂
      else maybe_append_paired_worker_ended s.worker_session_id s.session_seq s.exit_reason h₂ in
    (
      if sent && is_active_exit s.exit_reason
          then end_repair s.worker_session_id s.session_seq s.exit_reason o.end_id
          else no_repair,
      h₃,
    )

-- an end that is in the messages: Meta is waited for as its reason says
unfoldable pub restored : SessionEndContext → RepairResult
unfolding end_repair crash_repair
restored e =
    if is_active_exit e.exit_reason
    then end_repair e.worker_session_id e.session_seq e.exit_reason e.env_id
    else crash_repair e.worker_session_id e.session_seq e.exit_reason

unfoldable pub restore_end : SessionEndContext → Host → RepairResult × Host
unfolding restored maybe_append_paired_worker_ended
restore_end e h =
    (restored e, maybe_append_paired_worker_ended e.worker_session_id e.session_seq e.exit_reason h)

-- the latest end, if no worker was started after it
unfoldable pub end_to_restore : Option SessionEndContext → Option ℤ → Option SessionEndContext
end_to_restore none latest_started_seq = none
end_to_restore (some e) none = some e
end_to_restore (some e) (some started) = if ltb_ℤ e.session_seq started then none else some e

-- a worker that crashed with the host
unfoldable pub synthesize_crash : Outside → UnmatchedWorkerStarted → Host → RepairResult × Host
unfolding try_enqueue_end safe_enqueue_host_event maybe_append_paired_worker_ended crash_repair
synthesize_crash o u h =
    let h₁ = maybe_append_paired_worker_ended u.worker_session_id u.session_seq sdk_crash h in
    let (sent, h₂) =
      try_enqueue_end o u.worker_session_id u.session_seq sdk_crash
        (str_append "[synthesized on host restart] worker session " (
          str_append u.worker_session_id (
            str_append " (seq " (
              str_append (o.number_text u.session_seq)
                ") crashed with host (no paired worker_session_end); reconstructed as sdk_crash."))))
        h₁ in
    let h₃ =
      crash_event o
        (field "workerSessionId" (str u.worker_session_id) (
          field "sessionSeq" (int u.session_seq)
            (field "workerSessionEndEnqueued" (bool sent) end)))
        h₂ in
    (crash_repair u.worker_session_id u.session_seq sdk_crash, h₃)

-- an end in the messages comes before a crash
unfoldable pub repair_crashed :
    Outside → UnmatchedWorkerStarted → Option SessionEndContext → Host → RepairResult × Host
unfolding restore_end synthesize_crash
repair_crashed o u (some e) h = restore_end e h
repair_crashed o u none h = synthesize_crash o u h

-- the last case, where events.jsonl is reliable
unfoldable pub repair_unmatched :
    Outside → Dict EnvelopeState → Option UnmatchedWorkerStarted → Host → RepairResult × Host
unfolding find_session_end_for_seq repair_crashed
repair_unmatched o snap none h = (no_repair, h)
repair_unmatched o snap (some u) h =
    repair_crashed o u (find_session_end_for_seq h.bus.payloads snap u.session_seq) h

-- without a newer signal, and with the events lost
unfoldable pub repair_degraded : Outside → Option SignalCandidate → Host → RepairResult × Host
unfolding safe_enqueue_host_event
repair_degraded o none h = (no_repair, crash_event o (field "evidenceDegraded" (bool true) end) h)
repair_degraded o (some s) h = (no_repair, h)

unfoldable pub repair_without_signal :
    Outside
    → Bool
    → Dict EnvelopeState
    → Option SignalCandidate
    → Option SessionEndContext
    → Host
    → RepairResult × Host
unfolding restored restore_end repair_degraded repair_unmatched find_unmatched_worker_started
repair_without_signal o true snap signal (some e) h = (restored e, h)
repair_without_signal o true snap signal none h = repair_degraded o signal h
repair_without_signal o false snap signal (some e) h = restore_end e h
repair_without_signal o false snap signal none h =
    repair_unmatched o snap (find_unmatched_worker_started h.events.lines) h

-- the repair with a signal whose end is due, if there is one
unfoldable pub repair_due :
    Outside
    → Bool
    → Dict EnvelopeState
    → Option SignalCandidate
    → Option SessionEndContext
    → Option SignalCandidate
    → Host
    → RepairResult × Host
unfolding synthesize_end repair_without_signal
repair_due o events_corrupted snap signal to_restore (some s) h =
    synthesize_end o events_corrupted s h
repair_due o events_corrupted snap signal to_restore none h =
    repair_without_signal o events_corrupted snap signal to_restore h

-- `repairHalfCompletedWorker` after the fold, which throws or gives a map
unfoldable pub repair_folded :
    Outside → Bool → Bus.Result (Dict EnvelopeState) → Host → RepairResult × Host
unfolding synthesis_due find_latest_active_signal find_latest_session_end repair_due end_to_restore
    fold_max_worker_started_seq
repair_folded o events_corrupted (Bus.err e) h = (no_repair, h)
repair_folded o events_corrupted (Bus.ok snap) h =
    let signal = find_latest_active_signal h.bus.payloads snap in
    let latest_end = find_latest_session_end h.bus.payloads snap in
    repair_due o events_corrupted snap signal
      (end_to_restore latest_end (fold_max_worker_started_seq h.events.lines))
      (synthesis_due signal latest_end) h

-- `repairHalfCompletedWorker` in its `try`
unfoldable pub repair_half_completed_worker : Outside → Stage → Bool → Host → RepairResult × Host
unfolding stage_eq fold repair_folded
repair_half_completed_worker o stage events_corrupted h =
    if stage_eq stage running
    then (let (r, b) = fold h.bus in repair_folded o events_corrupted r (record h { bus = b }))
    else (no_repair, h)
