-- ===== src/Host/Sessions.antt =====
-- What src/host/agent_sessions.ts decides about the sessions of the worker: why one ended, the numbers
-- of the sessions, and the state of waiting for Meta. Assembling prompts and starting a session is not
-- modelled.
pub mod Allocated
use deputy_agent.Prelude.{
  ℕ, zero, suc, ◌+◌, String, Bool, true, false, not, List, [], ◌∷◌, ◌++◌, Option, none, some,
  str_eq, if◌then◌else◌, ℤ, pos, leb,
}
use deputy_agent.Value.{
  Value, undefined, null, int, str, obj, Fields, end, field, property, property_of,
}
use deputy_agent.Messaging.Kinds.{meta, worker_session_end}
use deputy_agent.Messaging.Log.{Line, json, corrupt}
use deputy_agent.Messaging.Bus.{Action}
use deputy_agent.Messaging.Bus.Write.{EnqueueRequest, enqueue}
use deputy_agent.Host.Events.{is_text, later_seq, details_of_type}

pub data WorkerExitReason : Type 0 where
  natural_completion declare_deferred declare_done meta_interrupt meta_stop : WorkerExitReason
  watchdog_worker_no_progress watchdog_worker_tool_loop sdk_crash subprocess_crash :
      WorkerExitReason
  host_internal_error host_shutdown : WorkerExitReason

abbrev pub exit_reason_name : WorkerExitReason → String
exit_reason_name natural_completion = "natural_completion"
exit_reason_name declare_deferred = "declare_deferred"
exit_reason_name declare_done = "declare_done"
exit_reason_name meta_interrupt = "meta_interrupt"
exit_reason_name meta_stop = "meta_stop"
exit_reason_name watchdog_worker_no_progress = "watchdog_worker_no_progress"
exit_reason_name watchdog_worker_tool_loop = "watchdog_worker_tool_loop"
exit_reason_name sdk_crash = "sdk_crash"
exit_reason_name subprocess_crash = "subprocess_crash"
exit_reason_name host_internal_error = "host_internal_error"
exit_reason_name host_shutdown = "host_shutdown"

-- `isActiveExit`
abbrev pub is_active_exit : WorkerExitReason → Bool
is_active_exit natural_completion = true
is_active_exit declare_deferred = true
is_active_exit declare_done = true
is_active_exit watchdog_worker_no_progress = true
is_active_exit watchdog_worker_tool_loop = true
is_active_exit _ = false

-- `mapSessionEndReason`, on the name of the reason
unfoldable pub map_session_end_reason : String → WorkerExitReason
map_session_end_reason reason =
    if str_eq reason "session_natural_end"
    then natural_completion
    else if str_eq reason "worker_declared_done"
    then declare_done
    else if str_eq reason "worker_declared_deferred"
    then declare_deferred
    else if str_eq reason "host_close"
    then host_shutdown
    else if str_eq reason "host_close_forced"
    then host_shutdown
    else sdk_crash

pub record ToolEvent : Type 0 where
  pub tool_name : String
  pub input : Value
  pub invoked_at : ℕ

-- one round of the loop of `deriveExitIntentLastWins`
unfoldable pub exit_intent_of : ToolEvent → Option WorkerExitReason → Option WorkerExitReason
unfolding property_of
exit_intent_of ev result =
    if str_eq ev.tool_name "sh_msg__declare_done_to_meta"
    then some declare_done
    else if str_eq ev.tool_name "sh_msg__escalate_to_meta"
    then (if is_text "declare_deferred" (property_of "exitIntent" ev.input)
        then some declare_deferred
        else result)
    else result

unfoldable pub exit_intent_from : Option WorkerExitReason → List ToolEvent → Option WorkerExitReason
unfolding exit_intent_of
exit_intent_from result [] = result
exit_intent_from result (ev ∷ evs) = exit_intent_from (exit_intent_of ev result) evs

-- `deriveExitIntentLastWins`
unfoldable pub derive_exit_intent_last_wins : List ToolEvent → Option WorkerExitReason
unfolding exit_intent_from
derive_exit_intent_last_wins = exit_intent_from none

-- `SessionToolHistory.recordRaw`
unfoldable pub record_raw : String → Value → ℕ → List ToolEvent → List ToolEvent
record_raw tool_name input invoked_at evs =
    evs ++ record { tool_name = tool_name; input = input; invoked_at = invoked_at } ∷ []

-- `SessionToolHistory.lastInvokedAt`
unfoldable pub last_invoked_at : List ToolEvent → Option ℕ
last_invoked_at [] = none
last_invoked_at (ev ∷ []) = some ev.invoked_at
last_invoked_at (ev ∷ ev' ∷ evs) = last_invoked_at (ev' ∷ evs)

-- the details of an event that starts a session of the worker
unfoldable pub worker_started : Fields → Option Fields
unfolding details_of_type property
worker_started ev = elim (details_of_type "agent_session_started" ev) [
  | none ↦ none
  | some d ↦ if is_text "worker" (property "role" d) then some d else none
]

unfoldable pub later_started : ℕ → Option Fields → ℕ
unfolding property
later_started max none = max
later_started max (some d) = later_seq max (property "session_seq" d)

-- the loop of `foldMaxWorkerSessionSeq`; where a line is corrupt, the greatest number before it
unfoldable pub fold_max_from : ℕ → List Line → ℕ
unfolding later_started worker_started
fold_max_from max [] = max
fold_max_from max (corrupt ∷ ls) = max
fold_max_from max (json ev ∷ ls) = fold_max_from (later_started max (worker_started ev)) ls

-- `foldMaxWorkerSessionSeq`
unfoldable pub fold_max_worker_session_seq : List Line → ℕ
unfolding fold_max_from
fold_max_worker_session_seq = fold_max_from 0

-- control/worker/next_seq.json as it is read: no file, a text that cannot be read or parsed, or a value
pub data NextSeqFile : Type 0 where
  missing unreadable : NextSeqFile
  parsed : Value → NextSeqFile

-- `current`, where the file gives one
unfoldable pub stored_next : NextSeqFile → Option ℕ
unfolding property_of
stored_next missing = none
stored_next unreadable = none
stored_next (parsed v) = elim (property_of "next" v) [
  | int (pos n) ↦ (if leb 1 n then some n else none)
  | _ ↦ none
]

unfoldable pub current_seq : NextSeqFile → List Line → Option ℕ → ℕ
unfolding fold_max_worker_session_seq
current_seq file events (some n) = n
current_seq missing events none = 1
current_seq file events none = fold_max_worker_session_seq events + 1

-- `allocateWorkerSessionSeq` under its lock: the number, `none` where the write fails, and the file
unfoldable pub allocate_worker_session_seq : List Line → Bool → NextSeqFile → Option ℕ × NextSeqFile
unfolding current_seq stored_next
allocate_worker_session_seq events written file =
    let current = current_seq file events (stored_next file) in
    if written
    then (some current, parsed (obj (field "next" (int (pos (current + 1))) end)))
    else (none, file)

unfoldable pub or_null : Option Fields → Value
or_null none = null
or_null (some fs) = obj fs

-- `enqueueWorkerSessionEnd`; the last two are the identifier that is drawn and the time
unfoldable pub enqueue_worker_session_end :
    String → ℤ → WorkerExitReason → Option Fields → String → String → String → Action String
unfolding enqueue or_null
enqueue_worker_session_end worker_session_id session_seq exit_reason outcome body env_id
      created_at =
    enqueue (record {
      channel = meta;
      kind = worker_session_end;
      from = "host";
      body = body;
      extras = obj (
          field "workerSessionId" (str worker_session_id) (
            field "sessionSeq" (int session_seq) (
              field "exitReason" (str (exit_reason_name exit_reason))
                (field "doneCriteriaOutcome" (or_null outcome) end))));
      env_id = env_id;
      created_at = created_at;
    })

-- `isInjectDelivered`, on the mode of the acknowledgement
unfoldable pub is_inject_delivered : String → Bool
is_inject_delivered mode = not (str_eq mode "rejected_busy")

-- `isValidReviewerPhase`
unfoldable pub is_valid_reviewer_phase : String → Bool
is_valid_reviewer_phase phase =
    if str_eq phase "bootstrap_self_review"
    then true
    else if str_eq phase "final_review"
    then true
    else str_eq phase "harness_revision_review"

pub record WorkerOrchestrationState : Type 0 where
  pub session_end_pending : Bool
  pub worker_completion_pending : Bool
  pub worker_completion_reminder_seq : ℕ
  pub meta_stop_no_restart : Bool
  pub meta_interrupt_default_continue : Bool
  pub last_worker_session_end_env_id : Option String
  pub last_worker_session_id : Option String
  pub last_worker_session_seq : Option ℤ
  pub last_worker_exit_reason : Option WorkerExitReason

-- `initWorkerOrchestrationState`
abbrev pub init_worker_orchestration_state : WorkerOrchestrationState
init_worker_orchestration_state = record {
  session_end_pending = false;
  worker_completion_pending = false;
  worker_completion_reminder_seq = 0;
  meta_stop_no_restart = false;
  meta_interrupt_default_continue = false;
  last_worker_session_end_env_id = none;
  last_worker_session_id = none;
  last_worker_session_seq = none;
  last_worker_exit_reason = none;
}
