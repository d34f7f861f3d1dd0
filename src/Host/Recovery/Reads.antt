-- ===== src/Host/Recovery/Reads.antt =====
-- What the repair of src/host/recovery.ts reads from the messages and from events.jsonl.
use deputy_agent.Prelude.{
  String, Bool, true, false, not, ◌||◌, List, [], ◌∷◌, Option, none, some, str_eq, if◌then◌else◌, ℤ,
  ltb_ℤ, eqb_ℤ, is_positive, Dict, get, values, any,
}
use deputy_agent.Value.{Value, int, Fields, property, property_of}
use deputy_agent.Messaging.State.{EnvelopeState, OrderKey, envelope_order_key, compare_order_key}
use deputy_agent.Messaging.Log.{Line, as_string}
use deputy_agent.Messaging.Bus.{Payload}
use deputy_agent.Host.Events.{is_text, details_of_type, objects_of, is_readable}
use deputy_agent.Host.Sessions.{
  WorkerExitReason, natural_completion, declare_deferred, declare_done, meta_interrupt, meta_stop,
  watchdog_worker_no_progress, watchdog_worker_tool_loop, sdk_crash, subprocess_crash,
  exit_reason_name, worker_started,
}

-- a number, which the writers give as an integer
unfoldable pub as_number : Value → Option ℤ
as_number (int z) = some z
as_number _ = none

-- `raw.extras?.[name]` of a payload.json; a file that cannot be read or parsed has no fields
unfoldable pub extra_of : String → Option Payload → Option Value
unfolding property_of
extra_of name none = none
extra_of name (some p) = elim p.payload_json [
  | none ↦ none
  | some raw ↦ some (property_of name (property_of "extras" raw))
]

abbrev pub text_extra : String → Option Payload → Option String
text_extra name p = elim (extra_of name p) [ none ↦ none | some v ↦ as_string v ]

abbrev pub number_extra : String → Option Payload → Option ℤ
number_extra name p = elim (extra_of name p) [ none ↦ none | some v ↦ as_number v ]

pub record SignalExtras : Type 0 where
  pub worker_session_id : String
  pub session_seq : ℤ
  pub exit_intent : Option String

unfoldable pub signal_extras : Option String → Option ℤ → Option String → Option SignalExtras
signal_extras (some id) (some seq) intent =
    some (record { worker_session_id = id; session_seq = seq; exit_intent = intent })
signal_extras _ _ intent = none

-- `readSignalPayloadExtras`
unfoldable pub read_signal_payload_extras : Dict Payload → String → Option SignalExtras
unfolding extra_of as_number as_string get signal_extras
read_signal_payload_extras payloads env_id =
    signal_extras (text_extra "worker_session_id" (get env_id payloads))
      (number_extra "session_seq" (get env_id payloads))
      (text_extra "exit_intent" (get env_id payloads))

pub record SignalCandidate : Type 0 where
  pub env_id : String
  pub key : OrderKey
  pub exit_reason : WorkerExitReason
  pub worker_session_id : String
  pub session_seq : ℤ

-- whether a key comes after that of the best so far
unfoldable pub is_after_best : OrderKey → Option OrderKey → Bool
unfolding compare_order_key
is_after_best key none = true
is_after_best key (some best) = is_positive (compare_order_key key best)

unfoldable pub signal_key : Option SignalCandidate → Option OrderKey
signal_key none = none
signal_key (some c) = some c.key

abbrev pub is_deferred : Option String → Bool
is_deferred none = false
is_deferred (some intent) = str_eq intent "declare_deferred"

abbrev pub candidate : EnvelopeState → SignalExtras → WorkerExitReason → SignalCandidate
candidate s extras reason = record {
  env_id = s.env_id;
  key = envelope_order_key s;
  exit_reason = reason;
  worker_session_id = extras.worker_session_id;
  session_seq = extras.session_seq;
}

-- the signal that an envelope of the kind gives, if its extras say that the worker exits
unfoldable pub signal_of : EnvelopeState → SignalExtras → Option SignalCandidate
signal_of s extras =
    if str_eq s.kind "worker_completion_claim"
    then some (candidate s extras declare_done)
    else if is_deferred extras.exit_intent
    then some (candidate s extras declare_deferred)
    else none

abbrev pub is_signal_kind : EnvelopeState → Bool
is_signal_kind s = str_eq s.kind "worker_completion_claim" || str_eq s.kind "worker_escalation"

unfoldable pub or_signal : Option SignalCandidate → Option SignalCandidate → Option SignalCandidate
or_signal none best = best
or_signal (some c) best = some c

-- one round of the loop of `findLatestActiveSignal`
unfoldable pub newer_signal :
    Dict Payload → EnvelopeState → Option SignalCandidate → Option SignalCandidate
unfolding is_after_best signal_key read_signal_payload_extras signal_of or_signal
newer_signal payloads s best =
    if s.failed
    then best
    else if not (is_signal_kind s)
    then best
    else if not (is_after_best (envelope_order_key s) (signal_key best))
    then best
    else elim (read_signal_payload_extras payloads s.env_id) [
      | none ↦ best
      | some extras ↦ or_signal (signal_of s extras) best
    ]

unfoldable pub latest_signal_from :
    Dict Payload → Option SignalCandidate → List EnvelopeState → Option SignalCandidate
unfolding newer_signal
latest_signal_from payloads best [] = best
latest_signal_from payloads best (s ∷ ss) =
    latest_signal_from payloads (newer_signal payloads s best) ss

-- `findLatestActiveSignal`
unfoldable pub find_latest_active_signal :
    Dict Payload → Dict EnvelopeState → Option SignalCandidate
unfolding latest_signal_from
find_latest_active_signal payloads snap = latest_signal_from payloads none (values snap)

-- a member of `WORKER_END_EXIT_REASONS`, by its name
unfoldable pub find_exit_reason : List WorkerExitReason → String → Option WorkerExitReason
find_exit_reason [] name = none
find_exit_reason (r ∷ rs) name =
    if str_eq (exit_reason_name r) name then some r else find_exit_reason rs name

abbrev pub worker_end_exit_reasons : List WorkerExitReason
worker_end_exit_reasons =
    natural_completion ∷ declare_deferred ∷ declare_done ∷ meta_interrupt ∷ meta_stop
    ∷ watchdog_worker_no_progress ∷ watchdog_worker_tool_loop ∷ sdk_crash ∷ subprocess_crash ∷ []

pub record SessionEndContext : Type 0 where
  pub env_id : String
  pub session_seq : ℤ
  pub exit_reason : WorkerExitReason
  pub worker_session_id : String

unfoldable pub end_context :
    String → Option ℤ → Option String → Option String → Option SessionEndContext
unfolding find_exit_reason
end_context env_id (some seq) (some name) (some id) =
    elim (find_exit_reason worker_end_exit_reasons name) [
      | none ↦ none
      | some reason ↦ some (record {
        env_id = env_id;
        session_seq = seq;
        exit_reason = reason;
        worker_session_id = id;
      })
    ]
end_context env_id _ _ _ = none

-- `readSessionEndContext`
unfoldable pub read_session_end_context : Dict Payload → String → Option SessionEndContext
unfolding extra_of as_number as_string get end_context
read_session_end_context payloads env_id =
    end_context env_id (number_extra "session_seq" (get env_id payloads))
      (text_extra "exit_reason" (get env_id payloads))
      (text_extra "worker_session_id" (get env_id payloads))

abbrev pub is_live_end : EnvelopeState → Bool
is_live_end s = if s.failed then false else str_eq s.kind "worker_session_end"

unfoldable pub state_key : Option EnvelopeState → Option OrderKey
state_key none = none
state_key (some s) = some (envelope_order_key s)

unfoldable pub latest_end_from : Option EnvelopeState → List EnvelopeState → Option EnvelopeState
unfolding is_after_best state_key
latest_end_from best [] = best
latest_end_from best (s ∷ ss) =
    latest_end_from
      (if is_live_end s
        then (if is_after_best (envelope_order_key s) (state_key best) then some s else best)
        else best)
      ss

unfoldable pub context_of : Dict Payload → Option EnvelopeState → Option SessionEndContext
unfolding read_session_end_context
context_of payloads none = none
context_of payloads (some s) = read_session_end_context payloads s.env_id

-- `findLatestSessionEnd`
unfoldable pub find_latest_session_end :
    Dict Payload → Dict EnvelopeState → Option SessionEndContext
unfolding latest_end_from context_of
find_latest_session_end payloads snap = context_of payloads (latest_end_from none (values snap))

-- the best so far with its key
abbrev pub KeyedEnd : Type 0
KeyedEnd = Option (SessionEndContext × OrderKey)

abbrev pub end_key : KeyedEnd → Option OrderKey
end_key none = none
end_key (some (e, key)) = some key

unfoldable pub newer_end : ℤ → OrderKey → Option SessionEndContext → KeyedEnd → KeyedEnd
unfolding is_after_best
newer_end seq key none best = best
newer_end seq key (some e) best =
    if eqb_ℤ e.session_seq seq
    then (if is_after_best key (end_key best) then some (e, key) else best)
    else best

-- one round of the loop of `findSessionEndForSeq`
unfoldable pub newer_end_for : Dict Payload → ℤ → EnvelopeState → KeyedEnd → KeyedEnd
unfolding read_session_end_context newer_end
newer_end_for payloads seq s best =
    if is_live_end s
    then newer_end seq (envelope_order_key s) (read_session_end_context payloads s.env_id) best
    else best

unfoldable pub end_for_from : Dict Payload → ℤ → KeyedEnd → List EnvelopeState → KeyedEnd
unfolding newer_end_for
end_for_from payloads seq best [] = best
end_for_from payloads seq best (s ∷ ss) =
    end_for_from payloads seq (newer_end_for payloads seq s best) ss

abbrev pub found_end : KeyedEnd → Option SessionEndContext
found_end none = none
found_end (some (e, key)) = some e

-- `findSessionEndForSeq`
unfoldable pub find_session_end_for_seq :
    Dict Payload → Dict EnvelopeState → ℤ → Option SessionEndContext
unfolding end_for_from
find_session_end_for_seq payloads snap seq =
    found_end (end_for_from payloads seq none (values snap))

unfoldable pub greater : Option ℤ → Option ℤ → Option ℤ
greater none max = max
greater (some seq) none = some seq
greater (some seq) (some max) = if ltb_ℤ max seq then some seq else some max

abbrev pub session_seq_of : Option Fields → Option ℤ
session_seq_of none = none
session_seq_of (some d) = as_number (property "session_seq" d)

unfoldable pub max_started_from : Option ℤ → List Fields → Option ℤ
unfolding greater worker_started as_number property
max_started_from max [] = max
max_started_from max (ev ∷ evs) =
    max_started_from (greater (session_seq_of (worker_started ev)) max) evs

-- `foldMaxWorkerStartedSeq`: where a line is corrupt, the greatest number before it
unfoldable pub fold_max_worker_started_seq : List Line → Option ℤ
unfolding max_started_from objects_of
fold_max_worker_started_seq ls = max_started_from none (objects_of ls)

unfoldable pub worker_ended_seq : Fields → Option ℤ
unfolding details_of_type as_number property
worker_ended_seq ev = elim (details_of_type "agent_session_ended" ev) [
  | none ↦ none
  | some d ↦
      if is_text "worker" (property "role" d) then as_number (property "session_seq" d) else none
]

pub record UnmatchedWorkerStarted : Type 0 where
  pub worker_session_id : String
  pub session_seq : ℤ

unfoldable pub started_context : Option Fields → Option UnmatchedWorkerStarted
unfolding as_number as_string property
started_context none = none
started_context (some d) = elim (as_number (property "session_seq" d)) [
  | none ↦ none
  | some seq ↦ elim (as_string (property "session_id" d)) [
    | none ↦ none
    | some id ↦ some (record { worker_session_id = id; session_seq = seq })
  ]
]

-- `startedById.set(seq, id)`
unfoldable pub set_started :
    UnmatchedWorkerStarted → List UnmatchedWorkerStarted → List UnmatchedWorkerStarted
set_started u [] = u ∷ []
set_started u (v ∷ vs) = if eqb_ℤ v.session_seq u.session_seq then u ∷ vs else v ∷ set_started u vs

unfoldable pub note_started :
    Option UnmatchedWorkerStarted → List UnmatchedWorkerStarted → List UnmatchedWorkerStarted
unfolding set_started
note_started none us = us
note_started (some u) us = set_started u us

-- `startedById` after the loop
unfoldable pub started_from :
    List UnmatchedWorkerStarted → List Fields → List UnmatchedWorkerStarted
unfolding note_started started_context worker_started
started_from us [] = us
started_from us (ev ∷ evs) =
    started_from (note_started (started_context (worker_started ev)) us) evs

abbrev pub is_seq : ℤ → Option ℤ → Bool
is_seq seq none = false
is_seq seq (some t) = eqb_ℤ t seq

-- `ended.has(seq)`
unfoldable pub has_ended : ℤ → List Fields → Bool
unfolding worker_ended_seq
has_ended seq evs = any (λ ev. is_seq seq (worker_ended_seq ev)) evs

unfoldable pub greatest_unmatched :
    List Fields
    → Option UnmatchedWorkerStarted
    → List UnmatchedWorkerStarted
    → Option UnmatchedWorkerStarted
unfolding has_ended
greatest_unmatched evs best [] = best
greatest_unmatched evs best (u ∷ us) =
    greatest_unmatched evs
      (if has_ended u.session_seq evs then best else elim best [
        | none ↦ some u
        | some v ↦ if ltb_ℤ v.session_seq u.session_seq then some u else some v
      ])
      us

-- `findUnmatchedWorkerStarted`
unfoldable pub find_unmatched_worker_started : List Line → Option UnmatchedWorkerStarted
unfolding greatest_unmatched started_from objects_of is_readable
find_unmatched_worker_started ls =
    if is_readable ls
    then greatest_unmatched (objects_of ls) none (started_from [] (objects_of ls))
    else none
