-- ===== src/Messaging/Kinds.antt =====
-- Channels and kinds of src/messaging/envelope.ts, and the whitelist of kinds for each channel.
use deputy_agent.Prelude.{String, Bool, List, [], ◌∷◌, str_eq, any}

pub data Channel : Type 0 where
  meta worker watcher : Channel

pub data EnvelopeKind : Type 0 where
  user_feedback user_upload user_clarify_answer : EnvelopeKind
  worker_escalation worker_notification worker_completion_claim worker_session_end : EnvelopeKind
  watcher_observation reviewer_verdict host_event : EnvelopeKind
  meta_instruction meta_interrupt : EnvelopeKind
  worker_stream_window : EnvelopeKind

-- the string literals of the two union types
unfoldable pub channel_name : Channel → String
channel_name meta = "meta"
channel_name worker = "worker"
channel_name watcher = "watcher"

unfoldable pub kind_name : EnvelopeKind → String
kind_name user_feedback = "user_feedback"
kind_name user_upload = "user_upload"
kind_name user_clarify_answer = "user_clarify_answer"
kind_name worker_escalation = "worker_escalation"
kind_name worker_notification = "worker_notification"
kind_name worker_completion_claim = "worker_completion_claim"
kind_name worker_session_end = "worker_session_end"
kind_name watcher_observation = "watcher_observation"
kind_name reviewer_verdict = "reviewer_verdict"
kind_name host_event = "host_event"
kind_name meta_instruction = "meta_instruction"
kind_name meta_interrupt = "meta_interrupt"
kind_name worker_stream_window = "worker_stream_window"

unfoldable pub allowed_kinds_for_channel : Channel → List EnvelopeKind
allowed_kinds_for_channel meta =
    user_feedback ∷ user_upload ∷ user_clarify_answer ∷ worker_escalation ∷ worker_notification
    ∷ worker_completion_claim ∷ worker_session_end ∷ watcher_observation ∷ reviewer_verdict
    ∷ host_event ∷ []
allowed_kinds_for_channel worker = meta_instruction ∷ meta_interrupt ∷ []
allowed_kinds_for_channel watcher = meta_instruction ∷ worker_stream_window ∷ []

unfoldable pub is_kind_allowed_for_channel : Channel → EnvelopeKind → Bool
unfolding allowed_kinds_for_channel kind_name
is_kind_allowed_for_channel channel kind =
    any (λ k. str_eq (kind_name k) (kind_name kind)) (allowed_kinds_for_channel channel)
