-- ===== src/Messaging/Bus/Run.antt =====
-- Any sequence of method calls on one bus.
use deputy_agent.Prelude.{ℕ, String, Bool, List, [], ◌∷◌, Option}
use deputy_agent.Value.{Fields}
use deputy_agent.Messaging.Kinds.{Channel, EnvelopeKind}
use deputy_agent.Messaging.State.{OrderKey}
use deputy_agent.Messaging.Bus.{Bus}
use deputy_agent.Messaging.Bus.Write.{
  EnqueueRequest, enqueue, append_failed_event, quarantine_state,
}
use deputy_agent.Messaging.Bus.Deliver.{pull, peek_unread, mark_read_batch}
use deputy_agent.Messaging.Bus.Respond.{mark_responded, inspect_worker_status}
use deputy_agent.Messaging.Bus.Query.{
  fold, latest_envelope_id, has_envelope_of_kind, find_latest_envelope_anchor_of_kind,
  has_envelope_with_extras_after,
}
use deputy_agent.Messaging.Bus.Coherence.{IsCoherent}
use deputy_agent.Messaging.Bus.Coherence.Write.{
  IsDrawn, enqueue-IsCoherent, append_failed_event-IsCoherent, quarantine_state-IsCoherent,
}
use deputy_agent.Messaging.Bus.Coherence.Deliver.{
  pull-IsCoherent, peek_unread-IsCoherent, mark_read_batch-IsCoherent,
}
use deputy_agent.Messaging.Bus.Coherence.Respond.{
  mark_responded-IsCoherent, inspect_worker_status-IsCoherent, fold-IsCoherent,
  latest_envelope_id-IsCoherent, has_envelope_of_kind-IsCoherent,
  find_latest_envelope_anchor_of_kind-IsCoherent, has_envelope_with_extras_after-IsCoherent,
}

-- The methods of the interface `MessagingBus` with their arguments.
pub data Call : Type 0 where
  enqueue_call : EnqueueRequest → Call
  pull_call : Channel → String → Bool → Call
  peek_unread_call : Channel → Call
  mark_read_batch_call mark_responded_call : List String → String → Call
  inspect_worker_status_call : Option (List String) → ℕ → Call
  fold_call quarantine_state_call : Call
  latest_envelope_id_call : Channel → Call
  has_envelope_of_kind_call find_latest_envelope_anchor_of_kind_call : EnvelopeKind → Call
  has_envelope_with_extras_after_call : EnvelopeKind → Fields → Option OrderKey → Call
  append_failed_event_call : String → String → String → Call

-- The bus after a call, whatever it returns or throws.
unfoldable pub perform : Call → Bus → Bus
perform (enqueue_call o) b = (enqueue o b).1
perform (pull_call channel caller include_read) b = (pull channel caller include_read b).1
perform (peek_unread_call channel) b = (peek_unread channel b).1
perform (mark_read_batch_call env_ids by) b = (mark_read_batch env_ids by b).1
perform (mark_responded_call env_ids by) b = (mark_responded env_ids by b).1
perform (inspect_worker_status_call env_ids max_envelopes) b =
    (inspect_worker_status env_ids max_envelopes b).1
perform fold_call b = (fold b).1
perform quarantine_state_call b = (quarantine_state b).1
perform (latest_envelope_id_call channel) b = (latest_envelope_id channel b).1
perform (has_envelope_of_kind_call kind) b = (has_envelope_of_kind kind b).1
perform (find_latest_envelope_anchor_of_kind_call kind) b =
    (find_latest_envelope_anchor_of_kind kind b).1
perform (has_envelope_with_extras_after_call kind match since) b =
    (has_envelope_with_extras_after kind match since b).1
perform (append_failed_event_call env_id error_kind error_message) b =
    (append_failed_event env_id error_kind error_message b).1

unfoldable pub perform_all : List Call → Bus → Bus
unfolding perform
perform_all [] b = b
perform_all (c ∷ cs) b = perform_all cs (perform c b)

-- An enqueued envelope has an identifier and a time from the generators.
abbrev pub IsDrawnCall : Call → Type 0
IsDrawnCall (enqueue_call o) = IsDrawn o
IsDrawnCall _ = Unit

abbrev pub AllDrawn : List Call → Type 0
AllDrawn [] = Unit
AllDrawn (c ∷ cs) = IsDrawnCall c × AllDrawn cs

perform-IsCoherent : (c : Call) (b : Bus) → IsDrawnCall c → IsCoherent b → IsCoherent (perform c b)
unfolding perform
perform-IsCoherent (enqueue_call o) b d h = (enqueue-IsCoherent o d).at b h
perform-IsCoherent (pull_call channel caller include_read) b d h =
    (pull-IsCoherent channel caller include_read).at b h
perform-IsCoherent (peek_unread_call channel) b d h = (peek_unread-IsCoherent channel).at b h
perform-IsCoherent (mark_read_batch_call env_ids by) b d h =
    (mark_read_batch-IsCoherent env_ids by).at b h
perform-IsCoherent (mark_responded_call env_ids by) b d h =
    (mark_responded-IsCoherent env_ids by).at b h
perform-IsCoherent (inspect_worker_status_call env_ids max_envelopes) b d h =
    (inspect_worker_status-IsCoherent env_ids max_envelopes).at b h
perform-IsCoherent fold_call b d h = fold-IsCoherent.at b h
perform-IsCoherent quarantine_state_call b d h = quarantine_state-IsCoherent.at b h
perform-IsCoherent (latest_envelope_id_call channel) b d h =
    (latest_envelope_id-IsCoherent channel).at b h
perform-IsCoherent (has_envelope_of_kind_call kind) b d h =
    (has_envelope_of_kind-IsCoherent kind).at b h
perform-IsCoherent (find_latest_envelope_anchor_of_kind_call kind) b d h =
    (find_latest_envelope_anchor_of_kind-IsCoherent kind).at b h
perform-IsCoherent (has_envelope_with_extras_after_call kind match since) b d h =
    (has_envelope_with_extras_after-IsCoherent kind match since).at b h
perform-IsCoherent (append_failed_event_call env_id error_kind error_message) b d h =
    (append_failed_event-IsCoherent env_id error_kind error_message).at b h

-- From a bus whose cache is the fold of its log, which ends with a line feed, whatever methods are
-- called, with whatever locks that time out and writes that fail, where an append that throws
-- leaves the log as it was, the cache is the fold of the log again, which ends with a line feed;
-- envelopes that are enqueued have an identifier of 8 hexadecimal digits and a time that is not
-- empty.
pub perform_all-IsCoherent :
    (cs : List Call) (b : Bus) → AllDrawn cs → IsCoherent b → IsCoherent (perform_all cs b)
unfolding perform_all
perform_all-IsCoherent [] b d h = h
perform_all-IsCoherent (c ∷ cs) b d h =
    perform_all-IsCoherent cs (perform c b) d.1 (perform-IsCoherent c b d.0 h)
