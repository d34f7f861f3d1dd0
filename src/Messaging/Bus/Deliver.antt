-- ===== src/Messaging/Bus/Deliver.antt =====
-- The methods of the bus that hand envelopes out and mark them read.
use deputy_agent.Prelude.{
  String, Bool, true, false, not, ◌||◌, List, [], ◌∷◌, Option, none, some, if◌then◌else◌, get,
  filter, str_eq, str_append,
}
use deputy_agent.Value.{Value}
use deputy_agent.Messaging.Kinds.{Channel, worker, channel_name}
use deputy_agent.Messaging.State.{EnvelopeState, is_valid_envelope_id}
use deputy_agent.Messaging.Bus.{
  BusError, type_error, payload_corrupted, Action, pure, raise, gets, rescue, ◌>>=◌, ◌>>◌, raise_if,
  with_lock, refresh_at_read, append_read_locked, append_failed_locked, is_channel,
  sorted_candidates, has_prefix, read_body, read_extras,
}

pub record PullEnvelope : Type 0 where
  pub env_id : String
  pub kind : String
  pub from : String
  pub created_at : String
  pub body : String
  pub extras : Value
  pub read : Bool
  pub responded : Option Bool

-- What the loops hand out, from a candidate and its payload.
pub record Envelope : Type 0 where
  pub env_id : String
  pub channel : Channel
  pub kind : String
  pub from : String
  pub created_at : String
  pub body : String
  pub extras : Value

-- A candidate is a reference into the map: its mutable fields are those that the map holds now.
unfoldable pub current : EnvelopeState → Option EnvelopeState → EnvelopeState
current s none = s
current s (some t) = t

abbrev pub Content : Type 0
Content = String × Value

unfoldable pub read_content : EnvelopeState → Action Content
unfolding read_body read_extras
read_content s = do
  body ← read_body s.env_id
  extras ← read_extras s.env_id s.kind
  pure (body, extras)

unfoldable pub is_payload_corrupted : BusError → Bool
is_payload_corrupted payload_corrupted = true
is_payload_corrupted _ = false

-- The `catch` of both loops: on the worker channel the envelope is marked failed and skipped.
unfoldable pub content_or_fail : Channel → EnvelopeState → Action (Option Content)
unfolding read_content is_payload_corrupted is_channel append_failed_locked
content_or_fail channel s =
    rescue (do content ← read_content s; pure (some content))
      (λ e.
        if is_payload_corrupted e
        then (if is_channel channel worker
            then (do
              append_failed_locked s.env_id "messaging_payload_corrupted" "payload read error"
              pure none)
            else raise e)
        else raise e)

unfoldable pub pulled : Channel → EnvelopeState → EnvelopeState → Content → PullEnvelope
unfolding is_channel
pulled channel s now content = record {
  env_id = s.env_id;
  kind = s.kind;
  from = s.from;
  created_at = s.created_at;
  body = content.0;
  extras = content.1;
  read = now.read;
  responded = if is_channel channel worker then some now.responded else none;
}

-- `if (!s.read) await this.appendReadLocked(s.envId, byLabel)`
unfoldable pub mark_read : String → EnvelopeState → Action (Unit {0})
unfolding current append_read_locked
mark_read by_label s = do
  now ← gets (λ b. current s (get s.env_id b.cache))
  if now.read then pure tt else append_read_locked s.env_id by_label

-- One round of the loop of `pull`.
unfoldable pub pull_content :
    Channel → String → EnvelopeState → Option Content → Action (Option PullEnvelope)
unfolding mark_read current pulled
pull_content channel by_label s none = pure none
pull_content channel by_label s (some content) = do
  mark_read by_label s
  now ← gets (λ b. current s (get s.env_id b.cache))
  pure (some (pulled channel s now content))

unfoldable pub cons_some : {A : Type 0} → Option A → List A → List A
cons_some none xs = xs
cons_some (some x) xs = x ∷ xs

unfoldable pub pull_each : Channel → String → List EnvelopeState → Action (List PullEnvelope)
unfolding content_or_fail pull_content cons_some
pull_each channel by_label [] = pure []
pull_each channel by_label (s ∷ rest) = do
  content ← content_or_fail channel s
  env ← pull_content channel by_label s content
  envs ← pull_each channel by_label rest
  pure (cons_some env envs)

-- `${channel}_session:${callerSessionId}`
unfoldable pub session_label : Channel → String → String
unfolding channel_name
session_label channel caller = str_append (channel_name channel) (str_append "_session:" caller)

unfoldable pub pull : Channel → String → Bool → Action (List PullEnvelope)
unfolding with_lock refresh_at_read sorted_candidates pull_each session_label
pull channel caller_session_id include_read = do
  raise_if (str_eq caller_session_id "") type_error
  with_lock (do
    refresh_at_read
    candidates ← gets (λ b. sorted_candidates channel include_read b.cache)
    pull_each channel (session_label channel caller_session_id) candidates)

unfoldable pub peeked : EnvelopeState → Option Content → Option Envelope
peeked s none = none
peeked s (some content) = some (record {
  env_id = s.env_id;
  channel = s.channel;
  kind = s.kind;
  from = s.from;
  created_at = s.created_at;
  body = content.0;
  extras = content.1;
})

unfoldable pub peek_each : Channel → List EnvelopeState → Action (List Envelope)
unfolding content_or_fail peeked cons_some
peek_each channel [] = pure []
peek_each channel (s ∷ rest) = do
  content ← content_or_fail channel s
  envs ← peek_each channel rest
  pure (cons_some (peeked s content) envs)

unfoldable pub peek_unread : Channel → Action (List Envelope)
unfolding with_lock refresh_at_read sorted_candidates peek_each
peek_unread channel = with_lock (do
  refresh_at_read
  candidates ← gets (λ b. sorted_candidates channel false b.cache)
  peek_each channel candidates)

abbrev pub read_by_prefixes : List String
read_by_prefixes = "meta_session:" ∷ "watcher_session:" ∷ "worker_session:" ∷ "host_inject:" ∷ []

unfoldable pub needs_read : Option EnvelopeState → Bool
needs_read none = false
needs_read (some s) = if s.failed then false else not s.read

unfoldable pub mark_read_one : String → String → Action (Unit {0})
unfolding needs_read append_read_locked
mark_read_one by env_id = do
  unread ← gets (λ b. needs_read (get env_id b.cache))
  if unread then append_read_locked env_id by else pure tt

unfoldable pub mark_read_each : String → List String → Action (Unit {0})
unfolding mark_read_one
mark_read_each by [] = pure tt
mark_read_each by (env_id ∷ rest) = do mark_read_one by env_id; mark_read_each by rest

unfoldable pub mark_read_batch : List String → String → Action (Unit {0})
unfolding has_prefix is_valid_envelope_id with_lock refresh_at_read mark_read_each
mark_read_batch env_ids by = do
  raise_if (str_eq by "" || not (has_prefix by read_by_prefixes)) type_error
  with_lock (do refresh_at_read; mark_read_each by (filter is_valid_envelope_id env_ids))
