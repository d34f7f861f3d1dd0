-- ===== src/Messaging/Bus/Respond.antt =====
-- `markResponded` and `inspectWorkerStatus` of the bus.
use deputy_agent.Prelude.{
  ℕ, ◌+◌, ◌==◌, String, true, false, not, ◌||◌, List, [], ◌∷◌, ◌++◌, Option, none, some,
  if◌then◌else◌, get, modify, values, filter, take, str_eq,
}
use deputy_agent.Messaging.Kinds.{worker}
use deputy_agent.Messaging.State.{EnvelopeState, is_valid_envelope_id}
use deputy_agent.Messaging.Log.{responded}
use deputy_agent.Messaging.Bus.{
  Bus, type_error, Action, pure, gets, ◌>>=◌, ◌>>◌, raise_if, with_lock, refresh_at_read,
  append_line, write_cache, max_state_seq, is_channel, has_prefix, sort_by_key,
}

pub record MarkRespondedResult : Type 0 where
  pub marked : List String
  pub already_responded : List String
  pub not_found : List String
  pub not_worker_channel : List String

-- What a pass over an identifier finds in the map.
pub data Lookup : Type 0 where
  missing other_channel answered unanswered : Lookup

unfoldable pub look_up : Option EnvelopeState → Lookup
unfolding is_channel
look_up none = missing
look_up (some s) =
    if s.failed
    then missing
    else if not (is_channel s.channel worker)
    then other_channel
    else if s.responded
    then answered
    else unanswered

-- the `responded` event and the write to the map
unfoldable pub append_responded : String → String → Action (Unit {0})
unfolding max_state_seq append_line write_cache
append_responded env_id by = do
  now ← gets (λ b. b.clock)
  state_seq ← gets (λ b. max_state_seq b.cache + 1)
  append_line (responded env_id state_seq now by)
  write_cache (modify env_id (λ s. record s { responded = true; responded_by = some by }))

unfoldable pub respond_by_lookup :
    String → String → MarkRespondedResult → Lookup → Action MarkRespondedResult
unfolding append_responded
respond_by_lookup by env_id acc missing =
    pure (record acc { not_found = acc.not_found ++ env_id ∷ [] })
respond_by_lookup by env_id acc other_channel =
    pure (record acc { not_worker_channel = acc.not_worker_channel ++ env_id ∷ [] })
respond_by_lookup by env_id acc answered =
    pure (record acc { already_responded = acc.already_responded ++ env_id ∷ [] })
respond_by_lookup by env_id acc unanswered = do
  append_responded env_id by
  pure (record acc { marked = acc.marked ++ env_id ∷ [] })

unfoldable pub respond_each :
    String → MarkRespondedResult → List String → Action MarkRespondedResult
unfolding look_up respond_by_lookup
respond_each by acc [] = pure acc
respond_each by acc (env_id ∷ rest) = do
  found ← gets (λ b. look_up (get env_id b.cache))
  acc' ← respond_by_lookup by env_id acc found
  respond_each by acc' rest

abbrev pub responded_by_prefixes : List String
responded_by_prefixes = "worker_session:" ∷ "meta_session:" ∷ []

abbrev pub invalid_ids : List String → List String
invalid_ids = filter (λ e. not (is_valid_envelope_id e))

unfoldable pub mark_responded : List String → String → Action MarkRespondedResult
unfolding has_prefix is_valid_envelope_id with_lock refresh_at_read respond_each
mark_responded env_ids by = do
  raise_if (str_eq by "" || not (has_prefix by responded_by_prefixes)) type_error
  with_lock (do
    refresh_at_read
    respond_each by
        (record {
          marked = [];
          already_responded = [];
          not_found = invalid_ids env_ids;
          not_worker_channel = [];
        })
        (filter is_valid_envelope_id env_ids))

-- `WorkerEnvelopeStatus` has all fields of the state but `failed`.
pub record InspectResult : Type 0 where
  pub envelopes : List EnvelopeState
  pub not_found : List String
  pub not_worker_channel : List String

unfoldable pub inspect_state : String → Option EnvelopeState → InspectResult → InspectResult
unfolding is_channel
inspect_state env_id none acc = record acc { not_found = acc.not_found ++ env_id ∷ [] }
inspect_state env_id (some s) acc =
    if s.failed
    then record acc { not_found = acc.not_found ++ env_id ∷ [] }
    else if not (is_channel s.channel worker)
    then record acc { not_worker_channel = acc.not_worker_channel ++ env_id ∷ [] }
    else record acc { envelopes = acc.envelopes ++ s ∷ [] }

unfoldable pub inspect_each : List String → Bus → InspectResult → InspectResult
unfolding inspect_state
inspect_each [] b acc = acc
inspect_each (env_id ∷ rest) b acc =
    inspect_each rest b (inspect_state env_id (get env_id b.cache) acc)

-- the pool of the branch without a filter
unfoldable pub worker_pool : ℕ → Bus → List EnvelopeState
unfolding is_channel sort_by_key
worker_pool max_envelopes b = take max_envelopes (
    sort_by_key
      (filter (λ s. if is_channel s.channel worker then not s.failed else false) (values b.cache)))

unfoldable pub inspect_result : Option (List String) → ℕ → Bus → InspectResult
unfolding inspect_each worker_pool is_valid_envelope_id
inspect_result none max_envelopes b = record {
  envelopes = worker_pool max_envelopes b;
  not_found = [];
  not_worker_channel = [];
}
inspect_result (some env_ids) max_envelopes b =
    inspect_each (filter is_valid_envelope_id env_ids) b
      (record { envelopes = []; not_found = invalid_ids env_ids; not_worker_channel = [] })

unfoldable pub inspect_worker_status : Option (List String) → ℕ → Action InspectResult
unfolding with_lock refresh_at_read inspect_result
inspect_worker_status env_ids max_envelopes = do
  raise_if (max_envelopes == 0) type_error
  with_lock (do refresh_at_read; gets (inspect_result env_ids max_envelopes))
