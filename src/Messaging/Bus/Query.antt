-- ===== src/Messaging/Bus/Query.antt =====
-- The methods of the bus that only read.
use deputy_agent.Prelude.{
  String, Bool, true, false, not, ◌&&◌, List, [], ◌∷◌, Option, none, some, if◌then◌else◌, Dict, get,
  values, filter, any, is_positive, str_eq,
}
use deputy_agent.Value.{Value, null, Fields, end, field, property_of}
use deputy_agent.Value.Equal.{deep_equal}
use deputy_agent.Messaging.Kinds.{Channel, EnvelopeKind, kind_name}
use deputy_agent.Messaging.Schema.{extras_match_to_json_keys}
use deputy_agent.Messaging.State.{EnvelopeState, OrderKey, envelope_order_key, compare_order_key}
use deputy_agent.Messaging.Bus.{
  type_error, payload_corrupted, Result, Action, ok, err, pure, gets, asks, ◌>>=◌, ◌>>◌, raise_if,
  with_lock, refresh_at_read, is_channel, raw_extras_of,
}

-- `fold`: the caller gets a copy.
unfoldable pub fold : Action (Dict EnvelopeState)
unfolding with_lock refresh_at_read
fold = with_lock (do refresh_at_read; gets (λ b. b.cache))

-- The loops of `latestEnvelopeId` and `findLatestEnvelopeAnchorOfKind`: the last of the states with
-- the greatest key seen so far, among those that `p` holds of.
unfoldable pub newer : EnvelopeState → Option EnvelopeState → Option EnvelopeState
unfolding compare_order_key
newer s none = some s
newer s (some latest) =
    if is_positive (compare_order_key (envelope_order_key s) (envelope_order_key latest))
    then some s
    else some latest

unfoldable pub latest_from :
    (EnvelopeState → Bool) → Option EnvelopeState → List EnvelopeState → Option EnvelopeState
unfolding newer
latest_from p latest [] = latest
latest_from p latest (s ∷ ss) = latest_from p (if p s then newer s latest else latest) ss

unfoldable pub is_live_on : Channel → EnvelopeState → Bool
unfolding is_channel
is_live_on channel s = is_channel s.channel channel && not s.failed

unfoldable pub is_live_of_kind : EnvelopeKind → EnvelopeState → Bool
unfolding kind_name
is_live_of_kind kind s = str_eq s.kind (kind_name kind) && not s.failed

unfoldable pub id_of : Option EnvelopeState → Option String
id_of none = none
id_of (some s) = some s.env_id

unfoldable pub anchor_of : Option EnvelopeState → Option OrderKey
anchor_of none = none
anchor_of (some s) = some (envelope_order_key s)

unfoldable pub latest_envelope_id : Channel → Action (Option String)
unfolding fold latest_from is_live_on id_of
latest_envelope_id channel = do
  snap ← fold
  pure (id_of (latest_from (is_live_on channel) none (values snap)))

unfoldable pub has_envelope_of_kind : EnvelopeKind → Action Bool
unfolding with_lock refresh_at_read is_live_of_kind
has_envelope_of_kind kind =
    with_lock (do refresh_at_read; gets (λ b. any (is_live_of_kind kind) (values b.cache)))

unfoldable pub find_latest_envelope_anchor_of_kind : EnvelopeKind → Action (Option OrderKey)
unfolding with_lock refresh_at_read latest_from is_live_of_kind anchor_of
find_latest_envelope_anchor_of_kind kind = with_lock (do
  refresh_at_read
  gets (λ b. anchor_of (latest_from (is_live_of_kind kind) none (values b.cache))))

-- `sinceKey === null || compareOrderKey(key, sinceKey) > 0`
unfoldable pub is_after : Option OrderKey → EnvelopeState → Bool
unfolding compare_order_key
is_after none s = true
is_after (some since) s = is_positive (compare_order_key (envelope_order_key s) since)

unfoldable pub extras_candidates :
    EnvelopeKind → Option OrderKey → Dict EnvelopeState → List EnvelopeState
unfolding is_live_of_kind is_after
extras_candidates kind since m = filter (λ s. is_live_of_kind kind s && is_after since s) (values m)

-- `Object.entries(matchJson).every(([k, v]) => deepEqual(rawExtras[k], v))`
unfoldable pub matches_all : Value → Fields → Bool
unfolding deep_equal property_of
matches_all raw end = true
matches_all raw (field k v match) = deep_equal (property_of k raw) v && matches_all raw match

-- null extras do not match
unfoldable pub extras_match : Value → Fields → Bool
unfolding matches_all
extras_match null match = false
extras_match raw match = matches_all raw match

unfoldable pub result_matches : Result Value → Fields → Result Bool
unfolding extras_match
result_matches (ok raw) match = ok (extras_match raw match)
result_matches (err payload_corrupted) match = ok false
result_matches (err e) match = err e

unfoldable pub any_match : Fields → List EnvelopeState → Action Bool
unfolding result_matches raw_extras_of
any_match match [] = pure false
any_match match (s ∷ ss) = do
  matched ← asks (λ b. result_matches (raw_extras_of (get s.env_id b.payloads)) match)
  if matched then pure true else any_match match ss

unfoldable pub is_empty_object : Fields → Bool
is_empty_object end = true
is_empty_object (field k v fs) = false

unfoldable pub has_envelope_with_extras_after :
    EnvelopeKind → Fields → Option OrderKey → Action Bool
unfolding is_empty_object extras_match_to_json_keys with_lock refresh_at_read any_match
    extras_candidates
has_envelope_with_extras_after kind match since = do
  raise_if (is_empty_object match) type_error
  let match_json = extras_match_to_json_keys kind match
  with_lock (do
    refresh_at_read
    candidates ← gets (λ b. extras_candidates kind since b.cache)
    any_match match_json candidates)
