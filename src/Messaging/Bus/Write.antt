-- ===== src/Messaging/Bus/Write.antt =====
-- The methods of the bus that add an envelope, mark one failed, or set the log aside.
use deputy_agent.Prelude.{
  ◌++◌, ℕ, ◌+◌, String, Bool, true, false, not, [], ◌∷◌, Option, none, some, if◌then◌else◌, get,
  put, str_eq, str_append,
}
use deputy_agent.Value.{Value, or_default, null}
use deputy_agent.Messaging.Kinds.{Channel, EnvelopeKind, is_kind_allowed_for_channel, kind_name}
use deputy_agent.Messaging.Extras.{validate_extras}
use deputy_agent.Messaging.Schema.{build_payload_json}
use deputy_agent.Messaging.State.{EnvelopeState, is_valid_envelope_id}
use deputy_agent.Messaging.Log.{tail_lines, enqueued}
use deputy_agent.Messaging.Bus.{
  Payload, Bus, BusError, type_error, invalid_extras, corrupt_jsonl, state_corrupted,
  enqueue_failed, Action, pure, raise, gets, rescue, update, ◌>>=◌, ◌>>◌, raise_if, attempt,
  with_lock, append_line, write_cache, refresh_locked, refresh_at_read, max_state_seq,
  append_failed_locked,
}

-- The options of `enqueue` with what it draws from outside: `env_id` is the result of
-- `genEnvelopeId` and `created_at` is `o.nowIso ?? nowIso8601Us()`.
pub record EnqueueRequest : Type 0 where
  pub channel : Channel
  pub kind : EnvelopeKind
  pub from : String
  pub body : String
  pub extras : Value  -- `undefined` where the caller gives none
  pub env_id : String
  pub created_at : String

unfoldable pub fresh_state : EnqueueRequest → ℕ → EnvelopeState
unfolding kind_name
fresh_state o state_seq = record {
  env_id = o.env_id;
  channel = o.channel;
  kind = kind_name o.kind;
  from = o.from;
  created_at = o.created_at;
  state_seq = state_seq;
  read = false;
  read_by = none;
  responded = false;
  responded_by = none;
  failed = false;
}

unfoldable pub is_present : Option Payload → Bool
is_present none = false
is_present (some p) = true

unfoldable pub store_payload : String → Payload → Action (Unit {0})
store_payload env_id p = update (λ b. record b { payloads = put env_id p b.payloads })

-- `writePayloadAtomic`: a failure leaves no directory, and `rename` fails on a directory with files.
unfoldable pub write_payload_atomic : EnqueueRequest → Action (Unit {0})
unfolding attempt is_present store_payload build_payload_json
write_payload_atomic o = do
  written ← attempt
  taken ← gets (λ b. is_present (get o.env_id b.payloads))
  if written
      then (if taken
          then raise enqueue_failed
          else store_payload o.env_id (record {
            body = some o.body;
            payload_json = some (
                build_payload_json o.env_id o.channel o.kind o.from o.created_at
                  (or_default o.extras null));
          }))
      else raise enqueue_failed

-- the locked section of `enqueue`
unfoldable pub enqueue_locked : EnqueueRequest → Action (Unit {0})
unfolding refresh_locked max_state_seq write_payload_atomic append_line write_cache fresh_state
enqueue_locked o = do
  refresh_locked
  state_seq ← gets (λ b. max_state_seq b.cache + 1)
  write_payload_atomic o
  append_line (enqueued o.env_id state_seq o.created_at o.channel (kind_name o.kind) o.from)
  write_cache (put o.env_id (fresh_state o state_seq))

unfoldable pub enqueue_error : BusError → BusError
enqueue_error corrupt_jsonl = state_corrupted
enqueue_error e = enqueue_failed

unfoldable pub enqueue : EnqueueRequest → Action String
unfolding is_kind_allowed_for_channel validate_extras enqueue_locked with_lock enqueue_error
enqueue o = do
  raise_if (not (is_kind_allowed_for_channel o.channel o.kind)) type_error
  raise_if (str_eq o.from "") type_error
  raise_if (not (validate_extras o.kind (or_default o.extras null))) invalid_extras
  rescue (with_lock (enqueue_locked o)) (λ e. raise (enqueue_error e))
  pure o.env_id

unfoldable pub append_failed_event : String → String → String → Action (Unit {0})
unfolding is_valid_envelope_id with_lock refresh_at_read append_failed_locked
append_failed_event env_id error_kind error_message = do
  raise_if (not (is_valid_envelope_id env_id)) type_error
  raise_if (str_eq error_kind "") type_error
  raise_if (str_eq error_message "") type_error
  with_lock (do refresh_at_read; append_failed_locked env_id error_kind error_message)

-- `replace(/:/g, "")`
unfoldable pub without_colons : String → String
without_colons String.[] = ""
without_colons (String.◌∷◌ c s) =
    if str_eq (String.◌∷◌ c "") ":" then without_colons s else String.◌∷◌ c (without_colons s)

-- `jsonlIO.quarantine`: a rename, which fails with ENOENT where there is no file
unfoldable pub quarantine_path : Bus → Option String
unfolding without_colons
quarantine_path b =
    if b.log_exists
    then some (str_append b.state_path (str_append ".corrupt." (without_colons b.clock)))
    else none

unfoldable pub move_log : Bus → Bus
move_log b =
    if b.log_exists
    then record b {
      log = [];
      tail = none;
      log_exists = false;
      quarantined = (b.log ++ tail_lines b.tail) ∷ b.quarantined;
      cache = [];
    }
    else b

-- `quarantineState`: where the rename fails with ENOENT the cache is left alone
unfoldable pub quarantine_state : Action (Option String)
unfolding with_lock quarantine_path move_log
quarantine_state = with_lock (do dest ← gets quarantine_path; update move_log; pure dest)
