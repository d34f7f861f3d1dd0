-- ===== src/Messaging/Extras.antt =====
-- The extras schema table and `validateExtras` of src/messaging/envelope.ts. A TypeScript extras
-- object is a `Value` with camelCase keys.
use deputy_agent.Prelude.{
  String, Bool, true, false, ◌||◌, ◌&&◌, not, List, [], ◌∷◌, Option, none, some, filter, every,
}
use deputy_agent.Value.{
  Value, undefined, null, int, str, arr, obj, Items, nil, cons, property, keys, includes,
  is_plain_object,
}
use deputy_agent.Messaging.Kinds.{
  EnvelopeKind, user_feedback, user_upload, user_clarify_answer, worker_escalation,
  worker_notification, worker_completion_claim, worker_session_end, watcher_observation,
  reviewer_verdict, host_event, meta_instruction, meta_interrupt, worker_stream_window,
}

pub data FieldSpec : Type 0 where
  string_spec int_spec iso8601 list_str list dict dict_or_none : FieldSpec
  enum enum_or_null : List String → FieldSpec

unfoldable pub extras_schemas : EnvelopeKind → Option (List (String × FieldSpec))
extras_schemas user_feedback = none
extras_schemas user_upload = some (
    ("uploadId", string_spec)
    ∷ ("filename", string_spec)
    ∷ ("sizeBytes", int_spec)
    ∷ ("uploadedAt", iso8601)
    ∷ [])
extras_schemas user_clarify_answer = some (("round", int_spec) ∷ [])
extras_schemas worker_escalation = some (
    ("workerSessionId", string_spec)
    ∷ ("sessionSeq", int_spec)
    ∷ ("exitIntent", enum ("continue" ∷ "declare_deferred" ∷ []))
    ∷ [])
extras_schemas worker_notification =
    some (("workerSessionId", string_spec) ∷ ("sessionSeq", int_spec) ∷ [])
extras_schemas worker_completion_claim =
    some (("workerSessionId", string_spec) ∷ ("sessionSeq", int_spec) ∷ [])
extras_schemas worker_session_end = some (
    ("workerSessionId", string_spec)
    ∷ ("sessionSeq", int_spec)
    ∷ ("exitReason", string_spec)
    ∷ ("doneCriteriaOutcome", dict_or_none)
    ∷ [])
extras_schemas watcher_observation =
    some (("watcherSessionId", string_spec) ∷ ("evidenceRefs", list_str) ∷ [])
extras_schemas reviewer_verdict = some (
    ("reviewerPhase", string_spec)
    ∷ ("reviewerRound", int_spec)
    ∷ ("verdict", enum_or_null ("pass" ∷ "needs_revision" ∷ "unsafe" ∷ []))
    ∷ ("issues", list)
    ∷ [])
extras_schemas host_event = some (("eventKind", string_spec) ∷ ("details", dict) ∷ [])
extras_schemas meta_instruction = none
extras_schemas meta_interrupt = none
extras_schemas worker_stream_window = some (
    ("windowStart", iso8601)
    ∷ ("windowEnd", iso8601)
    ∷ ("workerSessionId", string_spec)
    ∷ ("streamPath", string_spec)
    ∷ [])

unfoldable pub is_string : Value → Bool
is_string (str s) = true
is_string _ = false

-- `Number.isInteger`
unfoldable pub is_int : Value → Bool
is_int (int z) = true
is_int _ = false

unfoldable pub all_strings : Items → Bool
unfolding is_string
all_strings nil = true
all_strings (cons v vs) = is_string v && all_strings vs

unfoldable pub is_array_of_strings : Value → Bool
unfolding all_strings
is_array_of_strings (arr vs) = all_strings vs
is_array_of_strings _ = false

unfoldable pub is_array : Value → Bool
is_array (arr vs) = true
is_array _ = false

unfoldable pub is_null : Value → Bool
is_null null = true
is_null _ = false

unfoldable pub is_one_of : List String → Value → Bool
unfolding includes
is_one_of names (str s) = includes names s
is_one_of names _ = false

-- `checkField(value, spec, field) === null`
unfoldable pub check_field : Value → FieldSpec → Bool
unfolding is_string is_int is_array_of_strings is_array is_plain_object is_null is_one_of
check_field v string_spec = is_string v
check_field v int_spec = is_int v
check_field v iso8601 = is_string v
check_field v list_str = is_array_of_strings v
check_field v list = is_array v
check_field v dict = is_plain_object v
check_field v dict_or_none = is_null v || is_plain_object v
check_field v (enum names) = is_one_of names v
check_field v (enum_or_null names) = is_null v || is_one_of names v

unfoldable pub schema_keys : List (String × FieldSpec) → List String
schema_keys [] = []
schema_keys ((k, spec) ∷ schema) = k ∷ schema_keys schema

unfoldable pub is_empty : List String → Bool
is_empty [] = true
is_empty (k ∷ ks) = false

-- the body for a kind whose schema is an object
unfoldable pub matches_schema : List (String × FieldSpec) → Value → Bool
unfolding check_field schema_keys is_empty keys property includes
matches_schema schema (obj fs) =
    is_empty (filter (λ k. not (includes (keys fs) k)) (schema_keys schema))
    && is_empty (filter (λ k. not (includes (schema_keys schema) k)) (keys fs))
    && every (λ (k, spec). check_field (property k fs) spec) schema
matches_schema schema _ = false

unfoldable pub is_null_extras : Value → Bool
is_null_extras undefined = true
is_null_extras null = true
is_null_extras _ = false

unfoldable pub validate_by : Option (List (String × FieldSpec)) → Value → Bool
unfolding matches_schema is_null_extras
validate_by none extras = is_null_extras extras
validate_by (some schema) extras = matches_schema schema extras

-- `validateExtras(kind, extras)`: true where it returns, false where it throws. A kind that the table
-- lacks is no `EnvelopeKind`.
unfoldable pub validate_extras : EnvelopeKind → Value → Bool
unfolding validate_by extras_schemas
validate_extras kind extras = validate_by (extras_schemas kind) extras
