-- ===== src/Messaging/Schema.antt =====
-- The conversion between extras in TypeScript's camelCase and in the snake_case of payload.json, of
-- src/messaging/schema.ts.
use deputy_agent.Prelude.{String, List, [], ◌∷◌, str_eq, if◌then◌else◌}
use deputy_agent.Value.{
  Value, undefined, null, str, arr, obj, nil, Fields, end, field, property_of, or_default,
}
use deputy_agent.Messaging.Kinds.{
  Channel, channel_name, EnvelopeKind, user_feedback, user_upload, user_clarify_answer,
  worker_escalation, worker_notification, worker_completion_claim, worker_session_end,
  watcher_observation, reviewer_verdict, host_event, meta_instruction, meta_interrupt,
  worker_stream_window, kind_name,
}

-- the cases of `extrasToJson`; spreading an array or an object of the extras types copies it
unfoldable pub extras_to_json_object : EnvelopeKind → Value → Value
unfolding property_of
extras_to_json_object user_upload e = obj (
    field "upload_id" (property_of "uploadId" e) (
      field "filename" (property_of "filename" e) (
        field "size_bytes" (property_of "sizeBytes" e)
          (field "uploaded_at" (property_of "uploadedAt" e) end))))
extras_to_json_object user_clarify_answer e = obj (field "round" (property_of "round" e) end)
extras_to_json_object worker_escalation e = obj (
    field "worker_session_id" (property_of "workerSessionId" e) (
      field "session_seq" (property_of "sessionSeq" e)
        (field "exit_intent" (property_of "exitIntent" e) end)))
extras_to_json_object worker_notification e = obj (
    field "worker_session_id" (property_of "workerSessionId" e)
      (field "session_seq" (property_of "sessionSeq" e) end))
extras_to_json_object worker_completion_claim e = obj (
    field "worker_session_id" (property_of "workerSessionId" e)
      (field "session_seq" (property_of "sessionSeq" e) end))
extras_to_json_object worker_session_end e = obj (
    field "worker_session_id" (property_of "workerSessionId" e) (
      field "session_seq" (property_of "sessionSeq" e) (
        field "exit_reason" (property_of "exitReason" e)
          (field "done_criteria_outcome" (property_of "doneCriteriaOutcome" e) end))))
extras_to_json_object watcher_observation e = obj (
    field "watcher_session_id" (property_of "watcherSessionId" e)
      (field "evidence_refs" (property_of "evidenceRefs" e) end))
extras_to_json_object reviewer_verdict e = obj (
    field "reviewer_phase" (property_of "reviewerPhase" e) (
      field "reviewer_round" (property_of "reviewerRound" e)
        (field "verdict" (property_of "verdict" e) (field "issues" (property_of "issues" e) end))))
extras_to_json_object host_event e =
    obj (
      field "event_kind" (property_of "eventKind" e)
        (field "details" (property_of "details" e) end))
extras_to_json_object worker_stream_window e = obj (
    field "window_start" (property_of "windowStart" e) (
      field "window_end" (property_of "windowEnd" e) (
        field "worker_session_id" (property_of "workerSessionId" e)
          (field "stream_path" (property_of "streamPath" e) end))))
extras_to_json_object _ e = null

-- `extrasToJson`; `enqueue` has turned an absent `extras` into null
unfoldable pub extras_to_json : EnvelopeKind → Value → Value
unfolding extras_to_json_object
extras_to_json kind null = null
extras_to_json kind e = extras_to_json_object kind e

unfoldable pub as_record_or_null : Value → Value
as_record_or_null (obj fs) = obj fs
as_record_or_null _ = null

-- the cases of `extrasFromJson`
unfoldable pub extras_from_json_object : EnvelopeKind → Value → Value
unfolding property_of as_record_or_null or_default
extras_from_json_object user_upload o = obj (
    field "uploadId" (property_of "upload_id" o) (
      field "filename" (property_of "filename" o) (
        field "sizeBytes" (property_of "size_bytes" o)
          (field "uploadedAt" (property_of "uploaded_at" o) end))))
extras_from_json_object user_clarify_answer o = obj (field "round" (property_of "round" o) end)
extras_from_json_object worker_escalation o = obj (
    field "workerSessionId" (property_of "worker_session_id" o) (
      field "sessionSeq" (property_of "session_seq" o)
        (field "exitIntent" (property_of "exit_intent" o) end)))
extras_from_json_object worker_notification o = obj (
    field "workerSessionId" (property_of "worker_session_id" o)
      (field "sessionSeq" (property_of "session_seq" o) end))
extras_from_json_object worker_completion_claim o = obj (
    field "workerSessionId" (property_of "worker_session_id" o)
      (field "sessionSeq" (property_of "session_seq" o) end))
extras_from_json_object worker_session_end o = obj (
    field "workerSessionId" (property_of "worker_session_id" o) (
      field "sessionSeq" (property_of "session_seq" o) (
        field "exitReason" (property_of "exit_reason" o) (
          field "doneCriteriaOutcome" (as_record_or_null (property_of "done_criteria_outcome" o))
            end))))
extras_from_json_object watcher_observation o = obj (
    field "watcherSessionId" (property_of "watcher_session_id" o)
      (field "evidenceRefs" (or_default (property_of "evidence_refs" o) (arr nil)) end))
extras_from_json_object reviewer_verdict o = obj (
    field "reviewerPhase" (property_of "reviewer_phase" o) (
      field "reviewerRound" (property_of "reviewer_round" o) (
        field "verdict" (property_of "verdict" o)
          (field "issues" (or_default (property_of "issues" o) (arr nil)) end))))
extras_from_json_object host_event o = obj (
    field "eventKind" (property_of "event_kind" o)
      (field "details" (or_default (as_record_or_null (property_of "details" o)) (obj end)) end))
extras_from_json_object worker_stream_window o = obj (
    field "windowStart" (property_of "window_start" o) (
      field "windowEnd" (property_of "window_end" o) (
        field "workerSessionId" (property_of "worker_session_id" o)
          (field "streamPath" (property_of "stream_path" o) end))))
extras_from_json_object _ o = null

unfoldable pub extras_from_json : EnvelopeKind → Value → Value
unfolding extras_from_json_object
extras_from_json kind null = null
extras_from_json kind undefined = null
extras_from_json kind o = extras_from_json_object kind o

unfoldable pub extras_key_map : EnvelopeKind → List (String × String)
extras_key_map user_feedback = []
extras_key_map user_upload =
    ("uploadId", "upload_id")
    ∷ ("filename", "filename")
    ∷ ("sizeBytes", "size_bytes")
    ∷ ("uploadedAt", "uploaded_at")
    ∷ []
extras_key_map user_clarify_answer = ("round", "round") ∷ []
extras_key_map worker_escalation =
    ("workerSessionId", "worker_session_id")
    ∷ ("sessionSeq", "session_seq")
    ∷ ("exitIntent", "exit_intent")
    ∷ []
extras_key_map worker_notification =
    ("workerSessionId", "worker_session_id") ∷ ("sessionSeq", "session_seq") ∷ []
extras_key_map worker_completion_claim =
    ("workerSessionId", "worker_session_id") ∷ ("sessionSeq", "session_seq") ∷ []
extras_key_map worker_session_end =
    ("workerSessionId", "worker_session_id")
    ∷ ("sessionSeq", "session_seq")
    ∷ ("exitReason", "exit_reason")
    ∷ ("doneCriteriaOutcome", "done_criteria_outcome")
    ∷ []
extras_key_map watcher_observation =
    ("watcherSessionId", "watcher_session_id") ∷ ("evidenceRefs", "evidence_refs") ∷ []
extras_key_map reviewer_verdict =
    ("reviewerPhase", "reviewer_phase")
    ∷ ("reviewerRound", "reviewer_round")
    ∷ ("verdict", "verdict")
    ∷ ("issues", "issues")
    ∷ []
extras_key_map host_event = ("eventKind", "event_kind") ∷ ("details", "details") ∷ []
extras_key_map meta_instruction = []
extras_key_map meta_interrupt = []
extras_key_map worker_stream_window =
    ("windowStart", "window_start")
    ∷ ("windowEnd", "window_end")
    ∷ ("workerSessionId", "worker_session_id")
    ∷ ("streamPath", "stream_path")
    ∷ []

-- `map[k] ?? k`
unfoldable pub mapped_key : List (String × String) → String → String
mapped_key [] k = k
mapped_key ((j, json) ∷ entries) k = if str_eq j k then json else mapped_key entries k

-- `out[k] = v`
unfoldable pub set_property : String → Value → Fields → Fields
set_property k v end = field k v end
set_property k v (field j w fs) =
    if str_eq j k then field j v fs else field j w (set_property k v fs)

unfoldable pub match_keys_into : List (String × String) → Fields → Fields → Fields
unfolding mapped_key set_property
match_keys_into map out end = out
match_keys_into map out (field k v match) =
    match_keys_into map (set_property (mapped_key map k) v out) match

unfoldable pub extras_match_to_json_keys : EnvelopeKind → Fields → Fields
unfolding match_keys_into extras_key_map
extras_match_to_json_keys kind match = match_keys_into (extras_key_map kind) end match

unfoldable pub build_payload_json :
    String → Channel → EnvelopeKind → String → String → Value → Value
unfolding extras_to_json channel_name kind_name
build_payload_json env_id channel kind from created_at extras = obj (
    field "env_id" (str env_id) (
      field "channel" (str (channel_name channel)) (
        field "kind" (str (kind_name kind)) (
          field "from" (str from) (
            field "created_at" (str created_at)
              (field "extras" (extras_to_json kind extras) end))))))
