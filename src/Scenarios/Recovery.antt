-- ===== src/Scenarios/Recovery.antt =====
-- A recovery after a crash (src/messaging/recovery.ts): the log has an envelope whose directory is
-- lost, and payloads/ a temporary directory and one that no event names.
use deputy_agent.Prelude.{◌≡◌, refl, true, false, [], ◌∷◌, none, some, get, put}
use deputy_agent.Value.{or_default}
use deputy_agent.Messaging.State.{is_valid_envelope_id}
use deputy_agent.Messaging.Kinds.{meta}
use deputy_agent.Messaging.Log.{json, enqueued, to_object, fold_lines}
use deputy_agent.Messaging.Bus
use deputy_agent.Messaging.Bus.{Bus, Payload}
use deputy_agent.Messaging.Recovery.{Outside, RecoveryReport, recover_after_crash}
use deputy_agent.Messaging.Recovery.Kept.{recover_after_crash-HasPayload}
use deputy_agent.Messaging.Recovery.Accounts.{IsAccounted, recover_after_crash-IsAccounted}

abbrev whole : Payload
whole = record { body = some "hello"; payload_json = none }

abbrev crashed : Bus
crashed = record {
  state_path = "state.jsonl";
  log =
      json (to_object (enqueued "0a1b2c3d" 1 "2026-01-01T00:00:01Z" meta "user_feedback" "user"))
      ∷ json (to_object (enqueued "0a1b2c3e" 2 "2026-01-01T00:00:02Z" meta "user_feedback" "user"))
      ∷ [];
  log_exists = true;
  quarantined = [];
  payloads = (".tmp_0a", whole) ∷ ("0a1b2c3e", whole) ∷ ("ffffffff", whole) ∷ ("notes", whole) ∷ [];
  cache = [];
  tail = none;
  clock = "2026-01-01T00:00:03Z";
  outcomes = [];
  cuts = [];
}

-- all files of the directories are there; every drawn identifier is the same
abbrev disk : Outside
disk = record {
  is_payload_json = λ name. true;
  is_body_md = λ name. true;
  gen = λ name. "abcdabcd";
}

abbrev crash_report : RecoveryReport
crash_report = record {
  cleaned_tmp_dirs = ".tmp_0a" ∷ [];
  cleaned_orphan_payloads = "ffffffff" ∷ [];
  cleanup_failed = [];
  skipped_unknown_dirs = "notes" ∷ [];
  state_quarantined = false;
  quarantine_path = none;
  payload_corrupted_env_ids = "0a1b2c3d" ∷ [];
  host_event_env_ids = "abcdabcd" ∷ [];
  host_event_failures = [];
  failed_to_mark_payload_corrupted = [];
}

abbrev recovered : Bus
recovered = (recover_after_crash disk crashed).1

recovers : recover_after_crash disk crashed ≡ (Bus.ok crash_report, recovered)
unfolding recover_after_crash Bus.◌>>=◌ fold_lines to_object get is_valid_envelope_id or_default put
recovers = refl

recover_after_crash-IsAccounted_example :
    IsAccounted disk "0a1b2c3d" (get "0a1b2c3d" crashed.payloads) crash_report recovered
unfolding fold_lines to_object get is_valid_envelope_id put
recover_after_crash-IsAccounted_example =
    recover_after_crash-IsAccounted disk crashed "0a1b2c3d" refl refl (refl, refl) refl (λ x. refl)
      (λ x. refl) recovers

recover_after_crash-HasPayload_example : get "0a1b2c3e" recovered.payloads ≡ some whole
unfolding fold_lines to_object get is_valid_envelope_id put
recover_after_crash-HasPayload_example =
    recover_after_crash-HasPayload disk crashed "0a1b2c3e" whole refl refl refl
