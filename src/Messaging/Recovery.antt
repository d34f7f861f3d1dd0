-- ===== src/Messaging/Recovery.antt =====
-- `recoverAfterCrash` of src/messaging/recovery.ts: what a starting host does about the messaging
-- directory that a crash has left behind. An entry of payloads/ that is not a directory is passed over
-- by every loop and is not in the model's `payloads`; the log of the model holds whole lines, which
-- `truncatePartialTail` leaves as they are.
pub mod Cleaned
pub mod Locked
pub mod Kept
pub mod Stays
pub mod Marking
pub mod Accounts
use deputy_agent.Prelude.{
  String, ◌≡◌, Bool, true, false, not, ◌&&◌, List, [], ◌∷◌, ◌++◌, Option, none, some, filter,
  if◌then◌else◌, Dict, get, delete, dict_keys, str_append, starts_with,
}
use deputy_agent.Value.{Value, str, obj, Fields, end, field}
use deputy_agent.Messaging.Kinds.{meta, host_event}
use deputy_agent.Messaging.State.{EnvelopeState, is_valid_envelope_id}
use deputy_agent.Messaging.Bus.{
  Payload, Bus, BusError, corrupt_jsonl, state_corrupted, io_error, Action, pure, raise, gets,
  rescue, update, ◌>>=◌, ◌>>◌, raise_if, attempt, with_lock, refresh_locked,
}
use deputy_agent.Messaging.Bus.Write.{
  EnqueueRequest, enqueue, append_failed_event, quarantine_state, is_present,
}

abbrev pub messaging_state_corrupted : String
messaging_state_corrupted = "messaging_state_corrupted"

abbrev pub messaging_payload_corrupted : String
messaging_payload_corrupted = "messaging_payload_corrupted"

pub data HostEventFailure : Type 0 where
  state_quarantine : HostEventFailure
  payload_missing : (env_id : String) → HostEventFailure

pub record RecoveryReport : Type 0 where
  pub cleaned_tmp_dirs : List String
  pub cleaned_orphan_payloads : List String
  pub cleanup_failed : List String
  pub skipped_unknown_dirs : List String
  pub state_quarantined : Bool
  pub quarantine_path : Option String
  pub payload_corrupted_env_ids : List String
  pub host_event_env_ids : List String
  pub host_event_failures : List HostEventFailure
  pub failed_to_mark_payload_corrupted : List String

-- What the code asks the outside: `is_file` tells whether payload.json and body.md of a directory
-- are regular files, and `gen` is the identifier drawn for the event about an envelope.
pub record Outside : Type 0 where
  pub is_payload_json : String → Bool
  pub is_body_md : String → Bool
  pub gen : String → String

-- one round of a loop that removes directories: `rm`, and whether the directory is gone; one that
-- fails leaves it as it was
unfoldable pub clean_dir : String → Action Bool
unfolding attempt delete
clean_dir name = do
  removed ← attempt
  if removed
      then (do update (λ b. record b { payloads = delete name b.payloads }); pure true)
      else pure false

-- the names that are gone, and those that are not
unfoldable pub clean_each : List String → Action (List String × List String)
unfolding clean_dir
clean_each [] = pure ([], [])
clean_each (name ∷ names) = do
  gone ← clean_dir name
  rest ← clean_each names
  pure (if gone then (name ∷ rest.0, rest.1) else (rest.0, name ∷ rest.1))

unfoldable pub is_tmp : String → Bool
is_tmp name = starts_with name ".tmp_"

-- a directory that 1d does not know: neither left over nor named like an envelope
unfoldable pub is_unknown : String → Bool
unfolding is_tmp is_valid_envelope_id
is_unknown name = not (is_tmp name) && not (is_valid_envelope_id name)

-- a directory named like an envelope that is not enqueued
unfoldable pub is_orphan : Dict EnvelopeState → String → Bool
unfolding is_tmp is_valid_envelope_id get
is_orphan snapshot name =
    not (is_tmp name)
    && (is_valid_envelope_id name && elim (get name snapshot) [ none ↦ true | some s ↦ false ])

-- the directory of an envelope with both of its files
unfoldable pub is_complete : Outside → Dict Payload → String → Bool
unfolding is_present get
is_complete o payloads env_id =
    is_present (get env_id payloads) && (o.is_payload_json env_id && o.is_body_md env_id)

-- the envelopes of the snapshot without their files, except those that are failed already
unfoldable pub missing_payloads : Outside → Dict Payload → Dict EnvelopeState → List String
unfolding is_complete
missing_payloads o payloads [] = []
missing_payloads o payloads ((env_id, s) ∷ snapshot) =
    let rest = missing_payloads o payloads snapshot in
    if is_complete o payloads env_id then rest else if s.failed then rest else env_id ∷ rest

-- What the locked section collects.
pub record Scan : Type 0 where
  pub cleaned_tmp : List String
  pub cleaned_orphans : List String
  pub cleanup_failed : List String
  pub skipped : List String
  pub state_corrupt : Bool
  pub missing : List String

-- 1c and 1d
unfoldable pub scan_folded : Outside → List String → List String × List String → Action Scan
unfolding missing_payloads clean_each is_orphan is_unknown
scan_folded o entries tmp = do
  snapshot ← gets (λ b. b.cache)
  missing ← gets (λ b. missing_payloads o b.payloads snapshot)
  orphans ← clean_each (filter (is_orphan snapshot) entries)
  pure (record {
    cleaned_tmp = tmp.0;
    cleaned_orphans = orphans.0;
    cleanup_failed = tmp.1 ++ orphans.1;
    skipped = filter is_unknown entries;
    state_corrupt = false;
    missing = missing;
  })

unfoldable pub corrupt_as_false : BusError → Action Bool
corrupt_as_false corrupt_jsonl = pure false
corrupt_as_false state_corrupted = pure false
corrupt_as_false e = raise e

-- 1b: whether the log folds
unfoldable pub try_fold : Action Bool
unfolding refresh_locked corrupt_as_false
try_fold = rescue (do refresh_locked; pure true) corrupt_as_false

-- 1b': `jsonlIO.truncatePartialTail(...).catch(() => {})`
unfoldable pub truncate_state_tail : Action (Unit {0})
unfolding attempt
truncate_state_tail = do
  done ← attempt
  if done then update (λ b. record b { tail = none }) else pure tt

-- the locked section of step 1; `readdir` may fail
unfoldable pub recover_locked : Outside → Action Scan
unfolding attempt clean_each is_tmp try_fold truncate_state_tail scan_folded
recover_locked o = do
  listed ← attempt
  raise_if (not listed) io_error
  entries ← gets (λ b. dict_keys b.payloads)
  tmp ← clean_each (filter is_tmp entries)
  folded ← try_fold
  if folded
      then (do truncate_state_tail; scan_folded o entries tmp)
      else pure (record {
        cleaned_tmp = tmp.0;
        cleaned_orphans = [];
        cleanup_failed = tmp.1;
        skipped = [];
        state_corrupt = true;
        missing = [];
      })

unfoldable pub host_event_request : String → String → String → String → Fields → EnqueueRequest
host_event_request env_id created_at event_kind body details = record {
  channel = meta;
  kind = host_event;
  from = "host";
  body = body;
  extras = obj (field "eventKind" (str event_kind) (field "details" (obj details) end));
  env_id = env_id;
  created_at = created_at;
}

-- the identifier of the enqueued event, or `none` where `enqueue` throws
unfoldable pub notify : String → String → String → Fields → Action (Option String)
unfolding enqueue host_event_request
notify env_id event_kind body details =
    rescue
      (do
        now ← gets (λ b. b.clock)
        id ← enqueue (host_event_request env_id now event_kind body details)
        pure (some id))
      (λ e. pure none)

unfoldable pub missing_request : Outside → String → Action (Option String)
unfolding notify
missing_request o env_id =
    notify (o.gen env_id) messaging_payload_corrupted
      (str_append "messaging payload for env_id=" (
        str_append env_id
          " is missing or incomplete; envelope marked failed and will not be re-delivered."))
      (field "envId" (str env_id) end)

-- the lists of step 2b
pub record Marked : Type 0 where
  pub corrupted : List String
  pub events : List String
  pub failures : List HostEventFailure
  pub unmarked : List String

unfoldable pub marked_more : String → Option String → Marked → Marked
marked_more env_id (some event) rest = record rest {
  corrupted = env_id ∷ rest.corrupted;
  events = event ∷ rest.events;
}
marked_more env_id none rest = record rest {
  corrupted = env_id ∷ rest.corrupted;
  failures = payload_missing env_id ∷ rest.failures;
}

-- `appendFailedEvent` of one envelope, and whether it returned
unfoldable pub mark_failed : String → Action Bool
unfolding append_failed_event
mark_failed env_id =
    rescue
      (do
        append_failed_event env_id messaging_payload_corrupted
            (str_append "payload missing or incomplete for env_id=" env_id)
        pure true)
      (λ e. pure false)

-- step 2b
unfoldable pub mark_missing : Outside → List String → Action Marked
unfolding mark_failed missing_request marked_more
mark_missing o [] = pure (record { corrupted = []; events = []; failures = []; unmarked = [] })
mark_missing o (env_id ∷ env_ids) = do
  marked ← mark_failed env_id
  event ← if marked then missing_request o env_id else pure none
  rest ← mark_missing o env_ids
  pure (
      if marked
      then marked_more env_id event rest
      else record rest { unmarked = env_id ∷ rest.unmarked })

unfoldable pub or_empty : Option String → String
or_empty none = ""
or_empty (some s) = s

-- `${quarantinePath}`
unfoldable pub or_null_text : Option String → String
or_null_text none = "null"
or_null_text (some s) = s

unfoldable pub event_list : Option String → List String
event_list none = []
event_list (some id) = id ∷ []

unfoldable pub quarantine_failures : Option String → List HostEventFailure
quarantine_failures none = state_quarantine ∷ []
quarantine_failures (some id) = []

-- step 2a
unfoldable pub recover_corrupt : Outside → Scan → Action RecoveryReport
unfolding quarantine_state notify or_empty or_null_text event_list quarantine_failures
recover_corrupt o scan = do
  path ← quarantine_state
  event ←
      notify (o.gen "") messaging_state_corrupted
        (str_append
          "messaging state.jsonl was corrupt and has been quarantined. Original moved to: "
          (str_append (or_null_text path)
            ". Existing payloads/ entries are preserved for audit but will not be re-delivered."))
        (field "quarantinePath" (str (or_empty path)) end)
  pure (record {
    cleaned_tmp_dirs = scan.cleaned_tmp;
    cleaned_orphan_payloads = scan.cleaned_orphans;
    cleanup_failed = scan.cleanup_failed;
    skipped_unknown_dirs = scan.skipped;
    state_quarantined = true;
    quarantine_path = path;
    payload_corrupted_env_ids = [];
    host_event_env_ids = event_list event;
    host_event_failures = quarantine_failures event;
    failed_to_mark_payload_corrupted = [];
  })

unfoldable pub recover_missing : Outside → Scan → Action RecoveryReport
unfolding mark_missing
recover_missing o scan = do
  marked ← mark_missing o scan.missing
  pure (record {
    cleaned_tmp_dirs = scan.cleaned_tmp;
    cleaned_orphan_payloads = scan.cleaned_orphans;
    cleanup_failed = scan.cleanup_failed;
    skipped_unknown_dirs = scan.skipped;
    state_quarantined = false;
    quarantine_path = none;
    payload_corrupted_env_ids = marked.corrupted;
    host_event_env_ids = marked.events;
    host_event_failures = marked.failures;
    failed_to_mark_payload_corrupted = marked.unmarked;
  })

-- a new `MessagingBusImpl` on the same files
abbrev pub opened : Bus → Bus
opened b = record b { cache = [] }

unfoldable pub recover_after_crash : Outside → Action RecoveryReport
unfolding with_lock recover_locked recover_corrupt recover_missing
recover_after_crash o = do
  update opened
  scan ← with_lock (recover_locked o)
  if scan.state_corrupt then recover_corrupt o scan else recover_missing o scan
