-- ===== src/Host/Recovery/Start.antt =====
-- `runStartupRecovery` of src/host/recovery.ts, which the host runs once it holds its own lock.
use deputy_agent.Prelude.{
  String, str_append, Bool, true, false, not, ◌&&◌, ◌||◌, List, [], ◌∷◌, ◌++◌, Option, none, some,
  if◌then◌else◌,
}
use deputy_agent.Value.{int, str, arr, Items, nil, cons, end, field}
use deputy_agent.Messaging.Bus
use deputy_agent.Messaging.Bus.Write.{without_colons}
use deputy_agent.Messaging.Recovery.{RecoveryReport, recover_after_crash}
use deputy_agent.Task.Stage.{Stage, submitted, paused, is_terminal, stage_eq}
use deputy_agent.Task.Manifest
use deputy_agent.Task.Manifest.{Manifest, Store, load}
use deputy_agent.Messaging.Log.{tail_lines}
use deputy_agent.Host.Events.{
  EventsFile, next_outcome, used, truncate_events_tail, is_readable, recent_events, stage_name,
}
use deputy_agent.Host.Recovery.{
  Host, Outside, SynthesizedWorkerEnd, CrashPendingWorker, safe_append, safe_enqueue_host_event,
  repair_half_completed_worker,
}

pub data Mode : Type 0 where
  fresh recovery : Mode

abbrev pub mode_name : Mode → String
mode_name fresh = "fresh"
mode_name recovery = "recovery"

pub record RecoveryResult : Type 0 where
  pub manifest : Manifest
  pub events_jsonl_corrupted : Bool
  pub mode : Mode
  pub quarantined : List String
  pub terminal : Bool
  pub synthesized_worker_end : Option SynthesizedWorkerEnd
  pub crash_pending : Option CrashPendingWorker

-- how a start ends: with a result, with `ManifestReadFatal`, or with the lock of events.jsonl taken
pub data Startup : Type 0 where
  completed : RecoveryResult → Startup
  manifest_read_fatal events_locked : Startup

pub record Detected : Type 0 where
  pub corrupted : Bool
  pub quarantine_path : Option String

-- `eventsIO.truncatePartialTail` in a `try`
unfoldable pub try_truncate : EventsFile → EventsFile
unfolding truncate_events_tail
try_truncate f = if next_outcome f then truncate_events_tail (used f) else used f

-- `eventsIO.quarantine` in a `try`: the file is renamed
unfoldable pub try_quarantine : String → EventsFile → Detected × EventsFile
unfolding without_colons
try_quarantine path f =
    if next_outcome f
    then (
      record {
        corrupted = true;
        quarantine_path = some (str_append path (str_append ".corrupt." (without_colons f.clock)));
      },
      record (used f) {
        lines = [];
        tail = none;
        quarantined = (f.lines ++ tail_lines f.tail) ∷ f.quarantined;
      },
    )
    else (record { corrupted = true; quarantine_path = none }, used f)

unfoldable pub detect_locked : String → EventsFile → Detected × EventsFile
unfolding try_truncate is_readable try_quarantine
detect_locked path f =
    let f' = try_truncate f in
    if is_readable f'.lines
    then (record { corrupted = false; quarantine_path = none }, f')
    else try_quarantine path f'

-- `detectEventsCorruption`; `none` where the lock times out
unfoldable pub detect_events_corruption : String → EventsFile → Option Detected × EventsFile
unfolding detect_locked
detect_events_corruption path f =
    if next_outcome f
    then (let (d, f') = detect_locked path (used f) in (some d, f'))
    else (none, used f)

-- `eventsHasContent`
unfoldable pub events_has_content : EventsFile → Bool
unfolding recent_events
events_has_content f = elim (recent_events 1 f.lines) [ [] ↦ false | e ∷ es ↦ true ]

unfoldable pub mode_of : Stage → Bool → Bool → Mode
unfolding stage_eq
mode_of stage had_events_before corrupted =
    if stage_eq stage submitted && (not had_events_before && not corrupted) then fresh else recovery

abbrev pub path_list : Option String → List String
path_list none = []
path_list (some p) = p ∷ []

abbrev pub text_items : List String → Items
text_items [] = nil
text_items (s ∷ ss) = cons (str s) (text_items ss)

abbrev pub quarantined_state : RecoveryReport → List String
quarantined_state r = if r.state_quarantined then path_list r.quarantine_path else []

unfoldable pub after_messaging :
    Outside → Stage → Bus.Result RecoveryReport → Host → (Bool × List String) × Host
unfolding safe_append safe_enqueue_host_event
after_messaging o stage (Bus.ok report) h = ((false, quarantined_state report), h)
after_messaging o stage (Bus.err e) h =
    let h₁ =
      safe_append "host_recovery_failed" stage
        (field "step" (str "messaging_recover") (
          field "errorKind" (str "host_recovery_failed")
            (field "message" (str (o.error_text e)) end)))
        h in
    (
      (true, []),
      safe_enqueue_host_event o.failed_event_id "host_recovery_failed"
          (field "step" (str "messaging_recover") (field "message" (str (o.error_text e)) end)) h₁,
    )

-- step 5: whether it failed, and what it set aside
unfoldable pub recover_messaging : Outside → Stage → Host → (Bool × List String) × Host
unfolding recover_after_crash after_messaging
recover_messaging o stage h =
    let (r, b) = recover_after_crash o.messaging h.bus in
    after_messaging o stage r (record h { bus = b })

unfoldable pub report_corruption : Outside → Detected → Host → Host
unfolding safe_enqueue_host_event
report_corruption o d h =
    if d.corrupted
    then safe_enqueue_host_event o.corrupted_event_id "events_jsonl_corrupted"
        (field "quarantinePath" (str (elim d.quarantine_path [ none ↦ "" | some p ↦ p ])) end) h
    else h

unfoldable pub append_started : Outside → Stage → Mode → Host → Host
unfolding safe_append
append_started o stage mode =
    safe_append "host_started" stage
      (field "pid" (int o.pid) (field "mode" (str (mode_name mode)) end))

abbrev pub summary_text : Stage → Bool → Bool → String
summary_text stage corrupted failed = str_append "recovery: stage=" (
    str_append (stage_name stage) (
      str_append (if corrupted then " events_jsonl_quarantined" else "")
        (if failed then " messaging_recover_failed" else "")))

-- step 9
unfoldable pub append_outcome : Outside → Stage → Mode → Bool → Bool → List String → Host → Host
unfolding append_started safe_append
append_outcome o stage fresh corrupted failed quarantined h = append_started o stage fresh h
append_outcome o stage recovery corrupted failed quarantined h =
    safe_append "host_recovery" stage
      (field "summary" (str (summary_text stage corrupted failed))
        (field "quarantined" (arr (text_items quarantined)) end))
      (append_started o stage recovery h)

-- the steps 5 to 9 of a task with sessions
unfoldable pub start_live : Outside → Manifest → Detected → Mode → Host → Startup × Host
unfolding recover_messaging report_corruption repair_half_completed_worker append_outcome
start_live o m d mode h =
    let ((failed, paths), h₁) = recover_messaging o m.stage h in
    let quarantined = path_list d.quarantine_path ++ paths in
    let (repair, h₂) =
      repair_half_completed_worker o m.stage d.corrupted (report_corruption o d h₁) in
    (
      completed (record {
        manifest = m;
        events_jsonl_corrupted = d.corrupted;
        mode = mode;
        quarantined = quarantined;
        terminal = false;
        synthesized_worker_end = repair.synthesized_worker_end;
        crash_pending = repair.crash_pending;
      }),
      append_outcome o m.stage mode d.corrupted failed quarantined h₂,
    )

-- a task that is over or paused: no session is started, and the messages are left alone
unfoldable pub start_terminal : Outside → Manifest → Detected → Mode → Host → Startup × Host
unfolding append_started
start_terminal o m d mode h = (
  completed (record {
    manifest = m;
    events_jsonl_corrupted = d.corrupted;
    mode = mode;
    quarantined = path_list d.quarantine_path;
    terminal = true;
    synthesized_worker_end = none;
    crash_pending = none;
  }),
  append_started o m.stage mode h,
)

abbrev pub has_no_sessions : Stage → Bool
has_no_sessions stage = is_terminal stage || stage_eq stage paused

unfoldable pub start_detected : Outside → Manifest → Option Detected → Host → Startup × Host
unfolding mode_of events_has_content start_live start_terminal stage_eq
start_detected o m none h = (events_locked, h)
start_detected o m (some d) h =
    let mode = mode_of m.stage (events_has_content h.events) d.corrupted in
    if has_no_sessions m.stage then start_terminal o m d mode h else start_live o m d mode h

unfoldable pub start_loaded : Outside → Manifest → Host → Startup × Host
unfolding detect_events_corruption start_detected
start_loaded o m h =
    let (d, f) = detect_events_corruption o.events_path h.events in
    start_detected o m d (record h { events = f })

-- step 2: `load` throws, or gives the manifest
unfoldable pub start_of_load : Outside → Manifest.Result Manifest → Host → Startup × Host
unfolding start_loaded
start_of_load o (Manifest.err e) h = (manifest_read_fatal, h)
start_of_load o (Manifest.ok m) h = start_loaded o m h

-- `runStartupRecovery`
unfoldable pub run_startup_recovery : Outside → Store → Host → Startup × Host
unfolding load start_of_load
run_startup_recovery o st h = start_of_load o (load st) h
