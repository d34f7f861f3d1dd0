-- ===== src/Scenarios/Restart.antt =====
-- A start of the host after a crash (src/host/recovery.ts) with two workers that have not ended, and
-- the calls on events.jsonl (src/host/events.ts) and next_seq.json around it.
use mathlib.Core.List.{Memᴰ}
use deputy_agent.Prelude.{
  ◌≡◌, ◌≢◌, refl, arith, true, false, List, [], ◌∷◌, none, some, pos, get, put, ℤ, String,
}
use deputy_agent.Value.{or_default, field, end, str, int, obj}
use deputy_agent.Messaging.State.{is_valid_envelope_id}
use deputy_agent.Messaging.Log.{to_object, fold_lines}
use deputy_agent.Messaging.Bus
use deputy_agent.Messaging.Bus.{Bus}
use deputy_agent.Task.Stage.{running}
use deputy_agent.Task.Manifest.{Manifest, Store}
use deputy_agent.Host.Events.{
  EventsFile, HostEventInput, append_worker_ended_idempotent, is_worker_session, details_to_snake,
}
use deputy_agent.Host.Events.Calls.{EventsCall, event, worker_ended, perform_calls}
use deputy_agent.Messaging.Log.{unterminated, partial}
use deputy_agent.Host.Events.{is_readable}
use deputy_agent.Host.Events.Once.{ended_count, append_worker_ended_idempotent_once}
use deputy_agent.Host.Events.Numbered.{IsNumbered, perform_calls-IsNumbered}
use deputy_agent.Host.Sessions.{sdk_crash, declare_done, enqueue_worker_session_end, unreadable}
use deputy_agent.Host.Sessions.Allocated.{allocate_all}
use deputy_agent.Host.Recovery.{
  Host, Outside, repair_unmatched, repair_half_completed_worker, crash_repair,
}
use deputy_agent.Host.Recovery.Reads.{
  UnmatchedWorkerStarted, read_session_end_context, find_unmatched_worker_started,
}
use deputy_agent.Host.Recovery.Settled.{named_seq, repair_half_completed_worker-settles}
use deputy_agent.Host.Recovery.Durable.{repair_unmatched-durable}
use deputy_agent.Host.Recovery.Start.{run_startup_recovery}
use deputy_agent.Host.Recovery.Sorted.{StartsWell, run_startup_recovery-StartsWell}

abbrev worker_start : String → ℤ → HostEventInput
worker_start id seq = record {
  type = "agent_session_started";
  stage = running;
  details =
      field "role" (str "worker") (field "sessionId" (str id) (field "sessionSeq" (int seq) end));
}

abbrev no_events : EventsFile
no_events = record {
  lines = [];
  tail = none;
  quarantined = [];
  clock = "2026-01-01T00:00:09Z";
  outcomes = [];
  cuts = [];
}

abbrev start_calls : List EventsCall
start_calls = event (worker_start "w1" (pos 1)) ∷ event (worker_start "w2" (pos 2)) ∷ []

-- events.jsonl with two workers that were started
abbrev two_started : EventsFile
two_started = perform_calls start_calls no_events

abbrev empty_bus : Bus
empty_bus = record {
  state_path = "state.jsonl";
  log = [];
  log_exists = false;
  quarantined = [];
  payloads = [];
  cache = [];
  tail = none;
  clock = "2026-01-01T00:00:10Z";
  outcomes = [];
  cuts = [];
}

abbrev outside : Outside
outside = record {
  end_id = "0000000a";
  crash_event_id = "0000000b";
  failed_event_id = "0000000c";
  corrupted_event_id = "0000000d";
  number_text = λ z. "2";
  events_path = "events.jsonl";
  error_text = λ e. "error";
  pid = pos 7;
  messaging = record { is_payload_json = λ x. true; is_body_md = λ x. true; gen = λ x. "0000000e" };
}

abbrev crashed_host : Host
crashed_host = record { bus = empty_bus; events = two_started }

abbrev w1 : UnmatchedWorkerStarted
w1 = record { worker_session_id = "w1"; session_seq = pos 1 }

abbrev w2 : UnmatchedWorkerStarted
w2 = record { worker_session_id = "w2"; session_seq = pos 2 }

finds_the_later : find_unmatched_worker_started two_started.lines ≡ some w2
unfolding find_unmatched_worker_started perform_calls
finds_the_later = refl

reports_the_later :
    (repair_half_completed_worker outside running false crashed_host).0
    ≡ crash_repair "w2" (pos 2) sdk_crash
unfolding repair_half_completed_worker Bus.◌>>=◌ find_unmatched_worker_started perform_calls
    fold_lines crash_repair
reports_the_later = refl

repair_half_completed_worker-settles_example : pos 1 ≢ pos 2
unfolding repair_half_completed_worker Bus.◌>>=◌ find_unmatched_worker_started perform_calls
    fold_lines crash_repair to_object get put is_valid_envelope_id or_default
repair_half_completed_worker-settles_example =
    repair_half_completed_worker-settles outside running crashed_host (pos 2) w1
      (record { whole = refl; readable = refl; succeeds = refl }) refl refl

append_worker_ended_idempotent_once_example :
    ended_count
      (is_worker_session (pos 2))
      (append_worker_ended_idempotent running "w2"
        (pos 2)
        "sdk_crash"
        (perform_calls (worker_ended running "w2" (pos 2) "declare_done" ∷ []) two_started)).1.lines
    ≡ 1
unfolding append_worker_ended_idempotent perform_calls
append_worker_ended_idempotent_once_example =
    append_worker_ended_idempotent_once (pos 2)
      (worker_ended running "w2" (pos 2) "declare_done" ∷ []) running "w2" "sdk_crash" two_started
      (tt, omega arith) tt (tt, tt) (record { appended = false; scan_ok = true }) refl refl

-- the first append is cut inside its line, and the second makes that a line of its own
abbrev torn_events : EventsFile
torn_events = record no_events { outcomes = true ∷ false ∷ []; cuts = partial ∷ [] }

perform_calls-IsNumbered_example : IsNumbered (perform_calls start_calls torn_events)
perform_calls-IsNumbered_example =
    perform_calls-IsNumbered start_calls torn_events (tt, tt) (tt, tt)

isolates_the_cut : is_readable (perform_calls start_calls torn_events).lines ≡ false
unfolding perform_calls is_readable
isolates_the_cut = refl

-- after two started workers the file that cannot be read gives 3 and 4
continues_after_started :
    allocate_all ((two_started.lines, true) ∷ ([], false) ∷ ([], true) ∷ []) unreadable ≡ 3 ∷ 4 ∷ []
unfolding allocate_all perform_calls
continues_after_started = refl

snake_keys :
    details_to_snake (
      obj (
        field "fromStage"
          (str "running")
          (field "triggeredBy" (obj (field "sessionSeq" (int (pos 1)) end)) end)))
    ≡ obj (
        field "from_stage"
          (str "running")
          (field "triggered_by" (obj (field "session_seq" (int (pos 1)) end)) end))
unfolding details_to_snake
snake_keys = refl

-- the messages in which the second worker has ended
abbrev ended_bus : Bus
ended_bus =
    (enqueue_worker_session_end "w2" (pos 2) declare_done none "done" "0a1b2c3d"
      "2026-01-01T00:00:08Z" empty_bus).1

abbrev ended_host : Host
ended_host = record { bus = ended_bus; events = two_started }

repair_unmatched-durable_example :
    ((repair_unmatched outside ended_bus.cache (some w2) ended_host).1.bus ≡ ended_bus)
    × (named_seq (repair_unmatched outside ended_bus.cache (some w2) ended_host).0 ≡ some (pos 2))
unfolding enqueue_worker_session_end Bus.◌>>=◌ fold_lines to_object get put is_valid_envelope_id
    or_default read_session_end_context
repair_unmatched-durable_example =
    repair_unmatched-durable outside ended_bus.cache w2 ended_host _ (Memᴰ.head refl)
      (record { live = refl; context = _; is_read = refl; same = refl })

abbrev manifest : Manifest
manifest = record {
  task_id = "t";
  title = "T";
  created_at = "2026-01-01T00:00:00Z";
  updated_at = "2026-01-01T00:00:00Z";
  raw_task_path = "raw_task.md";
  stage = running;
  stage_history = [];
  paused_from = none;
  last_error = none;
  role_bindings = [];
}

abbrev store : Store
store = record {
  stored = some manifest;
  lock_acquired = true;
  write_succeeds = true;
  clock = "2026-01-01T00:00:10Z";
}

run_startup_recovery-StartsWell_example :
    StartsWell crashed_host (run_startup_recovery outside store crashed_host)
run_startup_recovery-StartsWell_example = run_startup_recovery-StartsWell outside store crashed_host

-- An append that is cut before its line feed: the next one isolates the whole line and repeats it.
abbrev cut_events : EventsFile
cut_events = record no_events { outcomes = true ∷ false ∷ []; cuts = unterminated ∷ [] }

repeats_the_end :
    ended_count
      (is_worker_session (pos 2))
      (perform_calls
        (worker_ended running "w2" (pos 2) "declare_done"
          ∷ worker_ended running "w2" (pos 2) "declare_done"
          ∷ [])
        cut_events).lines
    ≡ 2
unfolding perform_calls
repeats_the_end = refl
