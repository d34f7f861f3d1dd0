-- ===== src/Scenarios/Ticks.antt =====
-- Ticks of the daemon (src/host/daemon.ts) after a start of a worker that failed.
use deputy_agent.Prelude.{◌≡◌, refl, true, false, [], ◌∷◌, none, some, get, put, String, text_lt}
use mathlib.Core.List.{Memᴰ}
use deputy_agent.Value.{undefined, or_default}
use deputy_agent.Messaging.Kinds.{worker, meta_instruction}
use deputy_agent.Messaging.State.{is_valid_envelope_id}
use deputy_agent.Messaging.Log.{to_object, fold_lines}
use deputy_agent.Messaging.Bus
use deputy_agent.Messaging.Bus.{Bus}
use deputy_agent.Messaging.Bus.Write.{enqueue}
use deputy_agent.Host.Sessions.{missing, init_worker_orchestration_state}
use deputy_agent.Host.Daemon.{Outside, Daemon, DaemonState}
use deputy_agent.Host.Daemon.Start.{start_worker, after_start, reconcile}
use deputy_agent.Host.Daemon.Waits.{StaysParked, run, run-StaysParked}
use deputy_agent.Host.Daemon.Failed.{start_worker-IsParked}

abbrev initial_state : DaemonState
initial_state = record {
  orchestration = init_worker_orchestration_state;
  worker_start_failed_pending = false;
  worker_start_failed_baseline_env_ids = none;
  meta_reminder_posted_for_current_idle = false;
  want_worker_start = false;
  worker_handle = none;
  worker_session_id = none;
  worker_session_seq = none;
  worker_seq_by_session = [];
  worker_tool_history = [];
  worker_watchdog = none;
  worker_turn_ended = false;
  worker_inject_failed = false;
  worker_ended_written = false;
}

abbrev fresh_daemon : Daemon
fresh_daemon = record {
  state = initial_state;
  bus = record {
    state_path = "state.jsonl";
    log = [];
    log_exists = false;
    quarantined = [];
    payloads = [];
    cache = [];
    tail = none;
    clock = "2026-01-01T00:00:10Z";
    outcomes = [];
    cuts = [];
  };
  events = record {
    lines = [];
    tail = none;
    quarantined = [];
    clock = "2026-01-01T00:00:10Z";
    outcomes = [];
    cuts = [];
  };
  next_seq = missing;
}

-- a tick in which no session can be started, and one in which it can
abbrev broken : Outside
broken = record {
  meta_idle = true;
  number_text = λ z. "1";
  reminder_id = "0000000a";
  session_id = "w1";
  seq_written = true;
  prompts_written = true;
  session_starts = false;
  first_message_delivered = true;
  failed_id = "0000000b";
  ended_failed_id = "0000000c";
  error_text = "error";
  now = 10;
}

abbrev repaired : Outside
repaired = record broken { session_starts = true; session_id = "w2" }

abbrev send_instruction : String → Bus → Bus
send_instruction env_id b =
    (enqueue
      (record {
        channel = worker;
        kind = meta_instruction;
        from = "host";
        body = "go on";
        extras = undefined;
        env_id = env_id;
        created_at = "2026-01-01T00:00:11Z";
      })
      b).1

-- the first start, which fails, with an instruction in the inbox
abbrev told : Daemon
told = record fresh_daemon { bus = send_instruction "0a1b2c3d" fresh_daemon.bus }

abbrev failed_start : Daemon
failed_start = after_start (start_worker broken told)

run-StaysParked_example :
    StaysParked failed_start (run ((repaired, λ b. b) ∷ (repaired, λ b. b) ∷ []) failed_start)
unfolding start_worker after_start Bus.◌>>=◌ fold_lines to_object get put is_valid_envelope_id
    or_default reconcile enqueue
run-StaysParked_example =
    run-StaysParked ((repaired, λ b. b) ∷ (repaired, λ b. b) ∷ []) failed_start
      (start_worker-IsParked broken told refl refl)
      ((Memᴰ.head refl, tt), refl, ((Memᴰ.head refl, tt), refl, tt))

-- a later instruction of Meta continues
continues_on_instruction :
    (run ((repaired, send_instruction "0b1b2c3d") ∷ []) failed_start).state.worker_handle
    ≡ some "w2"
unfolding run start_worker after_start Bus.◌>>=◌ fold_lines to_object get put is_valid_envelope_id
    or_default reconcile enqueue text_lt
continues_on_instruction = refl
