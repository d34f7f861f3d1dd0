-- ===== src/Host/Daemon/Failed.antt =====
-- A start that fails leaves the daemon waiting for Meta.
use deputy_agent.Prelude.{◌≡◌, refl, ap, ◌∙◌, arith, ℕ, true, false, Option, none, some, if_holds}
use deputy_agent.Host.Events
use deputy_agent.Host.Events.{append}
use deputy_agent.Host.Sessions.{allocate_worker_session_seq}
use deputy_agent.Host.Daemon.{Outside, Daemon, DaemonState}
use deputy_agent.Host.Daemon.Start.{
  Start, started, not_started, threw, is_none, is_first_start, start_session, abandon_session,
  report, scan_failed, after_started_event, start_with_seq, start_allocated, start_worker,
  after_start, capture_worker_start_failed_baseline, note_session,
}
use deputy_agent.Host.Daemon.Waits.{IsParked}

-- a start that fails leaves the handle of the worker alone
abbrev LeavesHandle : DaemonState → Start × Daemon → Type 0
LeavesHandle s (started, d) = Unit
LeavesHandle s (not_started, d) = d.state.worker_handle ≡ s.worker_handle
LeavesHandle s (threw, d) = Unit

abandon_session-handle :
    (w : Outside) (seq : ℕ) (d : Daemon)
    → (abandon_session w seq d).state.worker_handle ≡ d.state.worker_handle
unfolding abandon_session report
abandon_session-handle w seq d =
    if_holds (λ (x : Daemon). x.state.worker_handle ≡ d.state.worker_handle) (scan_failed _)
      (λ k. refl) (λ k. refl)

module _ (w : Outside) where
  start_session-LeavesHandle : (seq : ℕ) (d : Daemon) → LeavesHandle d.state (start_session w seq d)
  unfolding start_session
  start_session-LeavesHandle seq d =
      if_holds (LeavesHandle d.state) w.session_starts (λ h. tt)
        (λ h. abandon_session-handle w seq d)

  after_started_event-LeavesHandle :
      (seq : ℕ) (r : Events.Result (Unit {0})) (d : Daemon)
      → LeavesHandle d.state (after_started_event w seq r d)
  unfolding after_started_event
  after_started_event-LeavesHandle seq (Events.ok u) d = start_session-LeavesHandle seq d
  after_started_event-LeavesHandle seq (Events.err e) d = tt

  start_with_seq-LeavesHandle :
      (seq : ℕ) (d : Daemon) → LeavesHandle d.state (start_with_seq w seq d)
  unfolding start_with_seq
  start_with_seq-LeavesHandle seq d =
      if_holds (LeavesHandle d.state) w.prompts_written
        (λ h. after_started_event-LeavesHandle seq _ (record d { events = _ })) (λ h. tt)

  start_allocated-LeavesHandle :
      (o : Option ℕ) (d : Daemon) → LeavesHandle d.state (start_allocated w o d)
  unfolding start_allocated report
  start_allocated-LeavesHandle none d = refl
  start_allocated-LeavesHandle (some seq) d = start_with_seq-LeavesHandle seq (note_session w seq d)

  start_worker-LeavesHandle : (d : Daemon) → LeavesHandle d.state (start_worker w d)
  unfolding start_worker
  start_worker-LeavesHandle d =
      let r = allocate_worker_session_seq d.events.lines w.seq_written d.next_seq in
      start_allocated-LeavesHandle r.0 (record d { next_seq = r.1 })

-- nothing is waited for less: the failed start is
waits_for_failed :
    (s : DaemonState) → s.worker_start_failed_pending ≡ true → is_first_start s ≡ false
waits_for_failed s h = ground arith

after_start-IsParked :
    (s : DaemonState) (r : Start × Daemon)
    → is_none s.worker_handle ≡ true
    → r.0 ≡ not_started
    → LeavesHandle s r
    → IsParked (after_start r).state
unfolding after_start capture_worker_start_failed_baseline
after_start-IsParked s (started, d) n e l = cc e
after_start-IsParked s (threw, d) n e l = cc e
after_start-IsParked s (not_started, d) n e l = record {
  handle = ap is_none l ∙ n;
  wanted = refl;
  first = waits_for_failed (after_start (not_started, d)).state refl;
}

-- Where no worker ran, a start that fails ends in the state of waiting.
pub start_worker-IsParked :
    (w : Outside) (d : Daemon)
    → is_none d.state.worker_handle ≡ true
    → (start_worker w d).0 ≡ not_started
    → IsParked (after_start (start_worker w d)).state
start_worker-IsParked w d n e =
    after_start-IsParked d.state (start_worker w d) n e (start_worker-LeavesHandle w d)
