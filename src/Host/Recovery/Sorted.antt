-- ===== src/Host/Recovery/Sorted.antt =====
-- What the result of a start says to the daemon about the last worker.
use deputy_agent.Prelude.{
  ◌≡◌, ◌≢◌, refl, Bool, true, false, ◌&&◌, String, Option, none, some, ℤ, Dict, Bool-cases, inl,
  inr, if◌then◌else◌,
}
use deputy_agent.Messaging.State.{EnvelopeState}
use deputy_agent.Messaging.Bus
use deputy_agent.Messaging.Bus.{Bus}
use deputy_agent.Messaging.Bus.Query.{fold}
use deputy_agent.Task.Stage.{Stage, running, stage_eq}
use deputy_agent.Task.Manifest
use deputy_agent.Task.Manifest.{Manifest, Store, load}
use deputy_agent.Host.Events.{EventsFile}
use deputy_agent.Host.Sessions.{
  WorkerExitReason, is_active_exit, natural_completion, declare_deferred, declare_done,
  meta_interrupt, meta_stop, watchdog_worker_no_progress, watchdog_worker_tool_loop, sdk_crash,
  subprocess_crash, host_internal_error, host_shutdown,
}
use deputy_agent.Host.Recovery.{
  Host, Outside, CrashPendingWaitState, session_end_pending, meta_interrupt_default_continue,
  meta_stop_no_restart, SynthesizedWorkerEnd, CrashPendingWorker, RepairResult, no_repair, restored,
  end_repair, crash_repair, restore_end, synthesize_end, synthesize_crash, repair_crashed,
  repair_unmatched, repair_degraded, repair_without_signal, repair_due, repair_folded,
  repair_half_completed_worker, wait_state_for_exit_reason, safe_append,
}
use deputy_agent.Host.Recovery.Reads.{
  SessionEndContext, SignalCandidate, UnmatchedWorkerStarted, find_latest_active_signal,
}
use deputy_agent.Host.Recovery.Start.{
  Startup, completed, manifest_read_fatal, events_locked, Detected, Mode, has_no_sessions,
  start_live, start_terminal, start_detected, start_loaded, start_of_load, run_startup_recovery,
  detect_events_corruption, append_started, mode_of, events_has_content,
}

-- Meta is waited for after an interrupt, after a stop, or after any other end.
pub data WaitsAs : WorkerExitReason → CrashPendingWaitState → Type 0 where
  interrupted : WaitsAs meta_interrupt meta_interrupt_default_continue
  stopped : WaitsAs meta_stop meta_stop_no_restart
  ended :
      {r : WorkerExitReason} → r ≢ meta_interrupt → r ≢ meta_stop → WaitsAs r session_end_pending

wait_state_for_exit_reason-WaitsAs :
    (r : WorkerExitReason) → WaitsAs r (wait_state_for_exit_reason r)
wait_state_for_exit_reason-WaitsAs meta_interrupt = WaitsAs.interrupted
wait_state_for_exit_reason-WaitsAs meta_stop = WaitsAs.stopped
wait_state_for_exit_reason-WaitsAs natural_completion = WaitsAs.ended (λ e. cc e) (λ e. cc e)
wait_state_for_exit_reason-WaitsAs declare_deferred = WaitsAs.ended (λ e. cc e) (λ e. cc e)
wait_state_for_exit_reason-WaitsAs declare_done = WaitsAs.ended (λ e. cc e) (λ e. cc e)
wait_state_for_exit_reason-WaitsAs watchdog_worker_no_progress =
    WaitsAs.ended (λ e. cc e) (λ e. cc e)
wait_state_for_exit_reason-WaitsAs watchdog_worker_tool_loop = WaitsAs.ended (λ e. cc e) (λ e. cc e)
wait_state_for_exit_reason-WaitsAs sdk_crash = WaitsAs.ended (λ e. cc e) (λ e. cc e)
wait_state_for_exit_reason-WaitsAs host_internal_error = WaitsAs.ended (λ e. cc e) (λ e. cc e)
wait_state_for_exit_reason-WaitsAs host_shutdown = WaitsAs.ended (λ e. cc e) (λ e. cc e)
wait_state_for_exit_reason-WaitsAs subprocess_crash = WaitsAs.ended (λ e. cc e) (λ e. cc e)

-- At most one of the two is given: an end by which the worker meant to stop, or another one with the
-- state of waiting that belongs to its reason.
abbrev pub IsSorted : Option SynthesizedWorkerEnd → Option CrashPendingWorker → Type 0
IsSorted none none = Unit
IsSorted (some w) none = is_active_exit w.exit_reason ≡ true
IsSorted none (some c) = (is_active_exit c.exit_reason ≡ false) × WaitsAs c.exit_reason c.wait_state
IsSorted (some w) (some c) = ⊥

abbrev IsSortedRepair : RepairResult → Type 0
IsSortedRepair r = IsSorted r.synthesized_worker_end r.crash_pending

restored-IsSorted : (e : SessionEndContext) → IsSortedRepair (restored e)
unfolding restored end_repair crash_repair
restored-IsSorted e = elim (Bool-cases (is_active_exit e.exit_reason)) [
  | inl a ↦ rw a a
  | inr a ↦ rw a (a, wait_state_for_exit_reason-WaitsAs e.exit_reason)
]

end_repair-IsSorted :
    (sent : Bool) (id : String) (seq : ℤ) (reason : WorkerExitReason) (env_id : String)
    → IsSortedRepair
        (if sent && is_active_exit reason then end_repair id seq reason env_id else no_repair)
unfolding end_repair
end_repair-IsSorted false id seq reason env_id = tt
end_repair-IsSorted true id seq reason env_id = elim (Bool-cases (is_active_exit reason)) [
  | inl a ↦ rw a a
  | inr a ↦ rw a tt
]

module _ (o : Outside) where
  repair_crashed-IsSorted :
      (u : UnmatchedWorkerStarted) (e : Option SessionEndContext) (h : Host)
      → IsSortedRepair (repair_crashed o u e h).0
  unfolding repair_crashed restore_end synthesize_crash crash_repair
  repair_crashed-IsSorted u (some e) h = restored-IsSorted e
  repair_crashed-IsSorted u none h = (refl, wait_state_for_exit_reason-WaitsAs sdk_crash)

  repair_unmatched-IsSorted :
      (snap : Dict EnvelopeState) (u : Option UnmatchedWorkerStarted) (h : Host)
      → IsSortedRepair (repair_unmatched o snap u h).0
  unfolding repair_unmatched
  repair_unmatched-IsSorted snap none h = tt
  repair_unmatched-IsSorted snap (some u) h = repair_crashed-IsSorted u _ h

  repair_degraded-IsSorted :
      (g : Option SignalCandidate) (h : Host) → IsSortedRepair (repair_degraded o g h).0
  unfolding repair_degraded
  repair_degraded-IsSorted none h = tt
  repair_degraded-IsSorted (some g) h = tt

  repair_without_signal-IsSorted :
      (corrupted : Bool) (snap : Dict EnvelopeState) (g : Option SignalCandidate)
      (e : Option SessionEndContext) (h : Host)
      → IsSortedRepair (repair_without_signal o corrupted snap g e h).0
  unfolding repair_without_signal restore_end
  repair_without_signal-IsSorted true snap g (some e) h = restored-IsSorted e
  repair_without_signal-IsSorted true snap g none h = repair_degraded-IsSorted g h
  repair_without_signal-IsSorted false snap g (some e) h = restored-IsSorted e
  repair_without_signal-IsSorted false snap g none h = repair_unmatched-IsSorted snap _ h

  repair_due-IsSorted :
      (corrupted : Bool) (snap : Dict EnvelopeState) (g : Option SignalCandidate)
      (e : Option SessionEndContext) (due : Option SignalCandidate) (h : Host)
      → IsSortedRepair (repair_due o corrupted snap g e due h).0
  unfolding repair_due synthesize_end
  repair_due-IsSorted corrupted snap g e (some s) h =
      end_repair-IsSorted _ s.worker_session_id s.session_seq s.exit_reason o.end_id
  repair_due-IsSorted corrupted snap g e none h =
      repair_without_signal-IsSorted corrupted snap g e h

  repair_folded-IsSorted :
      (corrupted : Bool) (r : Bus.Result (Dict EnvelopeState)) (h : Host)
      → IsSortedRepair (repair_folded o corrupted r h).0
  unfolding repair_folded
  repair_folded-IsSorted corrupted (Bus.err e) h = tt
  repair_folded-IsSorted corrupted (Bus.ok snap) h =
      repair_due-IsSorted corrupted snap (find_latest_active_signal h.bus.payloads snap) _ _ h

  repair-IsSorted :
      (stage : Stage) (corrupted : Bool) (h : Host)
      → IsSortedRepair (repair_half_completed_worker o stage corrupted h).0
  unfolding repair_half_completed_worker
  repair-IsSorted stage corrupted h = elim (Bool-cases (stage_eq stage running)) [
    | inl e ↦
        rw e (repair_folded-IsSorted corrupted (fold h.bus).0 (record h { bus = (fold h.bus).1 }))
    | inr e ↦ rw e tt
  ]

-- What holds of a start that completes.
abbrev pub StartsWell : Host → Startup × Host → Type 0
StartsWell h (completed r, h') =
    IsSorted r.synthesized_worker_end r.crash_pending
    × (has_no_sessions r.manifest.stage ≡ true
        → (h'.bus ≡ h.bus) × (r.synthesized_worker_end ≡ none) × (r.crash_pending ≡ none))
StartsWell h (manifest_read_fatal, h') = h' ≡ h
StartsWell h (events_locked, h') = h'.bus ≡ h.bus

module _ (o : Outside) (m : Manifest) where
  start_terminal-StartsWell :
      (d : Detected) (mode : Mode) (h : Host) → StartsWell h (start_terminal o m d mode h)
  unfolding start_terminal append_started safe_append
  start_terminal-StartsWell d mode h = (tt, λ e. (refl, refl, refl))

  start_live-StartsWell :
      (d : Detected) (mode : Mode) (h : Host)
      → has_no_sessions m.stage ≡ false
      → StartsWell h (start_live o m d mode h)
  unfolding start_live
  start_live-StartsWell d mode h live = (repair-IsSorted o m.stage _ _, λ e. cc (e, live))

  start_detected-StartsWell :
      (d : Option Detected) (h : Host) → StartsWell h (start_detected o m d h)
  unfolding start_detected
  start_detected-StartsWell none h = refl
  start_detected-StartsWell (some d) h = elim (Bool-cases (has_no_sessions m.stage)) [
    | inl e ↦
        rw e (
          start_terminal-StartsWell d (mode_of m.stage (events_has_content h.events) d.corrupted) h)
    | inr e ↦
        rw e
          (start_live-StartsWell d (mode_of m.stage (events_has_content h.events) d.corrupted) h e)
  ]

StartsWell-events :
    (h : Host) (f : EventsFile) (r : Startup × Host)
    → (r.0 ≢ manifest_read_fatal)
    → StartsWell (record h { events = f }) r
    → StartsWell h r
StartsWell-events h f (completed r, h') reads k = k
StartsWell-events h f (manifest_read_fatal, h') reads k = absurd (reads refl)
StartsWell-events h f (events_locked, h') reads k = k

start_detected-reads :
    (o : Outside) (m : Manifest) (d : Option Detected) (h : Host)
    → (start_detected o m d h).0 ≢ manifest_read_fatal
unfolding start_detected start_terminal start_live
start_detected-reads o m none h e = cc e
start_detected-reads o m (some d) h e = elim (Bool-cases (has_no_sessions m.stage)) [
  | inl t ↦ cc (rw t at e)
  | inr t ↦ cc (rw t at e)
]

start_loaded-StartsWell :
    (o : Outside) (m : Manifest) (h : Host) → StartsWell h (start_loaded o m h)
unfolding start_loaded
start_loaded-StartsWell o m h =
    let (d, f) = detect_events_corruption o.events_path h.events in
    StartsWell-events h f (start_detected o m d (record h { events = f }))
      (start_detected-reads o m d (record h { events = f }))
      (start_detected-StartsWell o m d (record h { events = f }))

start_of_load-StartsWell :
    (o : Outside) (h : Host) (r : Manifest.Result Manifest) → StartsWell h (start_of_load o r h)
unfolding start_of_load
start_of_load-StartsWell o h (Manifest.ok m) = start_loaded-StartsWell o m h
start_of_load-StartsWell o h (Manifest.err e) = refl

-- A start that completes names at most one of an end by which the last worker meant to stop and an
-- end for which Meta is waited for in the state of its reason; of a task that is over or paused it
-- names none and leaves the messages alone, as it does where the lock of events.jsonl times out.
-- One that cannot read the manifest changes nothing.
pub run_startup_recovery-StartsWell :
    (o : Outside) (st : Store) (h : Host) → StartsWell h (run_startup_recovery o st h)
unfolding run_startup_recovery
run_startup_recovery-StartsWell o st h = start_of_load-StartsWell o h (load st)
