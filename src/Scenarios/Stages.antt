-- ===== src/Scenarios/Stages.antt =====
-- Concrete runs of the stage machine (src/host/stage_machine.ts, src/shared/manifest.ts) and of the
-- user's commands (src/cli/exec.ts).
use deputy_agent.Prelude.{text_lt, pos, Dict}
use deputy_agent.Value.{int, str, arr, nil, field, end, obj}
use deputy_agent.Messaging.Kinds.{meta, reviewer_verdict, worker_completion_claim}
use deputy_agent.Messaging.State.{EnvelopeState}
use deputy_agent.Messaging.Bus.Write.{EnqueueRequest}
use deputy_agent.Task.Gate.{passed, blocked, no_final_verdict, check_final_review_gate}
use deputy_agent.Task.Advance.Gates.{IsReviewed, check_final_review_gate_passed}
use deputy_agent.Scenarios.{empty_bus}
use deputy_agent.Prelude.{◌≡◌, refl, true, false, [], ◌∷◌, none, some, ◌⊎◌, get, put, subst, ◌↔◌}
use deputy_agent.Value.{or_default}
use deputy_agent.Messaging.Schema.{extras_match_to_json_keys}
use deputy_agent.Messaging.State.{is_valid_envelope_id}
use deputy_agent.Messaging.Log.{to_object, fold_lines}
use deputy_agent.Messaging.Bus
use deputy_agent.Messaging.Bus.{Bus}
use deputy_agent.Messaging.Bus.Write.{enqueue}
use deputy_agent.Prelude.Maybe.{some_inj}
use deputy_agent.Task.Stage.{
  stage_eq, Stage, clarifying, bootstrapping, running, awaiting_user, done, paused, cancelled,
}
use deputy_agent.Task.Transition.{
  paused_is_user_privilege, meta_tool, user_cli, check_transition_allowed,
}
use deputy_agent.Task.Transition.Graph.{
  Reaches, stay, move, Visits, Reaches_terminal, Reaches_done, Edge, check_transition_allowed-Edge,
}
use deputy_agent.Task.Manifest
use deputy_agent.Task.Manifest.{
  Manifest, ManifestError, stage_cas_mismatch, Store, StageTransitionOptions, omitted, load,
  apply_stage_transition, cas_fails, now_of,
}
use deputy_agent.Task.Manifest.Invariant.{
  last_stage, IsPauseRecord, IsWellFormed, IsWellFormedStore, IsMoved, apply_stage_transition_error,
  apply_stage_transition_ok, apply_stage_transition-IsWellFormedStore, apply_stage_transition_race,
}
use deputy_agent.Task.Files.{Files}
use deputy_agent.Task.Commands.{completed, expecting, exec_pause, exec_resume}
use deputy_agent.Task.Commands.RoundTrip.{IsResumed, exec_resume-exec_pause}
use deputy_agent.Task.Advance.{
  StageAdvanceRequest, illegal_state, advanced, refused, Host, handle_stage_advance,
}
use deputy_agent.Task.Advance.Accepted.{
  IsGated, IsAppliedTo, handle_stage_advance_accepted, handle_stage_advance_refused,
}
use deputy_agent.Scenarios.{verdict_bus}

abbrev claim_request : EnqueueRequest
claim_request = record {
  channel = meta;
  kind = worker_completion_claim;
  from = "worker";
  body = "done";
  extras = obj (field "workerSessionId" (str "w1") (field "sessionSeq" (int (pos 1)) end));
  env_id = "00000001";
  created_at = "2026-01-01T00:00:02.000000Z";
}

abbrev final_request : EnqueueRequest
final_request = record {
  channel = meta;
  kind = reviewer_verdict;
  from = "reviewer";
  body = "fine";
  extras = obj (
      field "reviewerPhase" (str "final_review") (
        field "reviewerRound" (int (pos 1))
          (field "verdict" (str "pass") (field "issues" (arr nil) end))));
  env_id = "00000002";
  created_at = "2026-01-01T00:00:03.000000Z";
}

-- the bus after a completion claim and the verdict of a final review
abbrev final_bus : Bus
final_bus = (enqueue final_request (enqueue claim_request empty_bus).1).1

final_review_passes : (check_final_review_gate final_bus).0 ≡ Bus.ok passed
unfolding check_final_review_gate enqueue Bus.◌>>=◌ or_default fold_lines to_object
    extras_match_to_json_keys get is_valid_envelope_id put text_lt
final_review_passes = refl

claim_alone_is_blocked :
    (check_final_review_gate (enqueue claim_request empty_bus).1).0
    ≡ Bus.ok (blocked no_final_verdict)
unfolding check_final_review_gate enqueue Bus.◌>>=◌ or_default fold_lines to_object
    extras_match_to_json_keys get is_valid_envelope_id put
claim_alone_is_blocked = refl

check_final_review_gate_passed_example :
    (m : Dict EnvelopeState) × (fold_lines final_bus.log ≡ some m) × IsReviewed final_bus m
check_final_review_gate_passed_example =
    check_final_review_gate_passed final_bus final_review_passes

abbrev at_bootstrapping : Manifest
at_bootstrapping = record {
  task_id = "t1";
  title = "a task";
  created_at = "2026-01-01T00:00:00.000000Z";
  updated_at = "2026-01-01T00:00:00.000000Z";
  raw_task_path = "raw_task.md";
  stage = bootstrapping;
  stage_history = record { stage = bootstrapping; entered_at = "2026-01-01T00:00:00.000000Z" } ∷ [];
  paused_from = none;
  last_error = none;
  role_bindings = [];
}

abbrev store : Store
store = record {
  stored = some at_bootstrapping;
  lock_acquired = true;
  write_succeeds = true;
  clock = "2026-01-01T00:00:05.000000Z";
}

abbrev files : Files
files = record { store = store; events = []; conversation = []; status_md = none; outcomes = [] }

-- the manifest after the advance to `to`
abbrev moved_to : Stage → Manifest
moved_to to = record at_bootstrapping {
  stage = to;
  updated_at = "2026-01-01T00:00:05.000000Z";
  stage_history =
      record { stage = bootstrapping; entered_at = "2026-01-01T00:00:00.000000Z" }
      ∷ record { stage = to; entered_at = "2026-01-01T00:00:05.000000Z" }
      ∷ [];
}

moves_to_running :
    (apply_stage_transition running (expecting bootstrapping) store).0
    ≡ Manifest.ok (moved_to running)
unfolding apply_stage_transition
moves_to_running = refl

apply_stage_transition_ok_example :
    ((apply_stage_transition running (expecting bootstrapping) store).1.stored
      ≡ some (moved_to running))
    × (old : Manifest) × (store.stored ≡ some old)
    × (cas_fails (expecting bootstrapping).expected_from_stage old.stage ≡ false)
    × IsMoved running
        (expecting bootstrapping)
        old
        (now_of (expecting bootstrapping).now_iso store.clock)
        (moved_to running)
apply_stage_transition_ok_example =
    apply_stage_transition_ok running (expecting bootstrapping) store (moved_to running)
      moves_to_running

refuses_stale :
    (apply_stage_transition running (expecting clarifying) store).0
    ≡ Manifest.err (stage_cas_mismatch clarifying bootstrapping)
unfolding apply_stage_transition
refuses_stale = refl

apply_stage_transition_error_example :
    (apply_stage_transition running (expecting clarifying) store).1 ≡ store
apply_stage_transition_error_example =
    apply_stage_transition_error running (expecting clarifying) store
      (stage_cas_mismatch clarifying bootstrapping) refuses_stale

at_bootstrapping-IsWellFormed : IsWellFormed at_bootstrapping
unfolding last_stage IsPauseRecord stage_eq
at_bootstrapping-IsWellFormed = record { ends_with_stage = refl; pause = refl }

store-IsWellFormedStore : IsWellFormedStore store
unfolding IsWellFormedStore
store-IsWellFormedStore m e = subst IsWellFormed (some_inj e) at_bootstrapping-IsWellFormed

apply_stage_transition-IsWellFormedStore_example :
    IsWellFormedStore (apply_stage_transition running (expecting bootstrapping) store).1
apply_stage_transition-IsWellFormedStore_example =
    apply_stage_transition-IsWellFormedStore running (expecting bootstrapping) store
      store-IsWellFormedStore

apply_stage_transition_race_example :
    let st' = (apply_stage_transition running (expecting bootstrapping) store).1 in
    (e : ManifestError) × (apply_stage_transition cancelled (expecting bootstrapping) st'
      ≡ (Manifest.err e, st'))
apply_stage_transition_race_example =
    apply_stage_transition_race running cancelled bootstrapping (expecting bootstrapping)
      (expecting bootstrapping) store (moved_to running) (λ e. cc e) refl moves_to_running

check_transition_allowed-Edge_example :
    (check_transition_allowed awaiting_user done user_cli ≡ none) ↔ Edge user_cli awaiting_user done
check_transition_allowed-Edge_example = check_transition_allowed-Edge user_cli awaiting_user done

Reaches_terminal_example : done ≡ done
Reaches_terminal_example = Reaches_terminal {a = done} {b = done} stay refl

delivered : Reaches bootstrapping done
unfolding check_transition_allowed
delivered =
    move {b = running} meta_tool refl
      (move {b = awaiting_user} meta_tool refl (move user_cli refl stay))

Reaches_done_example : Visits running delivered ⊎ Visits awaiting_user delivered
Reaches_done_example = Reaches_done delivered refl (λ e. cc e)

pauses : (exec_pause (λ st. st) files).0 ≡ completed
unfolding exec_pause
pauses = refl

-- a later call, whose clock and lock are its own
abbrev resumed_files : Files
resumed_files =
    let g = (exec_pause (λ st. st) files).1 in
    record g {
      store = record g.store {
        lock_acquired = true;
        write_succeeds = true;
        clock = "2026-01-02T00:00:00Z";
      };
    }

exec_resume-exec_pause_example :
    ((exec_resume (λ st. st) resumed_files).0 ≡ completed)
    × (after : Manifest) × ((exec_resume (λ st. st) resumed_files).1.store.stored ≡ some after)
    × IsResumed at_bootstrapping after
exec_resume-exec_pause_example =
    exec_resume-exec_pause files resumed_files at_bootstrapping refl pauses refl (refl, refl)

abbrev task_host : Host
task_host = record { files = files; bus = some verdict_bus }

abbrev to_running : StageAdvanceRequest
to_running = record { target_stage = running; reason = none; last_error = omitted }

advances : (handle_stage_advance (λ st. st) to_running task_host).0 ≡ advanced (moved_to running)
unfolding handle_stage_advance enqueue Bus.◌>>=◌ or_default fold_lines to_object
    extras_match_to_json_keys get is_valid_envelope_id put
advances = refl

handle_stage_advance_accepted_example :
    (old : Manifest) × (load store ≡ Manifest.ok old)
    × (check_transition_allowed old.stage running meta_tool ≡ none)
    × IsGated old.stage running (some verdict_bus)
    × IsAppliedTo old.stage to_running store (moved_to running)
handle_stage_advance_accepted_example =
    handle_stage_advance_accepted (λ st. st) to_running task_host (moved_to running) advances

abbrev to_paused : StageAdvanceRequest
to_paused = record { target_stage = paused; reason = none; last_error = omitted }

refuses_paused :
    (handle_stage_advance (λ st. st) to_paused task_host).0
    ≡ refused (illegal_state paused_is_user_privilege)
unfolding handle_stage_advance
refuses_paused = refl

handle_stage_advance_refused_example :
    (handle_stage_advance (λ st. st) to_paused task_host).1.files.store ≡ store
handle_stage_advance_refused_example =
    handle_stage_advance_refused to_paused task_host (illegal_state paused_is_user_privilege)
      refuses_paused
