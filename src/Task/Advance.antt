-- ===== src/Task/Advance.antt =====
-- `handleStageAdvance` of src/host/stage_machine.ts: the entry of the Meta tool's stage transition.
pub mod Gates
pub mod Accepted
use deputy_agent.Prelude.{
  String, Bool, true, false, not, ◌||◌, List, [], ◌∷◌, ◌++◌, Option, none, some, if◌then◌else◌, ◌≡◌,
  refl,
}
use deputy_agent.Messaging.Bus
use deputy_agent.Messaging.Bus.{Bus}
use deputy_agent.Task.Stage.{Stage}
use deputy_agent.Task.Transition.{Rejection, meta_tool, check_transition_allowed}
use deputy_agent.Task.Gate.{
  GateResult, passed, blocked, GateReason, check_stage_gate, check_stage_gate_no_bus,
}
use deputy_agent.Task.Files.{Files, stage_transition, append_event, render_status_md}
use deputy_agent.Task.Manifest
use deputy_agent.Task.Manifest.{
  Manifest, ManifestError, stage_cas_mismatch, Store, LastErrorOption, load, apply_stage_transition,
}

pub record StageAdvanceRequest : Type 0 where
  pub target_stage : Stage
  pub reason : Option String
  pub last_error : LastErrorOption

-- The error kinds of a refusal, with the cause where the message has it.
pub data AdvanceError : Type 0 where
  load_failed gate_check_failed transition_failed : AdvanceError  -- host_internal
  illegal_state : Rejection → AdvanceError
  reviewer_required : GateReason → AdvanceError
  concurrent_conflict : AdvanceError

pub data StageAdvanceResult : Type 0 where
  advanced : Manifest → StageAdvanceResult
  refused : AdvanceError → StageAdvanceResult

-- What the handler works on: the task's files and the bus (`none` for null).
pub record Host : Type 0 where
  pub files : Files
  pub bus : Option Bus

-- the gate check, and the bus after it
unfoldable pub gate_of : Stage → Stage → Option Bus → Bus.Result GateResult × Option Bus
unfolding check_stage_gate check_stage_gate_no_bus
gate_of from to none = (Bus.ok (check_stage_gate_no_bus from to), none)
gate_of from to (some b) = let (r, b') = check_stage_gate from to b in (r, some b')

unfoldable pub transition_error : ManifestError → AdvanceError
transition_error (stage_cas_mismatch expected found) = concurrent_conflict
transition_error e = transition_failed

-- the part after `applyStageTransition`
unfoldable pub finish_transition :
    Stage → StageAdvanceRequest → Manifest.Result Manifest → Host → StageAdvanceResult × Host
unfolding transition_error append_event render_status_md
finish_transition from req (Manifest.err e) h = (refused (transition_error e), h)
finish_transition from req (Manifest.ok m) h =
    let event = stage_transition from req.target_stage "meta_tool" req.reason in
    (advanced m, record h { files = render_status_md (append_event event h.files) })

unfoldable pub set_store : Store → Host → Host
set_store st h = record h { files = record h.files { store = st } }

unfoldable pub apply_transition : Stage → StageAdvanceRequest → Host → StageAdvanceResult × Host
unfolding apply_stage_transition finish_transition set_store
apply_transition from req h =
    let (r, store') =
      apply_stage_transition req.target_stage
        (record {
          paused_from = none;
          last_error = req.last_error;
          expected_from_stage = some from;
          now_iso = none;
        })
        h.files.store in
    finish_transition from req r (set_store store' h)

-- the part after the gate check; `meanwhile` is what other processes do to the store up to the lock
unfoldable pub after_gate :
    (Store → Store)
    → Stage
    → StageAdvanceRequest
    → Bus.Result GateResult
    → Host
    → StageAdvanceResult × Host
unfolding apply_transition set_store
after_gate meanwhile from req (Bus.err e) h = (refused gate_check_failed, h)
after_gate meanwhile from req (Bus.ok (blocked reason)) h = (refused (reviewer_required reason), h)
after_gate meanwhile from req (Bus.ok passed) h =
    apply_transition from req (set_store (meanwhile h.files.store) h)

unfoldable pub after_check :
    (Store → Store)
    → Stage
    → StageAdvanceRequest
    → Option Rejection
    → Host
    → StageAdvanceResult × Host
unfolding gate_of after_gate
after_check meanwhile from req (some reason) h = (refused (illegal_state reason), h)
after_check meanwhile from req none h =
    let (gate, bus') = gate_of from req.target_stage h.bus in
    after_gate meanwhile from req gate (record h { bus = bus' })

unfoldable pub after_load :
    (Store → Store)
    → StageAdvanceRequest
    → Manifest.Result Manifest
    → Host
    → StageAdvanceResult × Host
unfolding check_transition_allowed after_check
after_load meanwhile req (Manifest.err e) h = (refused load_failed, h)
after_load meanwhile req (Manifest.ok m) h =
    after_check meanwhile m.stage req (check_transition_allowed m.stage req.target_stage meta_tool)
      h

-- `handleStageAdvance`
unfoldable pub handle_stage_advance :
    (Store → Store) → StageAdvanceRequest → Host → StageAdvanceResult × Host
unfolding load after_load
handle_stage_advance meanwhile req h = after_load meanwhile req (load h.files.store) h
