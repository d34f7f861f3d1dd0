-- ===== src/Task/Gate.antt =====
-- The two host gates of src/host/stage_machine.ts, as actions on the message bus.
use deputy_agent.Prelude.{
  String, Bool, true, false, not, ◌||◌, ◌&&◌, Option, none, some, if◌then◌else◌,
}
use deputy_agent.Value.{Fields, end, field, str}
use deputy_agent.Messaging.Kinds.{worker_completion_claim, reviewer_verdict}
use deputy_agent.Messaging.State.{OrderKey}
use deputy_agent.Messaging.Bus.{Action, pure, ◌>>=◌}
use deputy_agent.Messaging.Bus.Query.{
  find_latest_envelope_anchor_of_kind, has_envelope_with_extras_after,
}
use deputy_agent.Task.Stage.{Stage, running, awaiting_user, done, stage_eq}

pub data GateReason : Type 0 where
  bus_not_initialized no_bootstrap_verdict no_final_verdict : GateReason

-- `GateResult`: passed, or the reason why not
pub data GateResult : Type 0 where
  passed : GateResult
  blocked : GateReason → GateResult

abbrev pub phase_match : String → Fields
phase_match phase = field "reviewerPhase" (str phase) end

unfoldable pub pass_if : Bool → GateReason → GateResult
pass_if true reason = passed
pass_if false reason = blocked reason

-- `checkBootstrapGate` on a bus that is there
unfoldable pub check_bootstrap_gate : Action GateResult
unfolding has_envelope_with_extras_after pass_if
check_bootstrap_gate = do
  seen ← has_envelope_with_extras_after reviewer_verdict (phase_match "bootstrap_self_review") none
  pure (pass_if seen no_bootstrap_verdict)

unfoldable pub check_final_since : Option OrderKey → Action GateResult
unfolding has_envelope_with_extras_after pass_if
check_final_since none = pure passed
check_final_since (some anchor) = do
  seen ← has_envelope_with_extras_after reviewer_verdict (phase_match "final_review") (some anchor)
  pure (pass_if seen no_final_verdict)

-- `checkFinalReviewGate` on a bus that is there
unfoldable pub check_final_review_gate : Action GateResult
unfolding find_latest_envelope_anchor_of_kind check_final_since
check_final_review_gate = do
  anchor ← find_latest_envelope_anchor_of_kind worker_completion_claim
  check_final_since anchor

unfoldable pub enters_running : Stage → Stage → Bool
unfolding stage_eq
enters_running from to = stage_eq to running && not (stage_eq from running)

unfoldable pub leaves_running : Stage → Stage → Bool
unfolding stage_eq
leaves_running from to = stage_eq from running && (stage_eq to awaiting_user || stage_eq to done)

-- `checkStageGate` on a bus that is there
unfoldable pub check_stage_gate : Stage → Stage → Action GateResult
unfolding enters_running leaves_running check_bootstrap_gate check_final_review_gate
check_stage_gate from to =
    if enters_running from to
    then check_bootstrap_gate
    else if leaves_running from to
    then check_final_review_gate
    else pure passed

-- `checkStageGate` on `null`: the gates fail closed
unfoldable pub check_stage_gate_no_bus : Stage → Stage → GateResult
unfolding enters_running leaves_running
check_stage_gate_no_bus from to =
    if enters_running from to
    then blocked bus_not_initialized
    else if leaves_running from to
    then blocked bus_not_initialized
    else passed
