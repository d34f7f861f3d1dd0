-- ===== src/Task/Transition.antt =====
-- `checkTransitionAllowed` of src/host/stage_machine.ts: the table of legal stage transitions.
pub mod Graph
use deputy_agent.Prelude.{
  ◌≡◌, refl, Bool, true, false, ◌||◌, ◌&&◌, Option, none, some, arith, if◌then◌else◌, ◌⊎◌, ◌≢◌,
}
use deputy_agent.Task.Stage.{
  Stage, submitted, clarifying, bootstrapping, running, awaiting_user, done, failed, cancelled,
  paused, is_in_progress, is_terminal, stage_eq,
}

pub data TransitionTrigger : Type 0 where
  host meta_tool user_cli : TransitionTrigger

-- The rejection reasons; the source builds a sentence from each with the stages in it.
pub data Rejection : Type 0 where
  unreachable_initial_stage paused_is_user_privilege : Rejection
  cannot_transition_via_meta_tool illegal_meta_tool_transition : Rejection
  done_only_from_awaiting_user cancel_from_terminal pause_only_from_in_progress : Rejection
  illegal_user_cli_transition illegal_host_transition : Rejection

-- the `switch (from)` of the Meta tool's path, for an in-progress `from`; `none` is legal
unfoldable pub check_meta_source : Stage → Stage → Option Rejection
unfolding stage_eq
check_meta_source clarifying to =
    if stage_eq to bootstrapping || is_in_progress to || stage_eq to failed || stage_eq to cancelled
    then none
    else some illegal_meta_tool_transition
check_meta_source bootstrapping to =
    if stage_eq to running || is_in_progress to || stage_eq to failed || stage_eq to cancelled
    then none
    else some illegal_meta_tool_transition
check_meta_source running to =
    if stage_eq to awaiting_user
      || stage_eq to done
      || is_in_progress to
      || stage_eq to failed
      || stage_eq to cancelled
    then none
    else some illegal_meta_tool_transition
check_meta_source awaiting_user to =
    if stage_eq to running
      || stage_eq to done
      || is_in_progress to
      || stage_eq to failed
      || stage_eq to cancelled
    then none
    else some illegal_meta_tool_transition
check_meta_source submitted to = some cannot_transition_via_meta_tool
check_meta_source _ to = some illegal_meta_tool_transition

unfoldable pub check_meta : Stage → Stage → Option Rejection
unfolding check_meta_source stage_eq
check_meta from to =
    if stage_eq to paused
    then some paused_is_user_privilege
    else if is_in_progress from
    then check_meta_source from to
    else some cannot_transition_via_meta_tool

unfoldable pub check_user_cli : Stage → Stage → Option Rejection
unfolding stage_eq
check_user_cli from to =
    if stage_eq to done
    then (if stage_eq from awaiting_user then none else some done_only_from_awaiting_user)
    else if stage_eq to cancelled
    then (if is_in_progress from || stage_eq from paused then none else some cancel_from_terminal)
    else if stage_eq to paused
    then (if is_in_progress from then none else some pause_only_from_in_progress)
    else if stage_eq from paused && is_in_progress to
    then none
    else some illegal_user_cli_transition

unfoldable pub check_host : Stage → Stage → Option Rejection
unfolding stage_eq
check_host from to =
    if stage_eq from submitted && stage_eq to clarifying
    then none
    else if stage_eq from paused && is_in_progress to
    then none
    else if is_in_progress from && stage_eq to paused
    then none
    else if is_in_progress from && stage_eq to failed
    then none
    else some illegal_host_transition

unfoldable pub check_by_trigger : TransitionTrigger → Stage → Stage → Option Rejection
unfolding check_meta check_user_cli check_host
check_by_trigger meta_tool from to = check_meta from to
check_by_trigger user_cli from to = check_user_cli from to
check_by_trigger host from to = check_host from to

-- `checkTransitionAllowed`; `none` is legal
unfoldable pub check_transition_allowed : Stage → Stage → TransitionTrigger → Option Rejection
unfolding check_by_trigger stage_eq
check_transition_allowed from to trigger =
    if stage_eq to submitted
    then some unreachable_initial_stage
    else check_by_trigger trigger from to
