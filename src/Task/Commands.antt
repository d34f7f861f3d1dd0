-- ===== src/Task/Commands.antt =====
-- The user's commands on the stage of a task: `execPause`, `execResume`, `execDone` and `execCancel`
-- of src/cli/exec.ts, on a task that exists.
pub mod RoundTrip
use deputy_agent.Prelude.{
  ℕ, ◌==◌, String, Bool, true, false, not, List, [], ◌∷◌, Option, none, some, if◌then◌else◌, str_eq,
  ◌≡◌,
}
use deputy_agent.Task.Stage.{
  Stage, awaiting_user, done, cancelled, paused, is_in_progress, is_terminal, stage_eq,
}
use deputy_agent.Task.Manifest
use deputy_agent.Task.Manifest.{
  Manifest, LastError, Store, LastErrorOption, omitted, set_to, StageTransitionOptions, load,
  apply_stage_transition,
}
use deputy_agent.Task.Files.{
  Files, EventEntry, user_cli_action, stage_transition, ConversationEntry, append_event,
  append_conversation, render_status_md,
}

pub data CliError : Type 0 where
  io stage_not_allowed paused_from_missing : CliError

pub data CommandResult : Type 0 where
  completed : CommandResult
  rejected : CliError → CommandResult

-- what a command does to the stage, once it is admitted, and the rest of its writes
unfoldable pub commit :
    Stage → StageTransitionOptions → (Files → Files) → Files → CommandResult × Files
unfolding apply_stage_transition
commit target opts rest f =
    let (r, store') = apply_stage_transition target opts f.store in
    elim r [
      | Manifest.ok m ↦ (completed, rest (record f { store = store' }))
      | Manifest.err e ↦ (rejected io, record f { store = store' })
    ]

unfoldable pub reject : CliError → Files → CommandResult × Files
reject e f = (rejected e, f)

-- the `load` that every command begins with; what other processes do to the store between it and the
-- locked section is `meanwhile`
unfoldable pub with_manifest :
    (Store → Store) → (Manifest → Files → CommandResult × Files) → Files → CommandResult × Files
unfolding load reject
with_manifest meanwhile k f = elim (load f.store) [
  | Manifest.ok m ↦ k m (record f { store = meanwhile f.store })
  | Manifest.err e ↦ reject io f
]

abbrev pub expecting : Stage → StageTransitionOptions
expecting from = record {
  paused_from = none;
  last_error = omitted;
  expected_from_stage = some from;
  now_iso = none;
}

unfoldable pub pause_loaded : Manifest → Files → CommandResult × Files
unfolding stage_eq reject commit append_event render_status_md
pause_loaded m f =
    if stage_eq m.stage paused
    then reject stage_not_allowed f
    else if not (is_in_progress m.stage)
    then reject stage_not_allowed f
    else commit paused (record (expecting m.stage) { paused_from = some m.stage })
        (λ g. render_status_md (append_event (user_cli_action paused "pause") g)) f

-- `execPause`
unfoldable pub exec_pause : (Store → Store) → Files → CommandResult × Files
unfolding with_manifest pause_loaded
exec_pause meanwhile = with_manifest meanwhile pause_loaded

unfoldable pub resume_to : Option Stage → Files → CommandResult × Files
unfolding reject commit append_event render_status_md
resume_to none f = reject paused_from_missing f
resume_to (some origin) f =
    commit origin (expecting paused)
      (λ g. render_status_md (append_event (user_cli_action origin "resume") g)) f

unfoldable pub resume_loaded : Manifest → Files → CommandResult × Files
unfolding stage_eq reject resume_to
resume_loaded m f =
    if not (stage_eq m.stage paused) then reject stage_not_allowed f else resume_to m.paused_from f

-- `execResume`, without the start of the host that ends it
unfoldable pub exec_resume : (Store → Store) → Files → CommandResult × Files
unfolding with_manifest resume_loaded
exec_resume meanwhile = with_manifest meanwhile resume_loaded

unfoldable pub done_loaded : Manifest → Files → CommandResult × Files
unfolding stage_eq reject commit append_event append_conversation render_status_md
done_loaded m f =
    if is_terminal m.stage
    then reject stage_not_allowed f
    else if not (stage_eq m.stage awaiting_user)
    then reject stage_not_allowed f
    else commit done (expecting awaiting_user)
        (λ g. render_status_md (
          append_conversation
            (record {
              kind = "user_done_confirmation";
              body = "User confirmed receipt of the delivery";
              from_stage = awaiting_user;
            })
            (append_event (stage_transition awaiting_user done "user_cli" none)
              (append_event (user_cli_action done "done") g))))
        f

-- `execDone`
unfoldable pub exec_done : (Store → Store) → Files → CommandResult × Files
unfolding with_manifest done_loaded
exec_done meanwhile = with_manifest meanwhile done_loaded

unfoldable pub reason_or_none : String → Option String
reason_or_none reason = if str_eq reason "" then none else some reason

unfoldable pub cancel_loaded : String → Manifest → Files → CommandResult × Files
unfolding stage_eq reject commit append_event append_conversation render_status_md reason_or_none
cancel_loaded reason m f =
    if is_terminal m.stage
    then reject stage_not_allowed f
    else if (if is_in_progress m.stage then false else not (stage_eq m.stage paused))
    then reject stage_not_allowed f
    else commit cancelled
        (record (expecting m.stage) {
          last_error = set_to (record {
            error_kind = "user_cancelled";
            message = reason;
            at = f.store.clock;
            details = none;
          });
        })
        (λ g. render_status_md (
          append_conversation
            (record {
              kind = "user_cancel";
              body = if str_eq reason "" then "User cancelled the task" else reason;
              from_stage = m.stage;
            })
            (append_event (stage_transition m.stage cancelled "user_cli" (reason_or_none reason))
              (append_event (user_cli_action cancelled "cancel") g))))
        f

-- `execCancel`; `reason` is the given reason, or "" where none is given or it is blank
unfoldable pub exec_cancel : (Store → Store) → String → Files → CommandResult × Files
unfolding with_manifest cancel_loaded
exec_cancel meanwhile reason = with_manifest meanwhile (cancel_loaded reason)
