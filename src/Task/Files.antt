-- ===== src/Task/Files.antt =====
-- The files of a task that its commands write beside the manifest: events.jsonl, conversation.jsonl
-- and status.md. Their writes are fail-soft: a failure is logged and nothing else (src/cli/exec.ts,
-- src/host/stage_machine.ts, src/shared/status_md.ts).
use deputy_agent.Prelude.{
  arith, ◌≡◌, String, Bool, true, List, [], ◌∷◌, ◌++◌, Option, none, some, if◌then◌else◌,
}
use deputy_agent.Task.Stage.{Stage}
use deputy_agent.Task.Manifest.{Manifest, Store}

pub data EventEntry : Type 0 where
  user_cli_action : (stage : Stage) (action : String) → EventEntry
  stage_transition :
      (from_stage to_stage : Stage) (triggered_by : String) (reason : Option String) → EventEntry

pub record ConversationEntry : Type 0 where
  pub kind : String
  pub body : String
  pub from_stage : Stage

-- `status_md` is the manifest that status.md was last rendered from; `outcomes` says of each next
-- fail-soft write whether it succeeds (all do once the list is used up).
pub record Files : Type 0 where
  pub store : Store
  pub events : List EventEntry
  pub conversation : List ConversationEntry
  pub status_md : Option Manifest
  pub outcomes : List Bool

unfoldable pub next_succeeds : Files → Bool
next_succeeds f = elim f.outcomes [ [] ↦ true | o ∷ os ↦ o ]

unfoldable pub used : Files → Files
used f = record f { outcomes = elim f.outcomes [ [] ↦ [] | o ∷ os ↦ os ] }

-- `eventsIO.append` in a `try`
unfoldable pub append_event : EventEntry → Files → Files
unfolding next_succeeds used
append_event e f =
    if next_succeeds f then record (used f) { events = f.events ++ e ∷ [] } else used f

-- `appendUserConversation`
unfoldable pub append_conversation : ConversationEntry → Files → Files
unfolding next_succeeds used
append_conversation e f =
    if next_succeeds f then record (used f) { conversation = f.conversation ++ e ∷ [] } else used f

unfoldable pub rendered_from : Option Manifest → Option Manifest → Option Manifest
rendered_from none old = old
rendered_from (some m) old = some m

-- `renderStatusMd`: what is written is a function of the manifest and the conversation
unfoldable pub render_status_md : Files → Files
unfolding next_succeeds used rendered_from
render_status_md f =
    if next_succeeds f
    then record (used f) { status_md = rendered_from f.store.stored f.status_md }
    else used f

-- The fail-soft writes leave the manifest alone.
pub append_event-store : (e : EventEntry) (f : Files) → (append_event e f).store ≡ f.store
unfolding append_event
append_event-store e f = ground arith

pub append_conversation-store :
    (e : ConversationEntry) (f : Files) → (append_conversation e f).store ≡ f.store
unfolding append_conversation
append_conversation-store e f = ground arith

pub render_status_md-store : (f : Files) → (render_status_md f).store ≡ f.store
unfolding render_status_md
render_status_md-store f = ground arith
