-- ===== src/Task/Manifest.antt =====
-- The manifest of src/shared/manifest.ts: its fields and the operations that rewrite it under the
-- lock of manifest.yaml.
pub mod Invariant
use deputy_agent.Prelude.{
  String, Bool, true, false, not, ◌||◌, List, [], ◌∷◌, ◌++◌, Option, none, some, if◌then◌else◌,
}
use deputy_agent.Value.{Value}
use deputy_agent.Task.Stage.{Stage, paused, is_in_progress, stage_eq}

pub record StageHistoryEntry : Type 0 where
  pub stage : Stage
  pub entered_at : String

pub record LastError : Type 0 where
  pub error_kind : String
  pub message : String
  pub at : String
  pub details : Option Value

pub record RoleBinding : Type 0 where
  pub provider : String
  pub model : Option String

-- `schemaVersion` is the constant "1.0"; the readonly fields are never written.
pub record Manifest : Type 0 where
  pub task_id : String
  pub title : String
  pub created_at : String
  pub updated_at : String
  pub raw_task_path : String
  pub stage : Stage
  pub stage_history : List StageHistoryEntry
  pub paused_from : Option Stage
  pub last_error : Option LastError
  pub role_bindings : List (String × RoleBinding)

pub data ManifestError : Type 0 where
  invalid_options : ManifestError  -- `TypeError`
  stage_cas_mismatch : (expected found : Stage) → ManifestError
  lock_timeout unreadable atomic_write_failed : ManifestError

pub data Result (A : Type 0) : Type 0 where
  ok : A → Result A
  err : ManifestError → Result A

-- manifest.yaml and what the outside does to one call: `stored` is what `load` reads (`none` if it
-- throws); the lock and the atomic write succeed or do not.
pub record Store : Type 0 where
  pub stored : Option Manifest
  pub lock_acquired : Bool
  pub write_succeeds : Bool
  pub clock : String

-- An omitted `lastError` leaves the field, a null one clears it, another one sets it.
pub data LastErrorOption : Type 0 where
  omitted cleared explicit_undefined : LastErrorOption
  set_to : LastError → LastErrorOption

pub record StageTransitionOptions : Type 0 where
  pub paused_from : Option Stage
  pub last_error : LastErrorOption
  pub expected_from_stage : Option Stage
  pub now_iso : Option String

-- `load`
unfoldable pub load : Store → Result Manifest
load st = elim st.stored [ none ↦ err unreadable | some m ↦ ok m ]

-- `writeManifest`: all of the file is replaced, or nothing
unfoldable pub write_manifest : Manifest → Store → Result Manifest × Store
write_manifest m st =
    if st.write_succeeds
    then (ok m, record st { stored = some m })
    else (err atomic_write_failed, st)

unfoldable pub write_result : Result Manifest → Store → Result Manifest × Store
unfolding write_manifest
write_result (ok m) st = write_manifest m st
write_result (err e) st = (err e, st)

unfoldable pub now_of : Option String → String → String
now_of none clock = clock
now_of (some now) clock = now

abbrev pub then_apply : Result Manifest → (Manifest → Result Manifest) → Result Manifest
then_apply (ok m) f = f m
then_apply (err e) f = err e

-- `withManifestWrite`: lock, load, change, write
unfoldable pub with_manifest_write :
    Option String → (Manifest → String → Result Manifest) → Store → Result Manifest × Store
unfolding load write_result now_of
with_manifest_write now_iso fn st =
    if st.lock_acquired
    then write_result (then_apply (load st) (λ m. fn m (now_of now_iso st.clock))) st
    else (err lock_timeout, st)

-- `mutate`
unfoldable pub mutate : (Manifest → Manifest) → Option String → Store → Result Manifest × Store
unfolding with_manifest_write
mutate mutator now_iso st =
    with_manifest_write now_iso (λ m now. ok (record (mutator m) { updated_at = now })) st

unfoldable pub is_explicit_undefined : LastErrorOption → Bool
is_explicit_undefined explicit_undefined = true
is_explicit_undefined _ = false

unfoldable pub is_pausable_from : Option Stage → Bool
is_pausable_from none = false
is_pausable_from (some s) = is_in_progress s

unfoldable pub written_last_error : LastErrorOption → Option LastError → Option LastError
written_last_error omitted old = old
written_last_error cleared old = none
written_last_error explicit_undefined old = none
written_last_error (set_to e) old = some e

unfoldable pub cas_fails : Option Stage → Stage → Bool
unfolding stage_eq
cas_fails none found = false
cas_fails (some expected) found = not (stage_eq found expected)

unfoldable pub expected_of : Option Stage → Stage → Stage
expected_of none found = found
expected_of (some expected) found = expected

-- the function that `applyStageTransition` runs under the lock
unfoldable pub transition : Stage → StageTransitionOptions → Manifest → String → Result Manifest
unfolding cas_fails expected_of written_last_error stage_eq
transition target opts m now =
    if cas_fails opts.expected_from_stage m.stage
    then err (stage_cas_mismatch (expected_of opts.expected_from_stage m.stage) m.stage)
    else ok (record m {
      last_error = written_last_error opts.last_error m.last_error;
      stage = target;
      paused_from = if stage_eq target paused then opts.paused_from else none;
      stage_history = m.stage_history ++ record { stage = target; entered_at = now } ∷ [];
      updated_at = now;
    })

-- `applyStageTransition`
unfoldable pub apply_stage_transition :
    Stage → StageTransitionOptions → Store → Result Manifest × Store
unfolding is_explicit_undefined is_pausable_from stage_eq transition with_manifest_write
apply_stage_transition target opts st =
    if is_explicit_undefined opts.last_error
    then (err invalid_options, st)
    else if (if stage_eq target paused then not (is_pausable_from opts.paused_from) else false)
    then (err invalid_options, st)
    else with_manifest_write opts.now_iso (transition target opts) st
