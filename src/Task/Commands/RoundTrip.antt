-- ===== src/Task/Commands/RoundTrip.antt =====
-- `execPause` and `execResume` of src/cli/exec.ts undo each other.
use deputy_agent.Prelude.{
  ◌≡◌, ◌≢◌, refl, sym, subst, ap, ◌∙◌, arith, true, false, not, none, some, if◌then◌else◌, String,
}
use deputy_agent.Prelude.Maybe.{some_inj}
use deputy_agent.Task.Stage.{Stage, paused, is_in_progress, stage_eq}
use deputy_agent.Task.Manifest
use deputy_agent.Task.Manifest.{
  Manifest, ManifestError, Store, StageTransitionOptions, omitted, load, apply_stage_transition,
  cas_fails, is_explicit_undefined, is_pausable_from, now_of, with_manifest_write, transition,
  then_apply, written_last_error,
}
use deputy_agent.Task.Manifest.Invariant.{
  IsMoved, Applied, kept, wrote, apply-Applied, apply_stage_transition_ok, load-some,
}
use deputy_agent.Task.Files.{
  Files, append_event, append_event-store, render_status_md, render_status_md-store,
  user_cli_action,
}
use deputy_agent.Task.Commands.{
  CommandResult, completed, commit, with_manifest, expecting, pause_loaded, resume_loaded,
  exec_pause, exec_resume, reject,
}

-- The lock is taken and the write succeeds.
abbrev pub IsWritable : Store → Type 0
IsWritable st = (st.lock_acquired ≡ true) × (st.write_succeeds ≡ true)

-- The options are admitted for the target.
abbrev pub IsAdmitted : Stage → StageTransitionOptions → Type 0
IsAdmitted target opts =
    (is_explicit_undefined opts.last_error ≡ false)
    × ((if stage_eq target paused then not (is_pausable_from opts.paused_from) else false) ≡ false)

module _ {target : Stage} {opts : StageTransitionOptions} {st : Store} where
  Applied-store :
      {r : Manifest.Result Manifest × Store} (m : Manifest)
      → Applied target opts st r
      → r.0 ≡ Manifest.ok m
      → r.1 ≡ record st { stored = some m }
  Applied-store m (kept _) h = cc h
  Applied-store m (wrote old m' _ _ _) h =
      let same : m' ≡ m = cc h in ap (λ x. record st { stored = some x }) same

module _ (target : Stage) (opts : StageTransitionOptions) (st : Store) where
  returned-IsWritable :
      (m : Manifest) → (apply_stage_transition target opts st).0 ≡ Manifest.ok m → IsWritable st
  unfolding apply_stage_transition
  returned-IsWritable m h = (ground arith, ground arith)

  never_throws :
      (old : Manifest)
      → st.stored ≡ some old
      → IsWritable st
      → IsAdmitted target opts
      → cas_fails opts.expected_from_stage old.stage ≡ false
      → (e : ManifestError) → (apply_stage_transition target opts st).0 ≢ Manifest.err e
  unfolding apply_stage_transition load
  never_throws old s w a c e h = ground arith

returns_of :
    (r : Manifest.Result Manifest)
    → ((e : ManifestError) → r ≢ Manifest.err e)
    → (m : Manifest) × (r ≡ Manifest.ok m)
returns_of (Manifest.ok m) h = (m, refl)
returns_of (Manifest.err e) h = absurd (h e refl)

-- What a command that is completed leaves.
abbrev pub IsCommitted : Stage → StageTransitionOptions → Files → Files → Type 0
IsCommitted target opts f g =
    (m : Manifest) × (old : Manifest) × (f.store.stored ≡ some old)
    × (cas_fails opts.expected_from_stage old.stage ≡ false)
    × IsMoved target opts old (now_of opts.now_iso f.store.clock) m
    × (g.store ≡ record f.store { stored = some m })

module _ (target : Stage) (opts : StageTransitionOptions) (rest : Files → Files) (f : Files) where
  commit_completed :
      (r : Manifest.Result Manifest)
      → (apply_stage_transition target opts f.store).0 ≡ r
      → (commit target opts rest f).0 ≡ completed
      → (m : Manifest) × (r ≡ Manifest.ok m)
        × ((commit target opts rest f).1
            ≡ rest (record f { store = record f.store { stored = some m } }))
  unfolding commit
  commit_completed (Manifest.ok m) e h = (
    m,
    refl,
    rw (e, commit)
        (ap (λ x. rest (record f { store = x }))
          (Applied-store m (apply-Applied target opts f.store) e)),
  )
  commit_completed (Manifest.err x) e h = cc (e, h)

  -- a command that is completed, if what follows the transition leaves the manifest alone
  commit-IsCommitted :
      ((g : Files) → (rest g).store ≡ g.store)
      → (commit target opts rest f).0 ≡ completed
      → IsWritable f.store × IsCommitted target opts f (commit target opts rest f).1
  commit-IsCommitted same h =
      let (m, e, after) = commit_completed _ refl h in
      let (_, old, s, c, moved) = apply_stage_transition_ok target opts f.store m e in
      (
        returned-IsWritable target opts f.store m e,
        (m, old, s, c, moved, (ap (λ g. g.store) after ∙ same _)),
      )

  commit_runs :
      (old : Manifest)
      → f.store.stored ≡ some old
      → IsWritable f.store
      → IsAdmitted target opts
      → cas_fails opts.expected_from_stage old.stage ≡ false
      → (commit target opts rest f).0 ≡ completed
  unfolding commit
  commit_runs old s w a c =
      let (m, e) = returns_of _ (never_throws target opts f.store old s w a c) in rw (e, commit)

pause_rest : Files → Files
pause_rest g = render_status_md (append_event (user_cli_action paused "pause") g)

resume_rest : Stage → Files → Files
resume_rest origin g = render_status_md (append_event (user_cli_action origin "resume") g)

pause_rest_store : (g : Files) → (pause_rest g).store ≡ g.store
unfolding pause_rest
pause_rest_store g = render_status_md-store _ ∙ append_event-store _ g

resume_rest_store : (origin : Stage) (g : Files) → (resume_rest origin g).store ≡ g.store
unfolding resume_rest
resume_rest_store origin g = render_status_md-store _ ∙ append_event-store _ g

abbrev pause_options : Stage → StageTransitionOptions
pause_options from = record (expecting from) { paused_from = some from }

pause_started :
    (m : Manifest) (f : Files)
    → (pause_loaded m f).0 ≡ completed
    → (is_in_progress m.stage ≡ true) × (stage_eq m.stage paused ≡ false)
unfolding pause_loaded reject
pause_started m f h = (ground arith, ground arith)

pause_is_commit :
    (m : Manifest) (f : Files)
    → is_in_progress m.stage ≡ true
    → stage_eq m.stage paused ≡ false
    → pause_loaded m f ≡ commit paused (pause_options m.stage) pause_rest f
unfolding pause_loaded pause_rest
pause_is_commit m f a b = rw (a, b)

with_manifest_run :
    (k : Manifest → Files → CommandResult × Files) (f : Files) (m : Manifest)
    → f.store.stored ≡ some m
    → with_manifest (λ st. st) k f ≡ k m f
unfolding with_manifest
with_manifest_run k f m s = rw (load-some f.store m s, with_manifest)

-- A pause that is completed.
exec_pause-inv :
    (f : Files) (m : Manifest)
    → f.store.stored ≡ some m
    → (exec_pause (λ st. st) f).0 ≡ completed
    → (is_in_progress m.stage ≡ true)
      × IsWritable f.store
      × IsCommitted paused (pause_options m.stage) f (exec_pause (λ st. st) f).1
unfolding exec_pause
exec_pause-inv f m s h =
    let run = with_manifest_run pause_loaded f m s in
    let (a, b) = pause_started m f (rw run at h) in
    let whole = run ∙ pause_is_commit m f a b in
    let (w, c) =
      commit-IsCommitted paused (pause_options m.stage) pause_rest f pause_rest_store
        (rw whole at h) in
    (a, w, rw whole c)

resume_is_commit :
    (m : Manifest) (f : Files) (origin : Stage)
    → m.stage ≡ paused
    → m.paused_from ≡ some origin
    → resume_loaded m f ≡ commit origin (expecting paused) (resume_rest origin) f
unfolding resume_loaded resume_rest stage_eq
resume_is_commit m f origin p q = rw (p, q)

resume-IsAdmitted :
    (origin : Stage) → is_in_progress origin ≡ true → IsAdmitted origin (expecting paused)
unfolding stage_eq is_explicit_undefined
resume-IsAdmitted origin a = (refl, ground arith)

cas_of_stage : (m : Manifest) → m.stage ≡ paused → cas_fails (some paused) m.stage ≡ false
unfolding cas_fails stage_eq
cas_of_stage m p = rw p

-- A task that is paused can be resumed.
exec_resume_runs :
    (f : Files) (m : Manifest) (origin : Stage)
    → f.store.stored ≡ some m
    → m.stage ≡ paused
    → m.paused_from ≡ some origin
    → is_in_progress origin ≡ true
    → IsWritable f.store
    → ((exec_resume (λ st. st) f).0 ≡ completed)
      × IsCommitted origin (expecting paused) f (exec_resume (λ st. st) f).1
unfolding exec_resume
exec_resume_runs f m origin s p q a w =
    let whole = with_manifest_run resume_loaded f m s ∙ resume_is_commit m f origin p q in
    let runs =
      commit_runs origin (expecting paused) (resume_rest origin) f m s w
        (resume-IsAdmitted origin a) (cas_of_stage m p) in
    let (_, c) =
      commit-IsCommitted origin (expecting paused) (resume_rest origin) f (resume_rest_store origin)
        runs in
    (rw whole runs, rw whole c)

-- What a task is after a pause and a resume: as before, but for its history and times.
pub record IsResumed (before after : Manifest) : Type 0 where
  pub same_stage : after.stage ≡ before.stage
  pub not_paused : after.paused_from ≡ none
  pub same_error : after.last_error ≡ before.last_error
  pub same_bindings : after.role_bindings ≡ before.role_bindings

twice_moved :
    (m p after : Manifest) (t t' : String)
    → IsMoved paused (pause_options m.stage) m t p
    → IsMoved m.stage (expecting paused) p t' after
    → IsResumed m after
unfolding written_last_error
twice_moved m p after t t' one two = record {
  same_stage = two.stage_eq_target;
  not_paused = ground (arith, two.paused_from);
  same_error = two.last_error ∙ one.last_error;
  same_bindings = two.bindings ∙ one.bindings;
}

pause_origin :
    (m p : Manifest) (t : String)
    → IsMoved paused (pause_options m.stage) m t p
    → p.paused_from ≡ some m.stage
unfolding stage_eq
pause_origin m p t one = one.paused_from

-- Where a pause of a task is completed, a resume of the manifest that it left, whose lock and write
-- succeed, is completed too, and the manifest has the stage, the last error and the bindings of
-- before, and no `pausedFrom`.
pub exec_resume-exec_pause :
    (f g : Files) (m : Manifest)
    → f.store.stored ≡ some m
    → (exec_pause (λ st. st) f).0 ≡ completed
    → g.store.stored ≡ (exec_pause (λ st. st) f).1.store.stored
    → IsWritable g.store
    → ((exec_resume (λ st. st) g).0 ≡ completed)
      × (after : Manifest) × ((exec_resume (λ st. st) g).1.store.stored ≡ some after)
      × IsResumed m after
unfolding now_of
exec_resume-exec_pause f g m s h left writable =
    let (a, _, paused_at) = exec_pause-inv f m s h in
    let (p, old, s1, _, one, store1) = paused_at in
    let same : old ≡ m = some_inj (sym s1 ∙ s) in
    let one' : IsMoved paused (pause_options m.stage) m f.store.clock p =
      subst (λ x. IsMoved paused (pause_options m.stage) x f.store.clock p) same one in
    let stored1 = left ∙ ap (λ (x : Store). x.stored) store1 in
    let (runs, resumed_at) =
      exec_resume_runs g p m.stage stored1 one'.stage_eq_target (pause_origin m p _ one') a
        writable in
    let (after, p', s2, _, two, store2) = resumed_at in
    let same' : p' ≡ p = some_inj (sym s2 ∙ stored1) in
    (
      runs,
      after,
      ap (λ (x : Store). x.stored) store2,
      twice_moved m p after _ _ one'
          (subst (λ x. IsMoved m.stage (expecting paused) x g.store.clock after) same' two),
    )
