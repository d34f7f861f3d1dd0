-- ===== src/Task/Manifest/Invariant.antt =====
-- What `applyStageTransition` of src/shared/manifest.ts keeps true of manifest.yaml.
use deputy_agent.Prelude.{
  String, ◌≡◌, ◌≢◌, refl, sym, subst, ap, ap₂, ◌∙◌, arith, true, false, not, Option, none, some,
  List, [], ◌∷◌, ◌++◌, inl, inr, Bool-cases, Option-cases, if◌then◌else◌,
}
use deputy_agent.Prelude.Maybe.{some_inj}
use deputy_agent.Task.Stage.{Stage, paused, stage_eq, stage_eq-eq}
use deputy_agent.Task.Manifest.{
  Manifest, StageHistoryEntry, ManifestError, Result, ok, err, Store, StageTransitionOptions, load,
  is_pausable_from, apply_stage_transition, with_manifest_write, transition, cas_fails,
  write_result, written_last_error, now_of, is_explicit_undefined,
}

-- the stage of the last entry of a history
unfoldable pub last_stage : List StageHistoryEntry → Option Stage
last_stage [] = none
last_stage (e ∷ []) = some e.stage
last_stage (e ∷ e' ∷ es) = last_stage (e' ∷ es)

last_stage-append :
    (es : List StageHistoryEntry) (e : StageHistoryEntry) → last_stage (es ++ e ∷ []) ≡ some e.stage
unfolding last_stage
last_stage-append [] e = refl
last_stage-append (x ∷ []) e = refl
last_stage-append (x ∷ y ∷ es) e = last_stage-append (y ∷ es) e

-- `paused_from` names a stage at work when the task is paused, and nothing otherwise
unfoldable pub IsPauseRecord : Manifest → Type 0
IsPauseRecord m =
    if stage_eq m.stage paused
    then is_pausable_from m.paused_from ≡ true
    else (m.paused_from ≡ none)

-- A manifest in order: the history ends with the stage, and the pause record agrees with it.
pub record IsWellFormed (m : Manifest) : Type 0 where
  pub ends_with_stage : last_stage m.stage_history ≡ some m.stage
  pub pause : IsPauseRecord m

-- What is stored is in order.
unfoldable pub IsWellFormedStore : Store → Type 0
IsWellFormedStore st = (m : Manifest) → st.stored ≡ some m → IsWellFormed m

-- How a call can go: it throws and the store is as before, or it has stored what it returns.
pub data Applied (target : Stage) (opts : StageTransitionOptions) (st : Store)
    : Result Manifest × Store → Type 0 where
  kept : (e : ManifestError) → Applied target opts st (err e, st)
  wrote :
      (old m : Manifest)
      → st.stored ≡ some old
      → cas_fails opts.expected_from_stage old.stage ≡ false
      → transition target opts old (now_of opts.now_iso st.clock) ≡ ok m
      → Applied target opts st (ok m, record st { stored = some m })

pub load-some : (st : Store) (m : Manifest) → st.stored ≡ some m → load st ≡ ok m
unfolding load
load-some st m e = rw e

module _ (target : Stage) (opts : StageTransitionOptions) (st : Store) where
  -- the locked section on a manifest that can be read
  locked-Applied :
      (old : Manifest)
      → st.stored ≡ some old
      → Applied target opts st
          (write_result (transition target opts old (now_of opts.now_iso st.clock)) st)
  unfolding write_result transition
  locked-Applied old e = elim (Bool-cases (cas_fails opts.expected_from_stage old.stage)) [
    | inl c ↦ rw c (kept _)
    | inr c ↦ elim (Bool-cases st.write_succeeds) [
      | inl w ↦ rw (c, w) (wrote old _ e c (rw c))
      | inr w ↦ rw (c, w) (kept _)
    ]
  ]

  read-Applied :
      Applied target opts st (with_manifest_write opts.now_iso (transition target opts) st)
  unfolding with_manifest_write
  read-Applied = elim (Bool-cases st.lock_acquired) [
    | inr l ↦ rw l (kept _)
    | inl l ↦ elim (Option-cases st.stored) [
      | inl e ↦ rw (l, e) (kept _)
      | inr (old, e) ↦ simp (l, load-some st old e) (locked-Applied old e)
    ]
  ]

  pub apply-Applied : Applied target opts st (apply_stage_transition target opts st)
  unfolding apply_stage_transition
  apply-Applied = elim (Bool-cases (is_explicit_undefined opts.last_error)) [
    | inl u ↦ rw u (kept _)
    | inr u ↦
        elim (Bool-cases
          (if stage_eq target paused then not (is_pausable_from opts.paused_from) else false)) [
            | inl q ↦ rw (u, q) (kept _)
            | inr q ↦ rw (u, q) read-Applied
          ]
  ]

  -- A call that returns has a stage to come back to, if it pauses.
  returned_pausable :
      (m : Manifest)
      → (apply_stage_transition target opts st).0 ≡ ok m
      → stage_eq target paused ≡ true
      → is_pausable_from opts.paused_from ≡ true
  unfolding apply_stage_transition
  returned_pausable m h p = ground arith

-- What a transition that is not refused makes of the manifest.
pub record IsMoved (target : Stage) (opts : StageTransitionOptions) (old : Manifest) (now : String)
    (m : Manifest) : Type 0 where
  pub stage_eq_target : m.stage ≡ target
  pub history :
      m.stage_history ≡ old.stage_history ++ record { stage = target; entered_at = now } ∷ []
  pub paused_from : m.paused_from ≡ (if stage_eq target paused then opts.paused_from else none)
  pub last_error : m.last_error ≡ written_last_error opts.last_error old.last_error
  pub task : (m.task_id ≡ old.task_id) × (m.title ≡ old.title)
  pub bindings : m.role_bindings ≡ old.role_bindings

module _ (target : Stage) (opts : StageTransitionOptions) (old m : Manifest) (now : String) where
  transition-IsMoved : transition target opts old now ≡ ok m → IsMoved target opts old now m
  unfolding transition
  transition-IsMoved h = record {
    stage_eq_target = ground (arith, h);
    history = ground (arith, h);
    paused_from = ground (arith, h);
    last_error = ground (arith, h);
    task = (ground (arith, h), ground (arith, h));
    bindings = ground (arith, h);
  }

  moved-IsWellFormed :
      IsMoved target opts old now m
      → (stage_eq target paused ≡ true → is_pausable_from opts.paused_from ≡ true)
      → IsWellFormed m
  unfolding IsPauseRecord
  moved-IsWellFormed h p = record {
    ends_with_stage = rw (h.history, h.stage_eq_target) (last_stage-append old.stage_history _);
    pause = elim (Bool-cases (stage_eq target paused)) [
      | inl q ↦ rw (h.stage_eq_target, h.paused_from, q) (p q)
      | inr q ↦ rw (h.stage_eq_target, h.paused_from, q) refl
    ];
  }

module _ {target : Stage} {opts : StageTransitionOptions} {st : Store} where
  Applied-error :
      {r : Result Manifest × Store} (e : ManifestError)
      → Applied target opts st r
      → r.0 ≡ err e
      → r.1 ≡ st
  Applied-error e (kept _) h = refl
  Applied-error e (wrote _ _ _ _ _) h = cc h

-- A call of `applyStageTransition` that throws leaves manifest.yaml as it is, whatever the options
-- and the failure.
pub apply_stage_transition_error :
    (target : Stage) (opts : StageTransitionOptions) (st : Store) (e : ManifestError)
    → (apply_stage_transition target opts st).0 ≡ err e
    → (apply_stage_transition target opts st).1 ≡ st
apply_stage_transition_error target opts st e h = Applied-error e (apply-Applied target opts st) h

module _ {target : Stage} {opts : StageTransitionOptions} {st : Store} where
  Applied-ok :
      {r : Result Manifest × Store} (m : Manifest)
      → Applied target opts st r
      → r.0 ≡ ok m
      → (r.1.stored ≡ some m)
        × (old : Manifest) × (st.stored ≡ some old)
        × (cas_fails opts.expected_from_stage old.stage ≡ false)
        × IsMoved target opts old (now_of opts.now_iso st.clock) m
  Applied-ok m (kept _) h = cc h
  Applied-ok m (wrote old m' e c t) h =
      (cc h, old, e, c, transition-IsMoved target opts old m _ (cc (t, h)))

-- A call of `applyStageTransition` that returns a manifest has stored that manifest. It was made
-- from the one that was stored, whose stage is the expected one if one is given: the stage is the
-- target, the history is longer by one entry at its end, `pausedFrom` is kept only for `paused`,
-- `lastError` is replaced, cleared or kept as the options say, and the task's identity and bindings
-- are the same.
pub apply_stage_transition_ok :
    (target : Stage) (opts : StageTransitionOptions) (st : Store) (m : Manifest)
    → (apply_stage_transition target opts st).0 ≡ ok m
    → ((apply_stage_transition target opts st).1.stored ≡ some m)
      × (old : Manifest) × (st.stored ≡ some old)
      × (cas_fails opts.expected_from_stage old.stage ≡ false)
      × IsMoved target opts old (now_of opts.now_iso st.clock) m
apply_stage_transition_ok target opts st m h = Applied-ok m (apply-Applied target opts st) h

stored_after :
    (target : Stage) (opts : StageTransitionOptions) (st : Store) (r : Result Manifest)
    → (apply_stage_transition target opts st).0 ≡ r
    → IsWellFormedStore st
    → IsWellFormedStore (apply_stage_transition target opts st).1
unfolding IsWellFormedStore
stored_after target opts st (err e) h wf = rw (apply_stage_transition_error target opts st e h) wf
stored_after target opts st (ok m) h wf =
    let (s, old, _, _, moved) = apply_stage_transition_ok target opts st m h in
    λ m' e.
      subst IsWellFormed (cc (s, e))
        (moved-IsWellFormed target opts old m _ moved (returned_pausable target opts st m h))

-- Where the stored manifest, if there is one that can be read, is in order (its history ends with
-- its stage, and it names a stage at work in `pausedFrom` if the task is paused and nothing
-- otherwise), it is in order after any call of `applyStageTransition`, whatever it does.
pub apply_stage_transition-IsWellFormedStore :
    (target : Stage) (opts : StageTransitionOptions) (st : Store)
    → IsWellFormedStore st
    → IsWellFormedStore (apply_stage_transition target opts st).1
apply_stage_transition-IsWellFormedStore target opts st wf = stored_after target opts st _ refl wf

pub cas_holds :
    (o : Option Stage) (from found : Stage)
    → o ≡ some from
    → cas_fails o found ≡ false
    → found ≡ from
unfolding cas_fails
cas_holds (some _) from found e h = ground (arith, stage_eq-eq found from)
cas_holds none from found e h = cc e

module _ (target from : Stage) (opts : StageTransitionOptions) (st : Store) (m : Manifest) where
  -- a call that expects another stage than the stored one
  refused_result :
      (r : Result Manifest)
      → (apply_stage_transition target opts st).0 ≡ r
      → st.stored ≡ some m
      → m.stage ≢ from
      → opts.expected_from_stage ≡ some from
      → (e : ManifestError) × (apply_stage_transition target opts st ≡ (err e, st))
  refused_result (err e) h s ne expects =
      (e, ap₂ (λ x y. (x, y)) h (apply_stage_transition_error target opts st e h))
  refused_result (ok m') h s ne expects =
      let (_, old, stored, cas, _) = apply_stage_transition_ok target opts st m' h in
      let same : old ≡ m = some_inj (sym stored ∙ s) in
      absurd
        (ne (ap (λ (x : Manifest). x.stage) (sym same) ∙ cas_holds _ from old.stage expects cas))

-- After a transition that returned, to a stage other than `from`, a call that expects the stage
-- `from` is refused, whatever its target, and manifest.yaml stays as the first one left it.
pub apply_stage_transition_race :
    (a b from : Stage) (opts opts' : StageTransitionOptions) (st : Store) (m : Manifest)
    → a ≢ from
    → opts'.expected_from_stage ≡ some from
    → (apply_stage_transition a opts st).0 ≡ ok m
    → let st' = (apply_stage_transition a opts st).1 in
      (e : ManifestError) × (apply_stage_transition b opts' st' ≡ (err e, st'))
apply_stage_transition_race a b from opts opts' st m ne expects h =
    let (s, _, _, _, moved) = apply_stage_transition_ok a opts st m h in
    refused_result b from opts' _ m _ refl s (λ e. ne (cc (e, moved.stage_eq_target))) expects
