-- ===== src/Task/Advance/Accepted.antt =====
-- What holds where `handleStageAdvance` of src/host/stage_machine.ts accepts or refuses.
use deputy_agent.Prelude.{
  ◌≡◌, refl, ◌∙◌, arith, true, false, Option, none, some, Dict, Bool-cases, inl, inr,
}
use deputy_agent.Messaging.Log.{fold_lines}
use deputy_agent.Messaging.State.{EnvelopeState}
use deputy_agent.Messaging.Bus
use deputy_agent.Messaging.Bus.{Bus, pure}
use deputy_agent.Task.Stage.{Stage}
use deputy_agent.Task.Transition.{Rejection, meta_tool, check_transition_allowed}
use deputy_agent.Task.Gate.{
  GateResult, passed, blocked, check_stage_gate, check_stage_gate_no_bus, enters_running,
  leaves_running,
}
use deputy_agent.Task.Manifest
use deputy_agent.Task.Manifest.{
  Manifest, ManifestError, Store, LastErrorOption, StageTransitionOptions, load, cas_fails,
  apply_stage_transition, now_of,
}
use deputy_agent.Task.Manifest.Invariant.{
  IsMoved, apply_stage_transition_ok, apply_stage_transition_error,
}
use deputy_agent.Task.Advance.{
  StageAdvanceRequest, AdvanceError, advanced, refused, Host, handle_stage_advance, after_load,
  after_check, after_gate, gate_of, apply_transition, finish_transition, set_store,
}
use deputy_agent.Task.Advance.Gates.{
  HasVerdict, IsReviewed, check_bootstrap_gate_passed, check_final_review_gate_passed,
}

-- The bus is there, its log can be folded, and the fold has `P`.
abbrev pub OnBus : Option Bus → (Bus → Dict EnvelopeState → Type 0) → Type 0
OnBus bus P =
    (b : Bus) × (bus ≡ some b) × ((m : Dict EnvelopeState) × (fold_lines b.log ≡ some m) × P b m)

-- What the gates ask of the bus for a transition.
pub IsGated : Stage → Stage → Option Bus → Type 0
IsGated from to bus =
    (enters_running from to ≡ true → OnBus bus (HasVerdict "bootstrap_self_review" none))
    × (leaves_running from to ≡ true → OnBus bus IsReviewed)

exits_apart : (from to : Stage) → enters_running from to ≡ true → leaves_running from to ≡ false
unfolding enters_running leaves_running
exits_apart from to h = ground arith

-- with a bus
stage_gate_passed :
    (from to : Stage) (b : Bus)
    → (check_stage_gate from to b).0 ≡ Bus.ok passed
    → IsGated from to (some b)
unfolding check_stage_gate IsGated
stage_gate_passed from to b h = (
  (λ e. (b, refl, check_bootstrap_gate_passed b (rw e at h))),
  (λ l. elim (Bool-cases (enters_running from to)) [
    | inl e ↦ cc (l, exits_apart from to e)
    | inr e ↦ (b, refl, check_final_review_gate_passed b (rw (e, l) at h))
  ]),
)

-- without one
no_bus_passed : (from to : Stage) → check_stage_gate_no_bus from to ≡ passed → IsGated from to none
unfolding check_stage_gate_no_bus IsGated
no_bus_passed from to h = ((λ e. ground arith), (λ l. ground arith))

gate_of_passed :
    (from to : Stage) (bus : Option Bus)
    → (gate_of from to bus).0 ≡ Bus.ok passed
    → IsGated from to bus
unfolding gate_of
gate_of_passed from to none h = no_bus_passed from to (cc h)
gate_of_passed from to (some b) h = stage_gate_passed from to b h

-- the options of the handler's call of `applyStageTransition`
abbrev pub advance_options : Stage → StageAdvanceRequest → StageTransitionOptions
advance_options from req = record {
  paused_from = none;
  last_error = req.last_error;
  expected_from_stage = some from;
  now_iso = none;
}

-- What is known of the manifests where a transition from `from` was made: `st` is what was stored
-- when the lock was taken.
abbrev pub IsAppliedTo : Stage → StageAdvanceRequest → Store → Manifest → Type 0
IsAppliedTo from req st m =
    (current : Manifest) × (st.stored ≡ some current)
    × (cas_fails (some from) current.stage ≡ false)
    × IsMoved req.target_stage (advance_options from req) current st.clock m

finish_accepted :
    (from : Stage) (req : StageAdvanceRequest) (r : Manifest.Result Manifest) (h : Host)
    (m : Manifest)
    → (finish_transition from req r h).0 ≡ advanced m
    → r ≡ Manifest.ok m
unfolding finish_transition
finish_accepted from req (Manifest.ok m') h m e = cc e
finish_accepted from req (Manifest.err x) h m e = cc e

apply_accepted :
    (from : Stage) (req : StageAdvanceRequest) (h : Host) (m : Manifest)
    → (apply_transition from req h).0 ≡ advanced m
    → IsAppliedTo from req h.files.store m
unfolding apply_transition now_of
apply_accepted from req h m e =
    let (_, current, stored, cas, moved) =
      apply_stage_transition_ok req.target_stage (advance_options from req) h.files.store m
        (finish_accepted from req _ _ m e) in
    (current, stored, cas, moved)

module _ (meanwhile : Store → Store) (req : StageAdvanceRequest) (m : Manifest) where
  gate_accepted :
      (from : Stage) (gate : Bus.Result GateResult) (h : Host)
      → (after_gate meanwhile from req gate h).0 ≡ advanced m
      → (gate ≡ Bus.ok passed) × IsAppliedTo from req (meanwhile h.files.store) m
  unfolding after_gate set_store
  gate_accepted from (Bus.ok passed) h e = (refl, apply_accepted from req _ m e)
  gate_accepted from (Bus.ok (blocked reason)) h e = cc e
  gate_accepted from (Bus.err x) h e = cc e

  check_accepted :
      (from : Stage) (c : Option Rejection) (h : Host)
      → (after_check meanwhile from req c h).0 ≡ advanced m
      → (c ≡ none)
        × IsGated from req.target_stage h.bus
        × IsAppliedTo from req (meanwhile h.files.store) m
  unfolding after_check
  check_accepted from none h e =
      let (g, applied) = gate_accepted from _ _ e in
      (refl, gate_of_passed from req.target_stage h.bus g, applied)
  check_accepted from (some x) h e = cc e

  load_accepted :
      (r : Manifest.Result Manifest) (h : Host)
      → (after_load meanwhile req r h).0 ≡ advanced m
      → (old : Manifest) × (r ≡ Manifest.ok old)
        × (check_transition_allowed old.stage req.target_stage meta_tool ≡ none)
        × IsGated old.stage req.target_stage h.bus
        × IsAppliedTo old.stage req (meanwhile h.files.store) m
  unfolding after_load
  load_accepted (Manifest.ok old) h e =
      let (legal, gated, applied) = check_accepted old.stage _ h e in
      (old, refl, legal, gated, applied)
  load_accepted (Manifest.err x) h e = cc e

-- Where `handleStageAdvance` answers that the task has advanced, whatever other processes did to
-- the manifest before its lock was taken: the transition from the stage it had loaded is legal for
-- the Meta tool; if it enters `running` the bus is there and its log folds to a map with a live
-- verdict of the bootstrap review; if it goes from `running` to `awaiting_user` or `done` the log
-- folds to a map in which every live completion claim is followed by one live verdict of a final
-- review; and the manifest stored when the lock was taken still had that stage, and was moved to
-- the target.
pub handle_stage_advance_accepted :
    (meanwhile : Store → Store) (req : StageAdvanceRequest) (h : Host) (m : Manifest)
    → (handle_stage_advance meanwhile req h).0 ≡ advanced m
    → (old : Manifest) × (load h.files.store ≡ Manifest.ok old)
      × (check_transition_allowed old.stage req.target_stage meta_tool ≡ none)
      × IsGated old.stage req.target_stage h.bus
      × IsAppliedTo old.stage req (meanwhile h.files.store) m
unfolding handle_stage_advance
handle_stage_advance_accepted meanwhile req h m e = load_accepted meanwhile req m _ h e

module _ (from : Stage) (req : StageAdvanceRequest) (x : AdvanceError) where
  finish_refused :
      (r : Manifest.Result Manifest) (h : Host)
      → (finish_transition from req r h).0 ≡ refused x
      → (e : ManifestError) × (r ≡ Manifest.err e)
        × ((finish_transition from req r h).1.files.store ≡ h.files.store)
  unfolding finish_transition
  finish_refused (Manifest.err e) h q = (e, refl, refl)
  finish_refused (Manifest.ok m) h q = cc q

  apply_refused :
      (h : Host)
      → (apply_transition from req h).0 ≡ refused x
      → (apply_transition from req h).1.files.store ≡ h.files.store
  unfolding apply_transition set_store
  apply_refused h q =
      let (e, failed, same) = finish_refused _ _ q in
      same
      ∙ apply_stage_transition_error req.target_stage (advance_options from req) h.files.store e
          failed

  gate_refused :
      (gate : Bus.Result GateResult) (h : Host)
      → (after_gate (λ st. st) from req gate h).0 ≡ refused x
      → (after_gate (λ st. st) from req gate h).1.files.store ≡ h.files.store
  unfolding after_gate set_store
  gate_refused (Bus.ok passed) h q = apply_refused _ q
  gate_refused (Bus.ok (blocked reason)) h q = refl
  gate_refused (Bus.err e) h q = refl

  check_refused :
      (c : Option Rejection) (h : Host)
      → (after_check (λ st. st) from req c h).0 ≡ refused x
      → (after_check (λ st. st) from req c h).1.files.store ≡ h.files.store
  unfolding after_check
  check_refused none h q = gate_refused _ _ q
  check_refused (some reason) h q = refl

load_refused :
    (req : StageAdvanceRequest) (x : AdvanceError) (r : Manifest.Result Manifest) (h : Host)
    → (after_load (λ st. st) req r h).0 ≡ refused x
    → (after_load (λ st. st) req r h).1.files.store ≡ h.files.store
unfolding after_load
load_refused req x (Manifest.ok m) h q = check_refused m.stage req x _ h q
load_refused req x (Manifest.err e) h q = refl

-- Where `handleStageAdvance` refuses, and other processes do nothing to the manifest before its
-- lock is taken, manifest.yaml is as before.
pub handle_stage_advance_refused :
    (req : StageAdvanceRequest) (h : Host) (e : AdvanceError)
    → (handle_stage_advance (λ st. st) req h).0 ≡ refused e
    → (handle_stage_advance (λ st. st) req h).1.files.store ≡ h.files.store
unfolding handle_stage_advance
handle_stage_advance_refused req h e r = load_refused req e _ h r
