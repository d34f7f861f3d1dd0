-- ===== src/Task/Advance/Gates.antt =====
-- What an accepted `sh_stage__advance` says of the message bus: the two gates of
-- src/host/stage_machine.ts.
use mathlib.Core.List.{Memᴰ}
use deputy_agent.Prelude.{
  ◌≡◌, refl, sym, subst, ◌∙◌, Bool, true, false, Option, none, some, List, [], ◌∷◌, ◌⊎◌, inl, inr,
  All, values, Dict, String,
}
use deputy_agent.Prelude.Maybe.{some_inj}
use deputy_agent.Messaging.Kinds.{EnvelopeKind, worker_completion_claim, reviewer_verdict}
use deputy_agent.Messaging.Schema.{extras_match_to_json_keys}
use deputy_agent.Messaging.State.{EnvelopeState, OrderKey, envelope_order_key}
use deputy_agent.Messaging.State.Order.{◌<ₖ◌, <ₖ_of_≤ₖ_<ₖ}
use deputy_agent.Messaging.Log.{fold_lines}
use deputy_agent.Messaging.Bus
use deputy_agent.Messaging.Bus.{Bus, Action, pure, gets, ◌>>=◌, next_outcome}
use deputy_agent.Messaging.Bus.Query.{
  is_live_of_kind, is_after, latest_from, find_latest_envelope_anchor_of_kind,
  has_envelope_with_extras_after, anchor_of,
}
use deputy_agent.Messaging.Bus.Steps.{bind-inv, pure-inv}
use deputy_agent.Messaging.Bus.Refreshed.{refreshed, locked-eq-ok, locked_run}
use deputy_agent.Messaging.Bus.Latest.{Finds, latest_from-Finds}
use deputy_agent.Messaging.Bus.Matches.{HasExtras, has_envelope_with_extras_after_found}
use deputy_agent.Task.Gate.{
  passed, check_bootstrap_gate, check_final_review_gate, check_final_since, phase_match, pass_if,
  no_bootstrap_verdict, no_final_verdict, GateReason,
}

-- A reviewer's verdict of the phase stands on the bus: it is not failed, comes after `since`, and its
-- payload carries the phase.
pub HasVerdict : String → Option OrderKey → Bus → Dict EnvelopeState → Type 0
HasVerdict phase since b m =
    (s : EnvelopeState) × Memᴰ s (values m)
    × (is_live_of_kind reviewer_verdict s ≡ true)
    × (is_after since s ≡ true)
    × HasExtras b (extras_match_to_json_keys reviewer_verdict (phase_match phase)) s

pass_if-inv : (seen : Bool) (reason : GateReason) → pass_if seen reason ≡ passed → seen ≡ true
unfolding pass_if
pass_if-inv true reason h = refl
pass_if-inv false reason h = cc h

-- a search for a verdict that the gate goes by
verdict_seen :
    (phase : String) (since : Option OrderKey) (reason : GateReason) (b : Bus)
    → ((has_envelope_with_extras_after reviewer_verdict (phase_match phase) since >>= λ seen.
          pure (pass_if seen reason))
        b).0
      ≡ Bus.ok passed
    → (m : Dict EnvelopeState) × (fold_lines b.log ≡ some m) × HasVerdict phase since b m
unfolding HasVerdict
verdict_seen phase since reason b h =
    let (seen, e, p) = bind-inv _ _ b h in
    let found =
      has_envelope_with_extras_after_found reviewer_verdict (phase_match phase) since b
        (rw (pass_if-inv seen reason (pure-inv _ _ _ p)) at e) in
    let (m, s, f, mem, live, after, extras) = found in (m, f, (s, mem, live, after, extras))

-- Where the gate at the entry to `running` passes, the log of the bus folds to a map with a reviewer's
-- verdict that is not failed and whose phase is `bootstrap_self_review`.
pub check_bootstrap_gate_passed :
    (b : Bus)
    → (check_bootstrap_gate b).0 ≡ Bus.ok passed
    → (m : Dict EnvelopeState) × (fold_lines b.log ≡ some m)
      × HasVerdict "bootstrap_self_review" none b m
unfolding check_bootstrap_gate
check_bootstrap_gate_passed b h = verdict_seen "bootstrap_self_review" none no_bootstrap_verdict b h

-- No completion claim that is not failed is on the bus, or a final review of a reviewer, not failed, comes after every such claim.
pub IsReviewed : Bus → Dict EnvelopeState → Type 0
IsReviewed b m =
    All (λ s. is_live_of_kind worker_completion_claim s ≡ false) (values m)
    ⊎ ((v : EnvelopeState) × Memᴰ v (values m)
        × (is_live_of_kind reviewer_verdict v ≡ true)
        × HasExtras b (extras_match_to_json_keys reviewer_verdict (phase_match "final_review")) v
        × All
            (λ s.
              is_live_of_kind worker_completion_claim s ≡ true
              → envelope_order_key s <ₖ envelope_order_key v)
            (values m))

All-imp :
    {A : Type 0} {P Q : A → Type 0} (f : (a : A) → P a → Q a) (xs : List A) → All P xs → All Q xs
All-imp f [] h = tt
All-imp f (x ∷ xs) h = (f x h.0, All-imp f xs h.1)

module _ (b : Bus) (m : Dict EnvelopeState) where
  final_step :
      (latest : Option EnvelopeState)
      → Finds (is_live_of_kind worker_completion_claim) (values m) latest
      → fold_lines b.log ≡ some m
      → (check_final_since (anchor_of latest) (refreshed b m)).0 ≡ Bus.ok passed
      → IsReviewed b m
  unfolding check_final_since anchor_of IsReviewed HasVerdict is_after
  final_step none finds f h = inl finds
  final_step (some t) (mem, q, latest) f h =
      let (m', f', (v, mem', live, after, extras)) =
        verdict_seen "final_review" (some (envelope_order_key t)) no_final_verdict (refreshed b m)
          h in
      inr (
        v,
        subst (λ x. Memᴰ v (values x)) (some_inj (sym f' ∙ f)) mem',
        live,
        extras,
        All-imp (λ s later is_claim. <ₖ_of_≤ₖ_<ₖ _ _ _ (later is_claim) after) (values m) latest,
      )

  -- what the search for the latest claim gives, and the bus after it
  find_run :
      (kind : EnvelopeKind)
      → next_outcome b.outcomes ≡ true
      → fold_lines b.log ≡ some m
      → find_latest_envelope_anchor_of_kind kind b
        ≡ (Bus.ok (anchor_of (latest_from (is_live_of_kind kind) none (values m))), refreshed b m)
  unfolding find_latest_envelope_anchor_of_kind gets
  find_run kind o f = locked_run _ b m o f

  final_found :
      next_outcome b.outcomes ≡ true
      → fold_lines b.log ≡ some m
      → (check_final_review_gate b).0 ≡ Bus.ok passed
      → IsReviewed b m
  unfolding check_final_review_gate ◌>>=◌
  final_found o f h =
      final_step _ (latest_from-Finds _ (values m)) f
        (rw (find_run worker_completion_claim o f) at h)

-- Where the gate at the exit from `running` passes, the log of the bus folds to a map in which no
-- completion claim stands that is not failed, or a final review of a reviewer, not failed, comes
-- after every such claim.
pub check_final_review_gate_passed :
    (b : Bus)
    → (check_final_review_gate b).0 ≡ Bus.ok passed
    → (m : Dict EnvelopeState) × (fold_lines b.log ≡ some m) × IsReviewed b m
unfolding check_final_review_gate find_latest_envelope_anchor_of_kind
check_final_review_gate_passed b h =
    let (anchor, e, p) =
      bind-inv (find_latest_envelope_anchor_of_kind worker_completion_claim) check_final_since b
        h in
    let (m, o, f, _) = locked-eq-ok _ b e in (m, f, final_found b m o f h)
