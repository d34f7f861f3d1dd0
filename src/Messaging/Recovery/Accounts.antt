-- ===== src/Messaging/Recovery/Accounts.antt =====
-- Every envelope without its files is failed after the recovery of src/messaging/recovery.ts, or the
-- report names it.
use deputy_agent.Prelude.{
  String, ◌≡◌, refl, sym, ap, subst, ◌∙◌, Bool, true, false, ◌&&◌, List, Option, some, inl, inr,
  ◌⊎◌, Dict, get, str_eq,
}
use mathlib.Core.Option
use deputy_agent.Value.{includes}
use deputy_agent.Messaging.State.{EnvelopeState, is_valid_envelope_id}
use deputy_agent.Messaging.Log.{Line, fold_lines}
use deputy_agent.Messaging.Bus.{Payload, Bus, ok}
use mathlib.Core.Bool.{true≢false}
use deputy_agent.Messaging.Bus.Coherence.{IsWhole}
use deputy_agent.Messaging.Bus.Triple.{
  After, Triple, Triple-pure, Triple-keeps, Triple-weaken, Triple-bind, Triple-before, Triple-kept,
}
use deputy_agent.Messaging.Bus.Write.{is_present}
use deputy_agent.Messaging.Recovery.{
  Outside, RecoveryReport, Scan, Marked, recover_missing, recover_after_crash,
}
use deputy_agent.Messaging.Recovery.Locked.{
  Folded, IsScanned, recover_after_crash-Folded, get-fold_lines,
}
use deputy_agent.Messaging.Recovery.Stays.{
  is_known, is_failed, with_failed, Stays, mark_missing-Stays,
}
use deputy_agent.Messaging.Recovery.Marking.{known_stays, failed_stays, Done, mark_missing-Done}

-- The log folds, and the envelope is failed in the fold.
abbrev pub IsFailedIn : List Line → String → Type 0
IsFailedIn lines env_id =
    (m : Dict EnvelopeState) × ((fold_lines lines ≡ some m) × (is_failed (get env_id m) ≡ true))

-- what the recovery says of one envelope with this entry
abbrev pub IsAccounted : Outside → String → Option Payload → RecoveryReport → Bus → Type 0
IsAccounted o env_id v report b =
    ((is_present v && (o.is_payload_json env_id && o.is_body_md env_id)) ≡ true)
    ⊎ (IsFailedIn b.log env_id ⊎ (includes report.failed_to_mark_payload_corrupted env_id ≡ true))

Folded-Stays :
    (test : Option EnvelopeState → Bool)
    (lasts : (x : Option EnvelopeState) → test x ≡ true → test (Option.map with_failed x) ≡ true)
    (env_id : String) (v : Option Payload) (m : Dict EnvelopeState) (now : String)
    → str_eq now "" ≡ false
    → test (get env_id m) ≡ true
    → (b : Bus) → Folded Unit env_id v m now b
    → Stays test lasts env_id b
Folded-Stays test lasts env_id v m now timed t b h = (
  (h.0.1.0 ∙ ap some (sym h.1), h.0.1.1.1 tt),
  (ap (λ x. str_eq x "") h.0.1.1.0 ∙ timed, ap (λ x. test (get env_id x)) h.1 ∙ t),
)

Done-accounted :
    (env_id : String) (keys : List String) (marked : Marked) (b : Bus)
    → includes keys env_id ≡ true
    → Done env_id keys marked b
    → IsFailedIn b.log env_id ⊎ (includes marked.unmarked env_id ≡ true)
Done-accounted env_id keys marked b named (inl d) = inl (b.cache, (d.0.0, d.1.1))
Done-accounted env_id keys marked b named (inr (h, inl u)) = inr u
Done-accounted env_id keys marked b named (inr (h, inr absent)) =
    absurd (true≢false (sym named ∙ absent))

module _ (o : Outside) (env_id : String)
    (valid : (x : String) → is_valid_envelope_id (o.gen x) ≡ true)
    (other : (x : String) → str_eq (o.gen x) env_id ≡ false) where
  recover_missing-IsAccounted :
      (v : Option Payload) (m : Dict EnvelopeState) (now : String) {s : EnvelopeState} (scan : Scan)
      → str_eq now "" ≡ false
      → get env_id m ≡ some s
      → IsScanned o env_id v s scan
      → Triple
          (Folded Unit env_id v m now)
          (recover_missing o scan)
          (IsAccounted o env_id v)
          (λ b. Unit)
  unfolding recover_missing
  recover_missing-IsAccounted v m now scan timed h (inl complete) =
      Triple-weaken _ (λ r b u. inl complete) (λ b u. tt)
        (Triple-before {R = λ b. Unit} _ (λ b u. tt) (Triple-keeps _ (record { at = λ b u. tt })))
  recover_missing-IsAccounted v m now scan timed h (inr (inl f)) =
      Triple-before _ (Folded-Stays is_failed failed_stays env_id v m now timed (rw h f)) (
        Triple-bind _ _
          (Triple-kept _
            (mark_missing-Stays is_failed failed_stays env_id o valid other scan.missing)
            (λ b u. tt))
          (λ marked. Triple-pure _ (λ b d. inr (inl (b.cache, (d.0.0, d.1.1))))))
  recover_missing-IsAccounted v m now scan timed h (inr (inr named)) =
      Triple-before _ (Folded-Stays is_known known_stays env_id v m now timed (rw h refl)) (
        Triple-bind _ _
          (Triple-weaken _ (λ marked b d. d) (λ b u. tt)
            (mark_missing-Done env_id o valid other scan.missing))
          (λ marked.
            Triple-pure _ (λ b d. inr (Done-accounted env_id scan.missing marked b named d))))

-- When the recovery of a directory whose log folds and has no partial line returns, whatever fails
-- on the way, where an append that throws leaves the log as it was, each envelope of the log either
-- had both of its files, or is failed in the log now, or is among those that the report gives as
-- not marked. The time is not empty, and the generator draws valid identifiers other than the
-- envelope's.
pub recover_after_crash-IsAccounted :
    (o : Outside) (b : Bus) (env_id : String) {m : Dict EnvelopeState} {s : EnvelopeState}
    {report : RecoveryReport} {after : Bus}
    → fold_lines b.log ≡ some m
    → get env_id m ≡ some s
    → IsWhole b
    → str_eq b.clock "" ≡ false
    → ((x : String) → is_valid_envelope_id (o.gen x) ≡ true)
    → ((x : String) → str_eq (o.gen x) env_id ≡ false)
    → recover_after_crash o b ≡ (ok report, after)
    → IsAccounted o env_id (get env_id b.payloads) report after
recover_after_crash-IsAccounted o b env_id {m} h k whole timed valid other returned =
    let v = get env_id b.payloads in
    subst (λ r. After (IsAccounted o env_id v) (λ c. Unit) r.0 r.1) returned
      ((recover_after_crash-Folded Unit o env_id v m b.clock (get-fold_lines b.log env_id h k) k
          (λ c u. tt)
          (λ scan judged.
            recover_missing-IsAccounted o env_id valid other v m b.clock scan timed k judged)).at
        b (refl, (h, (refl, λ x. whole))))
