-- ===== src/Messaging/Recovery/Kept.antt =====
-- What the recovery of src/messaging/recovery.ts never removes.
use deputy_agent.Prelude.{
  String, ◌≡◌, refl, ap, ◌∙◌, arith, false, List, [], ◌∷◌, Option, some, Dict, get, put, get-put,
  str_eq, eq_iff, Bool-cases, inl, inr,
}
use deputy_agent.Messaging.State.{EnvelopeState}
use deputy_agent.Value.{Fields}
use deputy_agent.Messaging.Bus.Keeps.Write.{
  with_lock-Keeps, enqueue-Keeps, append_failed_event-Keeps,
}
use deputy_agent.Messaging.Log.{StateEvent, fold_lines}
use deputy_agent.Messaging.Bus.{
  Payload, Bus, raise, update, ◌>>=◌, ◌>>◌, attempt, refresh_locked, append_line, write_cache,
  append_failed_locked,
}
use deputy_agent.Messaging.Bus.Keeps.{
  Keeps, Keeps-pure, Keeps-get, Keeps-if, Keeps-rescue, Keeps-bind, Keeps-gets,
}
use deputy_agent.Messaging.Bus.Triple.{Triple-keeps, Triple-end, Triple-before}
use deputy_agent.Messaging.Recovery.Locked.{recover_after_crash-Folded, get-fold_lines}
use deputy_agent.Messaging.Bus.Write.{
  EnqueueRequest, is_present, store_payload, write_payload_atomic, enqueue, append_failed_event,
  move_log, quarantine_state,
}
use deputy_agent.Messaging.Recovery.{
  host_event_request, mark_failed, missing_request, Outside, notify, mark_failed, missing_request,
  mark_missing, recover_missing, Scan, recover_after_crash,
}

-- the directory of one envelope stays as it is
abbrev pub HasPayload : String → Payload → Bus → Type 0
HasPayload env_id p b = get env_id b.payloads ≡ some p

present_absent : {o : Option Payload} (p : Payload) → o ≡ some p → is_present o ≡ false → ⊥
unfolding is_present
present_absent p h k = cc

put-other :
    (env_id key : String) (p q : Payload) (m : Dict Payload)
    → get env_id m ≡ some p
    → is_present (get key m) ≡ false
    → get env_id (put key q m) ≡ some p
put-other env_id key p q m h k = elim (Bool-cases (str_eq key env_id)) [
  | inl e ↦ absurd (present_absent p (ap (λ x. get x m) ((eq_iff key env_id).0 e) ∙ h) k)
  | inr e ↦ get-put key env_id q m ∙ rw e h
]

module _ (env_id : String) (p : Payload) where
  attempt-HasPayload : Keeps (HasPayload env_id p) attempt
  unfolding attempt
  attempt-HasPayload = record { at = λ b h. h }

  write_payload_atomic-HasPayload :
      (o : EnqueueRequest) → Keeps (HasPayload env_id p) (write_payload_atomic o)
  unfolding write_payload_atomic
  write_payload_atomic-HasPayload o = Keeps-bind _ _ attempt-HasPayload λ written.
      Keeps-gets (λ b. is_present (get o.env_id b.payloads)) _
        λ b h. elim (Bool-cases written) [
          | inl w ↦ elim (Bool-cases (is_present (get o.env_id b.payloads))) [
            | inl e ↦ rw (w, e) (unfold raise in h)
            | inr e ↦
                rw (w, e)
                  (unfold store_payload update in put-other env_id o.env_id p _ b.payloads h e)
          ]
          | inr w ↦ rw w (unfold raise in h)
        ]

  refresh_locked-HasPayload : Keeps (HasPayload env_id p) refresh_locked
  unfolding refresh_locked
  refresh_locked-HasPayload = record { at = λ b h. ground arith }

  append_apply-HasPayload :
      (e : StateEvent) (f : Dict EnvelopeState → Dict EnvelopeState)
      → Keeps (HasPayload env_id p) (append_line e >> write_cache f)
  unfolding append_line write_cache ◌>>=◌
  append_apply-HasPayload e f = record { at = λ b h. ground arith }

  enqueue-HasPayload : (o : EnqueueRequest) → Keeps (HasPayload env_id p) (enqueue o)
  enqueue-HasPayload o =
      enqueue-Keeps attempt-HasPayload refresh_locked-HasPayload o
        (write_payload_atomic-HasPayload o) (λ n named. append_apply-HasPayload _ _)

  append_failed_event-HasPayload :
      (e k m : String) → Keeps (HasPayload env_id p) (append_failed_event e k m)
  unfolding append_failed_locked
  append_failed_event-HasPayload e k m =
      append_failed_event-Keeps attempt-HasPayload refresh_locked-HasPayload e k m (λ _ _ _.
        Keeps-bind _ _ (Keeps-get _)
          (λ now. Keeps-bind _ _ (Keeps-get _) (λ n. append_apply-HasPayload _ _)))

  notify-HasPayload :
      (id kind body : String) (details : Fields)
      → Keeps (HasPayload env_id p) (notify id kind body details)
  unfolding notify
  notify-HasPayload id kind body details =
      Keeps-rescue _ _
        (Keeps-bind _ _ (Keeps-get _) (λ now.
          Keeps-bind _ _ (enqueue-HasPayload (host_event_request id now kind body details))
            (λ i. Keeps-pure _)))
        (λ e. Keeps-pure _)

  mark_failed-HasPayload : (e : String) → Keeps (HasPayload env_id p) (mark_failed e)
  unfolding mark_failed
  mark_failed-HasPayload e =
      Keeps-rescue _ _ (Keeps-bind _ _ (append_failed_event-HasPayload e _ _) (λ u. Keeps-pure _))
        (λ x. Keeps-pure _)

  mark_missing-HasPayload :
      (o : Outside) (env_ids : List String) → Keeps (HasPayload env_id p) (mark_missing o env_ids)
  unfolding mark_missing missing_request
  mark_missing-HasPayload o [] = Keeps-pure _
  mark_missing-HasPayload o (e ∷ env_ids) = Keeps-bind _ _ (mark_failed-HasPayload e) λ marked.
      Keeps-bind _ _ (Keeps-if marked _ _ (λ _. notify-HasPayload _ _ _ _) (λ _. Keeps-pure _))
        λ event. Keeps-bind _ _ (mark_missing-HasPayload o env_ids) (λ more. Keeps-pure _)

  move_log-HasPayload : Keeps (HasPayload env_id p) (update move_log)
  unfolding move_log update
  move_log-HasPayload = record { at = λ b h. ground arith }

  quarantine_state-HasPayload : Keeps (HasPayload env_id p) quarantine_state
  unfolding quarantine_state
  quarantine_state-HasPayload = with_lock-Keeps attempt-HasPayload _ (
      Keeps-bind _ _ (Keeps-get _) (λ dest. Keeps-bind _ _ move_log-HasPayload (λ u. Keeps-pure _)))

  recover_missing-HasPayload :
      (o : Outside) (scan : Scan) → Keeps (HasPayload env_id p) (recover_missing o scan)
  unfolding recover_missing
  recover_missing-HasPayload o scan =
      Keeps-bind _ _ (mark_missing-HasPayload o scan.missing) (λ marked. Keeps-pure _)

-- Whatever fails on the way, the recovery of a messaging directory whose log folds leaves alone the
-- directory of every envelope of the log.
pub recover_after_crash-HasPayload :
    (o : Outside) (b : Bus) (env_id : String) (p : Payload) {m : Dict EnvelopeState}
    {s : EnvelopeState}
    → fold_lines b.log ≡ some m
    → get env_id m ≡ some s
    → get env_id b.payloads ≡ some p
    → get env_id (recover_after_crash o b).1.payloads ≡ some p
recover_after_crash-HasPayload o b env_id p {m} h k stored =
    Triple-end (recover_after_crash o) b
      (recover_after_crash-Folded ⊥ o env_id (some p) m b.clock (get-fold_lines b.log env_id h k) k
        (λ c before. before.0)
        (λ scan judged.
          Triple-before _ (λ c folded. folded.0.0)
            (Triple-keeps _ (recover_missing-HasPayload env_id p o scan))))
      (stored, (h, (refl, λ e. absurd e)))
