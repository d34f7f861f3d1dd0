-- ===== src/Messaging/Recovery/Stays.antt =====
-- What is true of one envelope's state and stays true while the recovery of
-- src/messaging/recovery.ts writes to the bus.
use deputy_agent.Prelude.{
  ℕ, ◌+◌, String, ◌≡◌, refl, arith, Bool, true, false, List, [], ◌∷◌, ◌++◌, Option, none, some,
  Bool-cases, inl, inr, Dict, get, put, modify, get-put, get-modify, str_eq,
}
use mathlib.Core.Option
use deputy_agent.Value.{Fields}
use deputy_agent.Messaging.Kinds.{kind_name}
use deputy_agent.Messaging.State.{EnvelopeState, is_valid_envelope_id}
use deputy_agent.Messaging.Log.{
  json, StateEvent, enqueued, failed, to_object, apply_event, fold_lines,
}
use deputy_agent.Messaging.Log.RoundTrip.{fold_lines-append}
use deputy_agent.Messaging.Bus.{
  Bus, ◌>>=◌, ◌>>◌, attempt, next_outcome, refresh_locked, append_line, write_cache, max_state_seq,
  append_failed_locked,
}
use deputy_agent.Messaging.Bus.Keeps.{
  Keeps, Keeps-pure, Keeps-if, Keeps-rescue, Keeps-bind, Keeps-gets,
}
use deputy_agent.Messaging.Bus.Keeps.Write.{enqueue-Keeps, append_failed_event-Keeps}
use deputy_agent.Messaging.Bus.Coherence.{IsCoherent}
use deputy_agent.Messaging.Bus.Coherence.Write.{IsDrawn, valid_of_not}
use deputy_agent.Messaging.Bus.Write.{
  EnqueueRequest, fresh_state, write_payload_atomic, enqueue, append_failed_event,
}
use deputy_agent.Messaging.Recovery.{
  Outside, host_event_request, notify, missing_request, mark_failed, mark_missing,
}

-- whether the fold has the envelope, and has it failed
abbrev pub is_known : Option EnvelopeState → Bool
is_known none = false
is_known (some s) = true

abbrev pub is_failed : Option EnvelopeState → Bool
is_failed none = false
is_failed (some s) = s.failed

-- the envelope failed
abbrev pub with_failed : EnvelopeState → EnvelopeState
with_failed s = record s { failed = true }

-- A test of one envelope's state that no later event undoes: the cache is the fold of the log, the
-- clock has a time, and the test is true.
module _ (test : Option EnvelopeState → Bool)
    (lasts : (x : Option EnvelopeState) → test x ≡ true → test (Option.map with_failed x) ≡ true)
    (env_id : String) where
  abbrev pub Stays : Bus → Type 0
  Stays b = IsCoherent b × ((str_eq b.clock "" ≡ false) × (test (get env_id b.cache) ≡ true))

  pub attempt-Stays : Keeps Stays attempt
  unfolding attempt
  attempt-Stays = record { at = λ b h. h }

  pub refresh_locked-Stays : Keeps Stays refresh_locked
  unfolding refresh_locked
  refresh_locked-Stays = record { at = λ b h. rw (refresh_locked, h.0.0) h }

  write_payload_atomic-Stays : (o : EnqueueRequest) → Keeps Stays (write_payload_atomic o)
  unfolding write_payload_atomic ◌>>=◌
  write_payload_atomic-Stays o = record { at = λ b h. ground (arith, h) }

  pub append_apply-Stays :
      (e : StateEvent) (f : Dict EnvelopeState → Dict EnvelopeState) (b : Bus)
      → fold_lines (b.log ++ json (to_object e) ∷ []) ≡ some (f b.cache)
      → test (get env_id (f b.cache)) ≡ true
      → Stays b
      → Stays ((append_line e >> write_cache f) b).1
  unfolding append_line write_cache ◌>>=◌
  append_apply-Stays e f b w t h = elim (Bool-cases (next_outcome b.outcomes)) [
    | inl ok ↦ rw (ok, h.0.1.0) ((w, (refl, h.0.1.1)), (h.1.0, t))
    | inr off ↦ rw (off, h.0.1.1) ((h.0.0, (h.0.1.0, refl)), h.1)
  ]

  append_enqueued-Stays :
      (o : EnqueueRequest) (n : ℕ)
      → IsDrawn o
      → str_eq o.env_id env_id ≡ false
      → str_eq o.from "" ≡ false
      → Keeps Stays (
          append_line (enqueued o.env_id (n + 1) o.created_at o.channel (kind_name o.kind) o.from)
          >> write_cache (put o.env_id (fresh_state o (n + 1))))
  append_enqueued-Stays o n drawn other named = record {
    at = λ b h.
        let e = enqueued o.env_id (n + 1) o.created_at o.channel (kind_name o.kind) o.from in
        append_apply-Stays e _ b
          (unfold apply_event fresh_state in
            fold_lines-append b.log b.cache e h.0.0 (drawn.0, omega arith, drawn.1, named))
          (rw (get-put o.env_id env_id (fresh_state o (n + 1)) b.cache, other) h.1.1) h;
  }

  pub enqueue-Stays :
      (o : EnqueueRequest) → IsDrawn o → str_eq o.env_id env_id ≡ false → Keeps Stays (enqueue o)
  enqueue-Stays o drawn other =
      enqueue-Keeps attempt-Stays refresh_locked-Stays o (write_payload_atomic-Stays o)
        (λ n named. append_enqueued-Stays o n drawn other named)

  pub kept_by_failed :
      (key : String) (m : Dict EnvelopeState)
      → test (get env_id m) ≡ true
      → test (get env_id (modify key with_failed m)) ≡ true
  kept_by_failed key m h = elim (Bool-cases (str_eq key env_id)) [
    | inl e ↦ rw (get-modify key env_id with_failed m, e) (lasts (get env_id m) h)
    | inr e ↦ rw (get-modify key env_id with_failed m, e) h
  ]

  pub append_failed_locked-Stays :
      (key k msg : String)
      → is_valid_envelope_id key ≡ true
      → str_eq k "" ≡ false
      → str_eq msg "" ≡ false
      → Keeps Stays (append_failed_locked key k msg)
  unfolding append_failed_locked ◌>>=◌
  append_failed_locked-Stays key k msg valid hk hm = record {
    at = λ b h.
        let e = failed key (max_state_seq b.cache + 1) b.clock k msg in
        append_apply-Stays e _ b
          (unfold apply_event in
            fold_lines-append b.log b.cache e h.0.0 (valid, omega arith, hk, hm))
          (kept_by_failed key b.cache h.1.1) h;
  }

  pub append_failed_event-Stays : (key k msg : String) → Keeps Stays (append_failed_event key k msg)
  append_failed_event-Stays key k msg =
      append_failed_event-Keeps attempt-Stays refresh_locked-Stays key k msg
        (λ valid hk hm. append_failed_locked-Stays key k msg (valid_of_not _ valid) hk hm)

  notify-Stays :
      (id kind body : String) (details : Fields)
      → is_valid_envelope_id id ≡ true
      → str_eq id env_id ≡ false
      → Keeps Stays (notify id kind body details)
  unfolding notify host_event_request
  notify-Stays id kind body details valid other =
      Keeps-rescue _ _
        (Keeps-gets (λ b. b.clock) _
          λ b h.
            (Keeps-bind _ _
                (enqueue-Stays (host_event_request id b.clock kind body details) (valid, h.1.0)
                  other)
                (λ i. Keeps-pure _)).at
              b h)
        (λ e. Keeps-pure _)

  pub missing_request-Stays :
      (o : Outside)
      → ((x : String) → is_valid_envelope_id (o.gen x) ≡ true)
      → ((x : String) → str_eq (o.gen x) env_id ≡ false)
      → (key : String) → Keeps Stays (missing_request o key)
  unfolding missing_request
  missing_request-Stays o valid other key = notify-Stays _ _ _ _ (valid key) (other key)

  pub mark_failed-Stays : (key : String) → Keeps Stays (mark_failed key)
  unfolding mark_failed
  mark_failed-Stays key =
      Keeps-rescue _ _ (Keeps-bind _ _ (append_failed_event-Stays key _ _) (λ u. Keeps-pure _))
        (λ x. Keeps-pure _)

  pub mark_missing-Stays :
      (o : Outside)
      → ((x : String) → is_valid_envelope_id (o.gen x) ≡ true)
      → ((x : String) → str_eq (o.gen x) env_id ≡ false)
      → (keys : List String) → Keeps Stays (mark_missing o keys)
  unfolding mark_missing
  mark_missing-Stays o valid other [] = Keeps-pure _
  mark_missing-Stays o valid other (key ∷ keys) = Keeps-bind _ _ (mark_failed-Stays key) λ marked.
      Keeps-bind _ _
        (Keeps-if marked _ _ (λ _. missing_request-Stays o valid other key) (λ _. Keeps-pure _))
        λ event. Keeps-bind _ _ (mark_missing-Stays o valid other keys) (λ more. Keeps-pure _)
