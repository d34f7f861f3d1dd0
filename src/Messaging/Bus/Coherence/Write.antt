-- ===== src/Messaging/Bus/Coherence/Write.antt =====
-- `enqueue`, `appendFailedEvent` and `quarantineState` keep the cache equal to the fold of the log.
use deputy_agent.Prelude.{ℕ, ◌+◌, String, ◌≡◌, Bool, true, false, not, arith, str_eq, put}
use deputy_agent.Messaging.Kinds.{kind_name}
use deputy_agent.Messaging.State.{is_valid_envelope_id}
use deputy_agent.Messaging.Log.{enqueued, apply_event, fold_lines}
use deputy_agent.Messaging.Log.RoundTrip.{fold_lines-append}
use deputy_agent.Messaging.Bus.{update, ◌>>=◌, ◌>>◌, append_line, write_cache, max_state_seq}
use deputy_agent.Messaging.Bus.Keeps.{
  Keeps, Keeps-pure, Keeps-raise, Keeps-rescue, Keeps-bind, Keeps-gets, Keeps-raise_if, keeps_rules,
}
use deputy_agent.Messaging.Bus.Coherence.{
  IsCoherent, with_lock-IsCoherent, refresh_locked-IsCoherent, refresh_at_read-IsCoherent,
  append_apply-IsCoherent, append_failed_locked-IsCoherent,
}
use deputy_agent.Messaging.Bus.Write.{
  EnqueueRequest, fresh_state, write_payload_atomic, enqueue_locked, enqueue_error, enqueue,
  append_failed_event, move_log, quarantine_state,
}

-- What the identifier generator and the clock give: `genEnvelopeId` yields 8 hexadecimal digits, and a
-- timestamp is not empty.
abbrev pub IsDrawn : EnqueueRequest → Type 0
IsDrawn o = (is_valid_envelope_id o.env_id ≡ true) × (str_eq o.created_at "" ≡ false)

write_payload_atomic-IsCoherent : (o : EnqueueRequest) → Keeps IsCoherent (write_payload_atomic o)
unfolding write_payload_atomic ◌>>=◌
write_payload_atomic-IsCoherent o = record { at = λ b h. ground arith }

append_enqueued-IsCoherent :
    (o : EnqueueRequest) (n : ℕ)
    → IsDrawn o
    → str_eq o.from "" ≡ false
    → Keeps IsCoherent (
        append_line (enqueued o.env_id (n + 1) o.created_at o.channel (kind_name o.kind) o.from)
        >> write_cache (put o.env_id (fresh_state o (n + 1))))
append_enqueued-IsCoherent o n drawn named = record {
  at = λ b h.
      let e = enqueued o.env_id (n + 1) o.created_at o.channel (kind_name o.kind) o.from in
      append_apply-IsCoherent e _ b
        (λ _.
          unfold apply_event fresh_state in
          fold_lines-append b.log b.cache e h.0 (drawn.0, omega arith, drawn.1, named))
        h;
}

enqueue_locked-IsCoherent :
    (o : EnqueueRequest)
    → IsDrawn o
    → str_eq o.from "" ≡ false
    → Keeps IsCoherent (enqueue_locked o)
unfolding enqueue_locked
enqueue_locked-IsCoherent o drawn named = Keeps-bind _ _ refresh_locked-IsCoherent λ _.
    Keeps-gets (λ b. max_state_seq b.cache + 1) _
      λ b h.
        (Keeps-bind _ _ (write_payload_atomic-IsCoherent o)
            (λ _. append_enqueued-IsCoherent o (max_state_seq b.cache) drawn named)).at
          b h

pub enqueue-IsCoherent : (o : EnqueueRequest) → IsDrawn o → Keeps IsCoherent (enqueue o)
unfolding enqueue
enqueue-IsCoherent o drawn = Keeps-raise_if _ _ _ λ _. Keeps-raise_if _ _ _ λ named.
    Keeps-raise_if _ _ _ λ _.
      Keeps-bind _ _
        (Keeps-rescue _ _ (with_lock-IsCoherent _ (enqueue_locked-IsCoherent o drawn named))
          (λ e. Keeps-raise (enqueue_error e)))
        (λ _. Keeps-pure o.env_id)

pub valid_of_not : (b : Bool) → not b ≡ false → b ≡ true
valid_of_not b h = ground arith

pub append_failed_event-IsCoherent :
    (env_id error_kind error_message : String)
    → Keeps IsCoherent (append_failed_event env_id error_kind error_message)
unfolding append_failed_event
append_failed_event-IsCoherent env_id error_kind error_message = Keeps-raise_if _ _ _ λ valid.
    Keeps-raise_if _ _ _ λ k. Keeps-raise_if _ _ _ λ m. with_lock-IsCoherent _ (
      Keeps-bind _ _ refresh_at_read-IsCoherent (λ _.
        append_failed_locked-IsCoherent env_id error_kind error_message (valid_of_not _ valid) k m))

move_log-IsCoherent : Keeps IsCoherent (update move_log)
unfolding move_log update fold_lines
move_log-IsCoherent = record { at = λ b h. ground arith }

pub quarantine_state-IsCoherent : Keeps IsCoherent quarantine_state
unfolding quarantine_state
quarantine_state-IsCoherent = with_lock-IsCoherent _ (search (keeps_rules, move_log-IsCoherent))
