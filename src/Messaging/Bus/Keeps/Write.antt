-- ===== src/Messaging/Bus/Keeps/Write.antt =====
-- What `enqueue` and `appendFailedEvent` keep, from what their parts keep.
use deputy_agent.Prelude.{ℕ, ◌+◌, String, ◌≡◌, false, not, str_eq, put}
use deputy_agent.Messaging.Kinds.{kind_name}
use deputy_agent.Messaging.State.{is_valid_envelope_id}
use deputy_agent.Messaging.Log.{enqueued}
use deputy_agent.Messaging.Bus.{
  Bus, Action, ◌>>◌, attempt, with_lock, refresh_locked, refresh_at_read, append_line, write_cache,
  max_state_seq, append_failed_locked,
}
use deputy_agent.Messaging.Bus.Keeps.{
  Keeps, Keeps-pure, Keeps-raise, Keeps-if, Keeps-rescue, Keeps-bind, Keeps-gets, Keeps-raise_if,
}
use deputy_agent.Messaging.Bus.Write.{
  EnqueueRequest, fresh_state, write_payload_atomic, enqueue_locked, enqueue_error, enqueue,
  append_failed_event,
}

module _ {P : Bus → Type 0} (on_attempt : Keeps P attempt) where
  pub with_lock-Keeps : {A : Type 0} (body : Action A) → Keeps P body → Keeps P (with_lock body)
  unfolding with_lock
  with_lock-Keeps body k =
      Keeps-bind _ _ on_attempt (λ acquired. Keeps-if acquired _ _ (λ _. k) (λ _. Keeps-raise _))

module _ {P : Bus → Type 0} (on_attempt : Keeps P attempt)
    (on_refresh : Keeps P refresh_locked) where
  pub enqueue-Keeps :
      (o : EnqueueRequest)
      → Keeps P (write_payload_atomic o)
      → ((n : ℕ)
          → str_eq o.from "" ≡ false
          → Keeps P (
              append_line
                (enqueued o.env_id (n + 1) o.created_at o.channel (kind_name o.kind) o.from)
              >> write_cache (put o.env_id (fresh_state o (n + 1)))))
      → Keeps P (enqueue o)
  unfolding enqueue enqueue_locked
  enqueue-Keeps o stored appended = Keeps-raise_if _ _ _ λ _. Keeps-raise_if _ _ _ λ named.
      Keeps-raise_if _ _ _ λ _.
        Keeps-bind _ _
          (Keeps-rescue _ _
            (with_lock-Keeps on_attempt _ (
              Keeps-bind _ _ on_refresh λ _.
                Keeps-gets (λ b. max_state_seq b.cache + 1) _
                  λ b h.
                    (Keeps-bind _ _ stored (λ _. appended (max_state_seq b.cache) named)).at b h))
            (λ e. Keeps-raise (enqueue_error e)))
          (λ _. Keeps-pure o.env_id)

  pub append_failed_event-Keeps :
      (env_id error_kind error_message : String)
      → (not (is_valid_envelope_id env_id) ≡ false
          → str_eq error_kind "" ≡ false
          → str_eq error_message "" ≡ false
          → Keeps P (append_failed_locked env_id error_kind error_message))
      → Keeps P (append_failed_event env_id error_kind error_message)
  unfolding append_failed_event refresh_at_read
  append_failed_event-Keeps env_id error_kind error_message appended = Keeps-raise_if _ _ _ λ valid.
      Keeps-raise_if _ _ _ λ k. Keeps-raise_if _ _ _ λ m. with_lock-Keeps on_attempt _ (
        Keeps-bind _ _ (Keeps-rescue _ _ on_refresh (λ e. Keeps-raise _)) (λ _. appended valid k m))
