-- ===== src/Messaging/Bus/Coherence.antt =====
-- The cache of the bus and its log: every locked helper that writes one event leaves the cache equal
-- to the fold of the log.
pub mod Write
pub mod Deliver
pub mod Respond
use deputy_agent.Prelude.{
  ℕ, zero, suc, ◌+◌, ◌<◌, String, ◌≡◌, refl, Bool, true, false, not, List, [], ◌∷◌, ◌++◌, Option,
  none, some, arith, str_eq, eq_iff, ap, ◌∙◌, Option-cases, Bool-cases, inl, inr, Dict, get, put,
  modify, if◌then◌else◌,
}
use deputy_agent.Messaging.State.{EnvelopeState, is_valid_envelope_id}
use deputy_agent.Messaging.Log.{
  Line, json, StateEvent, enqueued, read, responded, failed, to_object, apply_event, fold_lines,
}
use deputy_agent.Messaging.Log.RoundTrip.{fold_lines-append}
use deputy_agent.Messaging.Bus.{
  Bus, BusError, Action, Result, ok, err, pure, raise, gets, rescue, ◌>>=◌, ◌>>◌, raise_if, attempt,
  with_lock, next_outcome, refresh_locked, refresh_at_read, append_line, write_cache, max_state_seq,
  append_read_locked, append_failed_locked,
}
use deputy_agent.Messaging.Bus.Keeps.{Keeps}

-- The log ends with a line feed, and an append that throws will leave it as it is.
abbrev pub IsWhole : Bus → Type 0
IsWhole b = (b.tail ≡ none) × (b.cuts ≡ [])

-- The cache is what `refreshLocked` would rebuild, from a log that is whole.
abbrev pub IsCoherent : Bus → Type 0
IsCoherent b = (fold_lines b.log ≡ some b.cache) × IsWhole b

pub with_lock-IsCoherent :
    {A : Type 0} (body : Action A) → Keeps IsCoherent body → Keeps IsCoherent (with_lock body)
unfolding with_lock ◌>>=◌
with_lock-IsCoherent body k = record {
  at = λ b h. elim (Bool-cases (next_outcome b.outcomes)) [
    | inl e ↦ rw (e, with_lock) (k.at _ h)
    | inr e ↦ rw (e, with_lock) h
  ];
}

pub refresh_locked-IsCoherent : Keeps IsCoherent refresh_locked
unfolding refresh_locked
refresh_locked-IsCoherent = record { at = λ b h. rw (refresh_locked, h.0) h }

pub refresh_at_read-IsCoherent : Keeps IsCoherent refresh_at_read
unfolding refresh_at_read refresh_locked rescue
refresh_at_read-IsCoherent = record { at = λ b h. rw (refresh_locked, h.0) h }

modify-cong :
    (k : String) (f g : EnvelopeState → EnvelopeState) (m : Dict EnvelopeState)
    → ((s : EnvelopeState) → get k m ≡ some s → f s ≡ g s)
    → modify k f m ≡ modify k g m
unfolding modify get
modify-cong k f g [] h = refl
modify-cong k f g ((j, w) ∷ m) h = elim (Bool-cases (str_eq j k)) [
  | inl e ↦ rw e (ap (λ (v : EnvelopeState). (j, v) ∷ m) (h w (rw e)))
  | inr e ↦
      rw e (ap (λ (n : Dict EnvelopeState). (j, w) ∷ n) (modify-cong k f g m (λ s p. h s (rw e p))))
]

-- An event written to the log and applied to the cache, with the lock and the write as they come.
pub append_apply-IsCoherent :
    (e : StateEvent) (f : Dict EnvelopeState → Dict EnvelopeState) (b : Bus)
    → (next_outcome b.outcomes ≡ true
        → fold_lines (b.log ++ json (to_object e) ∷ []) ≡ some (f b.cache))
    → IsCoherent b
    → IsCoherent ((append_line e >> write_cache f) b).1
unfolding append_line write_cache ◌>>=◌
append_apply-IsCoherent e f b w (c, (t, n)) = elim (Bool-cases (next_outcome b.outcomes)) [
  | inl done ↦ rw (done, t) (w done, (refl, n))
  | inr off ↦ rw (off, n) (c, (t, refl))
]

seq_pos : (m : Dict EnvelopeState) → 0 < max_state_seq m + 1
seq_pos m = omega arith

-- Marking read writes the reader that the fold would: the first event is the only one.
pub append_read_locked-IsCoherent :
    (env_id by : String) (b : Bus)
    → is_valid_envelope_id env_id ≡ true
    → str_eq by "" ≡ false
    → ((s : EnvelopeState) → get env_id b.cache ≡ some s → s.read ≡ false)
    → IsCoherent b
    → IsCoherent (append_read_locked env_id by b).1
unfolding append_read_locked ◌>>=◌
append_read_locked-IsCoherent env_id by b valid named unread h =
    let e = read env_id (max_state_seq b.cache + 1) b.clock by in
    append_apply-IsCoherent e _ b
      (λ _.
        fold_lines-append b.log b.cache e h.0 (valid, seq_pos b.cache, named)
        ∙ ap some (unfold apply_event in modify-cong env_id _ _ b.cache (λ s p. rw (unread s p))))
      h

pub append_failed_locked-IsCoherent :
    (env_id error_kind error_message : String)
    → is_valid_envelope_id env_id ≡ true
    → str_eq error_kind "" ≡ false
    → str_eq error_message "" ≡ false
    → Keeps IsCoherent (append_failed_locked env_id error_kind error_message)
unfolding append_failed_locked ◌>>=◌
append_failed_locked-IsCoherent env_id error_kind error_message valid k m = record {
  at = λ b h.
      let e = failed env_id (max_state_seq b.cache + 1) b.clock error_kind error_message in
      append_apply-IsCoherent e _ b
        (λ _.
          unfold apply_event in
          fold_lines-append b.log b.cache e h.0 (valid, seq_pos b.cache, k, m))
        h;
}
