-- ===== src/Messaging/Bus/Refreshed.antt =====
-- What a locked method that begins with a refresh works on: the fold of the log, whatever the cache
-- held before.
use deputy_agent.Prelude.{◌≡◌, true, false, none, some, Option-cases, Bool-cases, inl, inr, Dict}
use deputy_agent.Messaging.State.{EnvelopeState}
use deputy_agent.Messaging.Log.{fold_lines}
use deputy_agent.Messaging.Bus.{
  Bus, Action, ok, err, state_corrupted, lock_timeout, ◌>>=◌, ◌>>◌, with_lock, refresh_locked,
  refresh_at_read, next_outcome, later_outcomes,
}

-- The bus that the rest of the method sees.
abbrev pub refreshed : Bus → Dict EnvelopeState → Bus
refreshed b m = record b { cache = m; outcomes = later_outcomes b.outcomes }

module _ {A : Type 0} (k : Action A) (b : Bus) where
  pub locked_timeout :
      next_outcome b.outcomes ≡ false → (with_lock (refresh_at_read >> k) b).0 ≡ err lock_timeout
  unfolding with_lock ◌>>=◌
  locked_timeout e = rw (e, with_lock)

  pub locked_corrupt :
      next_outcome b.outcomes ≡ true
      → fold_lines b.log ≡ none
      → (with_lock (refresh_at_read >> k) b).0 ≡ err state_corrupted
  unfolding with_lock ◌>>=◌ refresh_at_read
  locked_corrupt e f = rw (e, with_lock) (rw (f, refresh_locked))

  pub locked_run :
      (m : Dict EnvelopeState)
      → next_outcome b.outcomes ≡ true
      → fold_lines b.log ≡ some m
      → with_lock (refresh_at_read >> k) b ≡ k (refreshed b m)
  unfolding with_lock ◌>>=◌ refresh_at_read
  locked_run m e f = rw (e, with_lock) (rw (f, refresh_locked))

  -- A result comes from the fold of the log.
  pub locked-eq-ok :
      {r : A}
      → (with_lock (refresh_at_read >> k) b).0 ≡ ok r
      → (m : Dict EnvelopeState) × (next_outcome b.outcomes ≡ true)
        × (fold_lines b.log ≡ some m)
        × ((k (refreshed b m)).0 ≡ ok r)
  locked-eq-ok h = elim (Bool-cases (next_outcome b.outcomes)) [
    | inr e ↦ cc (locked_timeout e)
    | inl e ↦ elim (Option-cases (fold_lines b.log)) [
      | inl f ↦ cc (locked_corrupt e f)
      | inr (m, f) ↦ (m, e, f, rw (locked_run m e f) at h)
    ]
  ]
