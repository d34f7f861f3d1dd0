-- ===== src/Messaging/Bus/Stale.antt =====
-- What the methods of the bus answer, and what they write, does not depend on the cache that the process
-- had before the call (src/messaging/bus.ts): another process may have written to the log since.
use deputy_agent.Prelude.{
  ◌≡◌, refl, sym, ap, ◌∙◌, Bool, true, false, String, List, Option, Option-cases, Bool-cases, inl,
  inr, Dict,
}
use deputy_agent.Value.{Fields}
use deputy_agent.Messaging.Kinds.{Channel, EnvelopeKind}
use deputy_agent.Messaging.State.{EnvelopeState, OrderKey}
use deputy_agent.Messaging.Log.{fold_lines}
use deputy_agent.Messaging.Bus.{
  Bus, BusError, Action, ◌>>=◌, ◌>>◌, raise_if, with_lock, refresh_at_read, refresh_locked,
  next_outcome,
}
use deputy_agent.Messaging.Bus.Refreshed.{locked_run}
use deputy_agent.Messaging.Bus.Deliver.{pull, peek_unread, mark_read_batch}
use deputy_agent.Messaging.Bus.Respond.{mark_responded}
use deputy_agent.Messaging.Bus.Query.{has_envelope_with_extras_after}

-- The same bus in a process with another cache.
abbrev pub with_cache : Dict EnvelopeState → Bus → Bus
with_cache m b = record b { cache = m }

-- An action that answers and writes to the log the same whatever the cache is.
pub IsFresh : {A : Type 0} → Action A → Type 0
IsFresh x =
    (m : Dict EnvelopeState) (b : Bus)
    → ((x (with_cache m b)).0 ≡ (x b).0) × ((x (with_cache m b)).1.log ≡ (x b).1.log)

module _ {A : Type 0} (k : Action A) where
  locked-IsFresh : IsFresh (with_lock (refresh_at_read >> k))
  unfolding IsFresh with_lock ◌>>=◌ refresh_at_read
  locked-IsFresh m b = elim (Bool-cases (next_outcome b.outcomes)) [
    | inr e ↦ (rw (e, with_lock), rw (e, with_lock))
    | inl e ↦ elim (Option-cases (fold_lines b.log)) [
      | inl f ↦
          (rw (e, with_lock) (rw (f, refresh_locked)), rw (e, with_lock) (rw (f, refresh_locked)))
      | inr (n, f) ↦
          let same = locked_run k (with_cache m b) n e f ∙ sym (locked_run k b n e f) in
          (ap (λ r. r.0) same, ap (λ r. r.1.log) same)
    ]
  ]

  raise_if-IsFresh : (c : Bool) (e : BusError) → IsFresh k → IsFresh (raise_if c e >> k)
  unfolding IsFresh ◌>>=◌
  raise_if-IsFresh true e h m b = (refl, refl)
  raise_if-IsFresh false e h m b = h m b

pull-IsFresh :
    (channel : Channel) (caller : String) (all : Bool) → IsFresh (pull channel caller all)
unfolding pull
pull-IsFresh channel caller all = raise_if-IsFresh _ _ _ (locked-IsFresh _)

peek_unread-IsFresh : (channel : Channel) → IsFresh (peek_unread channel)
unfolding peek_unread
peek_unread-IsFresh channel = locked-IsFresh _

mark_read_batch-IsFresh : (ids : List String) (by : String) → IsFresh (mark_read_batch ids by)
unfolding mark_read_batch
mark_read_batch-IsFresh ids by = raise_if-IsFresh _ _ _ (locked-IsFresh _)

mark_responded-IsFresh : (ids : List String) (by : String) → IsFresh (mark_responded ids by)
unfolding mark_responded
mark_responded-IsFresh ids by = raise_if-IsFresh _ _ _ (locked-IsFresh _)

has_envelope_with_extras_after-IsFresh :
    (kind : EnvelopeKind) (match : Fields) (since : Option OrderKey)
    → IsFresh (has_envelope_with_extras_after kind match since)
unfolding has_envelope_with_extras_after
has_envelope_with_extras_after-IsFresh kind match since = raise_if-IsFresh _ _ _ (locked-IsFresh _)

-- Whatever the process had in its cache (another process may have written to the log since),
-- `pull`, `peekUnread`, `markReadBatch`, `markResponded` and `hasEnvelopeWithExtrasAfter` answer
-- the same and leave the same log.
pub calls-IsFresh :
    (channel : Channel) (caller by : String) (all : Bool) (ids : List String) (kind : EnvelopeKind)
    (match : Fields) (since : Option OrderKey)
    → IsFresh (pull channel caller all)
      × IsFresh (peek_unread channel)
      × IsFresh (mark_read_batch ids by)
      × IsFresh (mark_responded ids by)
      × IsFresh (has_envelope_with_extras_after kind match since)
calls-IsFresh channel caller by all ids kind match since = (
  pull-IsFresh channel caller all,
  peek_unread-IsFresh channel,
  mark_read_batch-IsFresh ids by,
  mark_responded-IsFresh ids by,
  has_envelope_with_extras_after-IsFresh kind match since,
)
