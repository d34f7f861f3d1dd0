-- ===== src/Messaging/Log/RoundTrip.antt =====
-- The log round trip: what the bus writes is what the fold of src/messaging/bus.ts reads.
use deputy_agent.Prelude.{
  zero, suc, ◌<◌, ◌≡◌, true, false, List, [], ◌∷◌, ◌++◌, Option, some, arith, str_eq, ap, ◌∙◌,
  Option-cases, inl, inr, Dict,
}
use deputy_agent.Prelude.Maybe.{◌>>=◌}
use deputy_agent.Messaging.Kinds.{meta, worker, watcher}
use deputy_agent.Messaging.State.{EnvelopeState, is_valid_envelope_id}
use deputy_agent.Messaging.Log.{
  Line, json, StateEvent, enqueued, read, responded, failed, to_object, parse_event, apply_event,
  fold_line, fold_from, fold_lines,
}

-- What the callers of `appendLine` ensure of an event.
abbrev pub IsWritable : StateEvent → Type 0
IsWritable (enqueued env_id seq ts channel kind from) =
    (is_valid_envelope_id env_id ≡ true)
    × (0 < seq)
    × (str_eq ts "" ≡ false)
    × (str_eq from "" ≡ false)
IsWritable (read env_id seq ts by) =
    (is_valid_envelope_id env_id ≡ true) × (0 < seq) × (str_eq by "" ≡ false)
IsWritable (responded env_id seq ts by) =
    (is_valid_envelope_id env_id ≡ true) × (0 < seq) × (str_eq by "" ≡ false)
IsWritable (failed env_id seq ts error_kind error_message) =
    (is_valid_envelope_id env_id ≡ true)
    × (0 < seq)
    × (str_eq error_kind "" ≡ false)
    × (str_eq error_message "" ≡ false)

-- An event that the bus writes is read back as itself.
pub parse_event-to_object : (e : StateEvent) → IsWritable e → parse_event (to_object e) ≡ some e
unfolding parse_event to_object
parse_event-to_object (enqueued env_id (suc n) ts meta kind from) h = ground arith
parse_event-to_object (enqueued env_id (suc n) ts worker kind from) h = ground arith
parse_event-to_object (enqueued env_id (suc n) ts watcher kind from) h = ground arith
parse_event-to_object (read env_id (suc n) ts by) h = ground arith
parse_event-to_object (responded env_id (suc n) ts by) h = ground arith
parse_event-to_object (failed env_id (suc n) ts error_kind error_message) h = ground arith
parse_event-to_object (enqueued env_id zero ts channel kind from) h = absurd (omega arith)
parse_event-to_object (read env_id zero ts by) h = absurd (omega arith)
parse_event-to_object (responded env_id zero ts by) h = absurd (omega arith)
parse_event-to_object (failed env_id zero ts error_kind error_message) h = absurd (omega arith)

pub fold_from-append :
    (m : Dict EnvelopeState) (lines : List Line) (line : Line) {n : Dict EnvelopeState}
    → fold_from m lines ≡ some n
    → fold_from m (lines ++ line ∷ []) ≡ fold_line line n
unfolding fold_from
fold_from-append m [] line h = ground arith
fold_from-append m (l ∷ lines) line h = elim (Option-cases (fold_line l m)) [
  | inl e ↦ cc (ap (λ (o : Option (Dict EnvelopeState)). o >>= λ next. fold_from next lines) e)
  | inr (next, e) ↦ rw e (fold_from-append next lines line (rw e at h))
]

-- Appending a written event to a log that folds to `m` makes it fold to `m` with the event applied.
pub fold_lines-append :
    (lines : List Line) (m : Dict EnvelopeState) (e : StateEvent)
    → fold_lines lines ≡ some m
    → IsWritable e
    → fold_lines (lines ++ json (to_object e) ∷ []) ≡ some (apply_event e m)
unfolding fold_lines fold_line
fold_lines-append lines m e h w =
    fold_from-append [] lines (json (to_object e)) h
    ∙ ap (λ (o : Option StateEvent). o >>= λ event. some (apply_event event m))
        (parse_event-to_object e w)
