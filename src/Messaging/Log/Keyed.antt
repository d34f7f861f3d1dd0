-- ===== src/Messaging/Log/Keyed.antt =====
-- What the fold ensures of the map it builds: each state stands under its own valid identifier.
use deputy_agent.Prelude.{
  ℕ, String, ◌≡◌, refl, true, List, [], ◌∷◌, some, arith, eq_iff, subst, Dict, put, modify, All,
}
use deputy_agent.Prelude.Maybe.{>>=-eq-some, some_inj}
use deputy_agent.Value.{Value, Fields, property}
use deputy_agent.Messaging.State.{EnvelopeState, is_valid_envelope_id}
use deputy_agent.Messaging.Log.{
  Line, json, corrupt, StateEvent, enqueued, read, responded, failed, as_env_id, as_seq, as_string,
  parse_typed, parse_event, apply_event, fold_line, fold_from, fold_lines,
}

abbrev pub event_id : StateEvent → String
event_id (enqueued env_id seq ts channel kind from) = env_id
event_id (read env_id seq ts by) = env_id
event_id (responded env_id seq ts by) = env_id
event_id (failed env_id seq ts error_kind error_message) = env_id

abbrev pub IsKeyedEntry : String × EnvelopeState → Type 0
IsKeyedEntry (k, s) = (is_valid_envelope_id k ≡ true) × (s.env_id ≡ k)

abbrev pub IsKeyed : Dict EnvelopeState → Type 0
IsKeyed = All IsKeyedEntry

put-IsKeyed :
    (k : String) (v : EnvelopeState) (m : Dict EnvelopeState)
    → is_valid_envelope_id k ≡ true
    → v.env_id ≡ k
    → IsKeyed m
    → IsKeyed (put k v m)
unfolding put
put-IsKeyed k v [] valid own h = ((valid, own), tt)
put-IsKeyed k v ((j, w) ∷ m) valid own h =
    ground (arith, eq_iff j k, put-IsKeyed k v m valid own h.1)

modify-IsKeyed :
    (k : String) (f : EnvelopeState → EnvelopeState) (m : Dict EnvelopeState)
    → ((s : EnvelopeState) → (f s).env_id ≡ s.env_id)
    → IsKeyed m
    → IsKeyed (modify k f m)
unfolding modify
modify-IsKeyed k f [] own h = tt
modify-IsKeyed k f ((j, w) ∷ m) own h = ground (arith, own w, modify-IsKeyed k f m own h.1)

pub apply_event-IsKeyed :
    (e : StateEvent) (m : Dict EnvelopeState)
    → is_valid_envelope_id (event_id e) ≡ true
    → IsKeyed m
    → IsKeyed (apply_event e m)
unfolding apply_event
apply_event-IsKeyed (enqueued env_id seq ts channel kind from) m valid h =
    put-IsKeyed env_id _ m valid refl h
apply_event-IsKeyed (read env_id seq ts by) m valid h = modify-IsKeyed env_id _ m (λ s. refl) h
apply_event-IsKeyed (responded env_id seq ts by) m valid h = modify-IsKeyed env_id _ m (λ s. refl) h
apply_event-IsKeyed (failed env_id seq ts error_kind error_message) m valid h =
    modify-IsKeyed env_id _ m (λ s. refl) h

parse_typed-event_id :
    (type env_id : String) (seq : ℕ) (o : Fields) {e : StateEvent}
    → parse_typed type env_id seq o ≡ some e
    → event_id e ≡ env_id
unfolding parse_typed
parse_typed-event_id type env_id seq o h = ground arith

as_env_id-valid : (v : Value) {k : String} → as_env_id v ≡ some k → is_valid_envelope_id k ≡ true
unfolding as_env_id
as_env_id-valid v h = ground arith

parse_event-valid :
    (o : Fields) {e : StateEvent}
    → parse_event o ≡ some e
    → is_valid_envelope_id (event_id e) ≡ true
unfolding parse_event
parse_event-valid o h =
    let (env_id, valid, rest) = >>=-eq-some (as_env_id (property "env_id" o)) _ h in
    let (seq, _, typed) = >>=-eq-some (as_seq (property "state_seq" o)) _ rest in
    let (type, _, parsed) = >>=-eq-some (as_string (property "type" o)) _ typed in
    rw (parse_typed-event_id type env_id seq o parsed) (as_env_id-valid _ valid)

fold_line-IsKeyed :
    (line : Line) (m : Dict EnvelopeState) {n : Dict EnvelopeState}
    → fold_line line m ≡ some n
    → IsKeyed m
    → IsKeyed n
unfolding fold_line
fold_line-IsKeyed corrupt m h k = cc
fold_line-IsKeyed (json o) m h k =
    let (event, parsed, applied) = >>=-eq-some (parse_event o) _ h in
    subst IsKeyed (some_inj applied) (apply_event-IsKeyed event m (parse_event-valid o parsed) k)

fold_from-IsKeyed :
    (m : Dict EnvelopeState) (lines : List Line) {n : Dict EnvelopeState}
    → fold_from m lines ≡ some n
    → IsKeyed m
    → IsKeyed n
unfolding fold_from
fold_from-IsKeyed m [] h k = subst IsKeyed (some_inj h) k
fold_from-IsKeyed m (l ∷ lines) h k =
    let (next, one, others) = >>=-eq-some (fold_line l m) _ h in
    fold_from-IsKeyed next lines others (fold_line-IsKeyed l m one k)

-- Whatever the log holds, the folded map is keyed.
pub fold_lines-IsKeyed :
    (lines : List Line) {m : Dict EnvelopeState} → fold_lines lines ≡ some m → IsKeyed m
unfolding fold_lines
fold_lines-IsKeyed lines h = fold_from-IsKeyed [] lines h tt
