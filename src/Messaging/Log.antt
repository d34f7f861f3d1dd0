-- ===== src/Messaging/Log.antt =====
-- The events of state.jsonl as the bus writes them, and the fold by which `refreshLocked` of
-- src/messaging/bus.ts rebuilds the envelope states from them.
pub mod RoundTrip
pub mod Keyed
use deputy_agent.Prelude.{
  ℕ, zero, suc, String, ℤ, pos, negsuc, Bool, true, false, not, List, [], ◌∷◌, ◌++◌, Option, none,
  some, str_eq, if◌then◌else◌, Dict, put, modify,
}
use deputy_agent.Prelude.Maybe.{◌>>=◌, ◌>>◌, guard}
use deputy_agent.Value.{Value, undefined, null, int, str, Fields, end, field, property}
use deputy_agent.Messaging.Kinds.{Channel, meta, worker, watcher, channel_name}
use deputy_agent.Messaging.State.{EnvelopeState, is_valid_envelope_id}

-- A complete line of state.jsonl: a JSON object, or text at which `jsonlIO.readLines` throws.
pub data Line : Type 0 where
  json : Fields → Line
  corrupt : Line

-- What an append that throws has left of its line: nothing, only the line feed before it, a part of
-- it, all of it but its line feed, or all of it, where the sync or the close throws.
pub data Cut : Type 0 where
  untouched separated partial unterminated written : Cut

abbrev pub tail_lines : Option Line → List Line
tail_lines none = []
tail_lines (some l) = l ∷ []

-- The lines and the bytes after the last line feed once an append of the object has thrown.
abbrev pub after_cut : Cut → Fields → List Line → Option Line → List Line × Option Line
after_cut untouched o ls tail = (ls, tail)
after_cut separated o ls tail = (ls ++ tail_lines tail, none)
after_cut partial o ls tail = (ls ++ tail_lines tail, some corrupt)
after_cut unterminated o ls tail = (ls ++ tail_lines tail, some (json o))
after_cut written o ls tail = (ls ++ (tail_lines tail ++ json o ∷ []), none)

-- the first of what the next appends that throw leave; nothing once the list is used up
abbrev pub next_cut : List Cut → Cut
next_cut [] = untouched
next_cut (c ∷ cs) = c

abbrev pub later_cuts : List Cut → List Cut
later_cuts [] = []
later_cuts (c ∷ cs) = cs

-- A write that stops short does not end with all of its line but the line feed.
abbrev pub IsInside : Cut → Type 0
IsInside unterminated = ⊥
IsInside _ = Unit

abbrev pub AreInside : List Cut → Type 0
AreInside [] = Unit
AreInside (c ∷ cs) = IsInside c × AreInside cs

pub AreInside-next : (cs : List Cut) → AreInside cs → IsInside (next_cut cs)
AreInside-next [] h = tt
AreInside-next (c ∷ cs) h = h.0

pub AreInside-later : (cs : List Cut) → AreInside cs → AreInside (later_cuts cs)
AreInside-later [] h = tt
AreInside-later (c ∷ cs) h = h.1

-- The bytes after the last line feed are no object.
abbrev pub IsPartial : Option Line → Type 0
IsPartial none = Unit
IsPartial (some corrupt) = Unit
IsPartial (some (json o)) = ⊥

-- What an event says to the fold; `ts` of the last three is written and never read back.
pub data StateEvent : Type 0 where
  enqueued :
      (env_id : String) (seq : ℕ) (ts : String) (channel : Channel) (kind from : String)
      → StateEvent
  read : (env_id : String) (seq : ℕ) (ts by : String) → StateEvent
  responded : (env_id : String) (seq : ℕ) (ts by : String) → StateEvent
  failed : (env_id : String) (seq : ℕ) (ts error_kind error_message : String) → StateEvent

-- the objects given to `jsonlIO.appendLine`
unfoldable pub to_object : StateEvent → Fields
unfolding channel_name
to_object (enqueued env_id seq ts channel kind from) = field "type" (str "enqueued") (
    field "ts" (str ts) (
      field "env_id" (str env_id) (
        field "state_seq" (int (pos seq)) (
          field "channel" (str (channel_name channel))
            (field "kind" (str kind) (field "from" (str from) end))))))
to_object (read env_id seq ts by) = field "type" (str "read") (
    field "ts" (str ts)
      (field "env_id" (str env_id) (field "state_seq" (int (pos seq)) (field "by" (str by) end))))
to_object (responded env_id seq ts by) = field "type" (str "responded") (
    field "ts" (str ts)
      (field "env_id" (str env_id) (field "state_seq" (int (pos seq)) (field "by" (str by) end))))
to_object (failed env_id seq ts error_kind error_message) = field "type" (str "failed") (
    field "ts" (str ts) (
      field "env_id" (str env_id) (
        field "state_seq" (int (pos seq))
          (field "error_kind" (str error_kind) (field "error_message" (str error_message) end)))))

unfoldable pub as_string : Value → Option String
as_string (str s) = some s
as_string _ = none

-- a string with `length > 0`
unfoldable pub as_nonempty : Value → Option String
as_nonempty (str s) = if str_eq s "" then none else some s
as_nonempty _ = none

-- an integer of at least 1
unfoldable pub as_seq : Value → Option ℕ
as_seq (int (pos (suc n))) = some (suc n)
as_seq _ = none

unfoldable pub as_env_id : Value → Option String
as_env_id (str s) = if is_valid_envelope_id s then some s else none
as_env_id _ = none

unfoldable pub as_channel : Value → Option Channel
as_channel (str s) =
    if str_eq s "meta"
    then some meta
    else if str_eq s "worker"
    then some worker
    else if str_eq s "watcher"
    then some watcher
    else none
as_channel _ = none

unfoldable pub parse_enqueued : String → ℕ → Fields → Option StateEvent
unfolding as_channel as_string as_nonempty property
parse_enqueued env_id seq ev = do
  channel ← as_channel (property "channel" ev)
  kind ← as_string (property "kind" ev)
  ts ← as_nonempty (property "ts" ev)
  from ← as_nonempty (property "from" ev)
  some (enqueued env_id seq ts channel kind from)

-- `ts` is not looked at
unfoldable pub ts_of : Value → String
ts_of (str s) = s
ts_of _ = ""

unfoldable pub parse_typed : String → String → ℕ → Fields → Option StateEvent
unfolding parse_enqueued as_nonempty property ts_of
parse_typed type env_id seq ev =
    if str_eq type "enqueued"
    then parse_enqueued env_id seq ev
    else if str_eq type "read"
    then (do
      by ← as_nonempty (property "by" ev)
      some (read env_id seq (ts_of (property "ts" ev)) by))
    else if str_eq type "responded"
    then (do
      by ← as_nonempty (property "by" ev)
      some (responded env_id seq (ts_of (property "ts" ev)) by))
    else if str_eq type "failed"
    then (do
      error_kind ← as_nonempty (property "error_kind" ev)
      error_message ← as_nonempty (property "error_message" ev)
      some (failed env_id seq (ts_of (property "ts" ev)) error_kind error_message))
    else none

-- The checks of one round of the loop; `none` is a thrown `CorruptJsonlError`.
unfoldable pub parse_event : Fields → Option StateEvent
unfolding parse_typed as_env_id as_seq as_string property
parse_event ev = do
  env_id ← as_env_id (property "env_id" ev)
  seq ← as_seq (property "state_seq" ev)
  type ← as_string (property "type" ev)
  parse_typed type env_id seq ev

-- The writes of one round.
unfoldable pub apply_event : StateEvent → Dict EnvelopeState → Dict EnvelopeState
apply_event (enqueued env_id seq ts channel kind from) next =
    put env_id
      (record {
        env_id = env_id;
        channel = channel;
        kind = kind;
        from = from;
        created_at = ts;
        state_seq = seq;
        read = false;
        read_by = none;
        responded = false;
        responded_by = none;
        failed = false;
      })
      next
apply_event (read env_id seq ts by) next =
    modify env_id (λ s. record s { read = true; read_by = some by }) next
apply_event (responded env_id seq ts by) next =
    modify env_id (λ s. record s { responded = true; responded_by = some by }) next
apply_event (failed env_id seq ts error_kind error_message) next =
    modify env_id (λ s. record s { failed = true }) next

unfoldable pub fold_line : Line → Dict EnvelopeState → Option (Dict EnvelopeState)
unfolding parse_event apply_event
fold_line corrupt next = none
fold_line (json ev) next = do event ← parse_event ev; some (apply_event event next)

unfoldable pub fold_from : Dict EnvelopeState → List Line → Option (Dict EnvelopeState)
unfolding fold_line
fold_from next [] = some next
fold_from next (line ∷ lines) = do next' ← fold_line line next; fold_from next' lines

-- The loop of `refreshLocked`, from an empty map.
unfoldable pub fold_lines : List Line → Option (Dict EnvelopeState)
unfolding fold_from
fold_lines lines = fold_from [] lines
