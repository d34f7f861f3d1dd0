-- ===== src/Messaging/Bus.antt =====
-- `MessagingBusImpl` of src/messaging/bus.ts: its state, the internal helpers, and the monad in
-- which its methods run. The methods are in the modules below.
pub mod Keeps
pub mod Coherence
pub mod Write
pub mod Deliver
pub mod Respond
pub mod Query
pub mod Run
pub mod Sorted
pub mod Latest
pub mod Refreshed
pub mod Matches
pub mod Stale
pub mod Steps
pub mod Partition
pub mod Triple
use deputy_agent.Prelude.{
  ◌||◌, ℕ, zero, suc, ◌+◌, max, String, Bool, true, false, not, List, [], ◌∷◌, ◌++◌, Option, none,
  some, if◌then◌else◌, Dict, get, put, modify, values, is_positive, filter, str_eq, str_append, any,
  starts_with,
}
use deputy_agent.Value.{Value, undefined, null, obj, property_of, is_plain_object}
use deputy_agent.Messaging.Kinds.{
  Channel, meta, worker, watcher, channel_name, EnvelopeKind, user_feedback, user_upload,
  user_clarify_answer, worker_escalation, worker_notification, worker_completion_claim,
  worker_session_end, watcher_observation, reviewer_verdict, host_event, meta_instruction,
  meta_interrupt, worker_stream_window, kind_name,
}
use deputy_agent.Messaging.Schema.{extras_from_json}
use deputy_agent.Messaging.State.{EnvelopeState, compare_order_key, envelope_order_key}
use deputy_agent.Messaging.Log.{
  Line, json, StateEvent, read, failed, to_object, fold_lines, Cut, untouched, tail_lines,
  after_cut, next_cut, later_cuts,
}

-- A directory payloads/<env_id>: `none` for a file that cannot be read, or not as JSON.
pub record Payload : Type 0 where
  pub body : Option String
  pub payload_json : Option Value

-- The files of the bus, the cache of one process, and what the outside does: `outcomes` says of each
-- next lock and write whether it succeeds (all do once the list is used up), and `cuts` what each next
-- append that throws leaves.
pub record Bus : Type 0 where
  pub state_path : String
  pub log : List Line  -- state.jsonl
  pub tail : Option Line  -- its bytes after the last line feed, as read if one followed
  pub log_exists : Bool
  pub quarantined : List (List Line)
  pub payloads : Dict Payload
  pub cache : Dict EnvelopeState  -- `this.envelopes`
  pub clock : String  -- what `nowIso8601Us` returns
  pub outcomes : List Bool
  pub cuts : List Cut

pub data BusError : Type 0 where
  type_error invalid_extras corrupt_jsonl state_corrupted payload_corrupted enqueue_failed :
      BusError
  lock_timeout io_error : BusError

pub data Result (A : Type 0) : Type 0 where
  ok : A → Result A
  err : BusError → Result A

-- What was written before a throw stays written.
abbrev pub Action : Type 0 → Type 0
Action A = Bus → Result A × Bus

module _ {A : Type 0} where
  unfoldable pub pure : A → Action A
  pure a b = (ok a, b)

  unfoldable pub raise : BusError → Action A
  raise e b = (err e, b)

  unfoldable pub gets : (Bus → A) → Action A
  gets f b = (ok (f b), b)

  -- what a file or a pure function of the state answers
  unfoldable pub asks : (Bus → Result A) → Action A
  asks f b = (f b, b)

  abbrev pub handle : (BusError → Action A) → Result A → Action A
  handle handler (ok a) b = (ok a, b)
  handle handler (err e) b = handler e b

  -- `try`/`catch` around an action
  unfoldable pub rescue : Action A → (BusError → Action A) → Action A
  unfolding raise
  rescue m handler b = let (r, b') = m b in handle handler r b'

unfoldable pub update : (Bus → Bus) → Action (Unit {0})
update f b = (ok tt, f b)

abbrev pub continue : {A B : Type 0} → Result A → (A → Action B) → Action B
continue (ok a) f b = f a b
continue (err e) f b = (err e, b)

infixl 5 ◌>>=◌ ◌>>◌
-- opening this opens the other ways to build an action
unfoldable pub ◌>>=◌ : {A B : Type 0} → Action A → (A → Action B) → Action B
unfolding pure raise gets asks rescue update
◌>>=◌ m f b = let (r, b') = m b in continue r f b'

abbrev pub ◌>>◌ : {A B : Type 0} → Action A → Action B → Action B
m >> k = m >>= λ _. k

abbrev pub raise_if : Bool → BusError → Action (Unit {0})
raise_if c e = if c then raise e else pure tt

unfoldable pub next_outcome : List Bool → Bool
next_outcome [] = true
next_outcome (o ∷ os) = o

unfoldable pub later_outcomes : List Bool → List Bool
later_outcomes [] = []
later_outcomes (o ∷ os) = os

unfoldable pub attempt : Action Bool
unfolding next_outcome later_outcomes
attempt b = (ok (next_outcome b.outcomes), record b { outcomes = later_outcomes b.outcomes })

-- `withLock(this.paths.messagingLock, body)`
unfoldable pub with_lock : {A : Type 0} → Action A → Action A
unfolding attempt
with_lock body = do acquired ← attempt; if acquired then body else raise lock_timeout

abbrev pub is_opened : Cut → Bool
is_opened untouched = false
is_opened _ = true

-- a throw of `jsonlIO.appendLine`, and what it leaves
unfoldable pub cut_off : StateEvent → Bus → Bus
cut_off event b =
    let (log, tail) = after_cut (next_cut b.cuts) (to_object event) b.log b.tail in
    record b {
      log = log;
      tail = tail;
      cuts = later_cuts b.cuts;
      log_exists = is_opened (next_cut b.cuts) || b.log_exists;
    }

-- `jsonlIO.appendLine(this.paths.messagingState, event)`
unfoldable pub append_line : StateEvent → Action (Unit {0})
unfolding attempt cut_off
append_line event = do
  written ← attempt
  if written
      then (λ b. (
        ok tt,
        record b {
          log = b.log ++ (tail_lines b.tail ++ json (to_object event) ∷ []);
          tail = none;
          log_exists = true;
        },
      ))
      else (λ b. (err io_error, cut_off event b))

unfoldable pub write_cache : (Dict EnvelopeState → Dict EnvelopeState) → Action (Unit {0})
write_cache f = update (λ b. record b { cache = f b.cache })

-- `refreshLocked`
unfoldable pub refresh_locked : Action (Unit {0})
refresh_locked b = elim (fold_lines b.log) [
  | some next ↦ (ok tt, record b { cache = next })
  | none ↦ (err corrupt_jsonl, b)
]

unfoldable pub corrupt_as_state_corrupted : BusError → BusError
corrupt_as_state_corrupted corrupt_jsonl = state_corrupted
corrupt_as_state_corrupted e = e

-- `refreshAtRead`
unfoldable pub refresh_at_read : Action (Unit {0})
unfolding refresh_locked corrupt_as_state_corrupted
refresh_at_read = rescue refresh_locked (λ e. raise (corrupt_as_state_corrupted e))

-- `maxStateSeq`
unfoldable pub max_state_seq : Dict EnvelopeState → ℕ
max_state_seq [] = 0
max_state_seq ((k, s) ∷ m) = max s.state_seq (max_state_seq m)

-- `appendReadLocked`
unfoldable pub append_read_locked : String → String → Action (Unit {0})
unfolding append_line write_cache max_state_seq
append_read_locked env_id by = do
  now ← gets (λ b. b.clock)
  state_seq ← gets (λ b. max_state_seq b.cache + 1)
  append_line (read env_id state_seq now by)
  write_cache
      (modify env_id (λ s. if s.read then s else record s { read = true; read_by = some by }))

-- `appendFailedLocked`
unfoldable pub append_failed_locked : String → String → String → Action (Unit {0})
unfolding append_line write_cache max_state_seq
append_failed_locked env_id error_kind error_message = do
  now ← gets (λ b. b.clock)
  state_seq ← gets (λ b. max_state_seq b.cache + 1)
  append_line (failed env_id state_seq now error_kind error_message)
  write_cache (modify env_id (λ s. record s { failed = true }))

unfoldable pub is_channel : Channel → Channel → Bool
unfolding channel_name
is_channel c d = str_eq (channel_name c) (channel_name d)

-- `candidates.sort((a, b) => compareOrderKey(...))`, a stable sort
unfoldable pub insert_sorted : EnvelopeState → List EnvelopeState → List EnvelopeState
unfolding compare_order_key
insert_sorted s [] = s ∷ []
insert_sorted s (t ∷ ts) =
    if is_positive (compare_order_key (envelope_order_key s) (envelope_order_key t))
    then t ∷ insert_sorted s ts
    else s ∷ t ∷ ts

unfoldable pub sort_by_key : List EnvelopeState → List EnvelopeState
unfolding insert_sorted
sort_by_key [] = []
sort_by_key (s ∷ ss) = insert_sorted s (sort_by_key ss)

unfoldable pub is_candidate : Channel → Bool → EnvelopeState → Bool
unfolding is_channel
is_candidate channel include_read s =
    if is_channel s.channel channel
    then if s.failed then false else if include_read then true else not s.read
    else false

-- `sortedCandidates`
unfoldable pub sorted_candidates : Channel → Bool → Dict EnvelopeState → List EnvelopeState
unfolding is_candidate sort_by_key
sorted_candidates channel include_read m =
    sort_by_key (filter (is_candidate channel include_read) (values m))

unfoldable pub has_prefix : String → List String → Bool
has_prefix by prefixes = any (λ p. starts_with by p) prefixes

unfoldable pub find_kind : List EnvelopeKind → String → Option EnvelopeKind
unfolding kind_name
find_kind [] name = none
find_kind (k ∷ ks) name = if str_eq (kind_name k) name then some k else find_kind ks name

abbrev pub all_kinds : List EnvelopeKind
all_kinds =
    user_feedback ∷ user_upload ∷ user_clarify_answer ∷ worker_escalation ∷ worker_notification
    ∷ worker_completion_claim ∷ worker_session_end ∷ watcher_observation ∷ reviewer_verdict
    ∷ host_event ∷ meta_instruction ∷ meta_interrupt ∷ worker_stream_window ∷ []

-- `extrasFromJson` at the kind of a state, which may be no kind: the `default` case
unfoldable pub extras_of_named_kind : String → Value → Value
unfolding find_kind extras_from_json
extras_of_named_kind name raw = elim (find_kind all_kinds name) [
  | none ↦ null
  | some kind ↦ extras_from_json kind raw
]

unfoldable pub body_of : Option Payload → Option String
body_of none = none
body_of (some p) = p.body

unfoldable pub or_corrupted : Option String → Result String
or_corrupted none = err payload_corrupted
or_corrupted (some body) = ok body

-- `readBody`
unfoldable pub read_body : String → Action String
unfolding body_of or_corrupted
read_body env_id = asks (λ b. or_corrupted (body_of (get env_id b.payloads)))

unfoldable pub raw_extras_of : Option Payload → Result Value
unfolding property_of
raw_extras_of none = err payload_corrupted
raw_extras_of (some p) = elim p.payload_json [
  | none ↦ err payload_corrupted
  | some v ↦
      if is_plain_object v
      then (elim (property_of "extras" v) [ undefined ↦ ok null | e ↦ ok e ])
      else err payload_corrupted
]

-- `readRawExtras`; null for absent extras
unfoldable pub read_raw_extras : String → Action Value
unfolding raw_extras_of is_plain_object
read_raw_extras env_id = asks (λ b. raw_extras_of (get env_id b.payloads))

-- `readExtras`
unfoldable pub read_extras : String → String → Action Value
unfolding read_raw_extras extras_of_named_kind
read_extras env_id kind = do raw ← read_raw_extras env_id; pure (extras_of_named_kind kind raw)
