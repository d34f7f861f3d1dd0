-- ===== src/Scenarios.antt =====
-- Concrete runs of the model: a task and its message bus, from the enqueued verdict to the stages that
-- it opens (src/messaging/bus.ts).
mod Stages
mod Guards
mod Files
mod Recovery
mod Criteria
mod Streams
mod Restart
mod Ticks
use deputy_agent.Prelude.{length, ◌+◌, ◌↔◌}
use deputy_agent.Messaging.Bus.Respond.{MarkRespondedResult}
use deputy_agent.Messaging.Bus.Partition.{mark_responded_accounts}
use deputy_agent.Messaging.Bus.Deliver.{pull, peek_unread, mark_read_batch}
use deputy_agent.Messaging.Bus.Respond.{mark_responded}
use deputy_agent.Messaging.Bus.Stale.{IsFresh, calls-IsFresh}
use deputy_agent.Prelude.{
  ℕ, ◌<◌, String, ◌≡◌, ◌≢◌, refl, arith, Bool, true, false, List, [], ◌∷◌, ◌++◌, Option, none, some,
  Dict,
}
use mathlib.Core.List.{Memᴰ, Perm}
use deputy_agent.Prelude.{values, pos, get, put, filter}
use deputy_agent.Value.{Value, int, str, arr, nil, field, end, obj, or_default}
use deputy_agent.Messaging.Kinds.{
  Channel, meta, worker, EnvelopeKind, reviewer_verdict, worker_completion_claim, user_feedback,
}
use deputy_agent.Messaging.Schema.{extras_match_to_json_keys}
use deputy_agent.Messaging.State.{EnvelopeState, is_valid_envelope_id}
use deputy_agent.Task.Gate.{phase_match}
use deputy_agent.Messaging.Log.{
  Line, json, StateEvent, enqueued, read, to_object, parse_event, apply_event, fold_lines,
}
use deputy_agent.Messaging.Log.RoundTrip.{IsWritable, parse_event-to_object, fold_lines-append}
use deputy_agent.Messaging.Log.Keyed.{IsKeyed, fold_lines-IsKeyed}
use deputy_agent.Messaging.Bus.Sorted.{IsSorted, IsAsked, sorted_candidates_lem}
use deputy_agent.Messaging.Bus.Latest.{Finds, latest_from-Finds}
use deputy_agent.Messaging.Bus
use deputy_agent.Messaging.Bus.{Bus, sorted_candidates}
use deputy_agent.Messaging.Bus.Write.{EnqueueRequest, enqueue}
use deputy_agent.Messaging.Bus.Query.{
  latest_from, is_live_of_kind, is_after, has_envelope_with_extras_after,
}
use deputy_agent.Messaging.Bus.Coherence.{IsCoherent}
use deputy_agent.Messaging.Bus.Run.{
  Call, enqueue_call, pull_call, mark_responded_call, perform_all, perform_all-IsCoherent,
}
use deputy_agent.Messaging.Bus.Matches.{HasExtras, has_envelope_with_extras_after_found}

abbrev pub empty_bus : Bus
empty_bus = record {
  state_path = "state.jsonl";
  log = [];
  log_exists = false;
  quarantined = [];
  payloads = [];
  cache = [];
  tail = none;
  clock = "2026-01-01T00:00:00.000000Z";
  outcomes = [];
  cuts = [];
}

abbrev verdict_request : EnqueueRequest
verdict_request = record {
  channel = meta;
  kind = reviewer_verdict;
  from = "reviewer";
  body = "fine";
  extras = obj (
      field "reviewerPhase" (str "bootstrap_self_review") (
        field "reviewerRound" (int (pos 1))
          (field "verdict" (str "pass") (field "issues" (arr nil) end))));
  env_id = "0a1b2c3d";
  created_at = "2026-01-01T00:00:01.000000Z";
}

-- the bus after a reviewer has given the verdict of the bootstrap review
abbrev pub verdict_bus : Bus
verdict_bus = (enqueue verdict_request empty_bus).1

enqueue_runs : (enqueue verdict_request empty_bus).0 ≡ Bus.ok "0a1b2c3d"
unfolding enqueue Bus.◌>>=◌ or_default fold_lines get
enqueue_runs = refl

verdict_bus-IsCoherent : IsCoherent verdict_bus
unfolding enqueue Bus.◌>>=◌ or_default fold_lines to_object get is_valid_envelope_id
verdict_bus-IsCoherent = (refl, (refl, refl))

perform_all-IsCoherent_example : IsCoherent (
    perform_all
      (enqueue_call verdict_request
        ∷ pull_call meta "meta_session:m1" false
        ∷ mark_responded_call ("0a1b2c3d" ∷ "zz" ∷ []) "meta_session:m1"
        ∷ [])
      empty_bus)
unfolding is_valid_envelope_id fold_lines
perform_all-IsCoherent_example =
    perform_all-IsCoherent
      (enqueue_call verdict_request
        ∷ pull_call meta "meta_session:m1" false
        ∷ mark_responded_call ("0a1b2c3d" ∷ "zz" ∷ []) "meta_session:m1"
        ∷ [])
      empty_bus ((refl, refl), (tt, (tt, tt))) (refl, (refl, refl))

verdict_found :
    (has_envelope_with_extras_after reviewer_verdict
      (phase_match "bootstrap_self_review")
      none
      verdict_bus).0
    ≡ Bus.ok true
unfolding has_envelope_with_extras_after enqueue Bus.◌>>=◌ or_default fold_lines to_object
    extras_match_to_json_keys get is_valid_envelope_id put
verdict_found = refl

has_envelope_with_extras_after_found_example :
    (m : Dict EnvelopeState) × (s : EnvelopeState) × (fold_lines verdict_bus.log ≡ some m)
    × Memᴰ s (values m)
    × (is_live_of_kind reviewer_verdict s ≡ true)
    × (is_after none s ≡ true)
    × HasExtras verdict_bus
        (extras_match_to_json_keys reviewer_verdict (phase_match "bootstrap_self_review"))
        s
has_envelope_with_extras_after_found_example =
    has_envelope_with_extras_after_found reviewer_verdict (phase_match "bootstrap_self_review") none
      verdict_bus verdict_found

abbrev a_read : StateEvent
a_read = read "0a1b2c3d" 1 "2026-01-01T00:00:02.000000Z" "meta_session:m1"

a_read-IsWritable : IsWritable a_read
unfolding is_valid_envelope_id
a_read-IsWritable = (refl, omega arith, refl)

fold_lines-append_example :
    fold_lines (verdict_bus.log ++ json (to_object a_read) ∷ [])
    ≡ some (apply_event a_read verdict_bus.cache)
fold_lines-append_example =
    fold_lines-append verdict_bus.log verdict_bus.cache a_read verdict_bus-IsCoherent.0
      a_read-IsWritable

fold_lines-IsKeyed_example : IsKeyed verdict_bus.cache
fold_lines-IsKeyed_example = fold_lines-IsKeyed verdict_bus.log verdict_bus-IsCoherent.0

latest_from-Finds_example :
    Finds
      (is_live_of_kind reviewer_verdict)
      (values verdict_bus.cache)
      (latest_from (is_live_of_kind reviewer_verdict) none (values verdict_bus.cache))
latest_from-Finds_example =
    latest_from-Finds (is_live_of_kind reviewer_verdict) (values verdict_bus.cache)

sorted_candidates_lem_example :
    IsSorted (sorted_candidates meta false verdict_bus.cache)
    × (asked : EnvelopeState → Bool) × ((s : EnvelopeState)
        → (asked s ≡ true) ↔ IsAsked meta false s)
    × Perm
        (sorted_candidates meta false verdict_bus.cache)
        (filter asked (values verdict_bus.cache))
sorted_candidates_lem_example = sorted_candidates_lem meta false verdict_bus.cache

calls-IsFresh_example :
    IsFresh (pull meta "m1" false)
    × IsFresh (peek_unread meta)
    × IsFresh (mark_read_batch ("0a1b2c3d" ∷ []) "meta_session:m1")
    × IsFresh (mark_responded ("0a1b2c3d" ∷ []) "meta_session:m1")
    × IsFresh
        (has_envelope_with_extras_after reviewer_verdict (phase_match "bootstrap_self_review") none)
calls-IsFresh_example =
    calls-IsFresh meta "m1" "meta_session:m1" false ("0a1b2c3d" ∷ []) reviewer_verdict
      (phase_match "bootstrap_self_review") none

abbrev two_answers : MarkRespondedResult
two_answers = record {
  marked = [];
  already_responded = [];
  not_found = "zz" ∷ [];
  not_worker_channel = "0a1b2c3d" ∷ [];
}

responds :
    (mark_responded ("0a1b2c3d" ∷ "zz" ∷ []) "meta_session:m1" verdict_bus).0 ≡ Bus.ok two_answers
unfolding mark_responded enqueue Bus.◌>>=◌ or_default fold_lines to_object get is_valid_envelope_id
    put
responds = refl

mark_responded_accounts_example :
    length two_answers.marked
      + length two_answers.already_responded
      + length two_answers.not_found
      + length two_answers.not_worker_channel
    ≡ length {A = String} ("0a1b2c3d" ∷ "zz" ∷ [])
mark_responded_accounts_example =
    mark_responded_accounts ("0a1b2c3d" ∷ "zz" ∷ []) "meta_session:m1" verdict_bus two_answers
      responds
