-- ===== src/Host/Wake.antt =====
-- `WakeCursor` and `dispatchByStage` of src/host/main_loop.ts.
use deputy_agent.Prelude.{
  ℕ, suc, ◌+◌, ◌≡◌, refl, ap, ◌∙◌, ltb, arith, Bool, true, false, not, List, [], ◌∷◌, ◌++◌, Option,
  none, some, length, filter, String, str_eq, any, if◌then◌else◌,
}
use deputy_agent.Task.Stage.{
  Stage, submitted, clarifying, bootstrapping, running, awaiting_user, paused, is_terminal,
  is_in_progress, stage_eq,
}

abbrev pub mark_read_fail_threshold_k : ℕ
mark_read_fail_threshold_k = 3

-- The sets are lists with the test `any (str_eq e)`.
pub record WakeCursor : Type 0 where
  pub last_inject_env_id : Option String
  pub inject_done_unmarked : List String
  pub mark_read_fail_streak : ℕ
  pub notified_failed_env_ids : List String
  pub degraded : Bool

pub data HostEventKind : Type 0 where
  wake_inject_mark_read_failed messaging_mark_read_degraded : HostEventKind

abbrev pub has : List String → String → Bool
has es e = any (str_eq e) es

-- `Set.delete`
abbrev pub delete_all : List String → List String → List String
delete_all marked es = filter (λ e. not (has marked e)) es

-- `initFromLatestRead`
unfoldable pub init_from_latest_read : Option String → WakeCursor
init_from_latest_read latest = record {
  last_inject_env_id = latest;
  inject_done_unmarked = [];
  mark_read_fail_streak = 0;
  notified_failed_env_ids = [];
  degraded = false;
}

abbrev pub or_else : Option String → Option String → Option String
or_else none old = old
or_else (some e) old = some e

-- `onInjectAndMarkSuccess`
unfoldable pub on_inject_and_mark_success : Option String → List String → WakeCursor → WakeCursor
on_inject_and_mark_success latest marked c = record {
  last_inject_env_id = or_else latest c.last_inject_env_id;
  inject_done_unmarked = delete_all marked c.inject_done_unmarked;
  mark_read_fail_streak = 0;
  notified_failed_env_ids = [];
  degraded = false;
}

-- the cursor with the failed batch counted
unfoldable pub failure_counted : List String → WakeCursor → WakeCursor
failure_counted failed c = record c {
  inject_done_unmarked = c.inject_done_unmarked ++ failed;
  mark_read_fail_streak = c.mark_read_fail_streak + 1;
}

-- the part for a streak up to the threshold: only new identifiers are reported
unfoldable pub report_new :
    List String → WakeCursor → (Option HostEventKind × List String) × WakeCursor
report_new [] c = ((none, []), c)
report_new (e ∷ new) c = (
  (some wake_inject_mark_read_failed, e ∷ new),
  record c { notified_failed_env_ids = c.notified_failed_env_ids ++ e ∷ new },
)

-- `onMarkReadFailure`: the event to emit and its identifiers, and the cursor after it
unfoldable pub on_mark_read_failure :
    List String → WakeCursor → (Option HostEventKind × List String) × WakeCursor
unfolding failure_counted report_new
on_mark_read_failure failed c =
    let c' = failure_counted failed c in
    if ltb mark_read_fail_threshold_k c'.mark_read_fail_streak
    then (if c'.degraded
        then ((none, []), c')
        else ((some messaging_mark_read_degraded, failed), record c' { degraded = true }))
    else report_new (filter (λ e. not (has c'.notified_failed_env_ids e)) failed) c'

-- The failures of a row of batches, and the events that they emit.
unfoldable pub failures : List (List String) → WakeCursor → List (Option HostEventKind)
unfolding on_mark_read_failure
failures [] c = []
failures (batch ∷ batches) c =
    let (r, c') = on_mark_read_failure batch c in r.0 ∷ failures batches c'

abbrev pub is_degraded_event : Option HostEventKind → Bool
is_degraded_event (some messaging_mark_read_degraded) = true
is_degraded_event _ = false

pub data TickAction : Type 0 where
  cleanup_and_exit : Stage → TickAction
  ensure_meta_then_clarifying ensure_meta ensure_running_agents await_user : TickAction

unfoldable pub dispatch_open : Stage → TickAction
dispatch_open submitted = ensure_meta_then_clarifying
dispatch_open clarifying = ensure_meta
dispatch_open bootstrapping = ensure_meta
dispatch_open running = ensure_running_agents
dispatch_open awaiting_user = await_user
dispatch_open stage = if is_in_progress stage then ensure_meta else cleanup_and_exit stage

-- `dispatchByStage`
unfoldable pub dispatch_by_stage : Stage → TickAction
unfolding stage_eq dispatch_open
dispatch_by_stage stage =
    if is_terminal stage
    then cleanup_and_exit stage
    else if stage_eq stage paused
    then cleanup_and_exit stage
    else dispatch_open stage

-- the number of degraded events
abbrev pub degraded_count : List (Option HostEventKind) → ℕ
degraded_count es = length (filter is_degraded_event es)

-- how often a row of `n` failures reports a degradation, from a cursor that is in order
expected_count : ℕ → WakeCursor → ℕ
expected_count n c =
    if c.degraded
    then 0
    else if ltb mark_read_fail_threshold_k (c.mark_read_fail_streak + n)
    then 1
    else 0

-- degraded only past the threshold, and exactly there
abbrev pub IsInOrder : WakeCursor → Type 0
IsInOrder c = c.degraded ≡ ltb mark_read_fail_threshold_k c.mark_read_fail_streak

module _ (batch : List String) (c : WakeCursor) where
  failure_streak :
      (on_mark_read_failure batch c).1.mark_read_fail_streak ≡ c.mark_read_fail_streak + 1
  unfolding on_mark_read_failure
  failure_streak = ground arith

  failure-IsInOrder : IsInOrder c → IsInOrder (on_mark_read_failure batch c).1
  unfolding on_mark_read_failure
  failure-IsInOrder h = ground arith

  failure_event :
      IsInOrder c
      → is_degraded_event (on_mark_read_failure batch c).0.0 ≡ (
          if c.degraded
          then false
          else ltb mark_read_fail_threshold_k (c.mark_read_fail_streak + 1))
  unfolding on_mark_read_failure
  failure_event h = ground arith

count_cons :
    (e : Option HostEventKind) (es : List (Option HostEventKind))
    → degraded_count (e ∷ es) ≡ (if is_degraded_event e then 1 else 0) + degraded_count es
count_cons e es = ground arith

expected_step :
    (n : ℕ) (c c' : WakeCursor) (fires : Bool)
    → IsInOrder c
    → c'.mark_read_fail_streak ≡ c.mark_read_fail_streak + 1
    → IsInOrder c'
    → fires
      ≡ (if c.degraded then false else ltb mark_read_fail_threshold_k (c.mark_read_fail_streak + 1))
    → (if fires then 1 else 0) + expected_count n c' ≡ expected_count (suc n) c
unfolding expected_count
expected_step n c c' fires h s h' e = ground arith

failures_count :
    (batches : List (List String)) (c : WakeCursor)
    → IsInOrder c
    → degraded_count (failures batches c) ≡ expected_count (length batches) c
unfolding failures expected_count
failures_count [] c h = ground arith
failures_count (batch ∷ batches) c h =
    let c' = (on_mark_read_failure batch c).1 in
    let o = (on_mark_read_failure batch c).0.0 in
    let ordered = failure-IsInOrder batch c h in
    count_cons o (failures batches c')
    ∙ ap (λ k. (if is_degraded_event o then 1 else 0) + k) (failures_count batches c' ordered)
    ∙ expected_step (length batches) c c' (is_degraded_event o) h (failure_streak batch c) ordered
        (failure_event batch c h)

-- Of a row of failed mark-read batches after a start, whatever the batches hold, exactly one emits
-- `messaging_mark_read_degraded` if there are more than 3 of them, and none if there are 3 or
-- fewer.
pub failures-degraded_once :
    (latest : Option String) (batches : List (List String))
    → degraded_count (failures batches (init_from_latest_read latest))
      ≡ (if ltb mark_read_fail_threshold_k (length batches) then 1 else 0)
unfolding init_from_latest_read expected_count
failures-degraded_once latest batches =
    failures_count batches (init_from_latest_read latest) refl ∙ ground arith
