-- ===== src/Host/Watchdog.antt =====
-- The detectors of src/host/watchdog.ts, and what they look at. The signature of a tool call is a hash
-- of its name and input; the hash is left to the caller, who gives the signature.
use deputy_agent.Prelude.{
  ℕ, zero, suc, ◌+◌, ◌-◌, ◌<◌, ◌≤◌, ◌≡◌, refl, ltb, leb, Bool-cases, inl, inr, arith, Bool, true,
  ◌&&◌, List, [], ◌∷◌, ◌++◌, Option, none, some, length, drop, every, String, eq_refl, str_eq,
  if◌then◌else◌,
}

pub record WatchdogThresholds : Type 0 where
  pub main_tick_ms : ℕ
  pub watchdog_tick_ms : ℕ
  pub worker_no_progress_ms : ℕ
  pub worker_tool_loop_count : ℕ
  pub host_tool_call_ms : ℕ
  pub sdk_api_ms : ℕ
  pub reviewer_session_ms : ℕ
  pub meta_push_ms : ℕ

abbrev pub default_watchdog_thresholds : WatchdogThresholds
default_watchdog_thresholds = record {
  main_tick_ms = 1000;
  watchdog_tick_ms = 5000;
  worker_no_progress_ms = 1800000;
  worker_tool_loop_count = 5;
  host_tool_call_ms = 30000;
  sdk_api_ms = 3600000;
  reviewer_session_ms = 1800000;
  meta_push_ms = 3600000;
}

-- `WorkerWatchdogState` and `WorkerWatchdogMutState`
pub record WorkerWatchdogState : Type 0 where
  pub last_tool_use_at : ℕ
  pub recent_signatures : List String

pub data WorkerWatchdogTrigger : Type 0 where
  worker_no_progress : (idle_ms : ℕ) → WorkerWatchdogTrigger
  worker_tool_loop : (signature : String) (count : ℕ) → WorkerWatchdogTrigger

-- the signature that all of the tail have, if it has one
unfoldable pub common_signature : List String → Option String
common_signature [] = none
common_signature (s ∷ ss) = if every (str_eq s) ss then some s else none

unfoldable pub tool_loop : ℕ → List String → Option String
unfolding common_signature
tool_loop n sigs =
    if leb 1 n && leb n (length sigs) then common_signature (drop (length sigs - n) sigs) else none

unfoldable pub no_progress : WorkerWatchdogState → ℕ → ℕ → Option WorkerWatchdogTrigger
no_progress state now limit =
    if leb (state.last_tool_use_at + limit) now
    then some (worker_no_progress (now - state.last_tool_use_at))
    else none

abbrev pub loop_first :
    Option String → ℕ → Option WorkerWatchdogTrigger → Option WorkerWatchdogTrigger
loop_first none n otherwise = otherwise
loop_first (some signature) n otherwise = some (worker_tool_loop signature n)

-- `checkWorkerWatchdog`
unfoldable pub check_worker_watchdog :
    WorkerWatchdogState → ℕ → WatchdogThresholds → Option WorkerWatchdogTrigger
unfolding tool_loop no_progress
check_worker_watchdog state now thresholds =
    loop_first (tool_loop thresholds.worker_tool_loop_count state.recent_signatures)
      thresholds.worker_tool_loop_count (no_progress state now thresholds.worker_no_progress_ms)

-- The session events that the watchdog tells apart.
pub data SessionEvent : Type 0 where
  tool_invoked : (parent_tool_use_id : Option String) (signature : String) → SessionEvent
  subagent_started subagent_progress subagent_stopped other : SessionEvent

-- `push`, then `splice(0, length - toolLoopCap)`
unfoldable pub push_capped : ℕ → String → List String → List String
push_capped cap signature sigs =
    let pushed = sigs ++ signature ∷ [] in
    if ltb cap (length pushed) then drop (length pushed - cap) pushed else pushed

-- `recordWorkerActivity`
unfoldable pub record_worker_activity :
    SessionEvent → ℕ → ℕ → WorkerWatchdogState → WorkerWatchdogState
unfolding push_capped
record_worker_activity (tool_invoked none signature) now cap state = record {
  last_tool_use_at = now;
  recent_signatures = push_capped cap signature state.recent_signatures;
}
record_worker_activity (tool_invoked (some parent) signature) now cap state = record state {
  last_tool_use_at = now;
}
record_worker_activity other now cap state = state
record_worker_activity _ now cap state = record state { last_tool_use_at = now }

-- `checkReviewerTimeout`
unfoldable pub check_reviewer_timeout : ℕ → ℕ → WatchdogThresholds → Bool
check_reviewer_timeout started_at now thresholds =
    leb (started_at + thresholds.reviewer_session_ms) now

-- a row of events, each with its time
unfoldable pub record_all : List (SessionEvent × ℕ) → ℕ → WorkerWatchdogState → WorkerWatchdogState
unfolding record_worker_activity
record_all [] cap state = state
record_all ((e, now) ∷ es) cap state = record_all es cap (record_worker_activity e now cap state)

length-drop : (n : ℕ) (xs : List String) → length (drop n xs) ≡ length xs - n
length-drop zero xs = ground arith
length-drop (suc n) [] = ground arith
length-drop (suc n) (x ∷ xs) = ground (arith, length-drop n xs)

push_capped-length :
    (cap : ℕ) (s : String) (sigs : List String) → length (push_capped cap s sigs) ≤ cap
unfolding push_capped
push_capped-length cap s sigs = elim (Bool-cases (ltb cap (length (sigs ++ s ∷ [])))) [
  | inl over ↦
      rw over (ground (arith, length-drop (length (sigs ++ s ∷ []) - cap) (sigs ++ s ∷ [])))
  | inr within ↦ rw within (ground arith)
]

activity-bounded :
    (e : SessionEvent) (now cap : ℕ) (state : WorkerWatchdogState)
    → length state.recent_signatures ≤ cap
    → length (record_worker_activity e now cap state).recent_signatures ≤ cap
unfolding record_worker_activity
activity-bounded (tool_invoked none s) now cap state h =
    push_capped-length cap s state.recent_signatures
activity-bounded (tool_invoked (some parent) s) now cap state h = h
activity-bounded subagent_started now cap state h = h
activity-bounded subagent_progress now cap state h = h
activity-bounded subagent_stopped now cap state h = h
activity-bounded other now cap state h = h

-- However many events are recorded, at most `toolLoopCap` signatures are kept, if that many were
-- kept before.
pub record_all-bounded :
    (es : List (SessionEvent × ℕ)) (cap : ℕ) (state : WorkerWatchdogState)
    → length state.recent_signatures ≤ cap
    → length (record_all es cap state).recent_signatures ≤ cap
unfolding record_all
record_all-bounded [] cap state h = h
record_all-bounded ((e, now) ∷ es) cap state h =
    record_all-bounded es cap _ (activity-bounded e now cap state h)

-- What a verdict of the watchdog says of the state.
abbrev pub IsJudged :
    WorkerWatchdogState → ℕ → WatchdogThresholds → Option WorkerWatchdogTrigger → Type 0
IsJudged state now th none = now < state.last_tool_use_at + th.worker_no_progress_ms
IsJudged state now th (some (worker_no_progress idle_ms)) =
    (now ≡ state.last_tool_use_at + idle_ms) × (th.worker_no_progress_ms ≤ idle_ms)
IsJudged state now th (some (worker_tool_loop signature count)) =
    (count ≡ th.worker_tool_loop_count)
    × (1 ≤ count)
    × (count ≤ length state.recent_signatures)
    × (every (str_eq signature)
          (drop (length state.recent_signatures - count) state.recent_signatures)
        ≡ true)

common_signature-every :
    (sigs : List String) {s : String}
    → common_signature sigs ≡ some s
    → every (str_eq s) sigs ≡ true
unfolding common_signature
common_signature-every [] h = cc
common_signature-every (x ∷ xs) h = ground (arith, eq_refl x)

module _ (state : WorkerWatchdogState) (now : ℕ) (th : WatchdogThresholds) where
  idle-IsJudged : IsJudged state now th (no_progress state now th.worker_no_progress_ms)
  unfolding no_progress
  idle-IsJudged = elim (Bool-cases (leb (state.last_tool_use_at + th.worker_no_progress_ms) now)) [
    | inl e ↦ rw e (ground arith, ground arith)
    | inr e ↦ rw e (ground arith)
  ]

  loop-IsJudged :
      (o : Option String)
      → tool_loop th.worker_tool_loop_count state.recent_signatures ≡ o
      → IsJudged state now th
          (loop_first o th.worker_tool_loop_count (no_progress state now th.worker_no_progress_ms))
  unfolding tool_loop
  loop-IsJudged none e = idle-IsJudged
  loop-IsJudged (some s) e = (
    refl,
    ground arith,
    ground arith,
    common_signature-every
        (drop (length state.recent_signatures - th.worker_tool_loop_count) state.recent_signatures)
        {s = s} (ground arith),
  )

-- Where the watchdog reports no progress, the last tool use was the reported time ago and that is
-- at least the threshold; where it reports a loop, as many signatures at the end of the list as the
-- threshold asks for, at least one, are the reported one; where it reports nothing, the threshold
-- for no progress has not been reached.
pub check_worker_watchdog-IsJudged :
    (state : WorkerWatchdogState) (now : ℕ) (th : WatchdogThresholds)
    → IsJudged state now th (check_worker_watchdog state now th)
unfolding check_worker_watchdog
check_worker_watchdog-IsJudged state now th = loop-IsJudged state now th _ refl
