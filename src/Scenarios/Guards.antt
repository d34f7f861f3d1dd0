-- ===== src/Scenarios/Guards.antt =====
-- Concrete runs of the retry loop, the wake cursor and the watchdog (src/host/).
use deputy_agent.Prelude.{
  ℕ, zero, suc, ◌≤◌, ◌≡◌, refl, arith, List, [], ◌∷◌, none, some, length, String,
}
use deputy_agent.Host.Retry.{
  Attempt, returned, transient, default_retry_config, with_transient_retry, IsRetried,
  with_transient_retry-IsRetried,
}
use deputy_agent.Host.Wake.{init_from_latest_read, failures, degraded_count, failures-degraded_once}
use deputy_agent.Host.Watchdog.{
  WorkerWatchdogState, SessionEvent, tool_invoked, subagent_started, record_all, record_all-bounded,
  check_worker_watchdog, check_worker_watchdog-IsJudged, IsJudged, default_watchdog_thresholds,
  worker_tool_loop,
}

-- two transient errors, then a result
flaky : ℕ → Attempt String String
flaky zero = transient "429"
flaky (suc zero) = transient "503"
flaky (suc (suc n)) = returned "done"

retries_twice :
    with_transient_retry flaky default_retry_config
    ≡ record { outcome = returned "done"; last = 2; delays = 1000 ∷ 2000 ∷ [] }
unfolding with_transient_retry flaky
retries_twice = refl

with_transient_retry-IsRetried_example :
    IsRetried flaky default_retry_config.backoff_ms 0 default_retry_config.max_retries
      (with_transient_retry flaky default_retry_config)
with_transient_retry-IsRetried_example = with_transient_retry-IsRetried flaky default_retry_config

failures-degraded_once_example :
    degraded_count (
      failures
        (("a" ∷ []) ∷ ("a" ∷ []) ∷ [] ∷ ("b" ∷ []) ∷ ("c" ∷ []) ∷ [])
        (init_from_latest_read none))
    ≡ 1
failures-degraded_once_example =
    failures-degraded_once none (("a" ∷ []) ∷ ("a" ∷ []) ∷ [] ∷ ("b" ∷ []) ∷ ("c" ∷ []) ∷ [])

abbrev idle : WorkerWatchdogState
idle = record { last_tool_use_at = 0; recent_signatures = [] }

abbrev calls : List (SessionEvent × ℕ)
calls =
    (tool_invoked none "s", 1)
    ∷ (subagent_started, 2)
    ∷ (tool_invoked none "s", 3)
    ∷ (tool_invoked none "s", 4)
    ∷ []

record_all-bounded_example : length (record_all calls 2 idle).recent_signatures ≤ 2
record_all-bounded_example = record_all-bounded calls 2 idle (omega arith)

abbrev looping : WorkerWatchdogState
looping = record {
  last_tool_use_at = 7;
  recent_signatures = "t" ∷ "s" ∷ "s" ∷ "s" ∷ "s" ∷ "s" ∷ [];
}

detects_loop :
    check_worker_watchdog looping 8 default_watchdog_thresholds ≡ some (worker_tool_loop "s" 5)
unfolding check_worker_watchdog
detects_loop = refl

check_worker_watchdog-IsJudged_example :
    IsJudged looping 8 default_watchdog_thresholds
      (check_worker_watchdog looping 8 default_watchdog_thresholds)
check_worker_watchdog-IsJudged_example =
    check_worker_watchdog-IsJudged looping 8 default_watchdog_thresholds
