-- ===== src/Host/Retry.antt =====
-- `withTransientRetry` of src/host/retry.ts. The function that it runs is a parameter; the jitter of
-- the delays, a random factor on floats, is left out: a delay is its base.
use deputy_agent.Prelude.{
  ℕ, zero, suc, ◌+◌, ◌<◌, ◌≤◌, ◌≡◌, refl, sym, ap, ◌∙◌, ltb, Bool-cases, inl, inr, arith, Bool,
  true, false, List, [], ◌∷◌, length,
}

-- What one call of `fn` does: `transient` is a thrown error that `isTransient` holds of.
pub data Attempt (A E : Type 0) : Type 0 where
  returned : A → Attempt A E
  transient fatal : E → Attempt A E

pub record RetryConfig : Type 0 where
  pub max_retries : ℕ
  pub backoff_ms : List ℕ

abbrev pub default_retry_config : RetryConfig
default_retry_config = record { max_retries = 3; backoff_ms = 1000 ∷ 2000 ∷ 4000 ∷ [] }

-- `backoffMs[Math.min(attemptIndex, backoffMs.length - 1)] ?? 0`
unfoldable pub base_delay : List ℕ → ℕ → ℕ
base_delay [] attempt = 0
base_delay (b ∷ []) attempt = b
base_delay (b ∷ c ∷ bs) zero = b
base_delay (b ∷ c ∷ bs) (suc attempt) = base_delay (c ∷ bs) attempt

-- `isTransient`
unfoldable pub is_transient : {A E : Type 0} → Attempt A E → Bool
is_transient (returned a) = false
is_transient (transient e) = true
is_transient (fatal e) = false

-- What the loop ends with, the index of its last call, and its delays in order.
pub record Run (A E : Type 0) : Type 0 where
  pub outcome : Attempt A E
  pub last : ℕ
  pub delays : List ℕ

module _ {A E : Type 0} (fn : ℕ → Attempt A E) (backoff : List ℕ) where
  abbrev pub after_attempt : ℕ → Attempt A E → Run A E → Run A E
  after_attempt attempt (returned a) rest = record {
    outcome = returned a;
    last = attempt;
    delays = [];
  }
  after_attempt attempt (fatal e) rest = record { outcome = fatal e; last = attempt; delays = [] }
  after_attempt attempt (transient e) rest = record rest {
    delays = base_delay backoff attempt ∷ rest.delays;
  }

  -- the loop at `attempt`, with `left` retries left
  unfoldable pub retry_from : ℕ → ℕ → Run A E
  unfolding base_delay
  retry_from attempt zero = record { outcome = fn attempt; last = attempt; delays = [] }
  retry_from attempt (suc left) = after_attempt attempt (fn attempt) (retry_from (attempt + 1) left)

-- `withTransientRetry`
unfoldable pub with_transient_retry : {A E : Type 0} → (ℕ → Attempt A E) → RetryConfig → Run A E
unfolding retry_from
with_transient_retry fn cfg = retry_from fn cfg.backoff_ms 0 cfg.max_retries

module _ {A E : Type 0} (fn : ℕ → Attempt A E) (backoff : List ℕ) where
  -- what the loop from `attempt` does
  pub record IsRetried (attempt left : ℕ) (r : Run A E) : Type 0 where
    pub outcome_is_last : r.outcome ≡ fn r.last
    pub started : attempt ≤ r.last
    pub bounded : r.last ≤ attempt + left
    pub earlier_transient : (i : ℕ) → attempt ≤ i → i < r.last → is_transient (fn i) ≡ true
    pub gives_up_late : is_transient r.outcome ≡ true → r.last ≡ attempt + left
    pub one_delay_each : attempt + length r.delays ≡ r.last

  stopped :
      (attempt left : ℕ) (o : Attempt A E)
      → fn attempt ≡ o
      → is_transient o ≡ false
      → IsRetried attempt left (record { outcome = o; last = attempt; delays = [] })
  stopped attempt left o e f = record {
    outcome_is_last = sym e;
    started = omega arith;
    bounded = omega arith;
    earlier_transient = λ i a b. absurd (omega arith);
    gives_up_late = λ t. cc (t, f);
    one_delay_each = omega arith;
  }

  step :
      (attempt left : ℕ) (o : Attempt A E) (rest : Run A E)
      → fn attempt ≡ o
      → IsRetried (attempt + 1) left rest
      → IsRetried attempt (suc left) (after_attempt fn backoff attempt o rest)
  unfolding is_transient
  step attempt left (returned a) rest e h = stopped attempt (suc left) (returned a) e refl
  step attempt left (fatal x) rest e h = stopped attempt (suc left) (fatal x) e refl
  step attempt left (transient x) rest e h = record {
    outcome_is_last = h.outcome_is_last;
    started = omega (arith, h.started);
    bounded = omega (arith, h.bounded);
    earlier_transient = λ i a b. elim (Bool-cases (ltb attempt i)) [
      | inl later ↦ h.earlier_transient i (ground arith) b
      | inr same ↦
          let at : i ≡ attempt = ground arith in
          ap (λ k. is_transient (fn k)) at ∙ ap is_transient e
    ];
    gives_up_late = λ t. omega (arith, h.gives_up_late t);
    one_delay_each = omega (arith, h.one_delay_each);
  }

  retry_from-IsRetried :
      (attempt left : ℕ) → IsRetried attempt left (retry_from fn backoff attempt left)
  unfolding retry_from
  retry_from-IsRetried attempt zero = record {
    outcome_is_last = refl;
    started = omega arith;
    bounded = omega arith;
    earlier_transient = λ i a b. absurd (omega arith);
    gives_up_late = λ t. omega arith;
    one_delay_each = omega arith;
  }
  retry_from-IsRetried attempt (suc left) =
      step attempt left (fn attempt) _ refl (retry_from-IsRetried (attempt + 1) left)

-- The result of the retry loop is what its last call of the function does. At most `maxRetries`
-- calls come before it, each of them failed with a transient error and was followed by one delay,
-- and the last one failed with a transient error only if there were `maxRetries` calls before it.
pub with_transient_retry-IsRetried :
    {A E : Type 0} (fn : ℕ → Attempt A E) (cfg : RetryConfig)
    → IsRetried fn cfg.backoff_ms 0 cfg.max_retries (with_transient_retry fn cfg)
unfolding with_transient_retry
with_transient_retry-IsRetried fn cfg = retry_from-IsRetried fn cfg.backoff_ms 0 cfg.max_retries
