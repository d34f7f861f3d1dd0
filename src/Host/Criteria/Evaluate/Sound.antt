-- ===== src/Host/Criteria/Evaluate/Sound.antt =====
-- What the outcome of src/host/done_criteria/evaluate.ts says of the checks.
use deputy_agent.Prelude.{
  ◌↔◌, ℕ, suc, ◌+◌, ◌<◌, ◌≤◌, ◌≡◌, ◌≢◌, refl, ap, ◌∙◌, arith, String, Bool, true, false, List, [],
  ◌∷◌, Option, none, some, All, length, filter, if◌then◌else◌, Bool-cases, inl, inr,
}
use deputy_agent.Value.{Value}
use deputy_agent.Host.Criteria.{
  CheckResult, pass, fail, error, all_pass, some_fail, overall_error, DoneCriteriaConfig,
}
use deputy_agent.Host.Criteria.Validate.{Checked, rejected, accepted, validate_parsed_config}
use deputy_agent.Host.Criteria.Validate.Accepted.{AreSafe, validate_parsed_config-AreSafe}
use deputy_agent.Host.Criteria.Checks.{Workspace}
use deputy_agent.Host.Criteria.Evaluate.{
  CheckOutcome, DoneCriteriaOutcome, LoadResult, no_file, read_failed, loaded, build_error_outcome,
  run_check, run_checks, has_result, count_of, aggregate, evaluate_validated, evaluate_parsed,
  evaluate_outcome,
}

result_counted :
    (r : CheckResult) (p f e : ℕ)
    → (if has_result r pass then suc p else p)
        + (if has_result r fail then suc f else f)
        + (if has_result r error then suc e else e)
      ≡ suc (p + f + e)
unfolding has_result
result_counted pass p f e = omega arith
result_counted fail p f e = omega arith
result_counted error p f e = omega arith

length-if :
    {A : Type 0} (c : Bool) (x : A) (xs : List A)
    → length (if c then x ∷ xs else xs) ≡ (if c then suc (length xs) else length xs)
length-if true x xs = refl
length-if false x xs = refl

count_of-cons :
    (r : CheckResult) (c : CheckOutcome) (cs : List CheckOutcome)
    → count_of r (c ∷ cs)
      ≡ (if has_result c.exec.result r then suc (count_of r cs) else count_of r cs)
unfolding count_of
count_of-cons r c cs =
    length-if (has_result c.exec.result r) c (filter (λ d. has_result d.exec.result r) cs)

counts-total :
    (outcomes : List CheckOutcome)
    → count_of pass outcomes + count_of fail outcomes + count_of error outcomes ≡ length outcomes
counts-total [] = unfold count_of in refl
counts-total (c ∷ cs) =
    rw (count_of-cons pass c cs, count_of-cons fail c cs, count_of-cons error c cs)
      (result_counted c.exec.result (count_of pass cs) (count_of fail cs) (count_of error cs)
        ∙ ap suc (counts-total cs))

count_of-length :
    (r : CheckResult) (outcomes : List CheckOutcome) → count_of r outcomes ≤ length outcomes
count_of-length r [] = unfold count_of in omega arith
count_of-length r (c ∷ cs) = rw (count_of-cons r c cs) (ground (arith, count_of-length r cs))

is_pass : (r : CheckResult) → has_result r pass ≡ true → r ≡ pass
unfolding has_result
is_pass pass h = refl
is_pass fail h = cc
is_pass error h = cc

-- every outcome has the result that is counted
All-counted :
    (outcomes : List CheckOutcome)
    → count_of pass outcomes ≡ length outcomes
    → All (λ c. c.exec.result ≡ pass) outcomes
All-counted [] h = tt
All-counted (c ∷ cs) h = elim (Bool-cases (has_result c.exec.result pass)) [
  | inl e ↦
      let k = rw (count_of-cons pass c cs, e) at h in
      (is_pass c.exec.result e, All-counted cs (omega (arith, k)))
  | inr e ↦
      let k = rw (count_of-cons pass c cs, e) at h in
      absurd (omega (arith, k, count_of-length pass cs))
]

run_checks-pass :
    (w : Workspace) (idx : ℕ) (config : DoneCriteriaConfig)
    → All (λ c. c.exec.result ≡ pass) (run_checks w idx config)
    → All (λ check. (run_check w check).result ≡ pass) config
unfolding run_checks
run_checks-pass w idx [] h = tt
run_checks-pass w idx (check ∷ checks) h = (h.0, run_checks-pass w (idx + 1) checks h.1)

aggregate-all_pass :
    (outcomes : List CheckOutcome)
    → (aggregate outcomes).overall ≡ all_pass
    → All (λ c. c.exec.result ≡ pass) outcomes
unfolding aggregate
aggregate-all_pass outcomes h = All-counted outcomes (ground arith)

-- what `all_pass` stands for
abbrev pub HasPassed : Workspace → LoadResult → DoneCriteriaConfig → Type 0
HasPassed w load config =
    (text : String) × (v : Value) × (load ≡ loaded text)
    × (w.parse_yaml text ≡ some v)
    × (validate_parsed_config v false ≡ accepted config)
    × (config ≢ [])
    × AreSafe false [] config
    × All (λ check. (run_check w check).result ≡ pass) config

evaluate_validated-all_pass :
    (w : Workspace) (c : Checked DoneCriteriaConfig)
    → (evaluate_validated w c).overall ≡ all_pass
    → (config : DoneCriteriaConfig) × (c ≡ accepted config)
      × All (λ check. (run_check w check).result ≡ pass) config
unfolding evaluate_validated
evaluate_validated-all_pass w (rejected d) h = unfold build_error_outcome in cc
evaluate_validated-all_pass w (accepted config) h =
    (config, refl, run_checks-pass w 0 config (aggregate-all_pass (run_checks w 0 config) h))

parsed-all_pass :
    (w : Workspace) (text : String) (o : Option Value)
    → w.parse_yaml text ≡ o
    → (evaluate_parsed w o).overall ≡ all_pass
    → (config : DoneCriteriaConfig) × HasPassed w (loaded text) config
unfolding evaluate_parsed
parsed-all_pass w text none e h = unfold build_error_outcome in cc
parsed-all_pass w text (some v) e h =
    let (config, valid, passes) =
      evaluate_validated-all_pass w (validate_parsed_config v false) h in
    let (nonempty, safe) = validate_parsed_config-AreSafe v false valid in
    (config, (text, v, refl, e, valid, nonempty, safe, passes))

passes-counted :
    (outcomes : List CheckOutcome)
    → All (λ c. c.exec.result ≡ pass) outcomes
    → count_of pass outcomes ≡ length outcomes
unfolding has_result
passes-counted [] h = unfold count_of in refl
passes-counted (c ∷ cs) h =
    rw (count_of-cons pass c cs, h.0, has_result) (ap suc (passes-counted cs h.1))

all_pass-config :
    (w : Workspace) (load : LoadResult)
    → (evaluate_outcome w load).overall ≡ all_pass
    → (config : DoneCriteriaConfig) × HasPassed w load config
unfolding evaluate_outcome
all_pass-config w no_file h = unfold build_error_outcome in cc
all_pass-config w read_failed h = unfold build_error_outcome in cc
all_pass-config w (loaded text) h = parsed-all_pass w text (w.parse_yaml text) refl h

pass-run_checks :
    (w : Workspace) (idx : ℕ) (config : DoneCriteriaConfig)
    → All (λ check. (run_check w check).result ≡ pass) config
    → All (λ c. c.exec.result ≡ pass) (run_checks w idx config)
unfolding run_checks
pass-run_checks w idx [] h = tt
pass-run_checks w idx (check ∷ checks) h = (h.0, pass-run_checks w (idx + 1) checks h.1)

run_checks-nonempty :
    (w : Workspace) (idx : ℕ) (config : DoneCriteriaConfig)
    → config ≢ []
    → 0 < length (run_checks w idx config)
unfolding run_checks
run_checks-nonempty w idx [] h = absurd (h refl)
run_checks-nonempty w idx (check ∷ checks) h = omega arith

all_pass-aggregate :
    (outcomes : List CheckOutcome)
    → All (λ c. c.exec.result ≡ pass) outcomes
    → 0 < length outcomes
    → (aggregate outcomes).overall ≡ all_pass
unfolding aggregate
all_pass-aggregate outcomes h k = rw (passes-counted outcomes h) (ground arith)

all_pass-evaluate_outcome :
    (w : Workspace) (load : LoadResult)
    → (config : DoneCriteriaConfig) × HasPassed w load config
    → (evaluate_outcome w load).overall ≡ all_pass
unfolding evaluate_outcome
all_pass-evaluate_outcome w load (config, (text, v, l, e, valid, nonempty, safe, passes)) =
    rw (l, evaluate_outcome, e, evaluate_parsed, valid, evaluate_validated)
      (all_pass-aggregate (run_checks w 0 config) (pass-run_checks w 0 config passes)
        (run_checks-nonempty w 0 config nonempty))

-- The evaluation answers `all_pass` exactly where done_criteria.yaml was read, parsed and accepted,
-- has a check, and each of its checks was run and passed.
pub evaluate_outcome-all_pass :
    (w : Workspace) (load : LoadResult)
    → ((evaluate_outcome w load).overall ≡ all_pass)
      ↔ ((config : DoneCriteriaConfig) × HasPassed w load config)
evaluate_outcome-all_pass w load = (all_pass-config w load, all_pass-evaluate_outcome w load)

-- the counts of an outcome add up, and it names an error exactly where it is one
abbrev pub AddsUp : DoneCriteriaOutcome → Type 0
AddsUp o =
    (o.summary.passed + o.summary.failed + o.summary.errored ≡ o.summary.total)
    × ((o.summary.total ≡ length o.checks)
        × ((o.overall ≡ overall_error) ↔ (o.summary.error_kind ≢ none)))

build_error_outcome-AddsUp : (kind : _) → AddsUp (build_error_outcome kind)
unfolding build_error_outcome
build_error_outcome-AddsUp kind = (refl, (refl, ((λ e. λ h. cc), (λ h. refl))))

not_error : (c : Bool) → (if c then all_pass else some_fail) ≢ overall_error
not_error true e = cc
not_error false e = cc

aggregate-AddsUp : (outcomes : List CheckOutcome) → AddsUp (aggregate outcomes)
unfolding aggregate
aggregate-AddsUp outcomes =
    (counts-total outcomes, (refl, ((λ e. absurd (not_error _ e)), (λ h. absurd (h refl)))))

validated-AddsUp :
    (w : Workspace) (c : Checked DoneCriteriaConfig) → AddsUp (evaluate_validated w c)
unfolding evaluate_validated
validated-AddsUp w (rejected d) = build_error_outcome-AddsUp _
validated-AddsUp w (accepted config) = aggregate-AddsUp (run_checks w 0 config)

parsed-AddsUp : (w : Workspace) (o : Option Value) → AddsUp (evaluate_parsed w o)
unfolding evaluate_parsed
parsed-AddsUp w none = build_error_outcome-AddsUp _
parsed-AddsUp w (some v) = validated-AddsUp w (validate_parsed_config v false)

-- In every outcome the passed, failed and errored checks are together the total, which is the
-- number of check outcomes, and the summary names an error exactly where the overall result is one.
pub evaluate_outcome-AddsUp : (w : Workspace) (load : LoadResult) → AddsUp (evaluate_outcome w load)
unfolding evaluate_outcome
evaluate_outcome-AddsUp w no_file = build_error_outcome-AddsUp _
evaluate_outcome-AddsUp w read_failed = build_error_outcome-AddsUp _
evaluate_outcome-AddsUp w (loaded text) = parsed-AddsUp w (w.parse_yaml text)
