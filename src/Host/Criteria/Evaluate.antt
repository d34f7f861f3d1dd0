-- ===== src/Host/Criteria/Evaluate.antt =====
-- The evaluator of src/host/done_criteria/evaluate.ts: load, parse, validate, run each check, add up.
-- The time stamps are left out.
pub mod Sound
use deputy_agent.Prelude.{
  ℕ, zero, suc, ◌+◌, ltb, ◌==◌, String, Bool, true, false, not, ◌||◌, ◌&&◌, List, [], ◌∷◌, Option,
  none, some, length, filter, if◌then◌else◌,
}
use text.Mathlib.Text.{find?}
use deputy_agent.Value.{Value}
use deputy_agent.Host.Criteria.{
  DoneCriteriaErrorKind, file_not_found, file_io_error, yaml_parse_error, schema_invalid,
  evaluator_internal_error, path_escape, CheckResult, pass, fail, error, OverallResult, all_pass,
  some_fail, overall_error, CheckSpec, DoneCriteriaCheck, DoneCriteriaConfig,
}
use deputy_agent.Host.Criteria.Validate.{
  Diagnostic, Checked, rejected, accepted, validate_parsed_config,
}
use deputy_agent.Host.Criteria.Checks.{Workspace, CheckExecResult, errs, evaluate_one}

-- the id of a check's outcome: its own, or `check_` and the padded number
pub data CheckId : Type 0 where
  named : String → CheckId
  numbered : ℕ → CheckId

pub record CheckOutcome : Type 0 where
  pub check_id : CheckId
  pub check : DoneCriteriaCheck
  pub exec : CheckExecResult

pub record OutcomeSummary : Type 0 where
  pub total : ℕ
  pub passed : ℕ
  pub failed : ℕ
  pub errored : ℕ
  pub error_kind : Option DoneCriteriaErrorKind

pub record DoneCriteriaOutcome : Type 0 where
  pub overall : OverallResult
  pub checks : List CheckOutcome
  pub summary : OutcomeSummary

-- what `readFile` of done_criteria.yaml gives
pub data LoadResult : Type 0 where
  no_file read_failed : LoadResult
  loaded : (text : String) → LoadResult

-- `buildErrorOutcome`
unfoldable pub build_error_outcome : DoneCriteriaErrorKind → DoneCriteriaOutcome
build_error_outcome kind = record {
  overall = overall_error;
  checks = [];
  summary = record { total = 0; passed = 0; failed = 0; errored = 0; error_kind = some kind };
}

unfoldable pub contains : String → String → Bool
contains text part = elim (find? text part) [ none ↦ false | some i ↦ true ]

-- /invalid: (starts with|contains|is absolute)/.test(diagnostic)
unfoldable pub is_path_escape : Diagnostic → Bool
unfolding contains
is_path_escape d =
    contains d.text "invalid: starts with"
    || contains d.text "invalid: contains"
    || contains d.text "invalid: is absolute"

unfoldable pub rejected_kind : Diagnostic → DoneCriteriaErrorKind
unfolding is_path_escape
rejected_kind d = if is_path_escape d then path_escape else schema_invalid

unfoldable pub check_id_of : DoneCriteriaCheck → ℕ → CheckId
check_id_of check idx = elim check.id [ none ↦ numbered (idx + 1) | some id ↦ named id ]

-- one check with its own `try` and `catch`
unfoldable pub run_check : Workspace → DoneCriteriaCheck → CheckExecResult
unfolding evaluate_one
run_check w check =
    if w.throws check then errs evaluator_internal_error else evaluate_one w check.spec

-- the loop over the checks
unfoldable pub run_checks : Workspace → ℕ → DoneCriteriaConfig → List CheckOutcome
unfolding check_id_of run_check
run_checks w idx [] = []
run_checks w idx (check ∷ checks) =
    record { check_id = check_id_of check idx; check = check; exec = run_check w check }
    ∷ run_checks w (idx + 1) checks

unfoldable pub has_result : CheckResult → CheckResult → Bool
has_result pass pass = true
has_result fail fail = true
has_result error error = true
has_result _ _ = false

unfoldable pub count_of : CheckResult → List CheckOutcome → ℕ
unfolding has_result
count_of r outcomes = length (filter (λ c. has_result c.exec.result r) outcomes)

-- step 4
unfoldable pub aggregate : List CheckOutcome → DoneCriteriaOutcome
unfolding count_of
aggregate outcomes = record {
  overall =
      if count_of pass outcomes == length outcomes && ltb 0 (length outcomes)
      then all_pass
      else some_fail;
  checks = outcomes;
  summary = record {
    total = length outcomes;
    passed = count_of pass outcomes;
    failed = count_of fail outcomes;
    errored = count_of error outcomes;
    error_kind = none;
  };
}

unfoldable pub evaluate_validated : Workspace → Checked DoneCriteriaConfig → DoneCriteriaOutcome
unfolding build_error_outcome rejected_kind aggregate run_checks
evaluate_validated w (rejected d) = build_error_outcome (rejected_kind d)
evaluate_validated w (accepted config) = aggregate (run_checks w 0 config)

unfoldable pub evaluate_parsed : Workspace → Option Value → DoneCriteriaOutcome
unfolding evaluate_validated build_error_outcome validate_parsed_config
evaluate_parsed w none = build_error_outcome yaml_parse_error
evaluate_parsed w (some v) = evaluate_validated w (validate_parsed_config v false)

unfoldable pub evaluate_outcome : Workspace → LoadResult → DoneCriteriaOutcome
unfolding evaluate_parsed build_error_outcome
evaluate_outcome w no_file = build_error_outcome file_not_found
evaluate_outcome w read_failed = build_error_outcome file_io_error
evaluate_outcome w (loaded text) = evaluate_parsed w (w.parse_yaml text)
