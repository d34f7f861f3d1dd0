-- ===== src/Scenarios/Criteria.antt =====
-- An evaluation of done criteria with a file check and a script check (src/host/done_criteria).
use deputy_agent.Prelude.{
  pos, String, ◌≡◌, ◌≢◌, refl, ◌↔◌, true, false, List, [], ◌∷◌, ◌++◌, none, some,
}
use deputy_agent.Value.{Value, str, arr, obj, cons, nil, field, end}
use deputy_agent.Host.Criteria.{DoneCriteriaConfig, file_exists, script, all_pass, path_escape}
use deputy_agent.Host.Criteria.Paths.{unsafe_reason, path_parts, interpreter_allowed}
use deputy_agent.Host.Criteria.Paths.Below.{walk, unsafe_reason-walk}
use deputy_agent.Host.Criteria.Validate.{accepted, validate_parsed_config}
use deputy_agent.Host.Criteria.Validate.Accepted.{AreSafe, validate_parsed_config-AreSafe}
use deputy_agent.Host.Criteria.Checks.{Workspace, regular, directory, exited, count_lines}
use deputy_agent.Host.Criteria.Evaluate.{loaded, evaluate_outcome}
use deputy_agent.Host.Criteria.Evaluate.Sound.{
  HasPassed, evaluate_outcome-all_pass, AddsUp, evaluate_outcome-AddsUp,
}

abbrev criteria : Value
criteria = obj (
    field "checks"
      (arr (
        cons
          (obj (
            field "kind" (str "file_exists") (
              field "description" (str "a report")
                (field "path" (str "out/report.md") (field "id" (str "report") end)))))
          (cons
            (obj (
              field "kind" (str "script") (
                field "description" (str "the tests") (
                  field "script_path" (str "harness/tools/scripts/test.sh")
                    (field "interpreter" (str "bash") end)))))
            nil)))
      end)

abbrev config : DoneCriteriaConfig
config =
    record { id = some "report"; description = "a report"; spec = file_exists "out/report.md" }
    ∷ record {
      id = none;
      description = "the tests";
      spec = script "harness/tools/scripts/test.sh" "bash" none;
    }
    ∷ []

-- every file is there, and every script exits with 0
abbrev tidy : Workspace
tidy = record {
  escapes = λ path. false;
  lstat = λ path. regular;
  read_text = λ path. some "";
  size = λ path. some 0;
  parse_yaml = λ text. some criteria;
  stat_dir = λ path. directory;
  glob = λ path pattern. some [];
  run_script = λ path interpreter timeout. exited (pos 0);
  throws = λ check. false;
}

accepts : validate_parsed_config criteria true ≡ accepted config
unfolding validate_parsed_config
accepts = refl

passes : (evaluate_outcome tidy (loaded "checks: ...")).overall ≡ all_pass
unfolding evaluate_outcome
passes = refl

-- a kind that quotes a path diagnostic
abbrev misnamed : Workspace
misnamed = record tidy {
  parse_yaml = λ text. some (
      obj (field "checks" (arr (cons (obj (field "kind" (str "invalid: contains") end)) nil)) end));
}

calls_it_a_path_escape :
    (evaluate_outcome misnamed (loaded "checks: ...")).summary.error_kind ≡ some path_escape
unfolding evaluate_outcome
calls_it_a_path_escape = refl

rejects_the_parent : unsafe_reason "out/../../secret" ≢ none
unfolding unsafe_reason
rejects_the_parent e = cc

allows_windows : interpreter_allowed "Python3.EXE" ≡ true
unfolding interpreter_allowed
allows_windows = refl

counts_lines : count_lines "a\r\nb\n\nc" ≡ 4
unfolding count_lines
counts_lines = refl

unsafe_reason-walk_example :
    (l : List String) × (walk ("workspace" ∷ []) (path_parts "out/./report.md")
      ≡ l ++ ("workspace" ∷ []))
unfolding unsafe_reason
unsafe_reason-walk_example = unsafe_reason-walk "out/./report.md" ("workspace" ∷ []) refl

validate_parsed_config-AreSafe_example : (config ≢ []) × AreSafe true [] config
validate_parsed_config-AreSafe_example = validate_parsed_config-AreSafe criteria true accepts

evaluate_outcome-all_pass_example :
    ((evaluate_outcome tidy (loaded "checks: ...")).overall ≡ all_pass)
    ↔ ((c : DoneCriteriaConfig) × HasPassed tidy (loaded "checks: ...") c)
evaluate_outcome-all_pass_example = evaluate_outcome-all_pass tidy (loaded "checks: ...")

evaluate_outcome-AddsUp_example : AddsUp (evaluate_outcome tidy (loaded "checks: ..."))
evaluate_outcome-AddsUp_example = evaluate_outcome-AddsUp tidy (loaded "checks: ...")
