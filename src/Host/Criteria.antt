-- ===== src/Host/Criteria.antt =====
-- The done criteria of a task, src/host/done_criteria: the types of types.ts and errorKinds.ts.
pub mod Paths
pub mod Validate
pub mod Checks
pub mod Evaluate
use deputy_agent.Prelude.{ℕ, String, List, [], ◌∷◌, Option}

pub data CheckKind : Type 0 where
  file_exists_kind file_min_lines_kind file_min_bytes_kind yaml_field_present_kind : CheckKind
  dir_min_files_kind script_kind : CheckKind

pub data DoneCriteriaErrorKind : Type 0 where
  file_not_found file_io_error yaml_parse_error schema_invalid : DoneCriteriaErrorKind
  evaluator_internal_error path_escape check_io_error : DoneCriteriaErrorKind
  interpreter_not_allowed interpreter_not_found script_timeout script_io_error :
      DoneCriteriaErrorKind

pub data CheckResult : Type 0 where
  pass fail error : CheckResult

pub data OverallResult : Type 0 where
  all_pass some_fail overall_error : OverallResult

-- the fields of one kind of check
pub data CheckSpec : Type 0 where
  file_exists : (path : String) → CheckSpec
  file_min_lines : (path : String) (min_lines : ℕ) → CheckSpec
  file_min_bytes : (path : String) (min_bytes : ℕ) → CheckSpec
  yaml_field_present : (path field : String) → CheckSpec
  dir_min_files : (path pattern : String) (min_count : ℕ) → CheckSpec
  script : (script_path interpreter : String) (timeout_seconds : Option ℕ) → CheckSpec

pub record DoneCriteriaCheck : Type 0 where
  pub id : Option String
  pub description : String
  pub spec : CheckSpec

abbrev pub DoneCriteriaConfig : Type 0
DoneCriteriaConfig = List DoneCriteriaCheck

abbrev pub interpreter_allowlist : List String
interpreter_allowlist =
    "bash" ∷ "sh" ∷ "zsh" ∷ "python" ∷ "python3" ∷ "py" ∷ "powershell" ∷ "pwsh" ∷ "node" ∷ []

abbrev pub default_script_timeout_seconds : ℕ
default_script_timeout_seconds = 1800

abbrev pub max_script_timeout_seconds : ℕ
max_script_timeout_seconds = 3600

-- `SCRIPT_DIR_RELATIVE.split("/")`
abbrev pub script_dir_relative : List String
script_dir_relative = "harness" ∷ "tools" ∷ "scripts" ∷ []
