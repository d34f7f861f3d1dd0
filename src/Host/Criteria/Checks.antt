-- ===== src/Host/Criteria/Checks.antt =====
-- The execution of one check, src/host/done_criteria/checks.ts. What the workspace answers is a
-- parameter; the `detail` of a result is left out.
use Prim.Native.Char.{code}
use deputy_agent.Prelude.{
  ℕ, zero, ◌+◌, leb, ◌==◌, String, ℤ, pos, Bool, true, false, not, List, [], ◌∷◌, Option, none,
  some, length, filter, if◌then◌else◌,
}
use deputy_agent.Value.{Value, obj, keys, includes, property, is_plain_object}
use deputy_agent.Host.Criteria.{
  DoneCriteriaErrorKind, yaml_parse_error, path_escape, check_io_error, interpreter_not_allowed,
  interpreter_not_found, script_timeout, script_io_error, CheckResult, pass, fail, error, CheckSpec,
  file_exists, file_min_lines, file_min_bytes, yaml_field_present, dir_min_files, script,
  DoneCriteriaCheck, default_script_timeout_seconds,
}
use deputy_agent.Host.Criteria.Paths.{interpreter_allowed}

-- what `lstat` says: `no_entry` is ENOENT
pub data FileStat : Type 0 where
  regular not_regular no_entry stat_failed : FileStat

pub data DirStat : Type 0 where
  directory not_directory no_directory dir_failed : DirStat

-- how a script ended
pub data ScriptRun : Type 0 where
  exited : (return_code : ℤ) → ScriptRun
  timed_out no_interpreter run_failed : ScriptRun

-- What the code asks of the workspace and of its libraries, by paths relative to the workspace:
-- `escapes` is the answer of `resolveInWorkspace`, and `glob` gives for each match whether its real
-- path is inside the workspace.
pub record Workspace : Type 0 where
  pub escapes : String → Bool
  pub lstat : String → FileStat
  pub read_text : String → Option String
  pub size : String → Option ℕ
  pub parse_yaml : String → Option Value
  pub stat_dir : String → DirStat
  pub glob : String → String → Option (List (Bool × FileStat))
  pub run_script : String → String → ℕ → ScriptRun
  pub throws : DoneCriteriaCheck → Bool

pub record CheckExecResult : Type 0 where
  pub result : CheckResult
  pub error_kind : Option DoneCriteriaErrorKind

abbrev pub passed : CheckExecResult
passed = record { result = pass; error_kind = none }

abbrev pub failed : CheckExecResult
failed = record { result = fail; error_kind = none }

abbrev pub errs : DoneCriteriaErrorKind → CheckExecResult
errs kind = record { result = error; error_kind = some kind }

abbrev pub pass_when : Bool → CheckExecResult
pass_when c = if c then passed else failed

-- the guards before a regular file is used
unfoldable pub on_regular : Workspace → String → CheckExecResult → CheckExecResult
on_regular w path next = if w.escapes path then errs path_escape else elim (w.lstat path) [
  | regular ↦ next
  | not_regular ↦ failed
  | no_entry ↦ failed
  | stat_failed ↦ errs check_io_error
]

unfoldable pub check_file_exists : Workspace → String → CheckExecResult
unfolding on_regular
check_file_exists w path = on_regular w path passed

-- the lines of a text whose last character was a carriage return, and whose last line is not empty
unfoldable pub lines_from : Bool → Bool → String → ℕ
lines_from cr started String.[] = if started then 1 else 0
lines_from cr started (String.◌∷◌ c s) = elim (code c == 13) [
  | true ↦ 1 + lines_from true false s
  | false ↦ elim (code c == 10) [
    | true ↦ elim cr [ true ↦ lines_from false false s | false ↦ 1 + lines_from false false s ]
    | false ↦ lines_from false true s
  ]
]

-- `countLines`: a CR LF ends one line
unfoldable pub count_lines : String → ℕ
unfolding lines_from
count_lines text = lines_from false false text

unfoldable pub check_file_min_lines : Workspace → String → ℕ → CheckExecResult
unfolding on_regular count_lines
check_file_min_lines w path min_lines = on_regular w path (elim (w.read_text path) [
  | none ↦ errs check_io_error
  | some text ↦ pass_when (leb min_lines (count_lines text))
])

unfoldable pub check_file_min_bytes : Workspace → String → ℕ → CheckExecResult
unfolding on_regular
check_file_min_bytes w path min_bytes =
    on_regular w path (elim (w.size path) [
      | none ↦ errs check_io_error
      | some size ↦ pass_when (leb min_bytes size)
    ])

-- `field.split(".")`: the first segment and the others
unfoldable pub split_dots : String → String × List String
split_dots String.[] = ("", [])
split_dots (String.◌∷◌ c s) =
    let (part, parts) = split_dots s in
    if code c == 46 then ("", part ∷ parts) else (String.◌∷◌ c part, parts)

-- the loop over the segments
unfoldable pub has_field : Value → List String → Bool
unfolding includes keys property
has_field cursor [] = true
has_field (obj fs) (seg ∷ segs) =
    let rest = has_field (property seg fs) segs in if includes (keys fs) seg then rest else false
has_field _ (seg ∷ segs) = false

unfoldable pub check_yaml_value : Value → String → CheckExecResult
unfolding has_field split_dots is_plain_object
check_yaml_value value field =
    if is_plain_object value
    then (let (seg, segs) = split_dots field in pass_when (has_field value (seg ∷ segs)))
    else failed

unfoldable pub check_yaml_field_present : Workspace → String → String → CheckExecResult
unfolding on_regular check_yaml_value
check_yaml_field_present w path field = on_regular w path (elim (w.read_text path) [
  | none ↦ errs check_io_error
  | some text ↦ elim (w.parse_yaml text) [
    | none ↦ errs yaml_parse_error
    | some value ↦ check_yaml_value value field
  ]
])

-- a match that counts
unfoldable pub is_counted : Bool × FileStat → Bool
is_counted (false, st) = false
is_counted (true, regular) = true
is_counted (true, not_regular) = false
is_counted (true, no_entry) = false
is_counted (true, stat_failed) = false

unfoldable pub check_dir_min_files : Workspace → String → String → ℕ → CheckExecResult
unfolding is_counted
check_dir_min_files w path pattern min_count =
    if w.escapes path then errs path_escape else elim (w.stat_dir path) [
      | no_directory ↦ failed
      | not_directory ↦ failed
      | dir_failed ↦ errs check_io_error
      | directory ↦ elim (w.glob path pattern) [
        | none ↦ errs check_io_error
        | some entries ↦ pass_when (leb min_count (length (filter is_counted entries)))
      ]
    ]

unfoldable pub is_zero : ℤ → Bool
is_zero (pos zero) = true
is_zero _ = false

unfoldable pub script_result : ScriptRun → CheckExecResult
unfolding is_zero
script_result (exited return_code) = pass_when (is_zero return_code)
script_result timed_out = errs script_timeout
script_result no_interpreter = errs interpreter_not_found
script_result run_failed = errs script_io_error

-- `check.timeoutSeconds ?? DEFAULT_SCRIPT_TIMEOUT_SECONDS`
unfoldable pub timeout_or_default : Option ℕ → ℕ
timeout_or_default none = default_script_timeout_seconds
timeout_or_default (some n) = n

unfoldable pub check_script : Workspace → String → String → Option ℕ → CheckExecResult
unfolding interpreter_allowed script_result timeout_or_default
check_script w script_path interpreter timeout =
    if not (interpreter_allowed interpreter)
    then errs interpreter_not_allowed
    else if w.escapes script_path
    then errs path_escape
    else elim (w.lstat script_path) [
      | regular ↦ script_result (w.run_script script_path interpreter (timeout_or_default timeout))
      | not_regular ↦ errs script_io_error
      | no_entry ↦ errs script_io_error
      | stat_failed ↦ errs script_io_error
    ]

unfoldable pub evaluate_one : Workspace → CheckSpec → CheckExecResult
unfolding check_file_exists check_file_min_lines check_file_min_bytes check_yaml_field_present
    check_dir_min_files check_script
evaluate_one w (file_exists path) = check_file_exists w path
evaluate_one w (file_min_lines path min_lines) = check_file_min_lines w path min_lines
evaluate_one w (file_min_bytes path min_bytes) = check_file_min_bytes w path min_bytes
evaluate_one w (yaml_field_present path field) = check_yaml_field_present w path field
evaluate_one w (dir_min_files path pattern min_count) = check_dir_min_files w path pattern min_count
evaluate_one w (script script_path interpreter timeout) =
    check_script w script_path interpreter timeout
