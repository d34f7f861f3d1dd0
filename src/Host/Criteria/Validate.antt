-- ===== src/Host/Criteria/Validate.antt =====
-- The validation of done_criteria.yaml, src/host/done_criteria/validate.ts, from the parsed YAML on.
pub mod Accepted
use Prim.Native.Char.{code}
use deputy_agent.Prelude.{
  ℕ, zero, suc, ◌+◌, leb, ltb, ◌==◌, ◌≡◌, refl, String, ℤ, pos, negsuc, Bool, true, false, not,
  ◌||◌, ◌&&◌, List, [], ◌∷◌, Option, none, some, str_eq, str_append, if◌then◌else◌,
}
use deputy_agent.Value.{
  Value, undefined, null, int, str, arr, obj, Items, nil, cons, Fields, property, property_of,
  includes,
}
use deputy_agent.Host.Criteria.{
  CheckKind, file_exists_kind, file_min_lines_kind, file_min_bytes_kind, yaml_field_present_kind,
  dir_min_files_kind, script_kind, CheckSpec, file_exists, file_min_lines, file_min_bytes,
  yaml_field_present, dir_min_files, script, DoneCriteriaCheck, DoneCriteriaConfig,
  max_script_timeout_seconds,
}
use deputy_agent.Host.Criteria.Paths.{
  UnsafeReason, unsafe_reason, path_reason_text, pattern_reason_text, interpreter_allowed,
  script_path_under_scripts_dir,
}

-- A diagnostic: the text after `checks[${index}]`, or the whole text where no check is named. Lists of
-- allowed values and numbers at the end of a text are left out.
pub record Diagnostic : Type 0 where
  pub index : Option ℕ
  pub text : String

pub data Checked (A : Type 0) : Type 0 where
  rejected : Diagnostic → Checked A
  accepted : A → Checked A

infixl 5 ◌>>=◌ ◌>>◌
abbrev pub ◌>>=◌ : {A B : Type 0} → Checked A → (A → Checked B) → Checked B
rejected d >>= f = rejected d
accepted a >>= f = f a

abbrev pub ◌>>◌ : {A B : Type 0} → Checked A → Checked B → Checked B
m >> k = m >>= λ _. k

abbrev pub reject_if : Bool → ℕ → String → Checked (Unit {0})
reject_if c idx text =
    if c then rejected (record { index = some idx; text = text }) else accepted tt

-- a value that the test must find
abbrev pub require : {A : Type 0} → Option A → ℕ → String → Checked A
require none idx text = rejected (record { index = some idx; text = text })
require (some a) idx text = accepted a

-- the characters that `trim` removes
unfoldable pub is_space : ℕ → Bool
is_space c =
    (leb 9 c && leb c 13)
    || c == 32
    || c == 160
    || c == 5760
    || (leb 8192 c && leb c 8202)
    || c == 8232
    || c == 8233
    || c == 8239
    || c == 8287
    || c == 12288
    || c == 65279

unfoldable pub is_blank : String → Bool
unfolding is_space
is_blank String.[] = true
is_blank (String.◌∷◌ c s) = is_space (code c) && is_blank s

-- `nonBlankString`
unfoldable pub non_blank_string : Value → Option String
unfolding is_blank
non_blank_string (str s) = if is_blank s then none else some s
non_blank_string _ = none

-- `isNonNegativeInt`
unfoldable pub non_negative_int : Value → Option ℕ
non_negative_int (int (pos n)) = some n
non_negative_int _ = none

unfoldable pub as_kind_text : Value → Option String
as_kind_text (str s) = some s
as_kind_text _ = none

unfoldable pub check_kind : String → Option CheckKind
check_kind kind =
    if str_eq kind "file_exists"
    then some file_exists_kind
    else if str_eq kind "file_min_lines"
    then some file_min_lines_kind
    else if str_eq kind "file_min_bytes"
    then some file_min_bytes_kind
    else if str_eq kind "yaml_field_present"
    then some yaml_field_present_kind
    else if str_eq kind "dir_min_files"
    then some dir_min_files_kind
    else if str_eq kind "script"
    then some script_kind
    else none

-- the optional id: `none` where it is refused
unfoldable pub id_given : Value → Option (Option String)
id_given undefined = some none
id_given null = some none
id_given (str s) = if str_eq s "" then none else some (some s)
id_given _ = none

abbrev pub quoted : String → String
quoted s = str_append "'" (str_append s "'")

-- the text at a key, and the reason why it is rejected as a path
unfoldable pub safe_text : String → (UnsafeReason → String) → Fields → ℕ → Checked String
unfolding non_blank_string unsafe_reason property
safe_text key reason_text raw idx = do
  path ←
      require (non_blank_string (property key raw)) idx
        (str_append "." (str_append key " must be a non-empty string"))
  elim (unsafe_reason path) [
    | none ↦ accepted path
    | some r ↦ rejected (record {
      index = some idx;
      text = str_append "." (
          str_append key
            (str_append " " (str_append (quoted path) (str_append " invalid: " (reason_text r)))));
    })
  ]

unfoldable pub count_at : String → Fields → ℕ → Checked ℕ
unfolding non_negative_int property
count_at key raw idx =
    require (non_negative_int (property key raw)) idx
      (str_append "." (str_append key " must be a non-negative integer"))

-- the optional timeout: a positive integer up to the bound
unfoldable pub timeout_of : Value → ℕ → Checked (Option ℕ)
timeout_of undefined idx = accepted none
timeout_of null idx = accepted none
timeout_of (int (pos (suc n))) idx =
    if ltb max_script_timeout_seconds (suc n)
    then rejected (record { index = some idx; text = ".timeout_seconds exceeds upper bound" })
    else accepted (some (suc n))
timeout_of _ idx =
    rejected (record { index = some idx; text = ".timeout_seconds must be a positive integer" })

-- the cases of the `switch`
unfoldable pub check_spec : CheckKind → Fields → ℕ → Bool → Checked CheckSpec
unfolding safe_text count_at timeout_of path_reason_text pattern_reason_text interpreter_allowed
    script_path_under_scripts_dir non_blank_string property
check_spec file_exists_kind raw idx enforce = do
  path ← safe_text "path" path_reason_text raw idx
  accepted (file_exists path)
check_spec file_min_lines_kind raw idx enforce = do
  path ← safe_text "path" path_reason_text raw idx
  min_lines ← count_at "min_lines" raw idx
  accepted (file_min_lines path min_lines)
check_spec file_min_bytes_kind raw idx enforce = do
  path ← safe_text "path" path_reason_text raw idx
  min_bytes ← count_at "min_bytes" raw idx
  accepted (file_min_bytes path min_bytes)
check_spec yaml_field_present_kind raw idx enforce = do
  path ← safe_text "path" path_reason_text raw idx
  field ← require (non_blank_string (property "field" raw)) idx ".field must be a non-empty string"
  accepted (yaml_field_present path field)
check_spec dir_min_files_kind raw idx enforce = do
  path ← safe_text "path" path_reason_text raw idx
  pattern ← safe_text "pattern" pattern_reason_text raw idx
  min_count ← count_at "min_count" raw idx
  accepted (dir_min_files path pattern min_count)
check_spec script_kind raw idx enforce = do
  script_path ← safe_text "script_path" path_reason_text raw idx
  reject_if (not (script_path_under_scripts_dir script_path)) idx (
      str_append ".script_path "
        (str_append (quoted script_path) " must live under 'harness/tools/scripts/'"))
  interpreter ←
      require (non_blank_string (property "interpreter" raw)) idx
        ".interpreter must be a non-empty string"
  reject_if (enforce && not (interpreter_allowed interpreter)) idx
      (str_append ".interpreter " (str_append (quoted interpreter) " not in allowlist"))
  timeout ← timeout_of (property "timeout_seconds" raw) idx
  accepted (script script_path interpreter timeout)

unfoldable pub validate_and_convert_check : Fields → ℕ → Bool → Checked DoneCriteriaCheck
unfolding as_kind_text check_kind non_blank_string id_given check_spec property
validate_and_convert_check raw idx enforce = do
  kind_text ← require (as_kind_text (property "kind" raw)) idx ".kind must be a string"
  kind ←
      require (check_kind kind_text) idx
        (str_append ".kind " (str_append (quoted kind_text) " not in"))
  description ←
      require (non_blank_string (property "description" raw)) idx
        ".description must be a non-empty string"
  id ← require (id_given (property "id" raw)) idx ".id must be a non-empty string if provided"
  spec ← check_spec kind raw idx enforce
  accepted (record { id = id; description = description; spec = spec })

-- the class \d
unfoldable pub is_digit : ℕ → Bool
is_digit c = leb 48 c && leb c 57

unfoldable pub all_digits : String → Bool
unfolding is_digit
all_digits String.[] = true
all_digits (String.◌∷◌ c s) = is_digit (code c) && all_digits s

-- the text behind a prefix
unfoldable pub after_prefix : String → String → Option String
after_prefix String.[] s = some s
after_prefix (String.◌∷◌ c p) String.[] = none
after_prefix (String.◌∷◌ c p) (String.◌∷◌ d s) = if code c == code d then after_prefix p s else none

-- `RESERVED_ID_RE.test(id)`, /^check_\d+$/
unfoldable pub is_reserved : String → Bool
unfolding all_digits after_prefix
is_reserved id = elim (after_prefix "check_" id) [
  | none ↦ false
  | some String.[] ↦ false
  | some (String.◌∷◌ c s) ↦ all_digits (String.◌∷◌ c s)
]

-- what an id adds to `seenIds`
unfoldable pub see : Option String → ℕ → List String → Checked (List String)
unfolding is_reserved includes
see none idx seen = accepted seen
see (some id) idx seen = do
  reject_if (is_reserved id) idx (
      str_append ".id " (
        str_append (quoted id)
          " matches reserved host auto-assigned pattern '^check_<n>$' (pick a different id)"))
  reject_if (includes seen id) idx (str_append ".id " (str_append (quoted id) " duplicated"))
  accepted (id ∷ seen)

unfoldable pub as_mapping : Value → Option Fields
as_mapping (obj fs) = some fs
as_mapping _ = none

-- the loop of `validateParsedConfig`
unfoldable pub validate_checks : Items → ℕ → List String → Bool → Checked DoneCriteriaConfig
unfolding as_mapping validate_and_convert_check see
validate_checks nil idx seen enforce = accepted []
validate_checks (cons item items) idx seen enforce = do
  raw ← require (as_mapping item) idx " must be a mapping"
  check ← validate_and_convert_check raw idx enforce
  seen' ← see check.id idx seen
  checks ← validate_checks items (idx + 1) seen' enforce
  accepted (check ∷ checks)

abbrev pub reject_all : {A : Type 0} → String → Checked A
reject_all text = rejected (record { index = none; text = text })

unfoldable pub validate_checks_value : Value → Bool → Checked DoneCriteriaConfig
unfolding validate_checks
validate_checks_value (arr (cons item items)) enforce =
    validate_checks (cons item items) 0 [] enforce
validate_checks_value _ enforce = reject_all "checks must be a non-empty list"

unfoldable pub validate_parsed_config : Value → Bool → Checked DoneCriteriaConfig
unfolding validate_checks_value property
validate_parsed_config (obj fields) enforce =
    validate_checks_value (property "checks" fields) enforce
validate_parsed_config _ enforce = reject_all "done_criteria.yaml root must be a mapping"

-- `parseAndValidateConfig`, with the YAML parser a parameter: `none` where it throws
unfoldable pub parse_and_validate_config :
    (String → Option Value) → String → Bool → Checked DoneCriteriaConfig
unfolding validate_parsed_config
parse_and_validate_config parse content enforce = elim (parse content) [
  | none ↦ reject_all "yaml parse failed"
  | some v ↦ validate_parsed_config v enforce
]

unfoldable pub diagnostic_of : Checked DoneCriteriaConfig → Option Diagnostic
diagnostic_of (rejected d) = some d
diagnostic_of (accepted config) = none

-- `validateDoneCriteriaContent`: `none` for a content that passes
unfoldable pub validate_done_criteria_content : (String → Option Value) → String → Option Diagnostic
unfolding parse_and_validate_config diagnostic_of
validate_done_criteria_content parse content =
    diagnostic_of (parse_and_validate_config parse content true)
