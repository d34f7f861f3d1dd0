-- ===== src/Host/Criteria/Paths.antt =====
-- The tests on path texts of src/host/done_criteria/validate.ts.
pub mod Below
use Prim.Native.Char.{code}
use deputy_agent.Prelude.{
  ℕ, ◌+◌, leb, ltb, ◌==◌, String, Bool, true, false, not, ◌||◌, ◌&&◌, List, [], ◌∷◌, Option, none,
  some, filter, any, str_eq, if◌then◌else◌,
}
use deputy_agent.Host.Criteria.{interpreter_allowlist, script_dir_relative}

-- the class [\\/]
unfoldable pub is_slash : ℕ → Bool
is_slash c = c == 47 || c == 92

unfoldable pub starts_with_slash : String → Bool
unfolding is_slash
starts_with_slash String.[] = false
starts_with_slash (String.◌∷◌ c s) = is_slash (code c)

-- `includes` of one character
unfoldable pub has_char : ℕ → String → Bool
has_char k String.[] = false
has_char k (String.◌∷◌ c s) = code c == k || has_char k s

-- the text up to the first slash, and the texts between the slashes after it
unfoldable pub split_slashes : String → String × List String
unfolding is_slash
split_slashes String.[] = ("", [])
split_slashes (String.◌∷◌ c s) =
    let (part, parts) = split_slashes s in
    if is_slash (code c) then ("", part ∷ parts) else (String.◌∷◌ c part, parts)

-- `value.split(/[\\/]+/).filter((seg) => seg.length > 0)`
unfoldable pub path_parts : String → List String
unfolding split_slashes
path_parts value =
    let (part, parts) = split_slashes value in filter (λ p. not (str_eq p "")) (part ∷ parts)

-- `toLowerCase` of a character as far as the result is ASCII: a capital, or the Kelvin sign
unfoldable pub lower : ℕ → ℕ
lower c = if leb 65 c && leb c 90 then c + 32 else if c == 8490 then 107 else c

-- `s.toLowerCase() === t` for a text `t` in ASCII
unfoldable pub lowers_to : String → String → Bool
unfolding lower
lowers_to String.[] String.[] = true
lowers_to (String.◌∷◌ c s) (String.◌∷◌ d t) = lower (code c) == code d && lowers_to s t
lowers_to _ _ = false

unfoldable pub starts_with_workspace : List String → Bool
unfolding lowers_to
starts_with_workspace [] = false
starts_with_workspace (part ∷ parts) = lowers_to part "workspace"

-- what a text is rejected for
pub data UnsafeReason : Type 0 where
  absolute colon dot_dot workspace_prefix : UnsafeReason

-- `pathUnsafeReason` and `patternUnsafeReason`, which differ in their texts only
unfoldable pub unsafe_reason : String → Option UnsafeReason
unfolding starts_with_slash has_char path_parts starts_with_workspace
unsafe_reason value =
    if starts_with_slash value
    then some absolute
    else if has_char 58 value
    then some colon
    else if any (λ p. str_eq p "..") (path_parts value)
    then some dot_dot
    else if starts_with_workspace (filter (λ p. not (str_eq p ".")) (path_parts value))
    then some workspace_prefix
    else none

unfoldable pub path_reason_text : UnsafeReason → String
path_reason_text absolute = "starts with '/' or '\\' (absolute path)"
path_reason_text colon = "contains ':' (drive letter or NTFS ADS)"
path_reason_text dot_dot = "contains '..' segment"
path_reason_text workspace_prefix =
    "starts with 'workspace/' (path is relative to workspace/ root, drop the 'workspace/' prefix)"

unfoldable pub pattern_reason_text : UnsafeReason → String
pattern_reason_text absolute = "starts with '/' or '\\' (absolute pattern)"
pattern_reason_text colon = "contains ':' (drive letter or NTFS ADS)"
pattern_reason_text dot_dot = "contains '..' segment"
pattern_reason_text workspace_prefix =
    "starts with 'workspace/' (pattern is relative to the directory named by check.path, not workspace/ root)"

-- the text before the last dot, and the text from it on
unfoldable pub split_last_dot : String → Option (String × String)
split_last_dot String.[] = none
split_last_dot (String.◌∷◌ c s) = elim (split_last_dot s) [
  | some (stem, suffix) ↦ some (String.◌∷◌ c stem, suffix)
  | none ↦ if code c == 46 then some ("", String.◌∷◌ c s) else none
]

unfoldable pub stem_allowed : String → Bool
unfolding lowers_to
stem_allowed stem = any (lowers_to stem) interpreter_allowlist

unfoldable pub interpreter_allowed : String → Bool
unfolding has_char split_last_dot stem_allowed lowers_to
interpreter_allowed interpreter =
    if str_eq interpreter ""
      || has_char 47 interpreter
      || has_char 92 interpreter
      || has_char 58 interpreter
    then false
    else elim (split_last_dot interpreter) [
      | none ↦ stem_allowed interpreter
      | some (stem, suffix) ↦
          if str_eq stem ""
          then stem_allowed interpreter
          else if lowers_to suffix ".exe"
          then stem_allowed stem
          else false
    ]

-- the loop of `scriptPathUnderScriptsDir`, which wants at least one segment more
unfoldable pub is_below : List String → List String → Bool
is_below [] [] = false
is_below [] (seg ∷ segs) = true
is_below (p ∷ prefix) [] = false
is_below (p ∷ prefix) (seg ∷ segs) = if str_eq seg p then is_below prefix segs else false

unfoldable pub script_path_under_scripts_dir : String → Bool
unfolding path_parts is_below
script_path_under_scripts_dir script_path = is_below script_dir_relative (path_parts script_path)
