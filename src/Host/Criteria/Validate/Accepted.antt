-- ===== src/Host/Criteria/Validate/Accepted.antt =====
-- What src/host/done_criteria/validate.ts ensures of a configuration that it accepts.
use deputy_agent.Prelude.{
  ℕ, zero, suc, ◌+◌, ◌≤◌, ◌<◌, ltb, ◌≡◌, ◌≢◌, refl, sym, ◌∙◌, subst, arith, String, pos, negsuc,
  Bool, true, false, not, ◌&&◌, List, [], ◌∷◌, Option, none, some, Bool-cases, inl, inr,
}
use mathlib.Core.List.{nil≢cons}
use deputy_agent.Value.{
  Value, undefined, null, int, str, arr, obj, Items, nil, cons, Fields, property, includes,
}
use deputy_agent.Host.Criteria.{
  CheckKind, file_exists_kind, file_min_lines_kind, file_min_bytes_kind, yaml_field_present_kind,
  dir_min_files_kind, script_kind, CheckSpec, file_exists, file_min_lines, file_min_bytes,
  yaml_field_present, dir_min_files, script, DoneCriteriaCheck, DoneCriteriaConfig,
  max_script_timeout_seconds,
}
use deputy_agent.Host.Criteria.Paths.{
  UnsafeReason, unsafe_reason, interpreter_allowed, script_path_under_scripts_dir,
}
use deputy_agent.Host.Criteria.Validate.{
  Diagnostic, Checked, rejected, accepted, ◌>>=◌, ◌>>◌, reject_if, require, is_blank,
  non_blank_string, check_kind, as_kind_text, id_given, safe_text, count_at, timeout_of, check_spec,
  validate_and_convert_check, is_reserved, see, as_mapping, validate_checks, validate_checks_value,
  validate_parsed_config,
}

-- a text that is not blank and that the path test passes
abbrev pub IsSafe : String → Type 0
IsSafe path = (is_blank path ≡ false) × (unsafe_reason path ≡ none)

abbrev pub IsTimeout : Option ℕ → Type 0
IsTimeout none = Unit
IsTimeout (some n) = (0 < n) × (n ≤ max_script_timeout_seconds)

abbrev pub IsSafeSpec : Bool → CheckSpec → Type 0
IsSafeSpec enforce (file_exists path) = IsSafe path
IsSafeSpec enforce (file_min_lines path n) = IsSafe path
IsSafeSpec enforce (file_min_bytes path n) = IsSafe path
IsSafeSpec enforce (yaml_field_present path field) = IsSafe path × (is_blank field ≡ false)
IsSafeSpec enforce (dir_min_files path pattern n) = IsSafe path × IsSafe pattern
IsSafeSpec enforce (script path interpreter timeout) =
    IsSafe path
    × ((script_path_under_scripts_dir path ≡ true)
        × (((enforce && not (interpreter_allowed interpreter)) ≡ false) × IsTimeout timeout))

accepted_inj : {A : Type 0} {a b : A} → accepted a ≡ accepted b → a ≡ b
accepted_inj h = cc

-- Inversion of a bind that accepts.
pub >>=-accepted :
    {A B : Type 0} (m : Checked A) (f : A → Checked B) {b : B}
    → (m >>= f) ≡ accepted b
    → (a : A) × (m ≡ accepted a) × (f a ≡ accepted b)
>>=-accepted (rejected d) f h = cc
>>=-accepted (accepted a) f h = (a, refl, h)

require-then :
    {A B : Type 0} (m : Option A) (idx : ℕ) (text : String) (f : A → Checked B) {b : B}
    → (require m idx text >>= f) ≡ accepted b
    → (a : A) × (m ≡ some a) × (f a ≡ accepted b)
require-then none idx text f h = cc
require-then (some a) idx text f h = (a, refl, h)

reject_if-then :
    {B : Type 0} (c : Bool) (idx : ℕ) (text : String) (next : Checked B) {b : B}
    → (reject_if c idx text >> next) ≡ accepted b
    → (c ≡ false) × (next ≡ accepted b)
reject_if-then true idx text next h = cc
reject_if-then false idx text next h = (refl, h)

non_blank_string-blank : (v : Value) {s : String} → non_blank_string v ≡ some s → is_blank s ≡ false
unfolding non_blank_string
non_blank_string-blank (str s) h = ground arith
non_blank_string-blank undefined h = cc
non_blank_string-blank null h = cc
non_blank_string-blank (Value.bool b) h = cc
non_blank_string-blank (int z) h = cc
non_blank_string-blank (Value.float l) h = cc
non_blank_string-blank (arr items) h = cc
non_blank_string-blank (obj fs) h = cc

passes :
    {A : Type 0} (o : Option UnsafeReason) (a : A) (d : UnsafeReason → Diagnostic) {b : A}
    → ◌≡◌ {A = Checked A}
        (elim o as (λ x. Checked A) [ none ↦ accepted a | some r ↦ rejected (d r) ])
        (accepted b)
    → (o ≡ none) × (a ≡ b)
passes none a d h = (refl, accepted_inj h)
passes (some r) a d h = cc

rejects : {A : Type 0} {d : Diagnostic} {a : A} → ◌≡◌ {A = Checked A} (rejected d) (accepted a) → ⊥
rejects h = cc

not-not : (b : Bool) → not b ≡ false → b ≡ true
not-not b h = ground arith

safe_text-IsSafe :
    (key : String) (t : UnsafeReason → String) (raw : Fields) (idx : ℕ) {path : String}
    → safe_text key t raw idx ≡ accepted path
    → IsSafe path
unfolding safe_text
safe_text-IsSafe key t raw idx h =
    let (p, found, next) = require-then (non_blank_string (property key raw)) idx _ _ h in
    let (safe, same) = passes (unsafe_reason p) p _ next in
    subst IsSafe same (non_blank_string-blank (property key raw) found, safe)

timeout_of-IsTimeout :
    (v : Value) (idx : ℕ) {t : Option ℕ} → timeout_of v idx ≡ accepted t → IsTimeout t
unfolding timeout_of
timeout_of-IsTimeout undefined idx h = subst IsTimeout (accepted_inj h) tt
timeout_of-IsTimeout null idx h = subst IsTimeout (accepted_inj h) tt
timeout_of-IsTimeout (int (pos zero)) idx h = cc
timeout_of-IsTimeout (int (pos (suc n))) idx h =
    elim (Bool-cases (ltb max_script_timeout_seconds (suc n))) [
      | inl e ↦ absurd (rejects (rw e at h))
      | inr e ↦
          let t : IsTimeout (some (suc n)) = (omega arith, ground (arith, e)) in
          subst IsTimeout (accepted_inj (rw e at h)) t
    ]
timeout_of-IsTimeout (int (negsuc n)) idx h = cc
timeout_of-IsTimeout (Value.bool b) idx h = cc
timeout_of-IsTimeout (Value.float l) idx h = cc
timeout_of-IsTimeout (str s) idx h = cc
timeout_of-IsTimeout (arr items) idx h = cc
timeout_of-IsTimeout (obj fs) idx h = cc

check_spec-IsSafeSpec :
    (kind : CheckKind) (raw : Fields) (idx : ℕ) (enforce : Bool) {spec : CheckSpec}
    → check_spec kind raw idx enforce ≡ accepted spec
    → IsSafeSpec enforce spec
unfolding check_spec
check_spec-IsSafeSpec file_exists_kind raw idx enforce h =
    let (p, path, last) = >>=-accepted (safe_text "path" _ raw idx) _ h in
    subst (IsSafeSpec enforce) (accepted_inj last) (safe_text-IsSafe "path" _ raw idx path)
check_spec-IsSafeSpec file_min_lines_kind raw idx enforce h =
    let (p, path, next) = >>=-accepted (safe_text "path" _ raw idx) _ h in
    let (n, count, last) = >>=-accepted (count_at "min_lines" raw idx) _ next in
    subst (IsSafeSpec enforce) (accepted_inj last) (safe_text-IsSafe "path" _ raw idx path)
check_spec-IsSafeSpec file_min_bytes_kind raw idx enforce h =
    let (p, path, next) = >>=-accepted (safe_text "path" _ raw idx) _ h in
    let (n, count, last) = >>=-accepted (count_at "min_bytes" raw idx) _ next in
    subst (IsSafeSpec enforce) (accepted_inj last) (safe_text-IsSafe "path" _ raw idx path)
check_spec-IsSafeSpec yaml_field_present_kind raw idx enforce h =
    let (p, path, next) = >>=-accepted (safe_text "path" _ raw idx) _ h in
    let (f, field, last) = require-then (non_blank_string (property "field" raw)) idx _ _ next in
    let safe : IsSafeSpec enforce (yaml_field_present p f) = (
      safe_text-IsSafe "path" _ raw idx path,
      non_blank_string-blank (property "field" raw) field,
    ) in
    subst (IsSafeSpec enforce) (accepted_inj last) safe
check_spec-IsSafeSpec dir_min_files_kind raw idx enforce h =
    let (p, path, next) = >>=-accepted (safe_text "path" _ raw idx) _ h in
    let (q, pattern, more) = >>=-accepted (safe_text "pattern" _ raw idx) _ next in
    let (n, count, last) = >>=-accepted (count_at "min_count" raw idx) _ more in
    let safe : IsSafeSpec enforce (dir_min_files p q n) =
      (safe_text-IsSafe "path" _ raw idx path, safe_text-IsSafe "pattern" _ raw idx pattern) in
    subst (IsSafeSpec enforce) (accepted_inj last) safe
check_spec-IsSafeSpec script_kind raw idx enforce h =
    let (p, path, h1) = >>=-accepted (safe_text "script_path" _ raw idx) _ h in
    let (below, h2) = reject_if-then (not (script_path_under_scripts_dir p)) idx _ _ h1 in
    let (i, named, h3) = require-then (non_blank_string (property "interpreter" raw)) idx _ _ h2 in
    let (allowed, h4) = reject_if-then (enforce && not (interpreter_allowed i)) idx _ _ h3 in
    let (t, timeout, last) = >>=-accepted (timeout_of (property "timeout_seconds" raw) idx) _ h4 in
    let safe : IsSafeSpec enforce (script p i t) = (
      safe_text-IsSafe "script_path" _ raw idx path,
      (
        not-not (script_path_under_scripts_dir p) below,
        (allowed, timeout_of-IsTimeout (property "timeout_seconds" raw) idx timeout),
      ),
    ) in
    subst (IsSafeSpec enforce) (accepted_inj last) safe

-- a check whose description is not blank and whose fields are safe
abbrev pub IsSafeCheck : Bool → DoneCriteriaCheck → Type 0
IsSafeCheck enforce check = (is_blank check.description ≡ false) × IsSafeSpec enforce check.spec

validate_and_convert_check-IsSafeCheck :
    (raw : Fields) (idx : ℕ) (enforce : Bool) {check : DoneCriteriaCheck}
    → validate_and_convert_check raw idx enforce ≡ accepted check
    → IsSafeCheck enforce check
unfolding validate_and_convert_check
validate_and_convert_check-IsSafeCheck raw idx enforce h =
    let (t, text, h1) = require-then (as_kind_text (property "kind" raw)) idx _ _ h in
    let (k, kind, h2) = require-then (check_kind t) idx _ _ h1 in
    let (d, description, h3) =
      require-then (non_blank_string (property "description" raw)) idx _ _ h2 in
    let (i, id, h4) = require-then (id_given (property "id" raw)) idx _ _ h3 in
    let (s, spec, last) = >>=-accepted (check_spec k raw idx enforce) _ h4 in
    let safe : IsSafeCheck enforce (record { id = i; description = d; spec = s }) = (
      non_blank_string-blank (property "description" raw) description,
      check_spec-IsSafeSpec k raw idx enforce spec,
    ) in
    subst (IsSafeCheck enforce) (accepted_inj last) safe

-- the ids that are seen after a check
abbrev pub seen_after : Option String → List String → List String
seen_after none seen = seen
seen_after (some id) seen = id ∷ seen

-- an id that is not reserved and not seen before
abbrev pub IsFresh : Option String → List String → Type 0
IsFresh none seen = Unit
IsFresh (some id) seen = (is_reserved id ≡ false) × (includes seen id ≡ false)

see-IsFresh :
    (id : Option String) (idx : ℕ) (seen : List String) {next : List String}
    → see id idx seen ≡ accepted next
    → IsFresh id seen × (next ≡ seen_after id seen)
unfolding see
see-IsFresh none idx seen h = (tt, sym (accepted_inj h))
see-IsFresh (some id) idx seen h =
    let (reserved, h1) = reject_if-then (is_reserved id) idx _ _ h in
    let (new, last) = reject_if-then (includes seen id) idx _ _ h1 in
    ((reserved, new), sym (accepted_inj last))

-- Checks that are safe, with ids that are not reserved and differ from those seen before.
abbrev pub AreSafe : Bool → List String → DoneCriteriaConfig → Type 0
AreSafe enforce seen [] = Unit
AreSafe enforce seen (check ∷ checks) =
    IsSafeCheck enforce check
    × (IsFresh check.id seen × AreSafe enforce (seen_after check.id seen) checks)

validate_checks-AreSafe :
    (items : Items) (idx : ℕ) (seen : List String) (enforce : Bool) {config : DoneCriteriaConfig}
    → validate_checks items idx seen enforce ≡ accepted config
    → AreSafe enforce seen config
unfolding validate_checks
validate_checks-AreSafe nil idx seen enforce h = subst (AreSafe enforce seen) (accepted_inj h) tt
validate_checks-AreSafe (cons item items) idx seen enforce h =
    let (raw, mapping, h1) = require-then (as_mapping item) idx _ _ h in
    let (check, converted, h2) = >>=-accepted (validate_and_convert_check raw idx enforce) _ h1 in
    let (next, new, h3) = >>=-accepted (see check.id idx seen) _ h2 in
    let (checks, others, last) = >>=-accepted (validate_checks items (idx + 1) next enforce) _ h3 in
    let (fresh, same) = see-IsFresh check.id idx seen new in
    let safe : AreSafe enforce seen (check ∷ checks) = (
      validate_and_convert_check-IsSafeCheck raw idx enforce converted,
      (
        fresh,
        subst (λ s. AreSafe enforce s checks) same
            (validate_checks-AreSafe items (idx + 1) next enforce others),
      ),
    ) in
    subst (AreSafe enforce seen) (accepted_inj last) safe

validate_checks-nonempty :
    (item : Value) (items : Items) (idx : ℕ) (seen : List String) (enforce : Bool)
    {config : DoneCriteriaConfig}
    → validate_checks (cons item items) idx seen enforce ≡ accepted config
    → config ≢ []
unfolding validate_checks
validate_checks-nonempty item items idx seen enforce h =
    let (raw, mapping, h1) = require-then (as_mapping item) idx _ _ h in
    let (check, converted, h2) = >>=-accepted (validate_and_convert_check raw idx enforce) _ h1 in
    let (next, new, h3) = >>=-accepted (see check.id idx seen) _ h2 in
    let (checks, others, last) = >>=-accepted (validate_checks items (idx + 1) next enforce) _ h3 in
    λ e. nil≢cons (sym (accepted_inj last ∙ e))

validate_checks_value-AreSafe :
    (v : Value) (enforce : Bool) {config : DoneCriteriaConfig}
    → validate_checks_value v enforce ≡ accepted config
    → (config ≢ []) × AreSafe enforce [] config
unfolding validate_checks_value
validate_checks_value-AreSafe (arr (cons item items)) enforce h = (
  validate_checks-nonempty item items 0 [] enforce h,
  validate_checks-AreSafe (cons item items) 0 [] enforce h,
)
validate_checks_value-AreSafe (arr nil) enforce h = cc
validate_checks_value-AreSafe undefined enforce h = cc
validate_checks_value-AreSafe null enforce h = cc
validate_checks_value-AreSafe (Value.bool b) enforce h = cc
validate_checks_value-AreSafe (Value.float l) enforce h = cc
validate_checks_value-AreSafe (int z) enforce h = cc
validate_checks_value-AreSafe (str s) enforce h = cc
validate_checks_value-AreSafe (obj fs) enforce h = cc

-- A configuration that is accepted has a check, and each has a description that is not blank, paths
-- and patterns that are not blank and pass the path test, a script below the scripts directory, a
-- timeout of 1 to 3600 seconds if any, an allowed interpreter where the list is enforced, and an
-- id, if any, that is neither reserved nor that of a check before it.
pub validate_parsed_config-AreSafe :
    (v : Value) (enforce : Bool) {config : DoneCriteriaConfig}
    → validate_parsed_config v enforce ≡ accepted config
    → (config ≢ []) × AreSafe enforce [] config
unfolding validate_parsed_config
validate_parsed_config-AreSafe (obj fs) enforce h =
    validate_checks_value-AreSafe (property "checks" fs) enforce h
validate_parsed_config-AreSafe (arr items) enforce h = cc
validate_parsed_config-AreSafe undefined enforce h = cc
validate_parsed_config-AreSafe null enforce h = cc
validate_parsed_config-AreSafe (Value.bool b) enforce h = cc
validate_parsed_config-AreSafe (Value.float l) enforce h = cc
validate_parsed_config-AreSafe (int z) enforce h = cc
validate_parsed_config-AreSafe (str s) enforce h = cc
