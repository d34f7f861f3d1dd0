-- ===== src/Host/Criteria/Paths/Below.antt =====
-- Where a path text that src/host/done_criteria/validate.ts lets pass leads.
use deputy_agent.Prelude.{
  String, ◌≡◌, refl, sym, ap, ◌∙◌, arith, Bool, true, false, ◌||◌, List, [], ◌∷◌, ◌++◌, none, some,
  any, str_eq, if◌then◌else◌, Bool-cases, inl, inr,
}
use mathlib.Core.List.{append_assoc}
use deputy_agent.Host.Criteria.Paths.{
  UnsafeReason, unsafe_reason, path_parts, starts_with_slash, has_char,
}

-- One segment of a path, from a directory whose own segments are on a stack: `..` goes up, `.` stays.
abbrev pub step : List String → String → List String
step [] part = if str_eq part ".." then [] else if str_eq part "." then [] else part ∷ []
step (dir ∷ stack) part =
    if str_eq part ".." then stack else if str_eq part "." then dir ∷ stack else part ∷ dir ∷ stack

abbrev pub walk : List String → List String → List String
walk stack [] = stack
walk stack (part ∷ parts) = walk (step stack part) parts

step-stays :
    (stack : List String) (part : String)
    → str_eq part ".." ≡ false
    → str_eq part "." ≡ true
    → step stack part ≡ stack
step-stays [] part h e = rw (h, e) refl
step-stays (dir ∷ stack) part h e = rw (h, e) refl

step-down :
    (stack : List String) (part : String)
    → str_eq part ".." ≡ false
    → str_eq part "." ≡ false
    → step stack part ≡ part ∷ stack
step-down [] part h e = rw (h, e) refl
step-down (dir ∷ stack) part h e = rw (h, e) refl

or_false : (a b : Bool) → (a || b) ≡ false → (a ≡ false) × (b ≡ false)
or_false a b h = ground arith

walk-below :
    (parts stack : List String)
    → any (λ p. str_eq p "..") parts ≡ false
    → (l : List String) × (walk stack parts ≡ l ++ stack)
walk-below [] stack h = ([], refl)
walk-below (part ∷ parts) stack h =
    let (not_up, others) = or_false (str_eq part "..") _ h in
    elim (Bool-cases (str_eq part ".")) [
      | inl e ↦
          let (l, below) = walk-below parts stack others in
          (l, ap (λ s. walk s parts) (step-stays stack part not_up e) ∙ below)
      | inr e ↦
          let (l, below) = walk-below parts (part ∷ stack) others in
          (
            l ++ part ∷ [],
            ap (λ s. walk s parts) (step-down stack part not_up e)
                ∙ below
                ∙ sym (append_assoc l (part ∷ []) stack),
          )
    ]

no_dots :
    (a b c d : Bool)
    → (if a
        then some UnsafeReason.absolute
        else if b
        then some UnsafeReason.colon
        else if c
        then some UnsafeReason.dot_dot
        else if d
        then some UnsafeReason.workspace_prefix
        else none)
      ≡ none
    → c ≡ false
no_dots a b c d h = ground arith

-- From any directory the segments of a text that passes lead to the directory itself or below it.
pub unsafe_reason-walk :
    (value : String) (dir : List String)
    → unsafe_reason value ≡ none
    → (l : List String) × (walk dir (path_parts value) ≡ l ++ dir)
unfolding unsafe_reason
unsafe_reason-walk value dir h =
    walk-below (path_parts value) dir (no_dots (starts_with_slash value) (has_char 58 value) _ _ h)
