-- ===== src/Task/Stage.antt =====
-- The stages of src/shared/manifest.ts and their classes in src/host/stage_machine.ts.
use deputy_agent.Prelude.{arith, ◌≡◌, Bool, true, false, List, [], ◌∷◌}

pub data Stage : Type 0 where
  submitted clarifying bootstrapping running awaiting_user : Stage
  done failed cancelled paused : Stage

pub Stage-discrete : Discrete Stage
Stage-discrete = hlevel

abbrev pub stages_all : List Stage
stages_all =
    submitted ∷ clarifying ∷ bootstrapping ∷ running ∷ awaiting_user ∷ done ∷ failed ∷ cancelled
    ∷ paused ∷ []

-- `isInProgress`
abbrev pub is_in_progress : Stage → Bool
is_in_progress submitted = true
is_in_progress clarifying = true
is_in_progress bootstrapping = true
is_in_progress running = true
is_in_progress awaiting_user = true
is_in_progress _ = false

-- `isTerminal`
abbrev pub is_terminal : Stage → Bool
is_terminal done = true
is_terminal failed = true
is_terminal cancelled = true
is_terminal _ = false

-- `a === b` on the literals
unfoldable pub stage_eq : Stage → Stage → Bool
stage_eq submitted submitted = true
stage_eq clarifying clarifying = true
stage_eq bootstrapping bootstrapping = true
stage_eq running running = true
stage_eq awaiting_user awaiting_user = true
stage_eq done done = true
stage_eq failed failed = true
stage_eq cancelled cancelled = true
stage_eq paused paused = true
stage_eq _ _ = false

pub stage_eq-eq : (a b : Stage) → stage_eq a b ≡ true → a ≡ b
unfolding stage_eq
stage_eq-eq a b h = ground arith
