-- ===== src/Task/Transition/Graph.antt =====
-- The legal stage transitions of src/host/stage_machine.ts as a graph with labelled edges, and what
-- follows for the runs of a task.
use deputy_agent.Prelude.{◌≡◌, ◌≢◌, refl, arith, true, false, none, ◌⊎◌, inl, inr, ◌↔◌}
use deputy_agent.Task.Stage.{
  Stage, submitted, clarifying, bootstrapping, running, awaiting_user, done, failed, cancelled,
  paused, Stage-discrete, is_in_progress, is_terminal, stage_eq,
}
use deputy_agent.Task.Transition.{
  TransitionTrigger, host, meta_tool, user_cli, check_transition_allowed,
}

-- the stages at work that a task can be moved to
pub data IsActive : Stage → Type 0 where
  clarifying_active : IsActive clarifying
  bootstrapping_active : IsActive bootstrapping
  running_active : IsActive running
  awaiting_user_active : IsActive awaiting_user

-- the stages that have not come to an end and are not paused
pub data IsLive : Stage → Type 0 where
  submitted_live : IsLive submitted
  active_live : {s : Stage} → IsActive s → IsLive s

pub data Edge : TransitionTrigger → Stage → Stage → Type 0 where
  meta_moves : {a b : Stage} → IsActive a → IsActive b → Edge meta_tool a b
  meta_fails : {a : Stage} → IsActive a → Edge meta_tool a failed
  meta_cancels : {a : Stage} → IsActive a → Edge meta_tool a cancelled
  meta_delivers_running : Edge meta_tool running done
  meta_delivers_awaiting : Edge meta_tool awaiting_user done
  user_confirms : Edge user_cli awaiting_user done
  user_cancels : {a : Stage} → IsLive a → Edge user_cli a cancelled
  user_cancels_paused : Edge user_cli paused cancelled
  user_pauses : {a : Stage} → IsLive a → Edge user_cli a paused
  user_resumes : {b : Stage} → IsActive b → Edge user_cli paused b
  host_starts : Edge host submitted clarifying
  host_resumes : {b : Stage} → IsActive b → Edge host paused b
  host_pauses : {a : Stage} → IsLive a → Edge host a paused
  host_fails : {a : Stage} → IsLive a → Edge host a failed

meta_source :
    (a b : Stage)
    → check_transition_allowed a b meta_tool ≡ none
    → (is_in_progress a ≡ true) × (stage_eq a submitted ≡ false)
unfolding check_transition_allowed
meta_source a b h = ground arith

to_IsActive : (a : Stage) → is_in_progress a ≡ true → stage_eq a submitted ≡ false → IsActive a
unfolding stage_eq
to_IsActive clarifying p q = clarifying_active
to_IsActive bootstrapping p q = bootstrapping_active
to_IsActive running p q = running_active
to_IsActive awaiting_user p q = awaiting_user_active
to_IsActive submitted p q = cc q
to_IsActive _ p q = cc p

to_IsLive : (a : Stage) → is_in_progress a ≡ true → IsLive a
to_IsLive submitted p = submitted_live
to_IsLive clarifying p = active_live clarifying_active
to_IsLive bootstrapping p = active_live bootstrapping_active
to_IsLive running p = active_live running_active
to_IsLive awaiting_user p = active_live awaiting_user_active
to_IsLive _ p = cc p

meta_from :
    {a : Stage}
    → IsActive a
    → (b : Stage) → check_transition_allowed a b meta_tool ≡ none
    → Edge meta_tool a b
unfolding check_transition_allowed
meta_from p clarifying h = meta_moves p clarifying_active
meta_from p bootstrapping h = meta_moves p bootstrapping_active
meta_from p running h = meta_moves p running_active
meta_from p awaiting_user h = meta_moves p awaiting_user_active
meta_from p failed h = meta_fails p
meta_from p cancelled h = meta_cancels p
meta_from p submitted h = cc h
meta_from p paused h = cc h
meta_from running_active done h = meta_delivers_running
meta_from awaiting_user_active done h = meta_delivers_awaiting
meta_from clarifying_active done h = cc h
meta_from bootstrapping_active done h = cc h

meta_sound : (a b : Stage) → check_transition_allowed a b meta_tool ≡ none → Edge meta_tool a b
meta_sound a b h = let (p, q) = meta_source a b h in meta_from (to_IsActive a p q) b h

user_sound : (a b : Stage) → check_transition_allowed a b user_cli ≡ none → Edge user_cli a b
unfolding check_transition_allowed
user_sound awaiting_user done h = user_confirms
user_sound paused cancelled h = user_cancels_paused
user_sound paused b h = user_resumes (to_IsActive b (ground arith) (ground arith))
user_sound a cancelled h = user_cancels (to_IsLive a (ground arith))
user_sound a paused h = user_pauses (to_IsLive a (ground arith))
user_sound a b h = cc h

host_sound : (a b : Stage) → check_transition_allowed a b host ≡ none → Edge host a b
unfolding check_transition_allowed
host_sound submitted clarifying h = host_starts
host_sound paused b h = host_resumes (to_IsActive b (ground arith) (ground arith))
host_sound a paused h = host_pauses (to_IsLive a (ground arith))
host_sound a failed h = host_fails (to_IsLive a (ground arith))
host_sound a b h = cc h

to_Edge : (t : TransitionTrigger) (a b : Stage) → check_transition_allowed a b t ≡ none → Edge t a b
to_Edge meta_tool a b h = meta_sound a b h
to_Edge user_cli a b h = user_sound a b h
to_Edge host a b h = host_sound a b h

live_flag : {a : Stage} → IsLive a → is_in_progress a ≡ true
live_flag submitted_live = refl
live_flag (active_live clarifying_active) = refl
live_flag (active_live bootstrapping_active) = refl
live_flag (active_live running_active) = refl
live_flag (active_live awaiting_user_active) = refl

active_flags : {a : Stage} → IsActive a → (is_in_progress a ≡ true) × (stage_eq a submitted ≡ false)
unfolding stage_eq
active_flags clarifying_active = (refl, refl)
active_flags bootstrapping_active = (refl, refl)
active_flags running_active = (refl, refl)
active_flags awaiting_user_active = (refl, refl)

meta_complete :
    {a : Stage}
    → IsActive a
    → (b : Stage)
    → (is_in_progress b ≡ true) × (stage_eq b submitted ≡ false) ⊎ (b ≡ failed) ⊎ (b ≡ cancelled)
    → check_transition_allowed a b meta_tool ≡ none
unfolding check_transition_allowed
meta_complete clarifying_active b h = ground arith
meta_complete bootstrapping_active b h = ground arith
meta_complete running_active b h = ground arith
meta_complete awaiting_user_active b h = ground arith

legal_of :
    {t : TransitionTrigger} {a b : Stage} → Edge t a b → check_transition_allowed a b t ≡ none
unfolding check_transition_allowed
legal_of (meta_moves {b = b} p q) = meta_complete p b (inl (active_flags q))
legal_of (meta_fails p) = meta_complete p failed (inr (inl refl))
legal_of (meta_cancels p) = meta_complete p cancelled (inr (inr refl))
legal_of meta_delivers_running = refl
legal_of meta_delivers_awaiting = refl
legal_of user_confirms = refl
legal_of (user_cancels p) = rw (live_flag p)
legal_of user_cancels_paused = refl
legal_of (user_pauses p) = rw (live_flag p)
legal_of (user_resumes clarifying_active) = refl
legal_of (user_resumes bootstrapping_active) = refl
legal_of (user_resumes running_active) = refl
legal_of (user_resumes awaiting_user_active) = refl
legal_of host_starts = refl
legal_of (host_resumes clarifying_active) = refl
legal_of (host_resumes bootstrapping_active) = refl
legal_of (host_resumes running_active) = refl
legal_of (host_resumes awaiting_user_active) = refl
legal_of (host_pauses p) = ground (arith, live_flag p)
legal_of (host_fails p) = ground (arith, live_flag p)

-- A transition is legal under a trigger exactly if it is an edge of the graph with that label.
pub check_transition_allowed-Edge :
    (t : TransitionTrigger) (a b : Stage) → (check_transition_allowed a b t ≡ none) ↔ Edge t a b
check_transition_allowed-Edge t a b = (to_Edge t a b, legal_of)

-- The runs of a task: any number of legal transitions, under any triggers.
pub data Reaches : Stage → Stage → Type 0 where
  stay : {a : Stage} → Reaches a a
  move :
      {a b c : Stage} (t : TransitionTrigger)
      → check_transition_allowed a b t ≡ none
      → Reaches b c
      → Reaches a c

live_end : {a : Stage} → IsLive a → is_terminal a ≡ false
live_end submitted_live = refl
live_end (active_live clarifying_active) = refl
live_end (active_live bootstrapping_active) = refl
live_end (active_live running_active) = refl
live_end (active_live awaiting_user_active) = refl

source_end : {t : TransitionTrigger} {a b : Stage} → Edge t a b → is_terminal a ≡ false
source_end (meta_moves p q) = live_end (active_live p)
source_end (meta_fails p) = live_end (active_live p)
source_end (meta_cancels p) = live_end (active_live p)
source_end meta_delivers_running = refl
source_end meta_delivers_awaiting = refl
source_end user_confirms = refl
source_end (user_cancels p) = live_end p
source_end user_cancels_paused = refl
source_end (user_pauses p) = live_end p
source_end (user_resumes p) = refl
source_end host_starts = refl
source_end (host_resumes p) = refl
source_end (host_pauses p) = live_end p
source_end (host_fails p) = live_end p

-- A terminal stage is never left, whatever the triggers: a run of legal transitions from it ends in
-- it.
pub Reaches_terminal : {a b : Stage} → Reaches a b → is_terminal a ≡ true → a ≡ b
Reaches_terminal stay h = refl
Reaches_terminal (move {a = a} {b = b} t legal rest) h = cc (h, source_end (to_Edge t a b legal))

active_open : {a : Stage} → IsActive a → a ≢ done
active_open p h = cc (h, live_end (active_live p))

done_source :
    {t : TransitionTrigger} {a b : Stage}
    → Edge t a b
    → b ≡ done
    → (a ≡ running) ⊎ (a ≡ awaiting_user)
done_source meta_delivers_running h = inl refl
done_source meta_delivers_awaiting h = inr refl
done_source user_confirms h = inr refl
done_source (meta_moves p q) h = absurd (active_open q h)
done_source (user_resumes q) h = absurd (active_open q h)
done_source (host_resumes q) h = absurd (active_open q h)
done_source host_starts h = cc h
done_source (meta_fails p) h = cc h
done_source (meta_cancels p) h = cc h
done_source (user_cancels p) h = cc h
done_source user_cancels_paused h = cc h
done_source (user_pauses p) h = cc h
done_source (host_pauses p) h = cc h
done_source (host_fails p) h = cc h

-- The stage is one of those that a run is in, its first and its last included.
abbrev pub Visits : Stage → {a b : Stage} → Reaches a b → Type 0
Visits s (stay {a = a}) = a ≡ s
Visits s (move {a = a} t legal rest) = (a ≡ s) ⊎ Visits s rest

Visits-move :
    (t : TransitionTrigger) {a b c : Stage} (legal : check_transition_allowed a b t ≡ none)
    (rest : Reaches b c)
    → Visits running rest ⊎ Visits awaiting_user rest
    → Visits running (move t legal rest) ⊎ Visits awaiting_user (move t legal rest)
Visits-move t legal rest (inl v) = inl (inr v)
Visits-move t legal rest (inr v) = inr (inr v)

last_step :
    (t : TransitionTrigger) {a b c : Stage} (legal : check_transition_allowed a b t ≡ none)
    (rest : Reaches b c)
    → b ≡ done
    → Visits running (move t legal rest) ⊎ Visits awaiting_user (move t legal rest)
last_step t {a = a} {b = b} legal rest h = elim (done_source (to_Edge t a b legal) h) [
  | inl p ↦ inl (inl p)
  | inr p ↦ inr (inl p)
]

-- Every run of legal transitions from a stage other than `done` to `done` is in `running` or in
-- `awaiting_user` on its way.
pub Reaches_done :
    {a b : Stage} (run : Reaches a b)
    → b ≡ done
    → a ≢ done
    → Visits running run ⊎ Visits awaiting_user run
Reaches_done stay h n = absurd (n h)
Reaches_done (move {a = a} {b = b} {c = c} t legal rest) h n = elim (Stage-discrete b done) [
  | yes p ↦ last_step t legal rest p
  | no q ↦ Visits-move t legal rest (Reaches_done rest h q)
]
