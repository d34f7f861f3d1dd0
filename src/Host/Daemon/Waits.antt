-- ===== src/Host/Daemon/Waits.antt =====
-- After the end of a worker, or a start that failed, the host starts none by itself.
use deputy_agent.Prelude.{
  ◌≡◌, ◌∙◌, refl, String, Bool, true, false, not, ◌&&◌, List, [], ◌∷◌, Option, none, some, if_holds,
  subst, sym, ◌||◌, ℕ, All, arith,
}
use mathlib.Core.List.{Memᴰ}
use text.Mathlib.TextPositions.{eq_refl}
use deputy_agent.Messaging.Bus
use deputy_agent.Messaging.Bus.{Bus}
use deputy_agent.Host.Daemon.{
  Outside, Daemon, DaemonState, awaits_meta, LastWorker, last_worker, count_reminder, remind,
  remind_if_idle, reconcile_worker_completion_pending, keep_waiting, gate, baseline_of,
  is_triggered, is_in, unread_instructions, set_reminder_posted, enqueue_worker_completion_reminder,
}
use deputy_agent.Host.Daemon.Start.{is_none, is_first_start, start_if_wanted, reconcile}

-- No worker runs, none is asked for, and it is not the time of the first one.
pub record IsParked (s : DaemonState) : Type 0 where
  pub handle : is_none s.worker_handle ≡ true
  pub wanted : s.want_worker_start ≡ false
  pub first : is_first_start s ≡ false

-- Nothing of a start has been done between the two, and no start is to follow.
pub record StaysParked (d d' : Daemon) : Type 0 where
  pub events : d'.events ≡ d.events
  pub next_seq : d'.next_seq ≡ d.next_seq
  pub parked : IsParked d'.state

count_reminder-IsParked :
    (n : ℕ) (r : Bus.Result String) (s : DaemonState) → IsParked s → IsParked (count_reminder n r s)
unfolding count_reminder
count_reminder-IsParked n (Bus.ok id) s p = record {
  handle = p.handle;
  wanted = p.wanted;
  first = p.first;
}
count_reminder-IsParked n (Bus.err e) s p = p

remind-StaysParked :
    (w : Outside) (l : Option LastWorker) (d : Daemon)
    → IsParked d.state
    → StaysParked d (remind w l d)
unfolding remind
remind-StaysParked w none d p = record { events = refl; next_seq = refl; parked = p }
remind-StaysParked w (some l) d p = record {
  events = refl;
  next_seq = refl;
  parked = count_reminder-IsParked _ (enqueue_worker_completion_reminder w l _ d.bus).0 d.state p;
}

unchanged-StaysParked : (d : Daemon) → IsParked d.state → StaysParked d d
unchanged-StaysParked d p = record { events = refl; next_seq = refl; parked = p }

with_bus-StaysParked :
    (d : Daemon) (b : Bus) {d' : Daemon} → StaysParked (record d { bus = b }) d' → StaysParked d d'
with_bus-StaysParked d b h = record { events = h.events; next_seq = h.next_seq; parked = h.parked }

both_true : (a b : Bool) → a ≡ true → b ≡ true → (a && b) ≡ true
both_true a b h k = rw (h, k) refl

posted-StaysParked :
    (b : Bool) (d : Daemon)
    → IsParked d.state
    → StaysParked d (record d { state = set_reminder_posted b d.state })
posted-StaysParked b d p = record {
  events = refl;
  next_seq = refl;
  parked = record { handle = p.handle; wanted = p.wanted; first = p.first };
}

remind_if_idle-StaysParked :
    (w : Outside) (d : Daemon) → IsParked d.state → StaysParked d (remind_if_idle w d)
unfolding remind_if_idle
remind_if_idle-StaysParked w d p =
    if_holds (StaysParked d) (not w.meta_idle) (λ i. posted-StaysParked false d p)
      (λ i.
        if_holds (StaysParked d) d.state.meta_reminder_posted_for_current_idle
          (λ q. unchanged-StaysParked d p)
          (λ q. remind-StaysParked w (last_worker d.state.orchestration) d p))

-- Meta is not waited for after an interrupt, or is busy.
abbrev pub NoDefault : Outside → DaemonState → Type 0
NoDefault w s = (s.orchestration.meta_interrupt_default_continue && w.meta_idle) ≡ false

keep_waiting-StaysParked :
    (w : Outside) (d : Daemon)
    → IsParked d.state
    → NoDefault w d.state
    → StaysParked d (keep_waiting w d)
unfolding keep_waiting
keep_waiting-StaysParked w d p n =
    if_holds (StaysParked d) d.state.orchestration.meta_interrupt_default_continue
      (λ c.
        if_holds (StaysParked d) w.meta_idle (λ i. absurd (cc (n, both_true _ _ c i)))
          (λ i. unchanged-StaysParked d p))
      (λ c.
        if_holds (StaysParked d) (not d.state.orchestration.worker_completion_pending)
          (λ q. unchanged-StaysParked d p) (λ q. remind_if_idle-StaysParked w d p))

gate-StaysParked :
    (w : Outside) (ids : List String) (d : Daemon)
    → IsParked d.state
    → NoDefault w d.state
    → is_triggered (baseline_of d.state) ids ≡ false
    → StaysParked d (gate w ids d)
unfolding gate
gate-StaysParked w ids d p n quiet = rw quiet (keep_waiting-StaysParked w d p n)

-- No identifier is new: there is none, or after a failed start each is among those of the baseline.
abbrev pub AreKnown : Option (List String) → List String → Type 0
AreKnown none ids = ids ≡ []
AreKnown (some known) ids = All (λ id. Memᴰ id known) ids

is_in-Mem : (known : List String) (id : String) → Memᴰ id known → is_in known id ≡ true
is_in-Mem [] id m = elim m [ ]
is_in-Mem (k ∷ known) id (Memᴰ.head e) = rw (sym e, eq_refl id) refl
is_in-Mem (k ∷ known) id (Memᴰ.tail m) = let rest = is_in-Mem known id m in ground arith

no_known_triggers :
    (known ids : List String)
    → All (λ id. Memᴰ id known) ids
    → is_triggered (some known) ids ≡ false
unfolding is_triggered
no_known_triggers known [] h = refl
no_known_triggers known (id ∷ ids) (m, h) =
    rw (is_in-Mem known id m) (no_known_triggers known ids h)

not_triggered :
    (baseline : Option (List String)) (ids : List String)
    → AreKnown baseline ids
    → is_triggered baseline ids ≡ false
unfolding is_triggered
not_triggered none ids h = rw h refl
not_triggered (some known) ids h = no_known_triggers known ids h

-- no instruction in the inbox of the worker is new
abbrev pub NoInstruction : Daemon → Type 0
NoInstruction d = AreKnown (baseline_of d.state) (unread_instructions d.bus).0

waiting-StaysParked :
    (w : Outside) (d : Daemon)
    → IsParked d.state
    → NoDefault w d.state
    → NoInstruction d
    → StaysParked d (reconcile_worker_completion_pending w d)
unfolding reconcile_worker_completion_pending
waiting-StaysParked w d p n quiet =
    if_holds (StaysParked d)
      (awaits_meta d.state.orchestration || d.state.worker_start_failed_pending)
      (λ a. with_bus-StaysParked d (unread_instructions d.bus).1 (
        gate-StaysParked w (unread_instructions d.bus).0
          (record d { bus = (unread_instructions d.bus).1 }) p n (not_triggered _ _ quiet)))
      (λ a. posted-StaysParked false d p)

-- Where a worker is not to be started, nothing of a start is done.
start_if_wanted-parked : (w : Outside) (d : Daemon) → IsParked d.state → start_if_wanted w d ≡ d
unfolding start_if_wanted
start_if_wanted-parked w d p = rw (p.handle, p.wanted, p.first) refl

reconcile-StaysParked :
    (w : Outside) (d : Daemon)
    → IsParked d.state
    → NoDefault w d.state
    → NoInstruction d
    → StaysParked d (reconcile w d)
unfolding reconcile
reconcile-StaysParked w d p n quiet =
    let h = waiting-StaysParked w d p n quiet in
    subst (StaysParked d) (sym (start_if_wanted-parked w _ h.parked)) h

-- A tick, with what other processes do to the messages before it.
abbrev pub Round : Type 0
Round = Outside × (Bus → Bus)

abbrev pub before : (Bus → Bus) → Daemon → Daemon
before f d = record d { bus = f d.bus }

unfoldable pub run : List Round → Daemon → Daemon
unfolding reconcile
run [] d = d
run ((w, f) ∷ rounds) d = run rounds (reconcile w (before f d))

-- In no round there is a new instruction, or an interrupt with Meta idle.
abbrev pub IsQuiet : List Round → Daemon → Type 0
IsQuiet [] d = Unit
IsQuiet ((w, f) ∷ rounds) d =
    NoInstruction (before f d) × NoDefault w d.state × IsQuiet rounds (reconcile w (before f d))

StaysParked-trans :
    (d : Daemon) {d' d'' : Daemon} → StaysParked d d' → StaysParked d' d'' → StaysParked d d''
StaysParked-trans d h k = record {
  events = k.events ∙ h.events;
  next_seq = k.next_seq ∙ h.next_seq;
  parked = k.parked;
}

-- Where no worker runs, none is asked for, and it is not the time of the first one, and in a row of
-- ticks, whatever other processes do to the messages before each, none finds an instruction of Meta
-- beyond the baseline, or Meta idle after an interrupt: no worker is started and no session number
-- is taken, nothing is written to events.jsonl, and at the end it is the same state of waiting.
pub run-StaysParked :
    (rounds : List Round) (d : Daemon)
    → IsParked d.state
    → IsQuiet rounds d
    → StaysParked d (run rounds d)
unfolding run
run-StaysParked [] d p q = unchanged-StaysParked d p
run-StaysParked ((w, f) ∷ rounds) d p (i, n, q) =
    let h = with_bus-StaysParked d (f d.bus) (reconcile-StaysParked w (before f d) p n i) in
    StaysParked-trans d h (run-StaysParked rounds (reconcile w (before f d)) h.parked q)
