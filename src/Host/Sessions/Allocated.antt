-- ===== src/Host/Sessions/Allocated.antt =====
-- The numbers that `allocateWorkerSessionSeq` gives to sessions.
use deputy_agent.Prelude.{
  ℕ, ◌+◌, ◌≤◌, ◌≡◌, arith, Bool, true, false, List, [], ◌∷◌, Option, none, some,
}
use deputy_agent.Messaging.Log.{Line}
use deputy_agent.Host.Sessions.{NextSeqFile, stored_next, allocate_worker_session_seq}

-- the numbers that a row of allocations gives out; each finds the events of its time, and its write
-- succeeds or does not
abbrev pub given_out : Option ℕ → List ℕ → List ℕ
given_out none ns = ns
given_out (some n) ns = n ∷ ns

unfoldable pub allocate_all : List (List Line × Bool) → NextSeqFile → List ℕ
unfolding allocate_worker_session_seq
allocate_all [] file = []
allocate_all ((events, written) ∷ rounds) file =
    let (o, file') = allocate_worker_session_seq events written file in
    given_out o (allocate_all rounds file')

-- each number is at least `n`, and less than all that follow
abbrev pub AscendsFrom : ℕ → List ℕ → Type 0
AscendsFrom n [] = Unit
AscendsFrom n (k ∷ ks) = (n ≤ k) × AscendsFrom (k + 1) ks

allocate_all-AscendsFrom_stored :
    (rounds : List (List Line × Bool)) (file : NextSeqFile) (n : ℕ)
    → stored_next file ≡ some n
    → AscendsFrom n (allocate_all rounds file)
unfolding allocate_all stored_next
allocate_all-AscendsFrom_stored [] file n h = tt
allocate_all-AscendsFrom_stored ((events, true) ∷ rounds) file n h =
    rw h (omega arith, allocate_all-AscendsFrom_stored rounds _ (n + 1) (ground arith))
allocate_all-AscendsFrom_stored ((events, false) ∷ rounds) file n h =
    allocate_all-AscendsFrom_stored rounds file n h

-- Whatever next_seq.json and events.jsonl hold and whatever writes fail, the numbers that a row of
-- allocations gives out ascend strictly: none is given out twice.
pub allocate_all-ascends :
    (rounds : List (List Line × Bool)) (file : NextSeqFile)
    → AscendsFrom 0 (allocate_all rounds file)
unfolding allocate_all stored_next
allocate_all-ascends [] file = tt
allocate_all-ascends ((events, true) ∷ rounds) file =
    (omega arith, allocate_all-AscendsFrom_stored rounds _ _ (ground arith))
allocate_all-ascends ((events, false) ∷ rounds) file = allocate_all-ascends rounds file
