-- ===== src/ProcessPool/Start.antt =====
-- The constructor and `run` of process_pool/process_pool.h. `socketpair` and `fork` are given by what
-- they return; every process that comes out of the constructor is one run of it.
use socket_test.Common.{
  ℕ, zero, suc, ◌+◌, ◌⊎◌, inl, inr, Bool, true, false, List, [], ◌∷◌, ◌++◌, map, Option, none, some,
  ltb, leb, ◌&&◌, if◌then◌else◌, set, replicate,
}
use socket_test.Common.Run.{Run, ok, fault, out_of_fuel, exception, ◌>>=◌}
use socket_test.ProcessPool.{max_process_number, Parent, Waited, run_parent}
use socket_test.ProcessPool.Child.{Connection, Child, ChildWaited, run_child}

-- What `fork` returns: in the parent the pid of the child; in the child 0; -1.
pub data Forked : Type 0 where
  parent_of : ℕ → Forked
  in_child : Forked
  fork_failed : Forked

-- `m_sub_process[i].m_pid`, `m_idx`, and the ends of the pipes that were closed
pub record Started : Type 0 where
  pub pids : List (Option ℕ)
  pub idx : Option ℕ
  pub closed : List (ℕ × ℕ)

-- The loop over the children, from child `i` on with `n` left. Each answer is whether `socketpair`
-- succeeded, and what `fork` returned.
unfoldable pub fork_loop : ℕ → List (Bool × Forked) → ℕ → Started → Run Started
fork_loop zero answers i s = ok s
fork_loop (suc n) [] i s = out_of_fuel
fork_loop (suc n) ((false, f) ∷ answers) i s = fault exception
fork_loop (suc n) ((true, parent_of pid) ∷ answers) i s =
    fork_loop n answers (i + 1)
      (record s { pids = set s.pids i (some pid); closed = s.closed ++ (i, 1) ∷ [] })
fork_loop (suc n) ((true, in_child) ∷ answers) i s =
    ok (record { pids = set s.pids i (some 0); idx = some i; closed = s.closed ++ (i, 0) ∷ [] })
fork_loop (suc n) ((true, fork_failed) ∷ answers) i s = fault exception

-- the constructor, for so many processes
unfoldable pub construct : ℕ → List (Bool × Forked) → Run Started
unfolding fork_loop
construct n answers =
    if ltb 0 n && leb n max_process_number
    then fork_loop n answers 0 (record { pids = replicate n none; idx = none; closed = [] })
    else fault exception

-- the parent with which `run_parent` starts
unfoldable pub as_parent : Started → Parent
as_parent s = record { pids = s.pids; sub_process_counter = 0; stop = false; calls = [] }

-- `run`: what the parent's loop leaves, or the child's
unfoldable pub run :
    {U I : Type 0}
    → Connection U I
    → List Waited
    → List (ChildWaited I)
    → (ℕ → Child U)
    → Started
    → Run (Option Parent ⊎ (Child U × Bool))
unfolding as_parent
run conn parent_rounds child_rounds child s = elim s.idx [
  | some i ↦ do r ← run_child conn child_rounds (child i); ok (inr r)
  | none ↦ ok (inl (run_parent parent_rounds (as_parent s)))
]

-- the answers in the parent, where all goes well
abbrev pub all_forked : List ℕ → List (Bool × Forked)
all_forked pids = map (λ pid. (true, parent_of pid)) pids

-- the answers in the child that comes behind others
abbrev pub forked_until : List ℕ → List (Bool × Forked) → List (Bool × Forked)
forked_until pids rest = all_forked pids ++ (true, in_child) ∷ rest

-- the loop with the children in `before` behind it and `n` to come
abbrev partway : List (Option ℕ) → ℕ → List (ℕ × ℕ) → Started
partway before n closed = record { pids = before ++ replicate n none; idx = none; closed = closed }
