-- ===== src/Tests/Processes.antt =====
-- Runs of the models of process_pool/process_pool.h and process_pool.cc.
use socket_test.Common.{
  ℕ, ◌<◌, ◌≡◌, refl, ◌⊎◌, ◌↔◌, true, false, List, [], ◌∷◌, map, none, some, arith, length,
  replicate, length-replicate,
}
use socket_test.Common.Run.{Ends}
use socket_test.HttpConn.Recv.{Recv, bytes, again}
use socket_test.ProcessPool.{
  Parent, live_at, dispatch, on_sigchld, sigchld, sigterm, connection, signals, Waited, ready,
  interrupted, run_parent,
}
use socket_test.ProcessPool.Dispatch.{Dispatched, dispatch-Dispatched}
use socket_test.ProcessPool.Signals.{forget, on_sigchld-forgets, IsRunning, run_parent-IsRunning}
use socket_test.ProcessPool.Cgi.{buffer_size, CgiConn, kept, removed, process, process-Ends}

-- three children, of which the second has been reaped
abbrev parent : Parent
parent = record {
  pids = some 31 ∷ none ∷ some 33 ∷ [];
  sub_process_counter = 1;
  stop = false;
  calls = [];
}

dispatch-Dispatched_example : Dispatched parent (dispatch parent)
dispatch-Dispatched_example = dispatch-Dispatched parent (omega arith)

on_sigchld-forgets_example :
    ((on_sigchld (33 ∷ []) parent).pids ≡ map (forget (33 ∷ [])) parent.pids)
    × (((on_sigchld (33 ∷ []) parent).stop ≡ true) ↔ (
        (j : ℕ) → j < length parent.pids → live_at (map (forget (33 ∷ [])) parent.pids) j ≡ false))
on_sigchld-forgets_example = on_sigchld-forgets (33 ∷ []) parent

abbrev waited : List Waited
waited =
    ready (connection ∷ signals (sigterm ∷ []) ∷ [])
    ∷ interrupted
    ∷ ready (signals (sigchld (31 ∷ 33 ∷ []) ∷ []) ∷ [])
    ∷ []

parent-IsRunning : IsRunning 3 parent
parent-IsRunning = record { sized = refl; in_turn = omega arith; stopped_dead = λ e. cc }

run_parent-IsRunning_example : (t : Parent) × (run_parent waited parent ≡ some t) × IsRunning 3 t
run_parent-IsRunning_example = run_parent-IsRunning 3 waited parent parent-IsRunning

abbrev client : CgiConn
client = record {
  epollfd = 3;
  sockfd = 8;
  address = 0;
  buf = replicate buffer_size 0;
  read_idx = 0;
}

abbrev line_received : List Recv
line_received = bytes (b'l' ∷ b's' ∷ b'\r' ∷ b'\n' ∷ []) ∷ again ∷ []

process-Ends_example : Ends (λ (c', o). (o ≡ kept) ⊎ (o ≡ removed)) (process line_received client)
process-Ends_example =
    process-Ends line_received client (length-replicate {A = ℕ} 1024 0) (omega arith, tt)
      (omega arith)
