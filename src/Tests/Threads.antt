-- ===== src/Tests/Threads.antt =====
-- Runs of the model of thread_pool/thread_pool.h.
use socket_test.Common.{
  ℕ, ◌+◌, ◌≤◌, ◌<◌, ◌≡◌, refl, ◌≢◌, true, false, List, [], ◌∷◌, ◌++◌, none, arith, length,
}
use socket_test.ThreadPool.{
  waiting, testing, Pool, new_pool, append_step, run_step, Move, appends, works, move, moves, idle,
  ended, missed, stops, destroys, interrupts, wait_fails, take_front,
}
use socket_test.ThreadPool.Sound.{main_inside, worker_inside, to_pop}
use socket_test.ThreadPool.Guarantees.{
  Reached, fifo, mutual_exclusion, no_lost_wakeup, use_after_destroy,
}

-- the four steps of a call of `append`
abbrev whole_append : ℕ → List Move
whole_append r = appends r ∷ appends r ∷ appends r ∷ appends r ∷ appends r ∷ []

-- one request is queued, and worker 0 has been let through and holds the lock
abbrev moves_made : List Move
moves_made = whole_append 5 ++ works 0 ∷ works 0 ∷ works 0 ∷ []

abbrev started : Pool
started = moves 2 (new_pool 1) moves_made

started-Reached : Reached 2 1 started
started-Reached = (moves_made, refl)

started-testing : started.workers 0 ≡ testing
unfolding moves move append_step run_step new_pool
started-testing = refl

fifo_example :
    (started.accepted ≡ started.served ++ started.workqueue) × (length started.workqueue ≤ 1 + 1)
fifo_example = fifo 2 1 started started-Reached

started-inside : worker_inside (started.workers 0) ≡ true
started-inside = rw started-testing refl

mutual_exclusion_example : (◌≡◌ {A = ℕ} 0 0) × (main_inside started.main ≡ false)
mutual_exclusion_example =
    mutual_exclusion 2 1 0 0 started started-Reached (omega arith) (omega arith) started-inside
      started-inside

-- one request is queued, and no worker has moved
abbrev queued : Pool
queued = moves 2 (new_pool 1) (whole_append 5)

queued-Reached : Reached 2 1 queued
queued-Reached = (whole_append 5, refl)

queued-some : 0 < length queued.workqueue
unfolding moves move append_step new_pool
queued-some = omega arith

queued-idle : queued.main ≡ idle
unfolding moves move append_step new_pool
queued-idle = refl

queued-quiet : (j : ℕ) → j < 2 → to_pop (queued.workers j) ≡ 0
unfolding moves move append_step new_pool
queued-quiet j h = refl

no_lost_wakeup_example : run_step waiting 1 queued ≢ none
no_lost_wakeup_example =
    no_lost_wakeup 2 1 1 queued queued-Reached queued-some queued-idle queued-quiet

queued-going : queued.workers 0 ≢ ended
unfolding moves move append_step new_pool
queued-going e = cc

use_after_destroy_example :
    (moves 2 queued (stops ∷ destroys ∷ works 0 ∷ works 0 ∷ [])).undefined ≡ true
use_after_destroy_example = use_after_destroy 2 1 0 queued queued-Reached (omega arith) queued-going

-- a worker whose wait is interrupted finds the queue empty, and goes on
interrupted_sample :
    (moves 1 (new_pool 1) (works 0 ∷ interrupts 0 ∷ works 0 ∷ works 0 ∷ [])).workers 0 ≡ missed
unfolding moves move run_step wait_fails take_front new_pool
interrupted_sample = refl
