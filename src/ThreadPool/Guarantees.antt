-- ===== src/ThreadPool/Guarantees.antt =====
-- What `threadpool` (thread_pool.h) promises, whatever way its threads take turns.
use socket_test.Common.{
  ℕ, ◌+◌, ◌≤◌, ◌<◌, ◌≡◌, refl, ◌∙◌, subst, ◌≢◌, true, false, List, [], ◌∷◌, ◌++◌, none, arith,
  length, ltb,
}
use socket_test.Common.Tally.{tally-zero}
use socket_test.ThreadPool.{
  ended, stops, destroys, works, WorkerPc, idle, waiting, Pool, new_pool, run_step, Move, move,
  moves,
}
use socket_test.ThreadPool.Sound.{main_inside, worker_inside, to_post, to_pop, IsSound}
use socket_test.ThreadPool.Invariant.{reached-IsSound, max_requests-move}

-- a state of a pool of `n` threads that some moves lead to
abbrev pub Reached : ℕ → ℕ → Pool → Type 0
Reached n max s = (ms : List Move) × (moves n (new_pool max) ms ≡ s)

Reached-IsSound : (n max : ℕ) (s : Pool) → Reached n max s → IsSound n s
Reached-IsSound n max s (ms, e) = subst (IsSound n) e (reached-IsSound n max ms)

max_requests-moves :
    (n : ℕ) (s : Pool) (ms : List Move) → (moves n s ms).max_requests ≡ s.max_requests
unfolding moves
max_requests-moves n s [] = refl
max_requests-moves n s (m ∷ ms) = max_requests-moves n (move n s m) ms ∙ max_requests-move n s m

-- In every state that steps of the threads lead to from a new pool, what was pushed is what was
-- popped followed by what is in the queue, in this order, so that no request is lost, doubled or
-- overtaken. The queue holds one request more than `max_requests` at most.
pub fifo :
    (n max : ℕ) (s : Pool)
    → Reached n max s
    → (s.accepted ≡ s.served ++ s.workqueue) × (length s.workqueue ≤ max + 1)
unfolding new_pool
fifo n max s r =
    let v = Reached-IsSound n max s r in
    let same : s.max_requests ≡ max =
      subst (λ (t : Pool). t.max_requests ≡ max) r.1 (max_requests-moves n (new_pool max) r.0) in
    (v.in_order, omega (arith, v.bounded, same))

-- In every state that steps of the threads lead to: while a worker is between `lock` and `unlock`,
-- no other worker is, and neither is the thread that calls `append`.
pub mutual_exclusion :
    (n max i j : ℕ) (s : Pool)
    → Reached n max s
    → i < n
    → j < n
    → worker_inside (s.workers i) ≡ true
    → worker_inside (s.workers j) ≡ true
    → (i ≡ j) × (main_inside s.main ≡ false)
mutual_exclusion n max i j s r bi bj hi hj =
    let v = Reached-IsSound n max s r in
    (
      ground (arith, v.worker_holds i bi, v.worker_holds j bj),
      ground (arith, v.worker_holds i bi, v.main_holds),
    )

-- No wake-up is lost: in every state that steps of the threads lead to, where requests are queued,
-- no call of `append` is under way and no worker stands between the semaphore and its request, a
-- worker that waits is let through.
pub no_lost_wakeup :
    (n max i : ℕ) (s : Pool)
    → Reached n max s
    → 0 < length s.workqueue
    → s.main ≡ idle
    → ((j : ℕ) → j < n → to_pop (s.workers j) ≡ 0)
    → run_step waiting i s ≢ none
unfolding run_step
no_lost_wakeup n max i s r some_left at_rest none_between e =
    let v = Reached-IsSound n max s r in
    let quiet : to_post s.main ≡ 0 = rw at_rest refl in
    ground (arith, v.counted, tally-zero to_pop n s.workers none_between)

-- The destructor does not wait for the workers: in every state that steps of the threads lead to,
-- where the destructor runs to its end and a worker has not left its loop, that worker uses the
-- queue, the mutex, the semaphore or `m_stop` after their end, in its next two steps.
pub use_after_destroy :
    (n max i : ℕ) (s : Pool)
    → Reached n max s
    → i < n
    → s.workers i ≢ ended
    → (moves n s (stops ∷ destroys ∷ works i ∷ works i ∷ [])).undefined ≡ true
unfolding moves move run_step
use_after_destroy n max i s r b going =
    let inside : ltb i n ≡ true = ground arith in by_pc (s.workers i) refl
  where
    by_pc :
        (pc : WorkerPc)
        → s.workers i ≡ pc
        → (moves n s (stops ∷ destroys ∷ works i ∷ works i ∷ [])).undefined ≡ true
    by_pc ended e = absurd (going e)
    by_pc pc e = ground arith
