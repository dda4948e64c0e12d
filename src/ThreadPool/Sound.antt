-- ===== src/ThreadPool/Sound.antt =====
-- When a `threadpool` (thread_pool.h) is sound, between any two steps of its threads.
use socket_test.Common.{ℕ, ◌+◌, ◌≤◌, ◌<◌, ◌≡◌, ◌≢◌, ◌↔◌, Bool, true, false, ◌++◌, length}
use socket_test.Common.Tally.{tally}
use socket_test.ThreadPool.{
  MainPc, checking, refusing, pushed, posting, WorkerPc, testing, missed, taken, by_main, by_worker,
  Pool,
}

-- between `lock` and `unlock`
abbrev pub main_inside : MainPc → Bool
main_inside (checking r) = true
main_inside refusing = true
main_inside pushed = true
main_inside _ = false

abbrev pub worker_inside : WorkerPc → Bool
worker_inside testing = true
worker_inside missed = true
worker_inside (taken r) = true
worker_inside _ = false

-- a request pushed and not posted yet
abbrev pub to_post : MainPc → ℕ
to_post pushed = 1
to_post posting = 1
to_post _ = 0

-- a worker past the semaphore that has not popped its request yet
abbrev pub to_pop : WorkerPc → ℕ
to_pop WorkerPc.locking = 1
to_pop testing = 1
to_pop _ = 0

pub record IsSound (n : ℕ) (s : Pool) : Type 0 where
  pub bounded : length s.workqueue ≤ s.max_requests + 1
  pub in_order : s.accepted ≡ s.served ++ s.workqueue
  pub counted : length s.workqueue ≤ s.queuestat + tally to_pop n s.workers + to_post s.main
  pub main_holds : (main_inside s.main ≡ true) ↔ (s.queuelocker ≡ by_main)
  pub worker_holds :
      (i : ℕ) → i < n → (worker_inside (s.workers i) ≡ true) ↔ (s.queuelocker ≡ by_worker i)
  pub in_use : (i : ℕ) → n ≤ i → s.queuelocker ≢ by_worker i
