-- ===== src/ThreadPool.antt =====
-- thread_pool/thread_pool.h: `threadpool`, with the semaphore and the mutex of
-- multi_thread/locker.h. The thread that calls `append` and `n` threads in `run` take turns, a
-- critical section step by step: each function below makes the next step of one thread, or returns
-- `none` where that thread has to wait. A request is a pointer, 0 is NULL. `accepted` and `served`
-- record what was pushed and popped, `destroyed` that the destructor has ended the members, and
-- `undefined` that a thread has used them since; no code reads these.
pub mod Sound
pub mod Append
pub mod Work
pub mod Invariant
pub mod Guarantees
use socket_test.Common.{
  ℕ, zero, suc, ◌+◌, ◌-◌, Bool, true, false, List, [], ◌∷◌, ◌++◌, Option, none, some, ◌==◌, leb,
  ltb, not, ◌&&◌, ◌||◌, if◌then◌else◌, length,
}
use socket_test.Common.Array

-- Where the thread that calls `append` stands.
pub data MainPc : Type 0 where
  idle : MainPc
  locking checking : ℕ → MainPc
  refusing pushed posting : MainPc

-- Where a worker stands in `run`.
pub data WorkerPc : Type 0 where
  looping waiting locking testing missed : WorkerPc
  taken processing : ℕ → WorkerPc
  ended : WorkerPc

pub data Holder : Type 0 where
  nobody by_main : Holder
  by_worker : ℕ → Holder

pub record Pool : Type 0 where
  pub max_requests : ℕ
  pub workqueue : List ℕ
  pub queuestat : ℕ
  pub queuelocker : Holder
  pub stop : Bool
  pub main : MainPc
  pub workers : ℕ → WorkerPc
  pub accepted : List ℕ
  pub served : List ℕ
  pub destroyed : Bool
  pub undefined : Bool

-- a pool as its constructor leaves it
unfoldable pub new_pool : ℕ → Pool
new_pool max_requests = record {
  max_requests = max_requests;
  workqueue = [];
  queuestat = 0;
  queuelocker = nobody;
  stop = false;
  main = idle;
  workers = λ i. looping;
  accepted = [];
  served = [];
  destroyed = false;
  undefined = false;
}

-- `threadpool(thread_number, max_requests)`; `none` where the constructor throws. The threads are
-- those below `thread_number`.
unfoldable pub create : ℕ → ℕ → Option Pool
create thread_number max_requests =
    if thread_number == 0 || max_requests == 0 then none else some (new_pool max_requests)

abbrev is_free : Holder → Bool
is_free nobody = true
is_free by_main = false
is_free (by_worker i) = false

-- `append(request)`
unfoldable pub append_step : MainPc → ℕ → Pool → Option Pool
append_step idle request s = some (record s { main = MainPc.locking request })
append_step (MainPc.locking r) request s =
    if is_free s.queuelocker
    then some (record s { queuelocker = by_main; main = checking r })
    else none
append_step (checking r) request s =
    if ltb s.max_requests (length s.workqueue)
    then some (record s { main = refusing })
    else some (record s {
      workqueue = s.workqueue ++ r ∷ [];
      accepted = s.accepted ++ r ∷ [];
      main = pushed;
    })
append_step refusing request s = some (record s { queuelocker = nobody; main = idle })
append_step pushed request s = some (record s { queuelocker = nobody; main = posting })
append_step posting request s = some (record s { queuestat = s.queuestat + 1; main = idle })

abbrev at_pc : Pool → ℕ → WorkerPc → Pool
at_pc s i pc = record s { workers = Array.update s.workers i pc }

-- the test for an empty queue, and `front` and `pop_front`
unfoldable pub take_front : List ℕ → ℕ → Pool → Pool
take_front [] i s = at_pc s i missed
take_front (r ∷ rest) i s = record s {
  workqueue = rest;
  served = s.served ++ r ∷ [];
  workers = Array.update s.workers i (taken r);
}

-- `run()` in worker `i`
unfoldable pub run_step : WorkerPc → ℕ → Pool → Option Pool
unfolding take_front
run_step looping i s = some (at_pc s i (if s.stop then ended else waiting))
run_step waiting i s =
    if s.queuestat == 0
    then none
    else some (record s { queuestat = s.queuestat - 1; workers = Array.update s.workers i locking })
run_step WorkerPc.locking i s =
    if is_free s.queuelocker
    then some (record s { queuelocker = by_worker i; workers = Array.update s.workers i testing })
    else none
run_step testing i s = some (take_front s.workqueue i s)
run_step missed i s =
    some (record s { queuelocker = nobody; workers = Array.update s.workers i looping })
run_step (taken r) i s = some (record s {
  queuelocker = nobody;
  workers = Array.update s.workers i (if r == 0 then looping else processing r);
})
run_step (processing r) i s = some (at_pc s i looping)
run_step ended i s = none

-- `m_queuestat.wait()` in worker `i` where `sem_wait` is interrupted: it returns false, which `run`
-- does not look at
unfoldable pub wait_fails : WorkerPc → ℕ → Pool → Option Pool
wait_fails waiting i s = some (at_pc s i WorkerPc.locking)
wait_fails _ i s = none

-- whether the next step of a worker reads or writes a member of the pool
abbrev pub touches : WorkerPc → Bool
touches ended = false
touches (processing r) = false
touches _ = true

-- what may happen next: a step of the appending thread, with the request where it starts a call; a
-- step of a worker; a wait of a worker that fails; the destructor's write to `m_stop`, and the end of
-- the members behind it
pub data Move : Type 0 where
  appends works interrupts : ℕ → Move
  stops destroys : Move

abbrev pub or_stay : Pool → Option Pool → Pool
or_stay s none = s
or_stay s (some t) = t

-- One move of a pool of `n` threads; a thread that has to wait makes no step, and one that uses a pool
-- whose members are gone makes an undefined one.
unfoldable pub move : ℕ → Pool → Move → Pool
unfolding append_step run_step wait_fails
move n s (appends r) =
    if s.destroyed then record s { undefined = true } else or_stay s (append_step s.main r s)
move n s (works i) =
    if not (ltb i n)
    then s
    else if s.destroyed && touches (s.workers i)
    then record s { undefined = true }
    else or_stay s (run_step (s.workers i) i s)
move n s (interrupts i) =
    if ltb i n && not s.destroyed then or_stay s (wait_fails (s.workers i) i s) else s
move n s stops = record s { stop = true }
move n s destroys = if s.stop then record s { destroyed = true } else s

unfoldable pub moves : ℕ → Pool → List Move → Pool
moves n s [] = s
moves n s (m ∷ ms) = moves n (move n s m) ms
