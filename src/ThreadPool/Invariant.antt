-- ===== src/ThreadPool/Invariant.antt =====
-- What holds of a `threadpool` (thread_pool.h) in every interleaving.
use socket_test.Common.{
  ℕ, ◌≡◌, refl, List, [], ◌∷◌, arith, ltb, if◌then◌else◌, Bool, true, false, not, ◌&&◌,
}
use socket_test.Common.Tally.{tally-zero}
use socket_test.ThreadPool.{
  MainPc, idle, WorkerPc, looping, testing, Pool, new_pool, append_step, take_front, run_step, Move,
  appends, works, interrupts, stops, destroys, waiting, touches, wait_fails, or_stay, move, moves,
}
use socket_test.ThreadPool.Sound.{to_pop, IsSound}
use socket_test.ThreadPool.Append.{append_step-IsSound}
use socket_test.ThreadPool.Work.{run_step-IsSound, wait_fails-IsSound}

-- what no thread looks at
flagged-IsSound :
    (n : ℕ) (s : Pool) (stop destroyed undefined : Bool)
    → IsSound n s
    → IsSound n (record s { stop = stop; destroyed = destroyed; undefined = undefined })
flagged-IsSound n s stop destroyed undefined v = record {
  bounded = v.bounded;
  in_order = v.in_order;
  counted = v.counted;
  main_holds = v.main_holds;
  worker_holds = v.worker_holds;
  in_use = v.in_use;
}

if-IsSound :
    (n : ℕ) (b : Bool) (s t : Pool)
    → (b ≡ true → IsSound n s)
    → (b ≡ false → IsSound n t)
    → IsSound n (if b then s else t)
if-IsSound n true s t p q = p refl
if-IsSound n false s t p q = q refl

-- Every move keeps the pool sound.
pub move-IsSound : (n : ℕ) (s : Pool) (m : Move) → IsSound n s → IsSound n (move n s m)
unfolding move
move-IsSound n s (appends r) v =
    if-IsSound n s.destroyed _ _ (λ gone. flagged-IsSound n s s.stop s.destroyed true v)
      λ here. append_step-IsSound n s.main r s refl v
move-IsSound n s (works i) v =
    if-IsSound n (not (ltb i n)) _ _ (λ outside. v)
      λ inside.
        if-IsSound n (s.destroyed && touches (s.workers i)) _ _
          (λ gone. flagged-IsSound n s s.stop s.destroyed true v)
          λ here. run_step-IsSound n i (s.workers i) s (ground arith) refl v
move-IsSound n s (interrupts i) v =
    if-IsSound n (ltb i n && not s.destroyed) _ _
      (λ inside. wait_fails-IsSound n i (s.workers i) s (ground arith) refl v) λ outside. v
move-IsSound n s stops v = flagged-IsSound n s true s.destroyed s.undefined v
move-IsSound n s destroys v =
    if-IsSound n s.stop _ _ (λ on. flagged-IsSound n s s.stop true s.undefined v) λ off. v

pub moves-IsSound : (n : ℕ) (s : Pool) (ms : List Move) → IsSound n s → IsSound n (moves n s ms)
unfolding moves
moves-IsSound n s [] v = v
moves-IsSound n s (m ∷ ms) v = moves-IsSound n (move n s m) ms (move-IsSound n s m v)

-- A new pool is sound, and so is the pool after any moves.
new_pool-IsSound : (n max : ℕ) → IsSound n (new_pool max)
unfolding new_pool
new_pool-IsSound n max = record {
  bounded = omega arith;
  in_order = refl;
  counted = omega (arith, tally-zero to_pop n (λ i. looping) (λ i b. refl));
  main_holds = ground arith;
  worker_holds = λ i b. ground arith;
  in_use = λ i b. cc;
}

pub reached-IsSound : (n max : ℕ) (ms : List Move) → IsSound n (moves n (new_pool max) ms)
reached-IsSound n max ms = moves-IsSound n (new_pool max) ms (new_pool-IsSound n max)

append_step-max :
    (pc : MainPc) (r : ℕ) (s : Pool)
    → (or_stay s (append_step pc r s)).max_requests ≡ s.max_requests
unfolding append_step
append_step-max idle r s = refl
append_step-max pc r s = ground arith

take_front-max : (q : List ℕ) (i : ℕ) (s : Pool) → (take_front q i s).max_requests ≡ s.max_requests
unfolding take_front
take_front-max [] i s = refl
take_front-max (r ∷ rest) i s = refl

run_step-max :
    (pc : WorkerPc) (i : ℕ) (s : Pool) → (or_stay s (run_step pc i s)).max_requests ≡ s.max_requests
unfolding run_step
run_step-max testing i s = take_front-max s.workqueue i s
run_step-max looping i s = refl
run_step-max pc i s = ground arith

wait_fails-max :
    (pc : WorkerPc) (i : ℕ) (s : Pool)
    → (or_stay s (wait_fails pc i s)).max_requests ≡ s.max_requests
unfolding wait_fails
wait_fails-max waiting i s = refl
wait_fails-max pc i s = ground arith

-- No move changes `max_requests`.
pub max_requests-move : (n : ℕ) (s : Pool) (m : Move) → (move n s m).max_requests ≡ s.max_requests
unfolding move
max_requests-move n s (appends r) = ground (arith, append_step-max s.main r s)
max_requests-move n s (works i) = ground (arith, run_step-max (s.workers i) i s)
max_requests-move n s (interrupts i) = ground (arith, wait_fails-max (s.workers i) i s)
max_requests-move n s stops = refl
max_requests-move n s destroys = ground arith
