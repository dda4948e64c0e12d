-- ===== src/ThreadPool/Work.antt =====
-- The steps of `run` in thread_pool.h keep the pool sound.
use mathlib.Core.List.{append_assoc}
use socket_test.Common.{
  ℕ, ◌+◌, ◌≤◌, ◌<◌, ◌≡◌, refl, sym, ap, ◌∙◌, ◌⊎◌, true, false, List, [], ◌∷◌, ◌++◌, arith, ◌==◌,
  if◌then◌else◌, length, Bool-cases, inl, inr,
}
use socket_test.Common.Array
use socket_test.Common.Tally.{tally-update}
use socket_test.ThreadPool.{
  WorkerPc, looping, waiting, testing, missed, taken, processing, ended, Holder, nobody, by_main,
  by_worker, Pool, is_free, take_front, run_step, wait_fails, or_stay,
}
use socket_test.ThreadPool.Sound.{worker_inside, to_pop, IsSound}

-- What a step of worker `i` from `pc` to `pc'` has to respect for the pool to stay sound.
record IsAllowed (n i : ℕ) (s t : Pool) (pc' : WorkerPc) : Type 0 where
  moved : t.workers ≡ Array.update s.workers i pc'
  same_main : t.main ≡ s.main
  same_max : t.max_requests ≡ s.max_requests
  shorter : length t.workqueue ≤ length s.workqueue
  in_order : t.accepted ≡ t.served ++ t.workqueue
  counted :
      (length t.workqueue ≡ 0)
      ⊎ (s.queuestat + to_pop (s.workers i) + length t.workqueue
          ≤ t.queuestat + to_pop pc' + length s.workqueue)
  holder :
      ((t.queuelocker ≡ s.queuelocker) × (worker_inside pc' ≡ worker_inside (s.workers i)))
      ⊎ (((s.queuelocker ≡ nobody) × (t.queuelocker ≡ by_worker i) × (worker_inside pc' ≡ true))
          ⊎ ((s.queuelocker ≡ by_worker i)
              × (t.queuelocker ≡ nobody)
              × (worker_inside pc' ≡ false)))

allowed-IsSound :
    (n i : ℕ) (s t : Pool) (pc' : WorkerPc)
    → i < n
    → IsSound n s
    → IsAllowed n i s t pc'
    → IsSound n t
allowed-IsSound n i s t pc' b v a = record {
  bounded = omega (arith, v.bounded, a.shorter, a.same_max);
  in_order = a.in_order;
  counted =
      rw (a.moved, a.same_main)
        (ground (arith, v.counted, a.counted, tally-update to_pop n i s.workers pc' b));
  main_holds = ground (arith, v.main_holds, a.holder, a.same_main);
  worker_holds =
      λ j bj. rw a.moved (ground (arith, v.worker_holds j bj, v.worker_holds i b, a.holder));
  in_use = λ j bj. ground (arith, v.in_use j bj, a.holder);
}

free_nobody : (h : Holder) → is_free h ≡ true → h ≡ nobody
free_nobody nobody e = refl
free_nobody by_main e = cc
free_nobody (by_worker i) e = cc

take_front-IsSound :
    (n i : ℕ) (q : List ℕ) (s : Pool)
    → i < n
    → IsSound n s
    → s.workers i ≡ testing
    → s.workqueue ≡ q
    → IsSound n (take_front q i s)
unfolding take_front
take_front-IsSound n i [] s b v e eq = allowed-IsSound n i s _ missed b v (record {
  moved = refl;
  same_main = refl;
  same_max = refl;
  shorter = omega arith;
  in_order = v.in_order;
  counted = inl (rw eq refl);
  holder = inl (refl, rw e refl);
})
take_front-IsSound n i (r ∷ rest) s b v e eq = allowed-IsSound n i s _ (taken r) b v (record {
  moved = refl;
  same_main = refl;
  same_max = refl;
  shorter = ground arith;
  in_order = v.in_order ∙ ap (λ l. s.served ++ l) eq ∙ sym (append_assoc s.served (r ∷ []) rest);
  counted = inr (ground arith);
  holder = inl (refl, rw e refl);
})

-- Each step of `run` keeps the pool sound.
pub run_step-IsSound :
    (n i : ℕ) (pc : WorkerPc) (s : Pool)
    → i < n
    → s.workers i ≡ pc
    → IsSound n s
    → IsSound n (or_stay s (run_step pc i s))
unfolding run_step
run_step-IsSound n i looping s b e v =
    allowed-IsSound n i s _ (if s.stop then ended else waiting) b v (record {
      moved = refl;
      same_main = refl;
      same_max = refl;
      shorter = omega arith;
      in_order = v.in_order;
      counted = inr (ground arith);
      holder = inl (refl, ground arith);
    })
run_step-IsSound n i waiting s b e v = elim (Bool-cases (s.queuestat == 0)) [
  | inl blocked ↦ rw blocked v
  | inr ready ↦ rw ready (
      allowed-IsSound n i s _ WorkerPc.locking b v (record {
        moved = refl;
        same_main = refl;
        same_max = refl;
        shorter = omega arith;
        in_order = v.in_order;
        counted = inr (ground arith);
        holder = inl (refl, rw e refl);
      }))
]
run_step-IsSound n i WorkerPc.locking s b e v = elim (Bool-cases (is_free s.queuelocker)) [
  | inl free ↦ rw free (
      allowed-IsSound n i s _ testing b v (record {
        moved = refl;
        same_main = refl;
        same_max = refl;
        shorter = omega arith;
        in_order = v.in_order;
        counted = inr (ground arith);
        holder = inr (inl (free_nobody s.queuelocker free, refl, refl));
      }))
  | inr held ↦ rw held v
]
run_step-IsSound n i testing s b e v = take_front-IsSound n i s.workqueue s b v e refl
run_step-IsSound n i missed s b e v = allowed-IsSound n i s _ looping b v (record {
  moved = refl;
  same_main = refl;
  same_max = refl;
  shorter = omega arith;
  in_order = v.in_order;
  counted = inr (ground arith);
  holder = inr (inr ((v.worker_holds i b).0 (rw e refl), refl, refl));
})
run_step-IsSound n i (taken r) s b e v =
    allowed-IsSound n i s _ (if r == 0 then looping else processing r) b v (record {
      moved = refl;
      same_main = refl;
      same_max = refl;
      shorter = omega arith;
      in_order = v.in_order;
      counted = inr (ground arith);
      holder = inr (inr ((v.worker_holds i b).0 (rw e refl), refl, ground arith));
    })
run_step-IsSound n i (processing r) s b e v = allowed-IsSound n i s _ looping b v (record {
  moved = refl;
  same_main = refl;
  same_max = refl;
  shorter = omega arith;
  in_order = v.in_order;
  counted = inr (ground arith);
  holder = inl (refl, rw e refl);
})
run_step-IsSound n i ended s b e v = v

-- A wait that fails keeps the pool sound.
pub wait_fails-IsSound :
    (n i : ℕ) (pc : WorkerPc) (s : Pool)
    → i < n
    → s.workers i ≡ pc
    → IsSound n s
    → IsSound n (or_stay s (wait_fails pc i s))
unfolding wait_fails
wait_fails-IsSound n i waiting s b e v = allowed-IsSound n i s _ WorkerPc.locking b v (record {
  moved = refl;
  same_main = refl;
  same_max = refl;
  shorter = omega arith;
  in_order = v.in_order;
  counted = inr (ground arith);
  holder = inl (refl, rw e refl);
})
wait_fails-IsSound n i looping s b e v = v
wait_fails-IsSound n i WorkerPc.locking s b e v = v
wait_fails-IsSound n i testing s b e v = v
wait_fails-IsSound n i missed s b e v = v
wait_fails-IsSound n i (taken r) s b e v = v
wait_fails-IsSound n i (processing r) s b e v = v
wait_fails-IsSound n i ended s b e v = v
