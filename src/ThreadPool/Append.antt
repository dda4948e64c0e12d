-- ===== src/ThreadPool/Append.antt =====
-- The steps of `append` in thread_pool.h keep the pool sound.
use mathlib.Core.List.{append_assoc}
use socket_test.Common.{
  ℕ, ◌≡◌, ap, ◌∙◌, [], ◌∷◌, ◌++◌, arith, ltb, length, length-append, Bool-cases, inl, inr,
}
use socket_test.ThreadPool.{
  MainPc, idle, checking, refusing, pushed, posting, Pool, is_free, append_step, or_stay,
}
use socket_test.ThreadPool.Sound.{IsSound}

-- Each step of `append` keeps the pool sound.
pub append_step-IsSound :
    (n : ℕ) (pc : MainPc) (r : ℕ) (s : Pool)
    → s.main ≡ pc
    → IsSound n s
    → IsSound n (or_stay s (append_step pc r s))
unfolding append_step
append_step-IsSound n idle r s e v = ground arith
append_step-IsSound n (MainPc.locking q) r s e v = elim (Bool-cases (is_free s.queuelocker)) [
  | inl free ↦ rw free (record {
    bounded = v.bounded;
    in_order = v.in_order;
    counted = ground (arith, v.counted);
    main_holds = ground arith;
    worker_holds = λ i b. ground (arith, v.worker_holds i b);
    in_use = λ i b. cc;
  })
  | inr held ↦ rw held v
]
append_step-IsSound n (checking q) r s e v =
    elim (Bool-cases (ltb s.max_requests (length s.workqueue))) [
      | inl full ↦ rw full (record {
        bounded = v.bounded;
        in_order = v.in_order;
        counted = ground (arith, v.counted);
        main_holds = ground (arith, v.main_holds);
        worker_holds = v.worker_holds;
        in_use = v.in_use;
      })
      | inr room ↦
          let longer = length-append s.workqueue (q ∷ []) in
          rw room (record {
            bounded = ground (arith, longer);
            in_order =
                ap (λ l. l ++ q ∷ []) v.in_order ∙ append_assoc s.served s.workqueue (q ∷ []);
            counted = ground (arith, v.counted, longer);
            main_holds = ground (arith, v.main_holds);
            worker_holds = v.worker_holds;
            in_use = v.in_use;
          })
    ]
append_step-IsSound n refusing r s e v = record {
  bounded = v.bounded;
  in_order = v.in_order;
  counted = ground (arith, v.counted);
  main_holds = ground arith;
  worker_holds = λ i b. ground (arith, v.worker_holds i b, v.main_holds);
  in_use = λ i b. cc;
}
append_step-IsSound n pushed r s e v = record {
  bounded = v.bounded;
  in_order = v.in_order;
  counted = ground (arith, v.counted);
  main_holds = ground arith;
  worker_holds = λ i b. ground (arith, v.worker_holds i b, v.main_holds);
  in_use = λ i b. cc;
}
append_step-IsSound n posting r s e v = record {
  bounded = v.bounded;
  in_order = v.in_order;
  counted = ground (arith, v.counted);
  main_holds = ground (arith, v.main_holds);
  worker_holds = v.worker_holds;
  in_use = v.in_use;
}
