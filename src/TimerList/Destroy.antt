-- ===== src/TimerList/Destroy.antt =====
-- The destructor of `sort_timer_lst` in list_timer.h.
use socket_test.Common.{
  ℕ, zero, suc, ◌<◌, ◌≡◌, refl, true, false, List, [], ◌∷◌, arith, if◌then◌else◌, length,
}
use socket_test.Common.Array
use socket_test.Common.Run.{Ends, ends, Ends-mono}
use socket_test.TimerList.{SortTimerLst, get_next, free, destroy_loop, destroy}
use socket_test.TimerList.Links.{IsLinked}
use socket_test.TimerList.Order.{has}

-- the pointers from `p` lead through `xs` to NULL
record IsChain (s : SortTimerLst) (p : ℕ) (xs : List ℕ) : Type 0 where
  pub start : p ≡ Array.get xs 0
  pub alive : (i : ℕ) → i < length xs → s.live (Array.get xs i) ≡ true
  pub next : (i : ℕ) → i < length xs → s.next (Array.get xs i) ≡ Array.get xs (suc i)
  pub distinct : (i j : ℕ) → i < length xs → j < length xs → Array.get xs i ≡ Array.get xs j → i ≡ j
  pub null : s.live 0 ≡ false

destroy_round :
    (n p : ℕ) (s : SortTimerLst)
    → s.live p ≡ true
    → s.live 0 ≡ false
    → destroy_loop (suc n) p s
      ≡ destroy_loop n (s.next p) (record s { head = s.next p; live = Array.update s.live p false })
unfolding destroy_loop get_next free
destroy_round n p s exists null = ground arith

destroy_loop-frees :
    (n p : ℕ) (xs : List ℕ) {s : SortTimerLst}
    → IsChain s p xs
    → length xs < n
    → Ends (λ s'. (q : ℕ) → s'.live q ≡ (if has q xs then false else s.live q)) (destroy_loop n p s)
unfolding destroy_loop has Array.get
destroy_loop-frees zero p xs c fuel = absurd (omega arith)
destroy_loop-frees (suc n) p [] c fuel = rw c.start (ends λ q. refl)
destroy_loop-frees (suc n) p (x ∷ xs) {s} c fuel =
    let exists : s.live p ≡ true = ground (arith, c.start, c.alive 0) in
    rw (destroy_round n p s exists c.null) (
      Ends-mono
        (destroy_loop-frees n (s.next p) xs
          (record {
            start = ground (arith, c.start, c.next 0);
            alive = λ i b. ground (arith, c.alive (suc i), c.distinct 0 (suc i), c.start);
            next = λ i b. c.next (suc i) (omega arith);
            distinct = λ i j a b e.
                omega (arith, c.distinct (suc i) (suc j) (omega arith) (omega arith) e);
            null = ground (arith, c.null);
          })
          (omega arith))
        λ s' a q. ground (arith, a q, c.start))

pub destroy-frees :
    (n : ℕ) {s : SortTimerLst} {xs : List ℕ}
    → IsLinked s xs
    → length xs < n
    → Ends (λ s'. (q : ℕ) → s'.live q ≡ (if has q xs then false else s.live q)) (destroy n s)
unfolding destroy
destroy-frees n {s} {xs} v fuel =
    destroy_loop-frees n s.head xs
      (record {
        start = v.head;
        alive = v.alive;
        next = v.next;
        distinct = v.distinct;
        null = v.null;
      })
      fuel
