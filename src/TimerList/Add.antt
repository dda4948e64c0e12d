-- ===== src/TimerList/Add.antt =====
-- The two `add_timer` of `sort_timer_lst` in list_timer.h.
use socket_test.Common.{
  ℕ, zero, suc, ◌-◌, ◌≤◌, ◌<◌, ◌≡◌, refl, sym, subst, true, false, List, arith, ◌==◌, ltb, length,
  ℕ_discrete, Bool-cases, inl, inr,
}
use socket_test.Common.Array
use socket_test.Common.Run.{ok, ◌>>=◌, Ends, ends}
use socket_test.TimerList.{SortTimerLst, get_expire, get_next, add_loop, add_behind, add_timer}
use socket_test.TimerList.Links.{
  IsLinked, IsLoose, IsRelinked, get-beyond, between-IsLinked, link_between-ok,
  behind_last-IsLinked, append_after-ok, in_front-IsLinked, add_first-ok, alone-IsLinked,
}
use socket_test.TimerList.Order.{insert, insert-insert_at}

-- the timer `t` stands in the list `xs` by the time at which it expires
pub record IsAdded (s : SortTimerLst) (xs : List ℕ) (t : ℕ) (s' : SortTimerLst) : Type 0 where
  pub linked : IsLinked s' (insert s.expire t xs)
  pub fields : IsRelinked s s'

module _ {s : SortTimerLst} {xs : List ℕ} (v : IsLinked s xs) where
  pub expire-ok :
      (i : ℕ) → i < length xs → get_expire s (Array.get xs i) ≡ ok (s.expire (Array.get xs i))
  unfolding get_expire
  expire-ok i b = ground (arith, v.alive i)

  pub next-ok : (i : ℕ) → i < length xs → get_next s (Array.get xs i) ≡ ok (Array.get xs (suc i))
  unfolding get_next
  next-ok i b = ground (arith, v.alive i, v.next i)

  pub not_null : (i : ℕ) → i < length xs → (Array.get xs i == 0) ≡ false
  not_null i b = ground (arith, v.alive i, v.null)

  module _ {t : ℕ} (w : IsLoose s xs t) where
    loose-ok : get_expire s t ≡ ok (s.expire t)
    unfolding get_expire
    loose-ok = ground (arith, w.alive)

    -- the loop in front of the entry `k`, with enough rounds
    add_loop-IsAdded :
        (n k : ℕ)
        → 0 < k
        → k ≤ length xs
        → length xs - k < n
        → ((i : ℕ) → i < k → s.expire (Array.get xs i) ≤ s.expire t)
        → Ends (IsAdded s xs t) (add_loop n t (Array.get xs (k - 1)) (Array.get xs k) s)
    unfolding add_loop
    add_loop-IsAdded zero k pos le fuel before = absurd (omega arith)
    add_loop-IsAdded (suc n) k pos le fuel before = elim (ℕ_discrete k (length xs)) [
      | yes end ↦
          let null : (Array.get xs k == 0) ≡ true = ground (arith, get-beyond xs k) in
          let place = insert-insert_at s.expire t xs k le before (λ b. absurd (omega arith)) in
          rw (null, add_loop, append_after-ok v w k pos end)
            (ends (record {
              linked = rw place (behind_last-IsLinked v w k pos end);
              fields = record { live = refl; expire = refl; user_data = refl };
            }))
      | no more ↦
          let inside : k < length xs = omega arith in
          elim (Bool-cases (ltb (s.expire t) (s.expire (Array.get xs k)))) [
            | inl here ↦
                let place = insert-insert_at s.expire t xs k le before (λ b. ground arith) in
                rw
                  (
                    not_null k inside,
                    add_loop,
                    loose-ok,
                    expire-ok k inside,
                    ◌>>=◌,
                    here,
                    link_between-ok v w k pos inside,
                  )
                  (ends (record {
                    linked = rw place (between-IsLinked v w k pos inside);
                    fields = record { live = refl; expire = refl; user_data = refl };
                  }))
            | inr further ↦
                let back : suc k - 1 ≡ k = omega arith in
                rw
                  (
                    not_null k inside,
                    add_loop,
                    loose-ok,
                    expire-ok k inside,
                    ◌>>=◌,
                    further,
                    next-ok k inside,
                  )
                  (subst
                    (λ j.
                      Ends (IsAdded s xs t)
                        (add_loop n t (Array.get xs j) (Array.get xs (suc k)) s))
                    back
                    (add_loop-IsAdded n (suc k) (omega arith) (omega arith) (omega arith)
                      λ i b. ground (arith, before i)))
          ]
    ]

    pub add_behind-IsAdded :
        (n j : ℕ)
        → j < length xs
        → length xs < n
        → ((i : ℕ) → i ≤ j → s.expire (Array.get xs i) ≤ s.expire t)
        → Ends (IsAdded s xs t) (add_behind n t (Array.get xs j) s)
    unfolding add_behind
    add_behind-IsAdded n j inside fuel before =
        let back : suc j - 1 ≡ j = omega arith in
        rw (next-ok j inside) (
          subst
            (λ i. Ends (IsAdded s xs t) (add_loop n t (Array.get xs i) (Array.get xs (suc j)) s))
            back
            (add_loop-IsAdded n (suc j) (omega arith) (omega arith) (omega arith)
              λ i b. before i (omega arith)))

    -- `add_timer` of an existing timer with no links, which is not in the list.
    pub add_timer-IsAdded :
        (n : ℕ)
        → length xs < n
        → s.prev t ≡ 0
        → s.next t ≡ 0
        → Ends (IsAdded s xs t) (add_timer n t s)
    unfolding add_timer
    add_timer-IsAdded n fuel unset_prev unset_next =
        let real : (t == 0) ≡ false = ground (arith, w.alive, v.null) in
        elim (ℕ_discrete (length xs) 0) [
          | yes nothing ↦
              let none_there : (s.head == 0) ≡ true = ground (arith, v.head, get-beyond xs 0) in
              let place =
                insert-insert_at s.expire t xs 0 (omega arith) (λ i b. absurd (omega arith))
                  (λ b. absurd (omega arith)) in
              rw (real, add_timer, none_there)
                (ends (record {
                  linked = rw place (alone-IsLinked v w nothing unset_prev unset_next);
                  fields = record { live = refl; expire = refl; user_data = refl };
                }))
          | no some_there ↦
              let inside : 0 < length xs = omega arith in
              let there : (s.head == 0) ≡ false = rw v.head (not_null 0 inside) in
              let first : get_expire s s.head ≡ ok (s.expire (Array.get xs 0)) =
                subst (λ p. get_expire s p ≡ ok (s.expire (Array.get xs 0))) (sym v.head)
                  (expire-ok 0 inside) in
              elim (Bool-cases (ltb (s.expire t) (s.expire (Array.get xs 0)))) [
                | inl front ↦
                    let place =
                      insert-insert_at s.expire t xs 0 (omega arith) (λ i b. absurd (omega arith))
                        (λ b. ground arith) in
                    rw
                      (
                        real,
                        add_timer,
                        there,
                        loose-ok,
                        first,
                        ◌>>=◌,
                        front,
                        add_first-ok v w inside,
                      )
                      (ends (record {
                        linked = rw place (in_front-IsLinked v w inside unset_prev);
                        fields = record { live = refl; expire = refl; user_data = refl };
                      }))
                | inr behind ↦
                    rw (real, add_timer, there, loose-ok, first, ◌>>=◌, behind)
                      (subst (λ p. Ends (IsAdded s xs t) (add_behind n t p s)) (sym v.head)
                        (add_behind-IsAdded n 0 inside fuel
                          (elim [ zero ↦ λ b. ground arith | suc i ↦ λ b. absurd (omega arith) ])))
              ]
        ]
