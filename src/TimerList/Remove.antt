-- ===== src/TimerList/Remove.antt =====
-- `del_timer` and `adjust_timer` of `sort_timer_lst` in list_timer.h.
use socket_test.Common.{
  ℕ, suc, ◌-◌, ◌<◌, ◌≡◌, refl, sym, ap, subst, ◌≢◌, false, List, arith, ◌==◌, length, ℕ_discrete,
}
use socket_test.Common.Array
use socket_test.Common.Run.{ok, Ends, ends}
use socket_test.TimerList.{SortTimerLst, get_prev, set_next, free, del_timer}
use socket_test.TimerList.Links.{IsLinked, IsRelinked, get-beyond}
use socket_test.TimerList.Cut.{
  IsCut, cut-IsLinked, headless, drop_head-ok, headless-IsCut, bridged, unlink-ok, bridged-IsCut,
  free-IsCut,
}
use socket_test.TimerList.Add.{not_null}
use socket_test.TimerList.Order.{erase, erase-remove_at}

-- the timer `t` is taken out of the list and deleted
pub record IsDeleted (s : SortTimerLst) (xs : List ℕ) (t : ℕ) (s' : SortTimerLst) : Type 0 where
  pub linked : IsLinked s' (erase t xs)
  pub live : s'.live ≡ Array.update s.live t false
  pub expire : s'.expire ≡ s.expire
  pub user_data : s'.user_data ≡ s.user_data

module _ {s : SortTimerLst} {xs : List ℕ} (v : IsLinked s xs) where
  pub erase_at : (k : ℕ) → k < length xs → erase (Array.get xs k) xs ≡ Array.remove_at xs k
  erase_at k inside =
      erase-remove_at xs k inside λ i b e. omega (arith, v.distinct i k (omega arith) inside e)

  -- the last timer is taken out, and there is another one
  abbrev tailless : ℕ → SortTimerLst
  tailless k = record s {
    tail = Array.get xs (k - 1);
    next = Array.update s.next (Array.get xs (k - 1)) 0;
  }

  tailless-IsCut : (k : ℕ) → 0 < k → suc k ≡ length xs → IsCut s xs k (tailless k)
  tailless-IsCut k later last = record {
    alive = λ i b o. v.alive i b;
    next = λ i b o. ground (arith, v.distinct i (k - 1), get-beyond xs (length xs));
    prev = λ i b o. ground arith;
    head = ground arith;
    tail = λ b. ground arith;
    null = v.null;
  }

  module _ (k : ℕ) (inside : k < length xs) where
    free-IsDeleted :
        {s' : SortTimerLst}
        → IsCut s xs k s'
        → IsRelinked s s'
        → IsDeleted s xs
            (Array.get xs k)
            (record s' { live = Array.update s'.live (Array.get xs k) false })
    free-IsDeleted c r = record {
      linked = rw (erase_at k inside) (cut-IsLinked v inside (free-IsCut v inside c));
      live = ap (λ l. Array.update l (Array.get xs k) false) r.live;
      expire = r.expire;
      user_data = r.user_data;
    }

    is_head : k ≢ 0 → (Array.get xs k == s.head) ≡ false
    is_head later = ground (arith, v.head, v.distinct k 0)

    is_tail : suc k ≢ length xs → (Array.get xs k == s.tail) ≡ false
    is_tail earlier = ground (arith, v.tail, v.distinct k (length xs - 1))

    -- the only timer is taken out
    emptied-IsCut : length xs ≡ 1 → IsCut s xs k (record s { head = 0; tail = 0 })
    emptied-IsCut one = record {
      alive = λ i b o. v.alive i b;
      next = λ i b o. absurd (omega arith);
      prev = λ i b o. absurd (omega arith);
      head = ground (arith, get-beyond xs 1);
      tail = λ b. absurd (omega arith);
      null = v.null;
    }

    del_only-ok :
        length xs ≡ 1
        → del_timer (Array.get xs k) s
          ≡ ok (record s { live = Array.update s.live (Array.get xs k) false; head = 0; tail = 0 })
    unfolding del_timer free
    del_only-ok one = ground (arith, not_null v k inside, v.alive k, v.head, v.tail)

    del_head-ok :
        1 < length xs
        → k ≡ 0
        → del_timer (Array.get xs k) s
          ≡ ok (record (headless v) { live = Array.update s.live (Array.get xs k) false })
    unfolding del_timer free
    del_head-ok several first =
        ground (arith, not_null v k inside, is_tail, v.alive k, v.head, drop_head-ok v several)

    del_tail-ok :
        0 < k
        → suc k ≡ length xs
        → del_timer (Array.get xs k) s
          ≡ ok (record (tailless k) { live = Array.update s.live (Array.get xs k) false })
    unfolding del_timer free get_prev set_next
    del_tail-ok later last =
        ground
          (arith, not_null v k inside, is_head, v.alive k, v.tail, v.alive (k - 1), v.prev (k - 1))

    del_middle-ok :
        (later : 0 < k)
        → suc k < length xs
        → del_timer (Array.get xs k) s
          ≡ ok (record (bridged v k later) { live = Array.update s.live (Array.get xs k) false })
    unfolding del_timer free
    del_middle-ok later earlier =
        ground
          (arith, not_null v k inside, is_head, is_tail, v.alive k, unlink-ok v k later earlier)

    -- `del_timer` of a timer in the list.
    pub del_timer-IsDeleted : Ends (IsDeleted s xs (Array.get xs k)) (del_timer (Array.get xs k) s)
    del_timer-IsDeleted = elim (ℕ_discrete (length xs) 1) [
      | yes one ↦ rw (del_only-ok one) (
          ends (
            free-IsDeleted (emptied-IsCut one)
              (record { live = refl; expire = refl; user_data = refl })))
      | no several ↦ elim (ℕ_discrete k 0) [
        | yes first ↦ rw (del_head-ok (omega arith) first) (
            ends (
              free-IsDeleted
                (subst (λ i. IsCut s xs i (headless v)) (sym first)
                  (headless-IsCut v (omega arith)))
                (record { live = refl; expire = refl; user_data = refl })))
        | no later ↦ elim (ℕ_discrete (suc k) (length xs)) [
          | yes last ↦ rw (del_tail-ok (omega arith) last) (
              ends (
                free-IsDeleted (tailless-IsCut k (omega arith) last)
                  (record { live = refl; expire = refl; user_data = refl })))
          | no earlier ↦ rw (del_middle-ok (omega arith) (omega arith)) (
              ends (
                free-IsDeleted (bridged-IsCut v k (omega arith) (omega arith))
                  (record { live = refl; expire = refl; user_data = refl })))
        ]
      ]
    ]
