-- ===== src/TimerList/Adjust.antt =====
-- `adjust_timer` of `sort_timer_lst` in list_timer.h.
use socket_test.Common.{
  ℕ, suc, ◌-◌, ◌≤◌, ◌<◌, ◌≡◌, refl, sym, ◌∙◌, subst, true, List, arith, ◌==◌, ltb, length,
  ℕ_discrete, dec_lt, Bool-cases, inl, inr,
}
use socket_test.Common.Array
use socket_test.Common.Run.{◌>>=◌, Ends, ends, Ends-mono}
use socket_test.TimerList.{SortTimerLst, get_next, set_next, move_back, adjust_timer, add_behind}
use socket_test.TimerList.Links.{IsLinked, IsLoose, IsRelinked, get-beyond}
use socket_test.TimerList.Cut.{
  IsCut, cut-IsLinked, headless, drop_head-ok, headless-IsCut, bridged, unlink-ok, bridged-IsCut,
  set_next-IsCut,
}
use socket_test.TimerList.Add.{expire-ok, next-ok, not_null, add_behind-IsAdded}
use socket_test.TimerList.Remove.{erase_at}
use socket_test.TimerList.Order.{insert, erase, insert-insert_at}

-- the timer `t` of the list stands where it belongs by the time at which it expires
pub record IsAdjusted (s : SortTimerLst) (xs : List ℕ) (t : ℕ) (s' : SortTimerLst) : Type 0 where
  pub linked : IsLinked s' (insert s.expire t (erase t xs))
  pub fields : IsRelinked s s'

module _ {s : SortTimerLst} {xs : List ℕ} (v : IsLinked s xs) (k : ℕ) (inside : k < length xs)
    (raised : (i : ℕ) → i < k → s.expire (Array.get xs i) ≤ s.expire (Array.get xs k)) where
  -- Where the next timer expires later, nothing has to be done.
  stays-IsAdjusted :
      (suc k < length xs → s.expire (Array.get xs k) < s.expire (Array.get xs (suc k)))
      → IsAdjusted s xs (Array.get xs k) s
  stays-IsAdjusted below = record {
    linked =
        let t = Array.get xs k in
        let ys = Array.remove_at xs k in
        let at = Array.get-remove_at xs k in
        let len = Array.length-remove_at xs k inside in
        rw
          (
            erase_at v k inside,
            insert-insert_at s.expire t ys k (omega arith) (λ i b. ground (arith, at i, raised i))
                (λ b. ground (arith, at k, below)),
            Array.insert_at-remove_at xs k inside,
          )
          v;
    fields = record { live = refl; expire = refl; user_data = refl };
  }

  cut-IsLoose :
      {s' : SortTimerLst} → s'.live ≡ s.live → IsLoose s' (Array.remove_at xs k) (Array.get xs k)
  cut-IsLoose same = record {
    alive = ground (arith, v.alive k, same);
    outside = λ i b e. ground (
      arith,
      Array.get-remove_at xs k i,
      Array.length-remove_at xs k inside,
      v.distinct i k,
      v.distinct (suc i) k,
    );
  }

  -- A timer that was cut out is put in again behind an entry that does not expire later.
  readd-IsAdjusted :
      (n j : ℕ) {s' : SortTimerLst}
      → length xs < n
      → IsCut s xs k s'
      → IsRelinked s s'
      → j < length xs - 1
      → ((i : ℕ)
          → i ≤ j
          → s.expire (Array.get (Array.remove_at xs k) i) ≤ s.expire (Array.get xs k))
      → Ends
          (IsAdjusted s xs (Array.get xs k))
          (add_behind n (Array.get xs k) (Array.get (Array.remove_at xs k) j) s')
  readd-IsAdjusted n j {s'} fuel c r in_rest before =
      let len = Array.length-remove_at xs k inside in
      let same : s'.expire ≡ s.expire = r.expire in
      Ends-mono
        (add_behind-IsAdded (cut-IsLinked v inside c) (cut-IsLoose r.live) n j (omega arith)
          (omega arith) λ i b. ground (arith, same, before i b))
        λ s'' a. record {
          linked = rw (erase_at v k inside) (
              subst (λ e. IsLinked s'' (insert e (Array.get xs k) (Array.remove_at xs k))) same
                a.linked);
          fields = record {
            live = a.fields.live ∙ r.live;
            expire = a.fields.expire ∙ same;
            user_data = a.fields.user_data ∙ r.user_data;
          };
        }

  module _ (n : ℕ) (fuel : length xs < n) (more : suc k < length xs)
      (above : s.expire (Array.get xs (suc k)) ≤ s.expire (Array.get xs k)) where
    abbrev unhooked : SortTimerLst
    unhooked = record (headless v) { next = Array.update (headless v).next (Array.get xs k) 0 }

    move_head-ok :
        k ≡ 0
        → move_back n (Array.get xs k) s
          ≡ add_behind n (Array.get xs k) (Array.get (Array.remove_at xs k) 0) unhooked
    unfolding move_back set_next
    move_head-ok first =
        ground (arith, drop_head-ok v, v.head, v.alive k, Array.get-remove_at xs k 0)

    move_inner-ok :
        (later : 0 < k)
        → move_back n (Array.get xs k) s
          ≡ add_behind n (Array.get xs k) (Array.get (Array.remove_at xs k) k) (bridged v k later)
    unfolding move_back get_next
    move_inner-ok later = ground (
      arith,
      v.head,
      v.distinct k 0,
      unlink-ok v k later more,
      v.alive k,
      v.next k,
      v.distinct k (k - 1),
      Array.get-remove_at xs k k,
    )

    move_back-IsAdjusted : Ends (IsAdjusted s xs (Array.get xs k)) (move_back n (Array.get xs k) s)
    move_back-IsAdjusted =
        let at = Array.get-remove_at xs k in
        let len = Array.length-remove_at xs k inside in
        elim (ℕ_discrete k 0) [
          | yes first ↦ rw (move_head-ok first) (
              readd-IsAdjusted n 0 fuel
                (set_next-IsCut 0 v inside (
                  subst (λ i. IsCut s xs i (headless v)) (sym first)
                    (headless-IsCut v (omega arith))))
                (record { live = refl; expire = refl; user_data = refl }) (omega arith)
                λ i b. ground (arith, at i))
          | no later ↦ rw (move_inner-ok (omega arith)) (
              readd-IsAdjusted n k fuel (bridged-IsCut v k (omega arith) more)
                (record { live = refl; expire = refl; user_data = refl }) (omega arith)
                λ i b. ground (arith, at i, raised i))
        ]

  -- `adjust_timer` of a timer whose time was put off, and of no other.
  pub adjust_timer-IsAdjusted :
      (n : ℕ)
      → length xs < n
      → Ends (IsAdjusted s xs (Array.get xs k)) (adjust_timer n (Array.get xs k) s)
  unfolding adjust_timer
  adjust_timer-IsAdjusted n fuel = elim (dec_lt (suc k) (length xs)) [
    | yes more ↦
        elim (Bool-cases (ltb (s.expire (Array.get xs k)) (s.expire (Array.get xs (suc k))))) [
          | inl below ↦
              rw
                (
                  not_null v k inside,
                  adjust_timer,
                  next-ok v k inside,
                  ◌>>=◌,
                  not_null v (suc k) more,
                  expire-ok v k inside,
                  expire-ok v (suc k) more,
                  below,
                )
                (ends (stays-IsAdjusted λ b. ground arith))
          | inr above ↦
              rw
                (
                  not_null v k inside,
                  adjust_timer,
                  next-ok v k inside,
                  ◌>>=◌,
                  not_null v (suc k) more,
                  expire-ok v k inside,
                  expire-ok v (suc k) more,
                  above,
                )
                (move_back-IsAdjusted n fuel more (ground arith))
        ]
    | no last ↦
        let null : (Array.get xs (suc k) == 0) ≡ true = ground (arith, get-beyond xs (suc k)) in
        rw (not_null v k inside, adjust_timer, next-ok v k inside, ◌>>=◌, null)
          (ends (stays-IsAdjusted λ b. absurd (omega arith)))
  ]
