-- ===== src/TimerList/Tick.antt =====
-- `tick` and the destructor of `sort_timer_lst` in list_timer.h.
use mathlib.Core.List.{append_assoc, append-nil}
use socket_test.Common.{
  ℕ, zero, suc, ◌≤◌, ◌<◌, ◌≡◌, refl, sym, ap, ◌∙◌, subst, true, false, List, [], ◌∷◌, ◌++◌, map,
  arith, ◌==◌, ltb, if◌then◌else◌, length, ℕ_discrete, Bool-cases, inl, inr,
}
use socket_test.Common.Array
use socket_test.Common.Run.{ok, ◌>>=◌, Ends, ends, Ends-bind, Ends-mono}
use socket_test.TimerList.{
  SortTimerLst, get_expire, get_next, set_prev, free, drop_due, tick_loop, tick,
}
use socket_test.TimerList.Links.{IsLinked, get-beyond}
use socket_test.TimerList.Cut.{IsCut, cut-IsLinked, headless, headless-IsCut, free-IsCut}
use socket_test.TimerList.Add.{expire-ok, not_null}
use socket_test.TimerList.Order.{IsSorted, due, later, has, none_due}

-- What `tick` at `cur` leaves of a list, when it has called back `fired` before.
pub record IsTicked (s : SortTimerLst) (xs : List ℕ) (cur : ℕ) (fired : List ℕ)
    (r : SortTimerLst × List ℕ) : Type 0 where
  pub linked : IsLinked r.0 (later s.expire cur xs)
  pub calls : r.1 ≡ fired ++ map s.user_data (due s.expire cur xs)
  pub live : (p : ℕ) → r.0.live p ≡ (if has p (due s.expire cur xs) then false else s.live p)
  pub expire : r.0.expire ≡ s.expire
  pub user_data : r.0.user_data ≡ s.user_data

-- the head is taken out and deleted
record IsDropped (s : SortTimerLst) (x : ℕ) (xs : List ℕ) (s' : SortTimerLst) : Type 0 where
  pub linked : IsLinked s' xs
  pub live : s'.live ≡ Array.update s.live x false
  pub expire : s'.expire ≡ s.expire
  pub user_data : s'.user_data ≡ s.user_data

module _ {s : SortTimerLst} {x : ℕ} {xs : List ℕ} (v : IsLinked s (x ∷ xs)) where
  drop_last-IsCut : length xs ≡ 0 → IsCut s (x ∷ xs) 0 (record s { head = 0 })
  drop_last-IsCut last = record {
    alive = λ i b o. absurd (omega arith);
    next = λ i b o. absurd (omega arith);
    prev = λ i b o. absurd (omega arith);
    head = ground (arith, get-beyond (x ∷ xs) 1);
    tail = λ b. absurd (omega arith);
    null = v.null;
  }

  drop_last-ok :
      length xs ≡ 0 → drop_due x s ≡ ok (record s { head = 0; live = Array.update s.live x false })
  unfolding drop_due get_next free Array.get
  drop_last-ok last = ground (arith, v.alive 0, v.next 0, get-beyond (x ∷ xs) 1)

  drop_due-ok :
      0 < length xs → drop_due x s ≡ ok (record (headless v) { live = Array.update s.live x false })
  unfolding drop_due get_next set_prev free Array.get
  drop_due-ok more = ground (arith, v.alive 0, v.next 0, v.alive 1, v.null)

  drop_due-IsDropped : Ends (IsDropped s x xs) (drop_due x s)
  unfolding Array.get Array.remove_at
  drop_due-IsDropped = elim (ℕ_discrete (length xs) 0) [
    | yes last ↦ rw (drop_last-ok last) (
        ends (record {
          linked = cut-IsLinked v (omega arith) (free-IsCut v (omega arith) (drop_last-IsCut last));
          live = refl;
          expire = refl;
          user_data = refl;
        }))
    | no more ↦ rw (drop_due-ok (omega arith)) (
        ends (record {
          linked =
              cut-IsLinked v (omega arith)
                (free-IsCut v (omega arith) (headless-IsCut v (omega arith)));
          live = refl;
          expire = refl;
          user_data = refl;
        }))
  ]

due_now :
    (e : ℕ → ℕ) (cur x : ℕ) (xs : List ℕ)
    → e x ≤ cur
    → (due e cur (x ∷ xs) ≡ x ∷ due e cur xs) × (later e cur (x ∷ xs) ≡ later e cur xs)
unfolding due later
due_now e cur x xs now = ground arith

-- One round of the loop and those behind it.
round-IsTicked :
    {s s' : SortTimerLst} {x cur : ℕ} {xs fired : List ℕ} {r : SortTimerLst × List ℕ}
    → IsDropped s x xs s'
    → s.expire x ≤ cur
    → IsTicked s' xs cur (fired ++ s.user_data x ∷ []) r
    → IsTicked s (x ∷ xs) cur fired r
unfolding has
round-IsTicked {s} {s'} {x} {cur} {xs} {fired} {r} d now a =
    let (dues, laters) = due_now s.expire cur x xs now in
    let same : s'.expire ≡ s.expire = d.expire in
    let called : map s'.user_data (due s'.expire cur xs) ≡ map s.user_data (due s.expire cur xs) =
      ap (λ u. map u (due s'.expire cur xs)) d.user_data
      ∙ ap (λ e. map s.user_data (due e cur xs)) same in
    record {
      linked = rw laters (subst (λ e. IsLinked r.0 (later e cur xs)) same a.linked);
      calls = rw dues (
          a.calls
          ∙ append_assoc fired (s.user_data x ∷ []) (map s'.user_data (due s'.expire cur xs))
          ∙ ap (λ l. fired ++ s.user_data x ∷ l) called);
      live = λ p.
          rw dues
            (ground (arith, a.live p, ap (λ e. has p (due e cur xs)) same, ap (λ l. l p) d.live));
      expire = a.expire ∙ same;
      user_data = a.user_data ∙ d.user_data;
    }

tick_loop-IsTicked :
    (n cur : ℕ) (xs fired : List ℕ) {s : SortTimerLst}
    → IsLinked s xs
    → IsSorted s.expire xs
    → length xs < n
    → Ends (IsTicked s xs cur fired) (tick_loop n cur s.head fired s)
unfolding tick_loop due later has Array.get
tick_loop-IsTicked zero cur xs fired v sorted fuel = absurd (omega arith)
tick_loop-IsTicked (suc n) cur [] fired {s} v sorted fuel =
    let null : (s.head == 0) ≡ true = ground (arith, v.head, get-beyond [] 0) in
    rw (null, tick_loop)
      (ends (record {
        linked = v;
        calls = sym (append-nil fired);
        live = λ p. refl;
        expire = refl;
        user_data = refl;
      }))
tick_loop-IsTicked (suc n) cur (x ∷ xs) fired {s} v sorted fuel =
    let there : (x == 0) ≡ false = not_null v 0 (omega arith) in
    let first : get_expire s x ≡ ok (s.expire x) = expire-ok v 0 (omega arith) in
    subst (λ h. Ends (IsTicked s (x ∷ xs) cur fired) (tick_loop (suc n) cur h fired s)) (sym v.head)
      (elim (Bool-cases (ltb cur (s.expire x))) [
        | inl early ↦
            let (none, all) = none_due s.expire cur (x ∷ xs) (λ i b. ground (arith, sorted 0 i)) in
            rw (there, tick_loop, first, ◌>>=◌, early)
              (ends (record {
                linked = rw all v;
                calls = rw none (sym (append-nil fired));
                live = λ p. rw none refl;
                expire = refl;
                user_data = refl;
              }))
        | inr on_time ↦
            rw (there, tick_loop, first, ◌>>=◌, on_time)
              (Ends-bind (drop_due-IsDropped v) λ s' d.
                Ends-mono
                  (tick_loop-IsTicked n cur xs (fired ++ s.user_data x ∷ []) d.linked
                    (subst (λ e. IsSorted e xs) (sym d.expire)
                      λ i j a b. sorted (suc i) (suc j) (omega arith) (omega arith))
                    (omega arith))
                  λ r a. round-IsTicked d (ground arith) a)
      ])

-- The test in front of the loop changes nothing.
tick-tick_loop : (n cur : ℕ) (s : SortTimerLst) → 0 < n → tick n cur s ≡ tick_loop n cur s.head [] s
unfolding tick tick_loop
tick-tick_loop zero cur s some = absurd (omega arith)
tick-tick_loop (suc n) cur s some = ground arith

-- `tick` on a list in order of time.
pub tick-IsTicked :
    (n cur : ℕ) {s : SortTimerLst} {xs : List ℕ}
    → IsLinked s xs
    → IsSorted s.expire xs
    → length xs < n
    → Ends (IsTicked s xs cur []) (tick n cur s)
tick-IsTicked n cur {s} {xs} v sorted fuel =
    rw (tick-tick_loop n cur s (omega arith)) (tick_loop-IsTicked n cur xs [] v sorted fuel)
