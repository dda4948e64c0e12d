-- ===== src/TimerList/Refine.antt =====
-- `sort_timer_lst` (list_timer.h) as what it is for: a schedule, which keeps the timers in the order
-- in which they expire, whatever the pointers are.
use socket_test.Common.{
  ℕ, suc, ◌≤◌, ◌<◌, ◌≡◌, refl, sym, ap, ◌∙◌, subst, ◌≢◌, true, false, map, arith, if◌then◌else◌,
  length,
}
use socket_test.Common.Array
use socket_test.Common.Run.{Ends, ends, Ends-bind, Ends-mono}
use socket_test.TimerList.{SortTimerLst, new_timer}
use socket_test.TimerList.Links.{IsLinked}
use socket_test.TimerList.Add.{add_timer-IsAdded}
use socket_test.TimerList.Remove.{erase_at, del_timer-IsDeleted}
use socket_test.TimerList.Adjust.{adjust_timer-IsAdjusted}
use socket_test.TimerList.Tick.{tick-IsTicked}
use socket_test.TimerList.Members.{has-insert, has-later, has-remove_at}
use socket_test.TimerList.Schedule.{
  Schedule, Op, adds, adjusts, deletes, ticks, perform, specified, is_allowed,
}
use socket_test.TimerList.Order.{
  IsSorted, insert, erase, has, due, later, insert-IsSorted, remove_at-IsSorted, index_of_has,
  later-IsSorted,
}

-- The linked list stands for the schedule; the timers that exist are those of the schedule.
pub record Represents (s : SortTimerLst) (m : Schedule) : Type 0 where
  pub linked : IsLinked s m.ids
  pub live : (p : ℕ) → s.live p ≡ has p m.ids
  pub expire : s.expire ≡ m.expire
  pub user_data : s.user_data ≡ m.user_data
  pub sorted : IsSorted m.expire m.ids

-- The operation ends, with a list that stands for the schedule after it, and calls back as specified.
abbrev pub Refines : ℕ → Op → SortTimerLst → Schedule → Type 0
Refines k op s m =
    Ends (λ r. Represents r.0 (specified op m).0 × (r.1 ≡ (specified op m).1)) (perform k op s)

module _ {s : SortTimerLst} {m : Schedule} (v : Represents s m) (k : ℕ)
    (fuel : length m.ids < k) where
  outside_list : (id : ℕ) → s.live id ≡ false → (i : ℕ) → i < length m.ids → Array.get m.ids i ≢ id
  outside_list id free i b e = ground (arith, v.linked.alive i b)

  set_up-IsLinked :
      (id expire user : ℕ)
      → id ≢ 0
      → s.live id ≡ false
      → IsLinked (new_timer id expire user s) m.ids
  unfolding new_timer
  set_up-IsLinked id expire user real free =
      let l = v.linked in
      record {
        alive = λ i b. ground (arith, l.alive i);
        distinct = l.distinct;
        head = l.head;
        tail = l.tail;
        next = λ i b. ground (arith, l.next i, l.alive i);
        first = λ b. ground (arith, l.first, l.alive 0);
        prev = λ i b. ground (arith, l.prev i, l.alive (suc i));
        null = ground (arith, l.null);
      }

  adds-Refines :
      (id expire user : ℕ) → id ≢ 0 → s.live id ≡ false → Refines k (adds id expire user) s m
  unfolding perform specified new_timer
  adds-Refines id expire user real free =
      Ends-bind
        (add_timer-IsAdded (set_up-IsLinked id expire user real free)
          (record { alive = ground arith; outside = outside_list id free }) k fuel (ground arith)
          (ground arith))
        λ s' a. ends (
          record {
            linked =
                subst (λ e. IsLinked s' (insert (Array.update e id expire) id m.ids)) v.expire
                  a.linked;
            live = λ p. ground (
              arith,
              ap (λ l. l p) a.fields.live,
              v.live p,
              has-insert (Array.update m.expire id expire) id p m.ids,
            );
            expire = a.fields.expire ∙ ap (λ e. Array.update e id expire) v.expire;
            user_data = a.fields.user_data ∙ ap (λ u. Array.update u id user) v.user_data;
            sorted = insert-IsSorted (Array.update m.expire id expire) id m.ids λ i j a b.
                ground (arith, v.sorted i j, outside_list id free i, outside_list id free j);
          },
          refl,
        )

  raised-IsLinked : (e : ℕ → ℕ) → IsLinked (record s { expire = e }) m.ids
  raised-IsLinked e =
      let l = v.linked in
      record {
        alive = l.alive;
        distinct = l.distinct;
        head = l.head;
        tail = l.tail;
        next = l.next;
        first = l.first;
        prev = l.prev;
        null = l.null;
      }

  deletes-Refines : (i : ℕ) → i < length m.ids → Refines k (deletes (Array.get m.ids i)) s m
  unfolding perform specified
  deletes-Refines i inside = Ends-bind (del_timer-IsDeleted v.linked i inside) λ s' d. ends (
    record {
      linked = d.linked;
      live = λ p. ground (
        arith,
        ap (λ l. l p) d.live,
        v.live p,
        erase_at v.linked i inside,
        has-remove_at m.ids i p inside (λ j b e. v.linked.distinct j i b inside e),
      );
      expire = d.expire ∙ v.expire;
      user_data = d.user_data ∙ v.user_data;
      sorted =
          rw (erase_at v.linked i inside) (remove_at-IsSorted m.expire m.ids i inside v.sorted);
    },
    refl,
  )

  -- The other timers stay in order when one gets another time.
  put_off-IsSorted :
      (i expire : ℕ)
      → i < length m.ids
      → IsSorted (Array.update m.expire (Array.get m.ids i) expire) (Array.remove_at m.ids i)
  put_off-IsSorted i expire inside a b c d =
      let at = Array.get-remove_at m.ids i in
      let len = Array.length-remove_at m.ids i inside in
      let apart = v.linked.distinct i in
      ground (
        arith,
        at a,
        at b,
        len,
        apart a,
        apart b,
        apart (suc a),
        apart (suc b),
        v.sorted a b,
        v.sorted a (suc b),
        v.sorted (suc a) (suc b),
      )

  adjusts-Refines :
      (i expire : ℕ)
      → i < length m.ids
      → m.expire (Array.get m.ids i) ≤ expire
      → Refines k (adjusts (Array.get m.ids i) expire) s m
  unfolding perform specified
  adjusts-Refines i expire inside raised =
      let id = Array.get m.ids i in
      let e = Array.update m.expire id expire in
      let same : Array.update s.expire id expire ≡ e =
        ap (λ f. Array.update f id expire) v.expire in
      rw (v.linked.alive i inside) (
        Ends-bind
          (adjust_timer-IsAdjusted (raised-IsLinked (Array.update s.expire id expire)) i inside
            (subst (λ f. (j : ℕ) → j < i → f (Array.get m.ids j) ≤ f id) (sym same)
              λ j b. ground (arith, v.sorted j i b inside))
            k fuel)
          λ s' a. ends (
            record {
              linked = subst (λ f. IsLinked s' (insert f id (erase id m.ids))) same a.linked;
              live = λ p. ground (
                arith,
                ap (λ l. l p) a.fields.live,
                v.live p,
                has-insert e id p (erase id m.ids),
                erase_at v.linked i inside,
                v.live id,
                v.linked.alive i inside,
                has-remove_at m.ids i p inside (λ j b c. v.linked.distinct j i b inside c),
              );
              expire = a.fields.expire ∙ same;
              user_data = a.fields.user_data ∙ v.user_data;
              sorted =
                  insert-IsSorted e id (erase id m.ids)
                    (rw (erase_at v.linked i inside) (put_off-IsSorted i expire inside));
            },
            refl,
          ))

  ticks-Refines : (cur : ℕ) → Refines k (ticks cur) s m
  unfolding perform specified
  ticks-Refines cur =
      Ends-mono
        (tick-IsTicked k cur v.linked (subst (λ e. IsSorted e m.ids) (sym v.expire) v.sorted) fuel)
        λ r a. (
          record {
            linked = subst (λ e. IsLinked r.0 (later e cur m.ids)) v.expire a.linked;
            live = λ p.
                a.live p
                ∙ subst
                    (λ e.
                      (if has p (due e cur m.ids) then false else s.live p)
                      ≡ has p (later m.expire cur m.ids))
                    (sym v.expire) (ground (arith, v.live p, has-later m.expire cur p m.ids));
            expire = a.expire ∙ v.expire;
            user_data = a.user_data ∙ v.user_data;
            sorted = later-IsSorted m.expire cur m.ids v.sorted;
          },
          a.calls
              ∙ ap (λ u. map u (due s.expire cur m.ids)) v.user_data
              ∙ ap (λ e. map m.user_data (due e cur m.ids)) v.expire,
        )

-- Every operation that is allowed, on a linked list that stands for a schedule and with more rounds
-- than there are timers, ends without a fault; it leaves a list that stands for the schedule after
-- the operation, and it calls back what the schedule says, in this order.
pub perform-Refines :
    (k : ℕ) (op : Op) (s : SortTimerLst) (m : Schedule)
    → Represents s m
    → is_allowed op m ≡ true
    → length m.ids < k
    → Refines k op s m
unfolding is_allowed
perform-Refines k (adds id expire user) s m v allowed fuel =
    adds-Refines v k fuel id expire user (ground arith) (ground (arith, v.live id))
perform-Refines k (adjusts id expire) s m v allowed fuel =
    let (i, inside, at) = index_of_has id m.ids (ground arith) in
    subst (λ p. Refines k (adjusts p expire) s m) at
      (adjusts-Refines v k fuel i expire inside (ground arith))
perform-Refines k (deletes id) s m v allowed fuel =
    let (i, inside, at) = index_of_has id m.ids allowed in
    subst (λ p. Refines k (deletes p) s m) at (deletes-Refines v k fuel i inside)
perform-Refines k (ticks cur) s m v allowed fuel = ticks-Refines v k fuel cur
