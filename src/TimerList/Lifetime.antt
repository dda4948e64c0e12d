-- ===== src/TimerList/Lifetime.antt =====
-- A `sort_timer_lst` (list_timer.h) from its constructor to its destructor.
use socket_test.Common.{ℕ, suc, ◌+◌, ◌≤◌, ◌<◌, ◌≡◌, refl, true, false, List, [], ◌∷◌, arith, length}
use socket_test.Common.Array
use socket_test.Common.Run.{◌>>=◌, Ends, ends, Ends-bind, Ends-mono}
use socket_test.TimerList.{SortTimerLst, create, destroy}
use socket_test.TimerList.Destroy.{destroy-frees}
use socket_test.TimerList.Members.{length-insert, length-erase, length-later}
use socket_test.TimerList.Schedule.{
  Schedule, Op, adds, adjusts, deletes, ticks, specified, perform_all, specified_all, are_allowed,
  no_timers,
}
use socket_test.TimerList.Refine.{Represents, perform-Refines}
use socket_test.TimerList.Order.{erase, has}

-- The length of a schedule grows by one at most.
specified-length : (op : Op) (m : Schedule) → length (specified op m).0.ids ≤ suc (length m.ids)
unfolding specified
specified-length (adds id expire user) m =
    omega (arith, length-insert (Array.update m.expire id expire) id m.ids)
specified-length (adjusts id expire) m = omega (
  arith,
  length-insert (Array.update m.expire id expire) id (erase id m.ids),
  length-erase id m.ids,
)
specified-length (deletes id) m = omega (arith, length-erase id m.ids)
specified-length (ticks cur) m = omega (arith, length-later m.expire cur m.ids)

specified_all-length :
    (ops : List Op) (m : Schedule) → length (specified_all ops m).0.ids ≤ length m.ids + length ops
unfolding specified_all
specified_all-length [] m = omega arith
specified_all-length (op ∷ ops) m =
    omega (arith, specified-length op m, specified_all-length ops (specified op m).0)

perform_all-Represents :
    (k : ℕ) (ops : List Op) (s : SortTimerLst) (m : Schedule)
    → Represents s m
    → are_allowed ops m ≡ true
    → length m.ids + length ops < k
    → Ends
        (λ r. Represents r.0 (specified_all ops m).0 × (r.1 ≡ (specified_all ops m).1))
        (perform_all k ops s)
unfolding perform_all specified_all are_allowed
perform_all-Represents k [] s m v allowed fuel = ends (v, refl)
perform_all-Represents k (op ∷ ops) s m v allowed fuel =
    let grows = specified-length op m in
    Ends-bind (perform-Refines k op s m v (ground arith) (omega arith)) λ r a.
      Ends-bind
        (perform_all-Represents k ops r.0 (specified op m).0 a.0 (ground arith) (omega arith))
        λ r' b. ends (b.0, cc (a.1, b.1))

create-Represents :
    (expire user_data : ℕ → ℕ) → Represents (create expire user_data) (no_timers expire user_data)
unfolding create has Array.get
create-Represents expire user_data = record {
  linked = record {
    alive = λ i b. absurd (omega arith);
    distinct = λ i j b c e. absurd (omega arith);
    head = refl;
    tail = λ b. absurd (omega arith);
    next = λ i b. absurd (omega arith);
    first = λ b. absurd (omega arith);
    prev = λ i b. absurd (omega arith);
    null = refl;
  };
  live = λ p. refl;
  expire = refl;
  user_data = refl;
  sorted = λ i j a b. absurd (omega arith);
}

-- From a new `sort_timer_lst`, every sequence of operations that is allowed (a new timer is at an
-- address not in use, the others are in the list, a timer is put off and not moved forward) ends
-- without a fault, with more rounds than operations. It leaves a linked list, in the order in which
-- the timers expire, of exactly the timers that the specification leaves, and no other timer exists;
-- the callbacks are those of the specification, in the same order.
pub perform_all-Refines :
    (k : ℕ) (ops : List Op) (expire user_data : ℕ → ℕ)
    → are_allowed ops (no_timers expire user_data) ≡ true
    → length ops < k
    → Ends
        (λ r.
          Represents r.0 (specified_all ops (no_timers expire user_data)).0
          × (r.1 ≡ (specified_all ops (no_timers expire user_data)).1))
        (perform_all k ops (create expire user_data))
perform_all-Refines k ops expire user_data allowed fuel =
    perform_all-Represents k ops (create expire user_data) (no_timers expire user_data)
      (create-Represents expire user_data) allowed (omega arith)

-- The destructor, after such a sequence of operations, ends without a fault and deletes every timer.
pub perform_all-destroy :
    (k : ℕ) (ops : List Op) (expire user_data : ℕ → ℕ)
    → are_allowed ops (no_timers expire user_data) ≡ true
    → length ops < k
    → Ends
        (λ s. (p : ℕ) → s.live p ≡ false)
        (do r ← perform_all k ops (create expire user_data); destroy k r.0)
perform_all-destroy k ops expire user_data allowed fuel =
    Ends-bind (perform_all-Refines k ops expire user_data allowed fuel) λ r a.
      let bound = specified_all-length ops (no_timers expire user_data) in
      Ends-mono (destroy-frees k a.0.linked (omega arith)) λ s d p. ground (arith, d p, a.0.live p)
