-- ===== src/TimeWheel/Delay.antt =====
-- When the timers of time_wheel_timer.h are called.
use socket_test.Common.{ℕ, zero, suc, ◌+◌, ◌/◌, ◌%◌, ◌<◌, ◌≡◌, arith, ◌==◌, if◌then◌else◌}
use socket_test.Common.Int.{pos}
use socket_test.TimeWheel.{TimeWheel, slot_count, ticks_of, add_timer, tick, after}
use socket_test.TimeWheel.Tick.{count, IsWaiting, IsAbsent, tick-IsAbsent, tick-due, tick-wait}

-- A new timer waits for as many ticks as its timeout says, but for one at least.
pub add_timer-IsWaiting :
    (w : TimeWheel) (id timeout : ℕ)
    → w.cur_slot < slot_count
    → IsAbsent w id
    → IsWaiting (add_timer w id (pos timeout)).0 id (ticks_of timeout)
unfolding add_timer
add_timer-IsWaiting w id timeout h a = record {
  slot = (w.cur_slot + ticks_of timeout % slot_count) % slot_count;
  rotation = ticks_of timeout / slot_count;
  on_wheel = omega arith;
  at_slot = h;
  here = ground (arith, a ((w.cur_slot + ticks_of timeout % slot_count) % slot_count));
  alone = λ s o. ground (arith, a s);
  due = omega arith;
}

calls-IsAbsent :
    (n : ℕ) (w : TimeWheel) (id : ℕ) → IsAbsent w id → count id (tick (after n w)).1 ≡ 0
unfolding after
calls-IsAbsent zero w id a = (tick-IsAbsent w id a).1
calls-IsAbsent (suc n) w id a = calls-IsAbsent n (tick w).0 id (tick-IsAbsent w id a).0

calls-IsWaiting :
    (n d : ℕ) (w : TimeWheel) (id : ℕ)
    → IsWaiting w id d
    → count id (tick (after n w)).1 ≡ (if n == d then 1 else 0)
unfolding after
calls-IsWaiting zero zero w id v = (tick-due w id v).1
calls-IsWaiting zero (suc d) w id v = ground (arith, (tick-wait w id d v).1)
calls-IsWaiting (suc n) zero w id v =
    ground (arith, calls-IsAbsent n (tick w).0 id (tick-due w id v).0)
calls-IsWaiting (suc n) (suc d) w id v =
    ground (arith, calls-IsWaiting n d (tick w).0 id (tick-wait w id d v).0)

-- On a wheel where no timer has the new timer's address, a timer added with a timeout of `k`
-- seconds is called by exactly one tick, once: the one that `max 1 k` other ticks come before.
pub add_timer-called_once :
    (w : TimeWheel) (id timeout n : ℕ)
    → w.cur_slot < slot_count
    → IsAbsent w id
    → count id (tick (after n (add_timer w id (pos timeout)).0)).1
      ≡ (if n == (if timeout == 0 then 1 else timeout) then 1 else 0)
add_timer-called_once w id timeout n h a = ground (
  arith,
  calls-IsWaiting n (ticks_of timeout) (add_timer w id (pos timeout)).0 id
      (add_timer-IsWaiting w id timeout h a),
)
