-- ===== src/Tests/Wheel.antt =====
-- Runs of the model of timer/time_wheel_timer.h.
use socket_test.Common.{◌≡◌, refl, [], arith, ◌==◌, if◌then◌else◌}
use socket_test.Common.Int.{pos}
use socket_test.TimeWheel.{TimeWheel, add_timer, tick, after}
use socket_test.TimeWheel.Tick.{count, IsAbsent}
use socket_test.TimeWheel.Delay.{add_timer-called_once}

-- a wheel that has turned 50 times
abbrev turned : TimeWheel
turned = record { slots = λ i. []; cur_slot = 50 }

turned-IsAbsent : IsAbsent turned 9
turned-IsAbsent s = refl

add_timer-called_once_example :
    count 9 (tick (after 70 (add_timer turned 9 (pos 70)).0)).1
    ≡ (if 70 == (if 70 == 0 then 1 else 70) then 1 else 0)
add_timer-called_once_example = add_timer-called_once turned 9 70 70 (omega arith) turned-IsAbsent
