-- ===== src/TimeWheel.antt =====
-- timer/time_wheel_timer.h: `time_wheel`, 60 slots of one second each. The doubly linked list of a
-- slot is the list of its timers from the head on; `id` is the address of a timer.
pub mod Tick
pub mod Delay
use socket_test.Common.{
  ℕ, zero, suc, ◌+◌, ◌-◌, ◌/◌, ◌%◌, Bool, List, [], ◌∷◌, Option, none, some, ◌==◌, ltb,
  if◌then◌else◌,
}
use socket_test.Common.Array
use socket_test.Common.Int.{ℤ, pos, negsuc}
use socket_test.Common.Run.{Run, ok, fault, bad_pointer, ◌>>=◌}

-- the number of slots, and the interval between two of them
abbrev pub slot_count : ℕ
slot_count = 60

abbrev pub slot_interval : ℕ
slot_interval = 1

pub record TwTimer : Type 0 where
  pub id : ℕ
  pub rotation : ℕ
  pub time_slot : ℕ

pub record TimeWheel : Type 0 where
  pub slots : ℕ → List TwTimer
  pub cur_slot : ℕ

-- `time_wheel()`
unfoldable pub create : TimeWheel
create = record { slots = λ i. []; cur_slot = 0 }

abbrev pub ticks_of : ℕ → ℕ
ticks_of timeout = if ltb timeout slot_interval then 1 else timeout / slot_interval

-- `new tw_timer(rotation, ts)` at a given address, for a number of ticks
unfoldable pub new_timer : TimeWheel → ℕ → ℕ → TwTimer
new_timer w id ticks = record {
  id = id;
  rotation = ticks / slot_count;
  time_slot = (w.cur_slot + ticks % slot_count) % slot_count;
}

-- A negative timeout is refused: nothing is added and NULL is returned.
unfoldable pub add_timer : TimeWheel → ℕ → ℤ → TimeWheel × Option TwTimer
unfolding new_timer
add_timer w id (negsuc n) = (w, none)
add_timer w id (pos timeout) =
    let t = new_timer w id (ticks_of timeout) in
    let rest = w.slots t.time_slot in
    (record w { slots = Array.update w.slots t.time_slot (t ∷ rest) }, some t)

-- The loop of `tick` over the current slot: the timers that stay, and the addresses of those whose
-- callback was called and that were deleted.
unfoldable pub tick_loop : List TwTimer → List TwTimer × List ℕ
tick_loop [] = ([], [])
tick_loop (t ∷ ts) =
    let (kept, fired) = tick_loop ts in
    if ltb 0 t.rotation
    then (record t { rotation = t.rotation - 1 } ∷ kept, fired)
    else (kept, t.id ∷ fired)

unfoldable pub tick : TimeWheel → TimeWheel × List ℕ
unfolding tick_loop
tick w =
    let (kept, fired) = tick_loop (w.slots w.cur_slot) in
    (
      record {
        slots = Array.update w.slots w.cur_slot kept;
        cur_slot = (w.cur_slot + 1) % slot_count;
      },
      fired,
    )

-- the wheel after some ticks
unfoldable pub after : ℕ → TimeWheel → TimeWheel
after zero w = w
after (suc n) w = after n (tick w).0
