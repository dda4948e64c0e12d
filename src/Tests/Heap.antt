-- ===== src/Tests/Heap.antt =====
-- Runs of the models of timer/min_heap_timer.h and timer/inactive_timer.cc.
use socket_test.Common.{
  ℕ, zero, suc, ◌+◌, ◌-◌, ◌*◌, ◌<◌, ◌≡◌, refl, true, false, List, [], ◌∷◌, arith, ◌==◌, ltb, ◌&&◌,
  if◌then◌else◌,
}
use socket_test.Common.Array
use socket_test.Common.Run.{fault, bad_pointer, Ends, ends}
use socket_test.TimeHeap.{
  Timers, Slots, TimeHeap, tick_loop, remove_root, down_loop, pick_child, place, slot, expire_of,
  free, empty, add_timer, pop_timer, tick, create_from, percolate_down,
}
use socket_test.TimeHeap.Order.{parent, Same, IsFilled, IsHeapOf}
use socket_test.TimeHeap.Down.{IsSunk, percolate_down-IsHeapOf}
use socket_test.TimeHeap.Pop.{IsPopped, pop_timer-IsPopped}
use socket_test.TimeHeap.Tick.{IsTicked, tick-IsTicked, tick-all_due}
use socket_test.TimeHeap.Create.{create_from-IsValid}
use socket_test.InactiveTimer.Alarm.{IsHandled, timer_handler-IsHandled}
use socket_test.InactiveTimer.{timer_handler, Server}
use socket_test.TimeHeap.Valid.{Contains, IsValid, IsAdded, add_timer-IsAdded}

-- timers at the addresses from 1 to 5; the one at `p` expires at 10 * p
abbrev timers : Timers
timers = record {
  live = λ p. ltb 0 p && ltb p 6;
  expire = λ p. p * 10;
  cb_func = λ p. true;
  user_data = λ p. p + 100;
}

abbrev three : TimeHeap
three = record {
  timers = timers;
  slots = record { array = 1 ∷ 2 ∷ 3 ∷ []; index = λ p. p - 1 };
  capacity = 3;
  cur_size = 3;
}

pub get-three : (i : ℕ) → i < 3 → Array.get (1 ∷ 2 ∷ 3 ∷ []) i ≡ i + 1
unfolding Array.get
get-three zero h = refl
get-three (suc zero) h = refl
get-three (suc (suc zero)) h = refl
get-three (suc (suc (suc i))) h = absurd (omega arith)

pub three-IsValid : IsValid three
three-IsValid = record {
  filled = record {
    sized = refl;
    room = omega arith;
    live = λ i h. ground (arith, get-three i h);
    distinct = λ i j h k e. ground (arith, get-three i h, get-three j k);
    indexed = λ i h. ground (arith, get-three i h);
  };
  ordered = λ c p q l. ground (arith, get-three c, get-three (parent c));
  null = refl;
}

not_in_three : (p : ℕ) → 3 < p → ¬ Contains three p
not_in_three p h (i, b, e) = ground (arith, get-three i b)

add_timer-IsAdded_example : Ends (IsAdded three 5) (add_timer three 5)
add_timer-IsAdded_example =
    add_timer-IsAdded three 5 three-IsValid (omega arith) refl (not_in_three 5 (omega arith))

pub held-first : Contains three 1
unfolding Array.get
held-first = (0, omega arith, refl)

pub held-last : Contains three 3
unfolding Array.get
held-last = (2, omega arith, refl)

tick-IsTicked_example : Ends (IsTicked 15 three []) (tick 15 three)
tick-IsTicked_example = tick-IsTicked 15 three 3 three-IsValid held-last (omega arith)

-- two timers are due, and their callbacks are called in turn
tick_sample : Ends (λ (h, fired). (h.cur_size ≡ 1) × (fired ≡ 101 ∷ 102 ∷ [])) (tick 25 three)
unfolding tick tick_loop pop_timer remove_root percolate_down down_loop pick_child place slot
    expire_of free empty Array.get
tick_sample = ends (refl, refl)

tick-all_due_example : tick 40 three ≡ fault bad_pointer
tick-all_due_example =
    tick-all_due 40 three three-IsValid (omega arith) (λ p (i, b, e). ground (arith, get-three i b))

pop_timer-IsPopped_example : Ends (IsPopped three) (pop_timer three)
pop_timer-IsPopped_example = pop_timer-IsPopped three three-IsValid (omega arith)

abbrev single : TimeHeap
single = record {
  timers = timers;
  slots = record { array = 4 ∷ 0 ∷ []; index = λ p. 0 };
  capacity = 2;
  cur_size = 1;
}

single-IsValid : IsValid single
unfolding Array.get
single-IsValid = record {
  filled = record {
    sized = refl;
    room = omega arith;
    live = λ i h. ground arith;
    distinct = λ i j h k e. omega arith;
    indexed = λ i h. ground arith;
  };
  ordered = λ c p q l. absurd (omega arith);
  null = refl;
}

-- the timers in a wrong order
abbrev unordered : List ℕ
unordered = 3 ∷ 1 ∷ 2 ∷ []

get-unordered : (i : ℕ) → i < 3 → Array.get unordered i ≡ (if i == 0 then 3 else i)
unfolding Array.get
get-unordered zero h = refl
get-unordered (suc zero) h = refl
get-unordered (suc (suc zero)) h = refl
get-unordered (suc (suc (suc i))) h = absurd (omega arith)

create_from-IsValid_example :
    Ends
      (λ h.
        IsValid h
        × (h.timers ≡ timers)
        × Same 3 (Array.get unordered) (Array.get h.slots.array)
        × (h.cur_size ≡ 3)
        × (h.capacity ≡ 4))
      (create_from timers (λ p. 0) (7 ∷ 7 ∷ 7 ∷ 7 ∷ []) unordered 3 4)
create_from-IsValid_example =
    create_from-IsValid timers (λ p. 0) (7 ∷ 7 ∷ 7 ∷ 7 ∷ []) unordered 3 4 (omega arith) refl
      (omega arith) refl (λ j h. ground (arith, get-unordered j h))
      (λ j m h k e. ground (arith, get-unordered j h, get-unordered m k))

abbrev too_high : Slots
too_high = record { array = unordered; index = λ p. if p == 3 then 0 else p }

too_high-IsFilled : IsFilled timers 3 3 too_high
too_high-IsFilled = record {
  sized = refl;
  room = omega arith;
  live = λ i h. ground (arith, get-unordered i h);
  distinct = λ i j h k e. ground (arith, get-unordered i h, get-unordered j k);
  indexed = λ i h. ground (arith, get-unordered i h);
}

too_high-IsSunk : IsSunk 0 timers 3 (Array.get unordered) 0
too_high-IsSunk = record {
  edges = λ c p q l o. absurd (omega arith);
  bridged = λ c p q e o l. absurd (omega arith);
}

percolate_down-IsHeapOf_example :
    Ends (IsHeapOf 0 timers 3 3 (Array.get unordered)) (percolate_down timers 3 too_high 0)
percolate_down-IsHeapOf_example =
    percolate_down-IsHeapOf 0 timers 3 3 too_high 0 (omega arith) too_high-IsFilled too_high-IsSunk

abbrev pub server : Server
server = record {
  h_timer = three;
  client_timer = λ fd. 0;
  timeout = false;
  stop_server = false;
  closed = [];
  alarms = [];
}

timer_handler-IsHandled_example : Ends (IsHandled 15 16 server) (timer_handler 15 16 server)
timer_handler-IsHandled_example =
    timer_handler-IsHandled 15 16 3 server three-IsValid held-last (omega arith)
