-- ===== src/TimeWheel/Tick.antt =====
-- What one `tick` of time_wheel_timer.h does to the timer at one address.
use socket_test.Common.{
  ℕ, zero, suc, ◌+◌, ◌*◌, ◌-◌, ◌%◌, ◌<◌, ◌≡◌, refl, sym, ◌≢◌, ℕ_discrete, List, [], ◌∷◌, arith,
  ◌==◌, if◌then◌else◌,
}
use socket_test.TimeWheel.{TwTimer, TimeWheel, slot_count, tick_loop, tick}

-- the rotations left of the timers with an address
abbrev pub rotations : ℕ → List TwTimer → List ℕ
rotations id [] = []
rotations id (t ∷ ts) = if t.id == id then t.rotation ∷ rotations id ts else rotations id ts

-- how often an address is in a list
abbrev pub count : ℕ → List ℕ → ℕ
count id [] = 0
count id (x ∷ xs) = if x == id then suc (count id xs) else count id xs

-- the rotations left after a turn
abbrev pub lower : List ℕ → List ℕ
lower [] = []
lower (zero ∷ rs) = lower rs
lower (suc r ∷ rs) = r ∷ lower rs

abbrev pub zeros : List ℕ → ℕ
zeros [] = 0
zeros (zero ∷ rs) = suc (zeros rs)
zeros (suc r ∷ rs) = zeros rs

pub rotations-tick_loop :
    (id : ℕ) (ts : List TwTimer)
    → (rotations id (tick_loop ts).0 ≡ lower (rotations id ts))
      × (count id (tick_loop ts).1 ≡ zeros (rotations id ts))
unfolding tick_loop
rotations-tick_loop id [] = (refl, refl)
rotations-tick_loop id (t ∷ ts) = ground (arith, rotations-tick_loop id ts)

-- The wheel has one timer with the address, and `delay` more ticks pass before the one that calls
-- its callback.
pub record IsWaiting (w : TimeWheel) (id delay : ℕ) : Type 0 where
  pub slot : ℕ
  pub rotation : ℕ
  pub on_wheel : slot < slot_count
  pub at_slot : w.cur_slot < slot_count
  pub here : rotations id (w.slots slot) ≡ rotation ∷ []
  pub alone : (s : ℕ) → s ≢ slot → rotations id (w.slots s) ≡ []
  pub due : (slot + slot_count - w.cur_slot) % slot_count + slot_count * rotation ≡ delay

abbrev pub IsAbsent : TimeWheel → ℕ → Type 0
IsAbsent w id = (s : ℕ) → rotations id (w.slots s) ≡ []

pub tick-IsAbsent :
    (w : TimeWheel) (id : ℕ) → IsAbsent w id → IsAbsent (tick w).0 id × (count id (tick w).1 ≡ 0)
unfolding tick
tick-IsAbsent w id a = (
  λ s. ground (arith, a s, rotations-tick_loop id (w.slots w.cur_slot), a w.cur_slot),
  ground (arith, rotations-tick_loop id (w.slots w.cur_slot), a w.cur_slot),
)

-- A timer that is due is called once, and is gone.
pub tick-due :
    (w : TimeWheel) (id : ℕ) → IsWaiting w id 0 → IsAbsent (tick w).0 id × (count id (tick w).1 ≡ 1)
unfolding tick
tick-due w id v =
    let here : v.slot ≡ w.cur_slot = omega arith in
    let last : v.rotation ≡ 0 = omega arith in
    let all = rotations-tick_loop id (w.slots w.cur_slot) in
    let mine : rotations id (w.slots w.cur_slot) ≡ 0 ∷ [] = ground (arith, v.here) in
    (λ s. ground (arith, v.alone s, all), ground (arith, all))

-- A timer that is not due is not called, and comes one tick nearer.
pub tick-wait :
    (w : TimeWheel) (id d : ℕ)
    → IsWaiting w id (suc d)
    → IsWaiting (tick w).0 id d × (count id (tick w).1 ≡ 0)
unfolding tick
tick-wait w id d v = elim (ℕ_discrete v.slot w.cur_slot) [
  | yes here ↦
      let r : v.rotation ≡ suc (v.rotation - 1) = omega (arith, v.due) in
      let all = rotations-tick_loop id (w.slots w.cur_slot) in
      let mine : rotations id (w.slots w.cur_slot) ≡ suc (v.rotation - 1) ∷ [] =
        ground (arith, v.here) in
      (
        record {
          slot = v.slot;
          rotation = v.rotation - 1;
          on_wheel = v.on_wheel;
          at_slot = omega arith;
          here = ground (arith, all);
          alone = λ s o. ground (arith, v.alone s o);
          due = omega (arith, v.due, v.on_wheel, v.at_slot);
        },
        ground (arith, all),
      )
  | no other ↦
      let all = rotations-tick_loop id (w.slots w.cur_slot) in
      let mine : rotations id (w.slots w.cur_slot) ≡ [] = v.alone w.cur_slot (λ e. other (sym e)) in
      (
        record {
          slot = v.slot;
          rotation = v.rotation;
          on_wheel = v.on_wheel;
          at_slot = omega arith;
          here = ground (arith, v.here);
          alone = λ s o. ground (arith, v.alone s o, all);
          due = omega (arith, v.due, v.on_wheel, v.at_slot);
        },
        ground (arith, all),
      )
]
