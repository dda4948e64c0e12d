-- ===== src/Tests/Lists.antt =====
-- The sorted timer list of list_timer.h on a concrete run.
use socket_test.Common.{ℕ, ◌≡◌, refl, true, false, List, [], ◌∷◌, arith}
use socket_test.Common.Run.{◌>>=◌, Ends}
use socket_test.TimerList.{create, destroy}
use socket_test.TimerList.Schedule.{
  Op, adds, adjusts, deletes, ticks, perform_all, specified_all, are_allowed, no_timers, is_allowed,
  specified,
}
use socket_test.TimerList.Order.{insert, erase, has, due, later}
use socket_test.TimerList.Refine.{Represents}
use socket_test.TimerList.Lifetime.{perform_all-Refines, perform_all-destroy}

-- Three timers, one put off past the others, one deleted; time passes twice.
abbrev day : List Op
day =
    adds 11 30 1
    ∷ adds 12 10 2
    ∷ adds 13 20 3
    ∷ adjusts 12 40
    ∷ ticks 25
    ∷ adds 14 35 4
    ∷ deletes 11
    ∷ ticks 50
    ∷ []

day-allowed : are_allowed day (no_timers (λ p. 0) λ p. 0) ≡ true
unfolding are_allowed is_allowed specified insert erase has due later
day-allowed = refl

day-calls : (specified_all day (no_timers (λ p. 0) λ p. 0)).1 ≡ 3 ∷ 4 ∷ 2 ∷ []
unfolding specified_all specified insert erase due later
day-calls = refl

perform_all-Refines_example :
    Ends
      (λ r.
        Represents r.0 (specified_all day (no_timers (λ p. 0) λ p. 0)).0
        × (r.1 ≡ (specified_all day (no_timers (λ p. 0) λ p. 0)).1))
      (perform_all 9 day (create (λ p. 0) λ p. 0))
perform_all-Refines_example = perform_all-Refines 9 day (λ p. 0) (λ p. 0) day-allowed (omega arith)

perform_all-destroy_example :
    Ends
      (λ s. (p : ℕ) → s.live p ≡ false)
      (do r ← perform_all 9 day (create (λ p. 0) λ p. 0); destroy 9 r.0)
perform_all-destroy_example = perform_all-destroy 9 day (λ p. 0) (λ p. 0) day-allowed (omega arith)
