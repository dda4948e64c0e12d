-- ===== src/InactiveTimer/Serve.antt =====
-- The event loop of timer/inactive_timer.cc and the timers of its clients.
use socket_test.Common.{ℕ, ◌+◌, ◌≤◌, ◌<◌, ◌≡◌, ◌≢◌, none, some, true, false, List, [], ◌∷◌}
use socket_test.Common.Array
use socket_test.Common.Run.{ok}
use socket_test.TimeHeap.Valid.{Contains, IsValid}
use socket_test.InactiveTimer.{
  Server, fd_limit, Event, connection, signals, client, other_event, on_event, Waited, failed,
  ready, on_timeout,
}

-- a timer of the heap that still makes its callback
abbrev pub IsArmed : Server → ℕ → Type 0
IsArmed s q = Contains s.h_timer q × (s.h_timer.timers.cb_func q ≡ true)

-- The heap is well formed, and the client of every armed timer leads to that timer.
pub record IsServing (s : Server) : Type 0 where
  pub valid : IsValid s.h_timer
  pub room : 0 < s.h_timer.capacity
  pub owner : (q : ℕ) → IsArmed s q → s.client_timer (s.h_timer.timers.user_data q) ≡ q

-- What is relied on at an event: `new` gives an address that is not in use and `accept` succeeds with a
-- descriptor that has an entry in `users` and that no client with a timer has; data comes from a client
-- that has an entry and whose timer is armed, and the clock does not go back.
abbrev pub IsExpected : Event → Server → Type 0
IsExpected (connection none p cur) s = ⊥
IsExpected (connection (some fd) p cur) s =
    (fd < fd_limit)
    × (p ≢ 0)
    × (s.h_timer.timers.live p ≡ false)
    × ((q : ℕ) → IsArmed s q → s.h_timer.timers.user_data q ≢ fd)
IsExpected (signals gs) s = Unit
IsExpected (client fd r cur) s =
    (fd < fd_limit)
    × IsArmed s (s.client_timer fd)
    × (s.h_timer.timers.expire (s.client_timer fd) ≤ cur + 15)
IsExpected other_event s = Unit

-- the events are as expected, each in the state that it meets, and `After` holds behind them
abbrev pub AreExpected : List Event → (Server → Type 0) → Server → Type 0
AreExpected [] After s = After s
AreExpected (e ∷ es) After s =
    IsExpected e s × ((s' : Server) → on_event e s ≡ ok s' → AreExpected es After s')

-- where SIGALRM has come, a timer of the heap is not due
abbrev pub IsTimely : ℕ → Server → Type 0
IsTimely cur s =
    s.timeout ≡ true → (p : ℕ) × Contains s.h_timer p × (cur < s.h_timer.timers.expire p)

abbrev pub RoundsExpected : List Waited → Server → Type 0
RoundsExpected [] s = Unit
RoundsExpected (failed ∷ rs) s = Unit
RoundsExpected (ready es cur now ∷ rs) s =
    AreExpected es
      (λ s1.
        IsTimely cur s1 × ((s2 : Server) → on_timeout cur now s1 ≡ ok s2 → RoundsExpected rs s2))
      s
