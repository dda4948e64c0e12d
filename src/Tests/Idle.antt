-- ===== src/Tests/Idle.antt =====
-- The event loop of timer/inactive_timer.cc on a concrete run.
use socket_test.Common.{◌-◌, false, List, [], ◌∷◌}
use socket_test.Common.Array
use socket_test.InactiveTimer.{
  Server, closed_by_peer, sigalrm, cb_func, signals, client, Waited, failed, ready,
}
use socket_test.Tests.Heap.{server}

-- three clients, whose timers are those of the heap
abbrev serving : Server
serving = record server { client_timer = λ fd. fd - 100 }

-- the first client leaves, and then the alarm comes
abbrev rounds : List Waited
rounds = ready (client 101 closed_by_peer 6 ∷ signals (sigalrm ∷ []) ∷ []) 15 16 ∷ failed ∷ []

abbrev left : Server
left = record serving {
  h_timer = record serving.h_timer {
    timers = record serving.h_timer.timers {
      cb_func = Array.update serving.h_timer.timers.cb_func 1 false;
    };
  };
  closed = 101 ∷ [];
}
