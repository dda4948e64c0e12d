-- ===== src/Tests/Children.antt =====
-- The process pool from its constructor on, with `cgi_conn` as the class of its clients.
use socket_test.Common.{ℕ, ◌≡◌, refl, true, false, List, [], ◌∷◌, none, some, ◌||◌}
use socket_test.Common.Run.{◌>>=◌, Ends}
use socket_test.HttpConn.Recv.{Recv, bytes}
use socket_test.ProcessPool.{sigchld, sigterm}
use socket_test.ProcessPool.Child.{
  Child, told, signalled, readable, ChildWaited, interrupted, ready, stops, run_child,
}
use socket_test.ProcessPool.Serve.{
  contains, any_stops, asks, asks_to_stop, leaves, added_by, is_reported, are_reported,
  added_by_all, rounds_reported, IsServed, run_child-IsServed,
}
use socket_test.ProcessPool.Cgi.{
  CgiConn, cgi_class, is_idle, IsClientOf, init-IsClientOf, process-idle,
}

abbrev fresh : ℕ → Child CgiConn
fresh e = record {
  epollfd = e;
  stop = false;
  users = λ fd. record { epollfd = 0; sockfd = 0; address = 0; buf = []; read_idx = 0 };
  added = [];
}

-- A client comes and closes its end, a child of the child ends, and SIGTERM comes.
abbrev rounds : List (ChildWaited (List Recv))
rounds =
    ready (told true (some (9, 70)) ∷ told true none ∷ [])
    ∷ interrupted
    ∷ ready (readable 9 (bytes [] ∷ []) ∷ signalled (sigchld (40 ∷ []) ∷ sigterm ∷ []) ∷ [])
    ∷ []

fresh-IsServed : IsServed IsClientOf (fresh 5)
unfolding contains
fresh-IsServed fd h = cc

rounds-reported : rounds_reported cgi_class is_idle rounds [] ≡ true
unfolding rounds_reported are_reported is_reported added_by added_by_all contains
rounds-reported = refl

run_child-IsServed_example :
    Ends
      (λ r. IsServed IsClientOf r.0 × (r.1 ≡ (false || leaves rounds)))
      (run_child cgi_class rounds (fresh 5))
run_child-IsServed_example =
    run_child-IsServed cgi_class is_idle IsClientOf init-IsClientOf process-idle rounds (fresh 5)
      fresh-IsServed rounds-reported

rounds-leave : leaves rounds ≡ true
unfolding leaves asks_to_stop asks any_stops stops
rounds-leave = refl
