-- ===== src/SharedChat/Stop.antt =====
-- Whether the server of multi process/shm_test.cc can be stopped.
use socket_test.Common.{ℕ, ◌≡◌, refl, true, false, List, [], ◌∷◌, arith}
use socket_test.Common.Run.{out_of_fuel, Ends, ends, Ends-bind, if-Ends}
use socket_test.SharedChat.{Server, sigchld, on_signal, Waited, failed, interrupted, ready, serve}
use socket_test.SharedChat.Busy.{rounds_possible, IsBusy, wait_loop-stuck, on_events-IsBusy}

serve_loop-IsBusy :
    (k : ℕ) (rs : List Waited) (s : Server)
    → rounds_possible k rs ≡ true
    → IsBusy s
    → Ends IsBusy (serve k rs s)
unfolding serve rounds_possible
serve_loop-IsBusy k [] s p v = ends v
serve_loop-IsBusy k (failed ∷ rs) s p v = ends v
serve_loop-IsBusy k (interrupted ∷ rs) s p v =
    if-Ends s.stop_server (λ h. ends v) λ h. serve_loop-IsBusy k rs s p v
serve_loop-IsBusy k (ready es ∷ rs) s p v =
    if-Ends s.stop_server (λ h. ends v)
      λ h.
        Ends-bind (on_events-IsBusy k es s (ground (arith, p)) v)
          λ s' w. serve_loop-IsBusy k rs s' (ground (arith, p)) w

-- Once a client has been counted: where socketpair succeeds, a pid is from 1 to PROCESS_LIMIT, fewer
-- children than `k` have ended at a SIGCHLD and others are left, the server makes its rounds without a
-- fault, and nothing stops it, neither SIGTERM nor SIGINT nor the end of its children. Wherever it
-- waits, or has left its loop at a failure of epoll, `stop_server` is not set and a client is counted.
-- Where no child is left, a SIGCHLD keeps it in the loop over `waitpid` for ever.
pub serve-IsBusy :
    (k : ℕ) (rs : List Waited) (s : Server)
    → rounds_possible k rs ≡ true
    → IsBusy s
    → Ends IsBusy (serve k rs s)
      × ((n : ℕ) (ended : List ℕ) → on_signal n (sigchld ended false) s ≡ out_of_fuel)
unfolding on_signal
serve-IsBusy k rs s p v =
    (serve_loop-IsBusy k rs s p v, λ n ended. rw (wait_loop-stuck n ended) refl)
