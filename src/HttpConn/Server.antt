-- ===== src/HttpConn/Server.antt =====
-- The event loop of thread_pool/main.cc, over the connections `users`, and the call of `process` in a
-- worker of the pool, each handler as one step. `appended` records the calls of `append`.
pub mod Unsent
pub mod Count
pub mod Runs
pub mod Worker
use socket_test.Common.{ℕ, ◌+◌, Bool, true, false, List, [], ◌∷◌, ◌++◌, ltb, if◌then◌else◌, ◌==◌}
use socket_test.Common.Array
use socket_test.Common.Int.{ℤ, pos, ltb_ℤ}
use socket_test.Common.Run.{Run, ok, out_of_bounds, ◌>>=◌, access}
use socket_test.HttpConn.{HttpConn, Shared, closes, call, init, close_conn}
use socket_test.HttpConn.Recv.{Recv, read}
use socket_test.HttpConn.Request.{FileSystem}
use socket_test.HttpConn.Response.{Sent, write}
use socket_test.HttpConn.Process.{process}

unfoldable pub max_fd : ℕ
max_fd = 65536

pub record Server : Type 0 where
  pub shared : Shared
  pub users : ℕ → HttpConn
  pub appended : List ℕ

-- What `epoll_wait` reports: a connection, with the descriptor and the address that `accept` returns;
-- a hang-up or an error; data to receive, with what `recv` returns; room to send, with what `writev`
-- returns; another event.
pub data Event : Type 0 where
  connection : ℕ → ℕ → Event
  accept_failure other_event : Event
  hangup : ℕ → Event
  readable : ℕ → List Recv → Event
  writable : ℕ → List Sent → Event

-- `users[fd]`
unfoldable pub user : Server → ℕ → Run HttpConn
user s fd = access (ltb fd max_fd) out_of_bounds (s.users fd)

-- a method's changes to `users[fd]` and to the static members
unfoldable pub put : Server → ℕ → Shared × HttpConn → Server
put s fd (w, c) = record s { shared = w; users = Array.update s.users fd c }

-- `users[fd].close_conn()` where the method before it has returned false
close_unless : Bool → Shared × HttpConn → Shared × HttpConn
close_unless true x = x
close_unless false x = close_conn x

after_read : Server → ℕ → HttpConn × Bool → Server
after_read s fd (c, true) =
    let s' = put s fd (s.shared, c) in record s' { appended = s'.appended ++ fd ∷ [] }
after_read s fd (c, false) = put s fd (close_conn (s.shared, c))

-- the body of the loop over the events
unfoldable pub on_event : Event → Server → Run Server
unfolding user put close_unless after_read
on_event (connection fd addr) s =
    if ltb_ℤ (pos max_fd) s.shared.user_count
    then ok (record s { shared = call (closes fd) s.shared })
    else (do c ← user s fd; ok (put s fd (init fd addr (s.shared, c))))
on_event accept_failure s = ok s
on_event other_event s = ok s
on_event (hangup fd) s = do c ← user s fd; ok (put s fd (close_conn (s.shared, c)))
on_event (readable fd rs) s = do c ← user s fd; r ← read rs c; ok (after_read s fd r)
on_event (writable fd rs) s = do
  c ← user s fd
  (x, good) ← write rs (s.shared, c)
  ok (put s fd (close_unless good x))

unfoldable pub on_events : List Event → Server → Run Server
unfolding on_event
on_events [] s = ok s
on_events (e ∷ es) s = do s' ← on_event e s; on_events es s'

-- A worker's call of `process` on `users[fd]`, with `k` rounds for `process_read`.
unfoldable pub work : ℕ → FileSystem → ℕ → Server → Run Server
unfolding user put
work k fs fd s = do c ← user s fd; x ← process k fs (s.shared, c); ok (put s fd x)
