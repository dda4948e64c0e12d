-- ===== src/Epoll.antt =====
-- multiplexing/epoll.cc: the handlers of level-triggered (`lt`) and of edge-triggered (`et`) events, the
-- thread `worker`, and the loop of `main`. What `recv` and `accept` return comes with the event; -1 is
-- `none`.
pub mod Drained
use socket_test.Common.{ℕ, Bool, true, false, List, [], ◌∷◌, ◌++◌, Option, none, some}
use socket_test.Common.Run.{Run, ok, out_of_fuel, ◌>>=◌}
use socket_test.HttpConn.Recv.{Recv, bytes, again, error}

pub data Call : Type 0 where
  nonblock : Option ℕ → Call
  epoll_add : Option ℕ → Bool → Call
  epoll_rearm : ℕ → Call
  closes : ℕ → Call

-- what has been asked of the kernel, and what was received, in pieces
pub record Log : Type 0 where
  pub calls : List Call
  pub received : List (ℕ × List ℕ)

abbrev pub call : Call → Log → Log
call c w = record w { calls = w.calls ++ c ∷ [] }

abbrev pub got : ℕ → List ℕ → Log → Log
got fd text w = record w { received = w.received ++ (fd, text) ∷ [] }

unfoldable pub addfd : Option ℕ → Bool → Log → Log
addfd fd enable_et w = call (epoll_add fd enable_et) (call (nonblock fd) w)

-- `reset_oneshot`
unfoldable pub reset_oneshot : ℕ → Log → Log
reset_oneshot fd w = call (epoll_rearm fd) w

-- The loop of `worker`, over what the calls of `recv` return.
unfoldable pub worker : List Recv → ℕ → Log → Run Log
worker [] fd w = out_of_fuel
worker (bytes [] ∷ rs) fd w = ok (call (closes fd) w)
worker (again ∷ rs) fd w = ok (reset_oneshot fd w)
worker (error ∷ rs) fd w = worker rs fd w
worker (bytes (x ∷ xs) ∷ rs) fd w = worker rs fd (got fd (x ∷ xs) w)

-- An event, of the listening socket or of a client that is readable or has urgent data.
pub data Event : Type 0 where
  connection : Option ℕ → Event
  readable : ℕ → List Recv → Event
  urgent : ℕ → List Recv → Event
  something_else : Event

-- The loop of `lt` over the events. Each calls `recv` once; the loop is left where a client that is
-- readable gives no data.
unfoldable pub lt : List Event → Log → Run Log
lt [] w = ok w
lt (connection fd ∷ es) w = lt es (addfd fd false w)
lt (readable fd [] ∷ es) w = out_of_fuel
lt (readable fd (bytes (x ∷ xs) ∷ rs) ∷ es) w = lt es (got fd (x ∷ xs) w)
lt (readable fd (bytes [] ∷ rs) ∷ es) w = ok (call (closes fd) w)
lt (readable fd (again ∷ rs) ∷ es) w = ok (call (closes fd) w)
lt (readable fd (error ∷ rs) ∷ es) w = ok (call (closes fd) w)
lt (urgent fd [] ∷ es) w = out_of_fuel
lt (urgent fd (bytes (x ∷ xs) ∷ rs) ∷ es) w = lt es (got fd (x ∷ xs) w)
lt (urgent fd (bytes [] ∷ rs) ∷ es) w = lt es (call (closes fd) w)
lt (urgent fd (again ∷ rs) ∷ es) w = lt es (call (closes fd) w)
lt (urgent fd (error ∷ rs) ∷ es) w = lt es (call (closes fd) w)
lt (something_else ∷ es) w = lt es w

-- The inner loops of `et`, which do the same for both kinds of data. The peer's close does not end them.
unfoldable pub et_loop : List Recv → ℕ → Log → Run Log
et_loop [] fd w = out_of_fuel
et_loop (again ∷ rs) fd w = ok w
et_loop (error ∷ rs) fd w = ok (call (closes fd) w)
et_loop (bytes [] ∷ rs) fd w = et_loop rs fd (call (closes fd) w)
et_loop (bytes (x ∷ xs) ∷ rs) fd w = et_loop rs fd (got fd (x ∷ xs) w)

-- the loop of `et` over the events
unfoldable pub et : List Event → Log → Run Log
et [] w = ok w
et (connection fd ∷ es) w = et es (addfd fd true w)
et (readable fd rs ∷ es) w = do w' ← et_loop rs fd w; et es w'
et (urgent fd rs ∷ es) w = do w' ← et_loop rs fd w; et es w'
et (something_else ∷ es) w = et es w

-- The loop of `main`, over what the calls of `epoll_wait` return: `none` where it fails.
unfoldable pub serve : List (Option (List Event)) → Log → Run Log
serve [] w = ok w
serve (none ∷ rs) w = ok w
serve (some es ∷ rs) w = do w' ← et es w; serve rs w'
