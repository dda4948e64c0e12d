-- ===== src/Tests/Events.antt =====
-- The handlers of multiplexing/epoll.cc on concrete inputs.
use socket_test.Common.{◌≡◌, refl, true, false, List, [], ◌∷◌, map, some}
use socket_test.Common.Run.{ok, out_of_fuel}
use socket_test.HttpConn.Recv.{bytes, again, error}
use socket_test.Epoll.{
  nonblock, epoll_add, epoll_rearm, closes, Log, addfd, reset_oneshot, worker, connection, readable,
  lt, serve,
}
use socket_test.Epoll.Drained.{
  no_more, hung_up, Notice, arrives, speaks, as_event, outcome, outcomes, closed, serve-drains,
}

abbrev silent : Log
silent = record { calls = []; received = [] }

-- A client comes, sends six bytes, and closes.
abbrev rounds : List (List Notice)
rounds =
    (arrives (some 8) ∷ [])
    ∷ (speaks 8 false ((b'h', b'e' ∷ b'l' ∷ b'l' ∷ []) ∷ (b'o', b'!' ∷ []) ∷ []) no_more ∷ [])
    ∷ (speaks 8 false [] hung_up ∷ [])
    ∷ []

serve-drains_example :
    serve (map (λ ns. some (map as_event ns)) rounds) silent ≡ ok (outcomes rounds silent)
serve-drains_example = serve-drains rounds silent

rounds-calls :
    (outcomes rounds silent).calls
    ≡ nonblock (some 8) ∷ epoll_add (some 8) true ∷ closes 8 ∷ closes 8 ∷ []
unfolding outcomes outcome closed addfd
rounds-calls = refl

-- `lt` leaves the events behind that of a client which has closed.
lt-leaves :
    lt (readable 8 (bytes [] ∷ []) ∷ connection (some 9) ∷ []) silent
    ≡ ok (record { calls = closes 8 ∷ []; received = [] })
unfolding lt
lt-leaves = refl

-- `worker` tries again after an error.
worker-tries : worker (error ∷ error ∷ []) 8 silent ≡ out_of_fuel
unfolding worker
worker-tries = refl

worker-rearms :
    worker (bytes (b'x' ∷ []) ∷ again ∷ []) 8 silent
    ≡ ok (record { calls = epoll_rearm 8 ∷ []; received = (8, b'x' ∷ []) ∷ [] })
unfolding worker reset_oneshot
worker-rearms = refl
