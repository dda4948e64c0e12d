-- ===== src/Epoll/Drained.antt =====
-- What an edge-triggered event of multiplexing/epoll.cc leads to.
use mathlib.Core.List.{append_assoc, append-nil}
use socket_test.Common.{
  ℕ, ◌≡◌, refl, ap, ◌∙◌, Bool, true, false, List, [], ◌∷◌, ◌++◌, map, Option, some,
}
use socket_test.Common.Run.{ok}
use socket_test.HttpConn.Recv.{Recv, bytes, again, error}
use socket_test.Epoll.{
  Call, nonblock, epoll_add, closes, Log, got, addfd, Event, connection, readable, urgent, et_loop,
  et, serve,
}

-- How the data that a socket holds ends: there is no more for now; the peer has closed, after which the
-- descriptor is closed and `recv` of it fails; or `recv` fails.
pub data End : Type 0 where
  no_more hung_up fails : End

-- A piece of data is a first byte and more.
abbrev pub piece : ℕ × List ℕ → List ℕ
piece p = p.0 ∷ p.1

unfoldable pub answers : List (ℕ × List ℕ) → End → List Recv
answers (p ∷ ps) end = bytes (piece p) ∷ answers ps end
answers [] no_more = again ∷ []
answers [] hung_up = bytes [] ∷ error ∷ []
answers [] fails = error ∷ []

-- how often the descriptor is closed
unfoldable pub closed : ℕ → End → List Call
closed fd no_more = []
closed fd hung_up = closes fd ∷ closes fd ∷ []
closed fd fails = closes fd ∷ []

-- an event as a client causes it
pub data Notice : Type 0 where
  arrives : Option ℕ → Notice
  speaks : ℕ → Bool → List (ℕ × List ℕ) → End → Notice

unfoldable pub as_event : Notice → Event
as_event (arrives fd) = connection fd
as_event (speaks fd false ps end) = readable fd (answers ps end)
as_event (speaks fd true ps end) = urgent fd (answers ps end)

-- what the events are to lead to
unfoldable pub outcome : List Notice → Log → Log
outcome [] w = w
outcome (arrives fd ∷ ns) w =
    outcome ns
      (record { calls = w.calls ++ nonblock fd ∷ epoll_add fd true ∷ []; received = w.received })
outcome (speaks fd urgently ps end ∷ ns) w = outcome ns (record {
  calls = w.calls ++ closed fd end;
  received = w.received ++ map (λ p. (fd, piece p)) ps;
})

et_loop-drains :
    (fd : ℕ) (ps : List (ℕ × List ℕ)) (end : End) (w : Log)
    → et_loop (answers ps end) fd w
      ≡ ok (record {
        calls = w.calls ++ closed fd end;
        received = w.received ++ map (λ p. (fd, piece p)) ps;
      })
unfolding et_loop answers closed
et_loop-drains fd [] no_more w = cc (append-nil w.calls, append-nil w.received)
et_loop-drains fd [] hung_up w =
    cc (append_assoc w.calls (closes fd ∷ []) (closes fd ∷ []), append-nil w.received)
et_loop-drains fd [] fails w = cc (append-nil w.received)
et_loop-drains fd (p ∷ ps) end w =
    et_loop-drains fd ps end (got fd (piece p) w)
    ∙ ap (λ l. ok (record { calls = w.calls ++ closed fd end; received = l }))
        (append_assoc w.received ((fd, piece p) ∷ []) (map (λ q. (fd, piece q)) ps))

addfd-adds :
    (fd : Option ℕ) (w : Log)
    → addfd fd true w
      ≡ record { calls = w.calls ++ nonblock fd ∷ epoll_add fd true ∷ []; received = w.received }
unfolding addfd
addfd-adds fd w =
    ap (λ l. record { calls = l; received = w.received })
      (append_assoc w.calls (nonblock fd ∷ []) (epoll_add fd true ∷ []))

et-drains : (ns : List Notice) (w : Log) → et (map as_event ns) w ≡ ok (outcome ns w)
unfolding et as_event outcome
et-drains [] w = refl
et-drains (arrives fd ∷ ns) w =
    et-drains ns (addfd fd true w) ∙ ap (λ v. ok (outcome ns v)) (addfd-adds fd w)
et-drains (speaks fd false ps end ∷ ns) w = rw (et_loop-drains fd ps end w) (et-drains ns _)
et-drains (speaks fd true ps end ∷ ns) w = rw (et_loop-drains fd ps end w) (et-drains ns _)

unfoldable pub outcomes : List (List Notice) → Log → Log
outcomes [] w = w
outcomes (ns ∷ rounds) w = outcomes rounds (outcome ns w)

-- The loop of `main`, with `et`, makes the descriptor of every connection non-blocking and adds it to
-- epoll, edge-triggered, and reads all data that its clients'
-- sockets hold, however many calls that takes, in order. A socket that is merely empty then stays open,
-- and one that fails is closed; where the peer has closed, and `recv` of a closed descriptor fails, the
-- descriptor is closed twice.
pub serve-drains :
    (rounds : List (List Notice)) (w : Log)
    → serve (map (λ ns. some (map as_event ns)) rounds) w ≡ ok (outcomes rounds w)
unfolding serve outcomes
serve-drains [] w = refl
serve-drains (ns ∷ rounds) w = rw (et-drains ns w) (serve-drains rounds (outcome ns w))
