-- ===== src/InactiveTimer.antt =====
-- timer/inactive_timer.cc: the server that closes idle connections, over the `time_heap` of
-- min_heap_timer.h. Descriptors and addresses of timers are numbers; the clock, the signals and what
-- `accept` and `recv` return are arguments.
pub mod Postpone
pub mod Alarm
pub mod Serve
use socket_test.Common.{
  ℕ, zero, suc, ◌+◌, ◌-◌, ◌*◌, ◌^◌, ◌%◌, Bool, true, false, not, ltb, Option, none, some, List, [],
  ◌∷◌, ◌++◌, ◌==◌, if◌then◌else◌,
}
use socket_test.Common.Array
use socket_test.Common.Run.{Run, ok, fault, bad_pointer, out_of_bounds, ◌>>=◌, access}
use socket_test.TimeHeap.{
  Timers, TimeHeap, create, add_timer, del_timer, percolate_down, tick, empty, top, expire_of,
}

abbrev pub default_time : ℕ
default_time = 5

-- `client_timer` is `users[fd].timer`; `closed` records the calls of `cb_func`.
pub record Server : Type 0 where
  pub h_timer : TimeHeap
  pub client_timer : ℕ → ℕ
  pub timeout : Bool
  pub stop_server : Bool
  pub closed : List ℕ
  pub alarms : List ℕ

-- `cb_func(&users[fd])`
unfoldable pub cb_func : ℕ → Server → Server
cb_func fd s = record s { closed = s.closed ++ fd ∷ [] }

-- `new heap_timer(3 * DEFAULT_TIME)` at the address `p`, with its fields set
unfoldable pub new_timer : ℕ → ℕ → ℕ → Timers → Timers
new_timer p fd cur t = record {
  live = Array.update t.live p true;
  expire = Array.update t.expire p (cur + 3 * default_time);
  cb_func = Array.update t.cb_func p true;
  user_data = Array.update t.user_data p fd;
}

-- the number of entries of `users`
unfoldable pub fd_limit : ℕ
fd_limit = 65535

-- a connection on the listening socket, at time `cur`, with the new timer at `p`, where `accept`
-- returns a descriptor, or -1 (none): this is not looked at, and `users[-1]` is no entry
unfoldable pub on_connection : Option ℕ → ℕ → ℕ → Server → Run Server
unfolding new_timer
on_connection none p cur s = fault out_of_bounds
on_connection (some fd) p cur s = do
  clients ← access (ltb fd fd_limit) out_of_bounds (Array.update s.client_timer fd p)
  let made = record s.h_timer { timers = new_timer p fd cur s.h_timer.timers }
  h ← add_timer made p
  ok (record s { h_timer = h; client_timer = clients })

-- `timer->expire = cur + 3 * DEFAULT_TIME; h_timer.percolate_down(timer->index)`
unfoldable pub postpone : ℕ → ℕ → TimeHeap → Run TimeHeap
postpone p cur h = do
  let t = record h.timers { expire = Array.update h.timers.expire p (cur + 3 * default_time) }
  i ← access (h.timers.live p) bad_pointer (h.slots.index p)
  s ← percolate_down t h.cur_size h.slots i
  ok (record h { timers = t; slots = s })

-- what `recv` returns from a client: bytes, EAGAIN, another error, or that the client has closed
pub data Received : Type 0 where
  some_bytes again error closed_by_peer : Received

drop_client : ℕ → Server → Run Server
unfolding cb_func
drop_client fd s = do
  let p = s.client_timer fd
  h ← (if p == 0 then ok s.h_timer else del_timer s.h_timer p)
  ok (record (cb_func fd s) { h_timer = h })

-- what is done once `recv` has returned
unfoldable pub on_received : ℕ → Received → ℕ → Server → Run Server
unfolding drop_client
on_received fd some_bytes cur s =
    if s.client_timer fd == 0
    then ok s
    else (do h ← postpone (s.client_timer fd) cur s.h_timer; ok (record s { h_timer = h }))
on_received fd again cur s = ok s
on_received fd error cur s = drop_client fd s
on_received fd closed_by_peer cur s = drop_client fd s

-- data of a client, which is received into `users[fd].buf`
unfoldable pub on_client : ℕ → Received → ℕ → Server → Run Server
unfolding on_received
on_client fd r cur s = if ltb fd fd_limit then on_received fd r cur s else fault out_of_bounds

pub data Signal : Type 0 where
  sigalrm sigterm other_signal : Signal

unfoldable pub on_signals : List Signal → Server → Server
on_signals [] s = s
on_signals (sigalrm ∷ gs) s = on_signals gs (record s { timeout = true })
on_signals (sigterm ∷ gs) s = on_signals gs (record s { stop_server = true })
on_signals (other_signal ∷ gs) s = on_signals gs s

call_back : List ℕ → Server → Server
unfolding cb_func
call_back [] s = s
call_back (fd ∷ fds) s = call_back fds (cb_func fd s)

-- `timer_handler`, with the clock at `cur` in `tick` and at `now` behind it. The difference of the
-- two times is passed to `alarm`, an unsigned int; `now` is less than 2 ^ 32 later than the expiry.
unfoldable pub timer_handler : ℕ → ℕ → Server → Run Server
unfolding call_back
timer_handler cur now s = do
  (h, fds) ← tick cur s.h_timer
  p ← top h
  timeslot ←
      (if empty h then ok 1 else (do e ← expire_of h.timers p; ok ((e + 2 ^ 32 - now) % 2 ^ 32)))
  let s' = call_back fds (record s { h_timer = h })
  ok (record s' { alarms = s'.alarms ++ timeslot ∷ [] })

-- An event: a connection, with the descriptor that `accept` gives, if it does, the address of the new timer and the
-- time; signals, none where `recv` fails; data of a client; another.
pub data Event : Type 0 where
  connection : Option ℕ → ℕ → ℕ → Event
  signals : List Signal → Event
  client : ℕ → Received → ℕ → Event
  other_event : Event

unfoldable pub on_event : Event → Server → Run Server
on_event (connection fd p cur) s = on_connection fd p cur s
on_event (signals gs) s = ok (on_signals gs s)
on_event (client fd r cur) s = on_client fd r cur s
on_event other_event s = ok s

unfoldable pub on_events : List Event → Server → Run Server
on_events [] s = ok s
on_events (e ∷ es) s = do s' ← on_event e s; on_events es s'

-- What one `epoll_wait` returns (no events where it is interrupted), and the clock in `timer_handler`.
pub data Waited : Type 0 where
  failed : Waited
  ready : List Event → ℕ → ℕ → Waited

-- the end of a round
unfoldable pub on_timeout : ℕ → ℕ → Server → Run Server
on_timeout cur now s =
    if s.timeout
    then (do s' ← timer_handler cur now s; ok (record s' { timeout = false }))
    else ok s

-- The loop of `main`, over what the calls of `epoll_wait` return.
unfoldable pub serve : List Waited → Server → Run Server
serve [] s = ok s
serve (failed ∷ rs) s = ok s
serve (ready es cur now ∷ rs) s =
    if s.stop_server
    then ok s
    else (do s1 ← on_events es s; s2 ← on_timeout cur now s1; serve rs s2)
