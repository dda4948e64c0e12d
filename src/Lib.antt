-- ===== src/Lib.antt =====
-- Network programming exercises in C++: timers, an HTTP server on a thread pool, a process pool, a
-- server that closes idle connections. Their models, and the theorems about them.
--
-- The parts, with the code that each file models:
-- - `TimeHeap` (timer/min_heap_timer.h): `time_heap`. A function of the class is the function of the
--   same name; `down_loop` and `up_loop` are the loops of `percolate_down` and `add_timer`,
--   `remove_root` the inner part of `pop_timer`. Timer objects are maps from pointers to fields
--   (`Timers`, and `index` of `Slots`), so a deleted timer is a pointer that is no longer live.
--   Children: `Order` (positions and order), `Down`, `Up`, `Valid`, `Pop`, `Tick`, `Create`.
-- - `TimerList` (timer/list_timer.h): `sort_timer_lst`, with the fields of the timers as maps from
--   pointers. The private `add_timer` is `add_behind`, the destructor `destroy`. Children: `Links` (what
--   a linked list is), `Cut` (taking a timer out), `Order` and `Members` (lists in order of time), one
--   for each operation, `Schedule` (the specification) and `Refine`, `Lifetime` (runs of operations).
-- - `HttpConn` (thread_pool/http_conn.h, http_conn.cc, main.cc): the connection and its static members
--   (`Shared`). `Lines` is `parse_line`, `Recv` is `read`, `Request` the parser up to `do_request`,
--   `Response` the writer up to `write`, `Process` is `process_read` and `process`, `Server` the event
--   loop of main.cc with a worker's call of `process`, `Echo` the writer and the parser together.
--   `init()` is `reset`.
-- - `TimeWheel` (timer/time_wheel_timer.h): `time_wheel`; without `del_timer`; children `Tick` and `Delay`.
-- - `ThreadPool` (thread_pool/thread_pool.h, multi_thread/locker.h): `threadpool`, one step of one
--   thread at a time: `append_step` and `run_step` are `append` and `run`, `wait_fails` a wait in `run`
--   that is interrupted, and `moves` runs a schedule of such steps and of those of the destructor. `Guarantees` states what holds for every schedule.
-- - `ProcessPool` (process_pool/process_pool.h): the parent of `processpool`, `run_parent`; `Child` is
--   `run_child`, over a class of clients given by its `init` and `process`, with `Serve` about it;
--   `Start` the constructor (`construct`) and `run`; `Cgi` (process_pool/process_pool.cc) is `cgi_conn`.
-- - `Chat` (Chat/chat_server.cc): the loop of `main` over the table that is polled, one function for
--   each kind of event; `serve` is the loop over the calls of `poll`.
-- - `SharedChat` (multi process/shm_test.cc): the server `shm_test` on the parent's side of `fork`, with
--   `Busy` and `Stop` about it; `Child` is `run_child`, with `Block` about it.
-- - `Epoll` (multiplexing/epoll.cc): `lt`, `et`, whose inner loops are `et_loop`, `worker` and the loop
--   of `main`, `serve`.
-- - `InactiveTimer` (timer/inactive_timer.cc): the event loop of `main` (`serve`) and its handlers, over
--   `TimeHeap`; children `Postpone`, `Alarm` and `Serve`.
-- - `Common`: booleans, lists, integers, arrays of pointers, the outcome of a call (`Run`), the
--   string functions of the C library (`CString`) and sums over families (`Tally`).
-- - `Tests`: the models run on concrete inputs, and the theorems applied to them.
--
-- How the parts interact: the main thread feeds `HttpConn.Recv.read` from the socket and appends the
-- connection to the `ThreadPool`; a worker calls `HttpConn.Process.process`; the main thread sends
-- with `HttpConn.Response.write`. `InactiveTimer` keeps a `TimeHeap` with a timer for each client.
--
-- Faults, fuel and bounds: a call that reads or writes outside an array, or through a null or
-- deleted pointer, ends in a fault (`Run`), and so does the end of `add_headers`, a `bool` function
-- without a return: no answer gets behind it. An array that is passed on as a string without a NUL
-- is such a fault in `parse_request_line` and `do_request`; in `parse_headers` the string functions
-- take the end of `m_read_buf` for a NUL. The loops of `percolate_down` and `add_timer` are
-- given one round more than there are entries, `tick` one more than there are timers, the search
-- for a child one more than there are children: in each round the hole doubles or halves, a timer
-- is removed, or the turn passes on. The loops of `TimerList` are given more rounds than there
-- are timers, `entries_loop` of `Chat` 14 rounds and one for each client (each takes an entry or
-- a client off what is left), and `wait_loop` of `SharedChat` more than children have ended.
-- `process_read` takes its number of rounds as an argument, since it may not end. `read`,
-- `write`, the parent's loop and `cgi_conn::process` run over the list of what the kernel's calls
-- return, and are out of fuel where the list is used up (but for the parent, which waits then).
-- Where an int is read from the network it wraps as the source's does (`to_int`); counts, times
-- and indices of the timers are numbers, taken not to wrap.
--
-- The kernel and the C library are not modelled beyond what the calls return: those results are
-- arguments, with what is relied on as a hypothesis (`IsReceivable`: no call of `recv` returns more
-- than it is given room for, and some call returns no data; `Settles`: some call of `writev` sends
-- nothing; `IsReported`, `rounds_reported`, `RoundsExpected`: which descriptors `accept` and epoll give;
-- `rounds_possible`: what `fork` and `waitpid` return). Not modelled: `del_timer` of the time
-- wheel, which only rewrites links, the set-up code of each `main`, the class `cond` that no code
-- uses, Chat/chat_client.cc, sem_test.cc and fd_send.cc of multi process, and the examples under
-- client, pipe and test_user and the other ones under multiplexing, which mostly call the kernel. The
-- links of the time wheel's lists are not pointers here but lists.
pub mod Common
pub mod TimeHeap
pub mod HttpConn
pub mod TimerList
pub mod TimeWheel
pub mod ThreadPool
pub mod ProcessPool
pub mod Chat
pub mod SharedChat
pub mod Epoll
pub mod InactiveTimer
pub mod Tests
