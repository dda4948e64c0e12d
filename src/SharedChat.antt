-- ===== src/SharedChat.antt =====
-- multi process/shm_test.cc: a chat server with a process for each client and the messages in shared
-- memory. What the kernel's calls return is an argument. `fork` is followed on the parent's side; the
-- child that it makes runs `run_child` of `Child`.
pub mod Child
pub mod Block
pub mod Busy
pub mod Stop
use socket_test.Common.{
  ℕ, zero, suc, ◌+◌, ◌-◌, Bool, true, false, not, List, [], ◌∷◌, ◌++◌, map, Option, none, some,
  ◌==◌, ltb, leb, ◌&&◌, if◌then◌else◌,
}
use socket_test.Common.Array
use socket_test.Common.Run.{Run, ok, out_of_fuel, out_of_bounds, exception, fault, ◌>>=◌, access}

abbrev pub user_limit : ℕ
user_limit = 5

abbrev pub process_limit : ℕ
process_limit = 65535

-- `client_data`, with the parent's end of the pipe
pub record Client : Type 0 where
  pub address : ℕ
  pub connfd : ℕ
  pub pid : ℕ
  pub pipefd : ℕ

pub data Call : Type 0 where
  closes deletes adds kills : ℕ → Call
  sends : ℕ → ℕ → Call

-- The globals and the variables of `shm_test`; -1 in `sub_process` is `none`.
pub record Server : Type 0 where
  pub users : ℕ → Client
  pub sub_process : ℕ → Option ℕ
  pub user_count : ℕ
  pub stop_server : Bool
  pub terminate : Bool
  pub calls : List Call

abbrev pub call : Call → Server → Server
call c s = record s { calls = s.calls ++ c ∷ [] }

-- the state before the loop, with what is in the arrays that the source does not set
unfoldable pub create : (ℕ → Client) → Option ℕ → Server
create users junk = record {
  users = users;
  sub_process = λ pid. if pid == process_limit then junk else none;
  user_count = 0;
  stop_server = false;
  terminate = false;
  calls = [];
}

-- `users[i]`, of an array with `USER_LIMIT + 1` entries
unfoldable pub user_at : ℕ → Server → Run Client
user_at i s = access (ltb i (user_limit + 1)) out_of_bounds (s.users i)

-- `sub_process[pid] = v`, in an array with `PROCESS_LIMIT + 1` entries
unfoldable pub set_process : ℕ → Option ℕ → Server → Run Server
set_process pid v s =
    access (ltb pid (process_limit + 1)) out_of_bounds
      (record s { sub_process = Array.update s.sub_process pid v })

-- What the calls at a connection return: `accept` a descriptor and an address, `socketpair` the
-- parent's end, `fork` the pid in the parent; `none` where they fail.
pub record Arrival : Type 0 where
  pub accepted : Option (ℕ × ℕ)
  pub pipe : Option ℕ
  pub forked : Option ℕ

-- the part behind `fork` in the parent
unfoldable pub register : ℕ → ℕ → ℕ → Server → Run Server
register connfd pipefd pid s = do
  u ← user_at s.user_count s
  s' ← set_process pid (some s.user_count) (
      call (adds pipefd) (
        call (closes connfd)
          (record s { users = Array.update s.users s.user_count (record u { pid = pid }) })))
  ok (record s' { user_count = s.user_count + 1 })

-- the part behind the test of `user_count`
unfoldable pub enter : Arrival → ℕ → ℕ → Server → Run Server
enter a connfd addr s = do
  u ← user_at s.user_count s
  elim a.pipe [
    | none ↦ fault exception
    | some pipefd ↦
        (let s1 = record s {
          users =
              Array.update s.users s.user_count
                (record u { address = addr; connfd = connfd; pipefd = pipefd });
        } in
          elim a.forked [
            | none ↦ ok (call (closes connfd) s1)
            | some pid ↦ register connfd pipefd pid s1
          ])
  ]

unfoldable pub on_connection : Arrival → Server → Run Server
on_connection a s = elim a.accepted [
  | none ↦ ok s
  | some (connfd, addr) ↦
      if ltb user_limit s.user_count then ok (call (closes connfd) s) else enter a connfd addr s
]

-- `while((pid = waitpid(...)));`, and the last pid. Each child in the list has ended; then `waitpid`
-- returns 0 as long as there are other children, and -1 where there are none.
unfoldable pub wait_loop : ℕ → List ℕ → Bool → Run ℕ
wait_loop zero ended others = out_of_fuel
wait_loop (suc k) (pid ∷ ended) others = wait_loop k ended others
wait_loop (suc k) [] true = ok 0
wait_loop (suc k) [] false = wait_loop k [] false

-- The block behind that loop. False means that it is left by `continue`.
unfoldable pub remove_user : ℕ → Server → Run (Server × Bool)
remove_user pid s = do
  s1 ← set_process pid none s
  elim (s.sub_process pid) [
    | none ↦ ok (s1, false)
    | some del_user ↦ if ltb user_limit del_user then ok (s1, false) else (do
      gone ← user_at del_user s1
      last ← (if s1.user_count == 0 then fault out_of_bounds else user_at (s1.user_count - 1) s1)
      s2 ← set_process last.pid (some del_user) (
          call (closes gone.pipefd) (
            call (deletes gone.pipefd) (record s1 {
              users = Array.update s1.users del_user last;
              user_count = s1.user_count - 1;
            })))
      ok (s2, true))
  ]

-- a signal that is read from the pipe, with what `waitpid` returns at it
pub data Signal : Type 0 where
  sigchld : List ℕ → Bool → Signal
  sigterm sigint other_signal : Signal

-- the loop that kills the children, from `i` on with `n` to go
unfoldable pub kill_loop : ℕ → ℕ → Server → Run Server
kill_loop zero i s = ok s
kill_loop (suc n) i s = do u ← user_at i s; kill_loop n (i + 1) (call (kills u.pid) s)

unfoldable pub on_terminate : Server → Run Server
on_terminate s =
    if s.user_count == 0
    then ok (record s { stop_server = true })
    else (do s' ← kill_loop s.user_count 0 s; ok (record s' { terminate = true }))

unfoldable pub on_signal : ℕ → Signal → Server → Run Server
on_signal k (sigchld ended others) s = do
  pid ← wait_loop k ended others
  (s', through) ← remove_user pid s
  ok (
      if through && s'.terminate && s'.user_count == 0
      then record s' { stop_server = true }
      else s')
on_signal k sigterm s = on_terminate s
on_signal k sigint s = on_terminate s
on_signal k other_signal s = ok s

unfoldable pub on_signals : ℕ → List Signal → Server → Run Server
on_signals k [] s = ok s
on_signals k (g ∷ gs) s = do s' ← on_signal k g s; on_signals k gs s'

-- the loop that passes a child's notice on, from `j` on with `n` to go
unfoldable pub notify_loop : ℕ → ℕ → ℕ → ℕ → Server → Run Server
notify_loop zero j sockfd child s = ok s
notify_loop (suc n) j sockfd child s = do
  u ← user_at j s
  notify_loop n (j + 1) sockfd child
      (if not (u.pipefd == sockfd) then call (sends u.pipefd child) s else s)

-- An event: a connection; signals, none where `recv` fails; a child's notice on a pipe; another.
pub data Event : Type 0 where
  connection : Arrival → Event
  signals : List Signal → Event
  notice : ℕ → Option ℕ → Event
  ignored : Event

unfoldable pub on_event : ℕ → Event → Server → Run Server
on_event k (connection a) s = on_connection a s
on_event k (signals gs) s = on_signals k gs s
on_event k (notice sockfd none) s = ok s
on_event k (notice sockfd (some child)) s = notify_loop s.user_count 0 sockfd child s
on_event k ignored s = ok s

unfoldable pub on_events : ℕ → List Event → Server → Run Server
on_events k [] s = ok s
on_events k (e ∷ es) s = do s' ← on_event k e s; on_events k es s'

-- what one `epoll_wait` returns
pub data Waited : Type 0 where
  failed interrupted : Waited
  ready : List Event → Waited

-- The loop of `shm_test`, over what the calls of `epoll_wait` return. `k` bounds each loop over
-- `waitpid`.
unfoldable pub serve : ℕ → List Waited → Server → Run Server
serve k [] s = ok s
serve k (failed ∷ rs) s = ok s
serve k (interrupted ∷ rs) s = let rest = serve k rs s in if s.stop_server then ok s else rest
serve k (ready es ∷ rs) s =
    if s.stop_server then ok s else (do s' ← on_events k es s; serve k rs s')
