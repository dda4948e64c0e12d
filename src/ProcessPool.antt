-- ===== src/ProcessPool.antt =====
-- process_pool/process_pool.h: `processpool`. A child is named by its place in `m_sub_process`; its
-- `m_pid` is `none` where the source has -1. What the kernel reports (connections, signals, the
-- children that `waitpid` reaps) is an argument, and what is asked of it is recorded in `calls`.
pub mod Dispatch
pub mod Signals
pub mod Child
pub mod Serve
pub mod Start
pub mod Cgi
use socket_test.Common.{
  ℕ, zero, suc, ◌+◌, ◌-◌, ◌%◌, ◌≡◌, Bool, true, false, not, List, [], ◌∷◌, ◌++◌, Option, none, some,
  ◌==◌, leb, ◌&&◌, if◌then◌else◌, length,
}

abbrev pub max_process_number : ℕ
max_process_number = 16

pub data Call : Type 0 where
  notify kill closes_pipe : ℕ → Call

pub record Parent : Type 0 where
  pub pids : List (Option ℕ)
  pub sub_process_counter : ℕ
  pub stop : Bool
  pub calls : List Call

abbrev pub is_live : Option ℕ → Bool
is_live none = false
is_live (some p) = true

-- `m_sub_process[i].m_pid != -1`
unfoldable pub live_at : List (Option ℕ) → ℕ → Bool
live_at [] i = false
live_at (p ∷ ps) zero = is_live p
live_at (p ∷ ps) (suc i) = live_at ps i

-- The loop that looks for a child from `i` on, begun at `start`; `none` where the fuel runs out.
unfoldable pub find_child : ℕ → List (Option ℕ) → ℕ → ℕ → Option ℕ
find_child zero ps start i = none
find_child (suc k) ps start i =
    let next = (i + 1) % length ps in
    let rest = find_child k ps start next in
    if live_at ps i then some i else if next == start then some next else rest

-- A connection on the listening socket. Where no child is left the round over the events ends.
unfoldable pub dispatch : Parent → Option (Parent × Bool)
dispatch s =
    elim (find_child (suc (length s.pids)) s.pids s.sub_process_counter s.sub_process_counter) [
      | none ↦ none
      | some i ↦ some (
          if not (live_at s.pids i) then (record s { stop = true }, true) else (
            record s {
              sub_process_counter = (i + 1) % length s.pids;
              calls = s.calls ++ notify i ∷ [];
            },
            false,
          ))
    ]

same_pid : Option ℕ → ℕ → Bool
same_pid none pid = false
same_pid (some p) pid = p == pid

-- the loop over the children for one pid that `waitpid` returned, from child `i` on
unfoldable pub join_loop : List (Option ℕ) → ℕ → ℕ → List (Option ℕ) × List Call
unfolding same_pid
join_loop [] pid i = ([], [])
join_loop (p ∷ ps) pid i =
    let (rest, calls) = join_loop ps pid (i + 1) in
    if same_pid p pid then (none ∷ rest, closes_pipe i ∷ calls) else (p ∷ rest, calls)

-- the loop over what `waitpid` returns
unfoldable pub reap : List ℕ → Parent → Parent
reap [] s = s
reap (pid ∷ more) s =
    let (pids, calls) = join_loop s.pids pid 0 in
    reap more (record s { pids = pids; calls = s.calls ++ calls })

unfoldable pub none_live : List (Option ℕ) → Bool
none_live [] = true
none_live (p ∷ ps) = not (is_live p) && none_live ps

-- `case SIGCHLD`
unfoldable pub on_sigchld : List ℕ → Parent → Parent
on_sigchld reaped s = let s' = reap reaped s in record s' { stop = none_live s'.pids }

-- the loop that kills the children, from child `i` on
unfoldable pub kill_loop : List (Option ℕ) → List Call
kill_loop [] = []
kill_loop (none ∷ ps) = kill_loop ps
kill_loop (some p ∷ ps) = kill p ∷ kill_loop ps

-- `case SIGTERM` and `case SIGINT`; also what a failure of `epoll_wait` leads to
unfoldable pub on_sigterm : Parent → Parent
unfolding kill_loop
on_sigterm s = record s { calls = s.calls ++ kill_loop s.pids }

-- a signal that is read from the pipe, with what `waitpid` reaps at it
pub data Signal : Type 0 where
  sigchld : List ℕ → Signal
  sigterm sigint other_signal : Signal

unfoldable pub on_signal : Signal → Parent → Parent
unfolding on_sigchld on_sigterm
on_signal (sigchld reaped) s = on_sigchld reaped s
on_signal sigterm s = on_sigterm s
on_signal sigint s = on_sigterm s
on_signal other_signal s = s

unfoldable pub on_signals : List Signal → Parent → Parent
unfolding on_signal
on_signals [] s = s
on_signals (g ∷ gs) s = on_signals gs (on_signal g s)

-- An event of `epoll_wait`: a connection; signals, of which there are none where `recv` fails;
-- another.
pub data Event : Type 0 where
  connection : Event
  signals : List Signal → Event
  other_event : Event

-- the loop over the events of one `epoll_wait`
unfoldable pub on_events : List Event → Parent → Option Parent
unfolding dispatch on_signals
on_events [] s = some s
on_events (connection ∷ es) s = elim (dispatch s) [
  | none ↦ none
  | some (s', broke) ↦ let rest = on_events es s' in if broke then some s' else rest
]
on_events (signals gs ∷ es) s = on_events es (on_signals gs s)
on_events (other_event ∷ es) s = on_events es s

-- What one `epoll_wait` returns.
pub data Waited : Type 0 where
  failed interrupted : Waited
  ready : List Event → Waited

-- One round of `run_parent`, by `m_stop`, with what the further rounds do.
parent_round : Bool → Waited → (Parent → Option Parent) → Parent → Option Parent
unfolding on_events on_sigterm
parent_round true r rest s = some s
parent_round false failed rest s = some (on_sigterm s)
parent_round false interrupted rest s = rest s
parent_round false (ready es) rest s = elim (on_events es s) [ none ↦ none | some s' ↦ rest s' ]

-- The loop of `run_parent`, over what the calls of `epoll_wait` return: the parent when the loop has
-- ended, or when these are used up.
unfoldable pub run_parent : List Waited → Parent → Option Parent
unfolding parent_round
run_parent [] s = some s
run_parent (r ∷ rs) s = parent_round s.stop r (run_parent rs) s
