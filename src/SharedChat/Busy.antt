-- ===== src/SharedChat/Busy.antt =====
-- How the handlers of multi process/shm_test.cc keep the server busy.
use socket_test.Common.{
  ℕ, zero, suc, ◌+◌, ◌≤◌, ◌<◌, ◌≡◌, refl, sym, ap, ◌∙◌, Bool, true, false, not, List, [], ◌∷◌,
  Option, none, some, arith, ◌==◌, ltb, ◌&&◌, length, Bool-cases, Option-cases, inl, inr,
}
use socket_test.Common.Array
use socket_test.Common.Run.{ok, out_of_fuel, Ends, ends, Ends-bind, Ends-mono, if-Ends}
use socket_test.SharedChat.{
  user_limit, process_limit, Server, sends, kills, call, user_at, set_process, Arrival, register,
  enter, on_connection, wait_loop, remove_user, Signal, sigchld, sigterm, sigint, other_signal,
  kill_loop, on_terminate, on_signal, on_signals, notify_loop, Event, connection, signals, notice,
  ignored, on_event, on_events, Waited, failed, interrupted, ready,
}

-- What is relied on: `socketpair` succeeds, `fork` gives the parent pids from 1 on that the array has
-- room for, and at a SIGCHLD fewer children than `k` have ended and there are others.
unfoldable pub possible_signals : ℕ → List Signal → Bool
possible_signals k [] = true
possible_signals k (sigchld ended others ∷ gs) =
    ltb (length ended) k && others && possible_signals k gs
possible_signals k (sigterm ∷ gs) = possible_signals k gs
possible_signals k (sigint ∷ gs) = possible_signals k gs
possible_signals k (other_signal ∷ gs) = possible_signals k gs

abbrev pub is_pid : Option ℕ → Bool
is_pid none = true
is_pid (some pid) = not (pid == 0) && ltb pid (process_limit + 1)

abbrev pub is_made : Option ℕ → Bool
is_made none = false
is_made (some pipefd) = true

unfoldable pub possible : ℕ → Event → Bool
possible k (connection a) = is_made a.pipe && is_pid a.forked
possible k (signals gs) = possible_signals k gs
possible k (notice sockfd child) = true
possible k ignored = true

unfoldable pub all_possible : ℕ → List Event → Bool
all_possible k [] = true
all_possible k (e ∷ es) = possible k e && all_possible k es

unfoldable pub rounds_possible : ℕ → List Waited → Bool
rounds_possible k [] = true
rounds_possible k (failed ∷ rs) = rounds_possible k rs
rounds_possible k (interrupted ∷ rs) = rounds_possible k rs
rounds_possible k (ready es ∷ rs) = all_possible k es && rounds_possible k rs

-- The server is to run on, with a client counted and as many as the array holds at most, and no
-- client has the pid 0.
pub record IsBusy (s : Server) : Type 0 where
  pub running : s.stop_server ≡ false
  pub some_user : 0 < s.user_count
  pub room : s.user_count ≤ user_limit + 1
  pub no_zero : s.sub_process 0 ≡ none

user_at-IsBusy : (i : ℕ) (s : Server) → i < user_limit + 1 → Ends (λ u. u ≡ s.users i) (user_at i s)
unfolding user_at
user_at-IsBusy i s inside =
    let fits : ltb i (user_limit + 1) ≡ true = ground arith in rw fits (ends refl)

-- the fields that matter here are those of `s`
record IsLike (s s' : Server) : Type 0 where
  pub stop : s'.stop_server ≡ s.stop_server
  pub count : s'.user_count ≡ s.user_count
  pub process : s'.sub_process ≡ s.sub_process

like-IsBusy : {s s' : Server} → IsBusy s → IsLike s s' → IsBusy s'
like-IsBusy v l = record {
  running = l.stop ∙ v.running;
  some_user = omega (arith, l.count, v.some_user);
  room = omega (arith, l.count, v.room);
  no_zero = ap (λ p. p 0) l.process ∙ v.no_zero;
}

kill_loop-IsBusy :
    (n i : ℕ) (s0 s : Server)
    → i + n ≤ user_limit + 1
    → IsLike s0 s
    → Ends (IsLike s0) (kill_loop n i s)
unfolding kill_loop
kill_loop-IsBusy zero i s0 s inside l = ends l
kill_loop-IsBusy (suc n) i s0 s inside l = Ends-bind (user_at-IsBusy i s (omega arith)) λ u e.
    kill_loop-IsBusy n (i + 1) s0 (call (kills u.pid) s) (omega arith)
      (record { stop = l.stop; count = l.count; process = l.process })

notify_loop-IsBusy :
    (n j sockfd child : ℕ) (s0 s : Server)
    → j + n ≤ user_limit + 1
    → IsLike s0 s
    → Ends (IsLike s0) (notify_loop n j sockfd child s)
unfolding notify_loop
notify_loop-IsBusy zero j sockfd child s0 s inside l = ends l
notify_loop-IsBusy (suc n) j sockfd child s0 s inside l =
    Ends-bind (user_at-IsBusy j s (omega arith)) λ u e. elim (Bool-cases (u.pipefd == sockfd)) [
      | inl own ↦ rw own (notify_loop-IsBusy n (j + 1) sockfd child s0 s (omega arith) l)
      | inr other ↦ rw other (
          notify_loop-IsBusy n (j + 1) sockfd child s0 (call (sends u.pipefd child) s) (omega arith)
            (record { stop = l.stop; count = l.count; process = l.process }))
    ]

-- The loop over `waitpid` ends with 0.
wait_loop-zero : (k : ℕ) (ended : List ℕ) → length ended < k → wait_loop k ended true ≡ ok 0
unfolding wait_loop
wait_loop-zero zero ended fuel = absurd (omega arith)
wait_loop-zero (suc k) (pid ∷ ended) fuel = wait_loop-zero k ended (omega arith)
wait_loop-zero (suc k) [] fuel = refl

-- the loop runs for ever where no child is left
pub wait_loop-stuck : (k : ℕ) (ended : List ℕ) → wait_loop k ended false ≡ out_of_fuel
unfolding wait_loop
wait_loop-stuck zero ended = refl
wait_loop-stuck (suc k) [] = wait_loop-stuck k []
wait_loop-stuck (suc k) (pid ∷ ended) = wait_loop-stuck k ended

-- the client that has ended is not found
remove_user-zero :
    (s : Server)
    → s.sub_process 0 ≡ none
    → remove_user 0 s ≡ ok (record s { sub_process = Array.update s.sub_process 0 none }, false)
unfolding remove_user set_process
remove_user-zero s e = rw e refl

on_terminate-IsBusy : (s : Server) → IsBusy s → Ends IsBusy (on_terminate s)
unfolding on_terminate
on_terminate-IsBusy s v =
    let busy : (s.user_count == 0) ≡ false = ground (arith, v.some_user) in
    rw busy (
      Ends-bind
        (kill_loop-IsBusy s.user_count 0 s s (omega (arith, v.room))
          (record { stop = refl; count = refl; process = refl }))
        λ s' l.
          ends (like-IsBusy v (record { stop = l.stop; count = l.count; process = l.process })))

on_sigchld-IsBusy :
    (k : ℕ) (ended : List ℕ) (s : Server)
    → length ended < k
    → IsBusy s
    → Ends IsBusy (on_signal k (sigchld ended true) s)
unfolding on_signal
on_sigchld-IsBusy k ended s fuel v =
    rw (wait_loop-zero k ended fuel, remove_user-zero s v.no_zero)
      (ends
        (record { running = v.running; some_user = v.some_user; room = v.room; no_zero = refl }))

on_signals-IsBusy :
    (k : ℕ) (gs : List Signal) (s : Server)
    → possible_signals k gs ≡ true
    → IsBusy s
    → Ends IsBusy (on_signals k gs s)
unfolding on_signals possible_signals on_signal
on_signals-IsBusy k [] s p v = ends v
on_signals-IsBusy k (sigchld ended true ∷ gs) s p v =
    Ends-bind (on_sigchld-IsBusy k ended s (ground (arith, p)) v)
      λ s' w. on_signals-IsBusy k gs s' (ground (arith, p)) w
on_signals-IsBusy k (sigchld ended false ∷ gs) s p v = absurd (ground (arith, p))
on_signals-IsBusy k (sigterm ∷ gs) s p v =
    Ends-bind (on_terminate-IsBusy s v) λ s' w. on_signals-IsBusy k gs s' p w
on_signals-IsBusy k (sigint ∷ gs) s p v =
    Ends-bind (on_terminate-IsBusy s v) λ s' w. on_signals-IsBusy k gs s' p w
on_signals-IsBusy k (other_signal ∷ gs) s p v = on_signals-IsBusy k gs s p v

register-IsBusy :
    (connfd pipefd pid : ℕ) (s : Server)
    → is_pid (some pid) ≡ true
    → s.user_count ≤ user_limit
    → IsBusy s
    → Ends IsBusy (register connfd pipefd pid s)
unfolding register set_process
register-IsBusy connfd pipefd pid s good inside v =
    let real : (pid == 0) ≡ false = ground (arith, good) in
    let fits : ltb pid (process_limit + 1) ≡ true = ground (arith, good) in
    Ends-bind (user_at-IsBusy s.user_count s (omega arith)) λ u e. rw fits (
      ends (record {
        running = v.running;
        some_user = omega (arith, v.some_user);
        room = omega arith;
        no_zero = rw real v.no_zero;
      }))

-- the pipe was made, and the client is entered and counted, or not where `fork` fails
enter-IsBusy :
    (a : Arrival) (c : ℕ × ℕ) (s : Server)
    → is_made a.pipe ≡ true
    → is_pid a.forked ≡ true
    → s.user_count ≤ user_limit
    → IsBusy s
    → Ends IsBusy (enter a c.0 c.1 s)
unfolding enter
enter-IsBusy a c s made good inside v =
    Ends-bind (user_at-IsBusy s.user_count s (omega arith)) λ u e. elim (Option-cases a.pipe) [
      | inl no_pipe ↦ let clash : false ≡ true = sym (ap is_made no_pipe) ∙ made in cc
      | inr (f, pipe) ↦ elim (Option-cases a.forked) [
        | inl no_child ↦
            rw (pipe, no_child)
              (ends (like-IsBusy v (record { stop = refl; count = refl; process = refl })))
        | inr (pid, forked) ↦
            rw (pipe, forked)
              (register-IsBusy c.0 f pid _ (sym (ap is_pid forked) ∙ good) inside
                (like-IsBusy v (record { stop = refl; count = refl; process = refl })))
      ]
    ]

on_connection-IsBusy :
    (a : Arrival) (s : Server)
    → is_made a.pipe ≡ true
    → is_pid a.forked ≡ true
    → IsBusy s
    → Ends IsBusy (on_connection a s)
unfolding on_connection
on_connection-IsBusy a s made good v = elim (Option-cases a.accepted) [
  | inl none_there ↦ rw (none_there, on_connection) (ends v)
  | inr (c, there) ↦
      rw (there, on_connection)
        (if-Ends (ltb user_limit s.user_count)
          (λ full. ends (like-IsBusy v (record { stop = refl; count = refl; process = refl })))
          λ free. enter-IsBusy a c s made good (ground arith) v)
]

on_event-IsBusy :
    (k : ℕ) (e : Event) (s : Server) → possible k e ≡ true → IsBusy s → Ends IsBusy (on_event k e s)
unfolding on_event possible
on_event-IsBusy k (connection a) s p v =
    on_connection-IsBusy a s (ground (arith, p)) (ground (arith, p)) v
on_event-IsBusy k (signals gs) s p v = on_signals-IsBusy k gs s p v
on_event-IsBusy k (notice fd none) s p v = ends v
on_event-IsBusy k (notice fd (some child)) s p v =
    Ends-mono
      (notify_loop-IsBusy s.user_count 0 fd child s s (omega (arith, v.room))
        (record { stop = refl; count = refl; process = refl }))
      λ s' l. like-IsBusy v l
on_event-IsBusy k ignored s p v = ends v

pub on_events-IsBusy :
    (k : ℕ) (es : List Event) (s : Server)
    → all_possible k es ≡ true
    → IsBusy s
    → Ends IsBusy (on_events k es s)
unfolding on_events all_possible
on_events-IsBusy k [] s p v = ends v
on_events-IsBusy k (e ∷ es) s p v =
    Ends-bind (on_event-IsBusy k e s (ground (arith, p)) v)
      λ s' w. on_events-IsBusy k es s' (ground (arith, p)) w
