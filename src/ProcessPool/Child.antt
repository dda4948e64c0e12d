-- ===== src/ProcessPool/Child.antt =====
-- The child's side of process_pool/process_pool.h: `run_child`, for any class of clients. An event of
-- epoll comes with what the calls made at it return.
use socket_test.Common.{ℕ, Bool, true, false, List, [], ◌∷◌, Option, none, some, ltb, if◌then◌else◌}
use socket_test.Common.Array
use socket_test.Common.Run.{Run, ok, out_of_bounds, ◌>>=◌, access}
use socket_test.ProcessPool.{Signal, sigchld, sigterm, sigint, other_signal}

abbrev pub user_per_process : ℕ
user_per_process = 65536

-- The class `T` of the clients: `init` of an epoll instance, a descriptor and an address, and
-- `process`, on what the kernel answers to its calls.
pub record Connection (U I : Type 0) : Type 0 where
  pub init : ℕ → ℕ → ℕ → U → U
  pub process : I → U → Run U

-- `m_stop`, the array `users`, and the descriptors that were given to `addfd`
pub record Child (U : Type 0) : Type 0 where
  pub epollfd : ℕ
  pub stop : Bool
  pub users : ℕ → U
  pub added : List ℕ

-- An event: the parent's notice, with whether `recv` gave it, and the descriptor and the address that
-- `accept` gives; signals; data for a client; another.
pub data ChildEvent (I : Type 0) : Type 0 where
  told : Bool → Option (ℕ × ℕ) → ChildEvent I
  signalled : List Signal → ChildEvent I
  readable : ℕ → I → ChildEvent I
  ignored : ChildEvent I

-- what one `epoll_wait` returns
pub data ChildWaited (I : Type 0) : Type 0 where
  failed interrupted : ChildWaited I
  ready : List (ChildEvent I) → ChildWaited I

-- The children of a child are reaped and that is all.
unfoldable pub stops : Signal → Bool
stops (sigchld reaped) = false
stops sigterm = true
stops sigint = true
stops other_signal = false

unfoldable pub child_signals : {U : Type 0} → List Signal → Child U → Child U
child_signals [] s = s
child_signals (g ∷ gs) s = child_signals gs (if stops g then record s { stop = true } else s)

unfoldable pub accept_client : {U I : Type 0} → Connection U I → ℕ → ℕ → Child U → Run (Child U)
accept_client conn fd addr s = access (ltb fd user_per_process) out_of_bounds (record s {
  users = Array.update s.users fd (conn.init s.epollfd fd addr (s.users fd));
  added = fd ∷ s.added;
})

-- the body of the loop over the events
unfoldable pub child_event :
    {U I : Type 0} → Connection U I → ChildEvent I → Child U → Run (Child U)
child_event conn (told false client) s = ok s
child_event conn (told true none) s = ok s
child_event conn (told true (some (fd, addr))) s = accept_client conn fd addr s
child_event conn (signalled gs) s = ok (child_signals gs s)
child_event conn (readable fd i) s = do
  u ← access (ltb fd user_per_process) out_of_bounds (s.users fd)
  u' ← conn.process i u
  ok (record s { users = Array.update s.users fd u' })
child_event conn ignored s = ok s

unfoldable pub child_events :
    {U I : Type 0} → Connection U I → List (ChildEvent I) → Child U → Run (Child U)
child_events conn [] s = ok s
child_events conn (e ∷ es) s = do s' ← child_event conn e s; child_events conn es s'

-- The loop of `run_child`, over what the calls of `epoll_wait` return, and whether it has ended then.
unfoldable pub run_child :
    {U I : Type 0} → Connection U I → List (ChildWaited I) → Child U → Run (Child U × Bool)
run_child conn [] s = ok (s, s.stop)
run_child conn (failed ∷ rs) s = ok (s, true)
run_child conn (interrupted ∷ rs) s =
    let rest = run_child conn rs s in if s.stop then ok (s, true) else rest
run_child conn (ready es ∷ rs) s =
    if s.stop then ok (s, true) else (do s' ← child_events conn es s; run_child conn rs s')
