-- ===== src/SharedChat/Child.antt =====
-- The child's side of multi process/shm_test.cc: `run_child`, for the client `idx`.
use socket_test.Common.{
  ℕ, ◌-◌, ◌*◌, Bool, true, List, [], ◌∷◌, ◌++◌, ltb, if◌then◌else◌, replicate, take, drop,
}
use socket_test.Common.Run.{Run, ok, out_of_bounds, ◌>>=◌, access}
use socket_test.HttpConn.Recv.{Recv, bytes, again, error, write_at}
use socket_test.SharedChat.{user_limit}

abbrev pub buffer_size : ℕ
buffer_size = 1024

-- what the child sends: its number to the parent, a block of the memory to its client
pub data Sent : Type 0 where
  number : ℕ → Sent
  block : List ℕ → Sent

-- `stop_child`, the shared memory of `USER_LIMIT` blocks, and what was sent
pub record Child : Type 0 where
  pub stop : Bool
  pub share_mem : List ℕ
  pub sent : List Sent

-- a write of `text` at the block `i` of the shared memory
unfoldable pub write_block : ℕ → List ℕ → Child → Run Child
write_block i text s =
    access (ltb i user_limit) out_of_bounds
      (record s { share_mem = write_at s.share_mem (i * buffer_size) text })

-- An event: data from the client, with what `recv` returns; a notice through the pipe, with the
-- number of a client; the signal SIGTERM, which interrupts the wait; another.
pub data ChildEvent : Type 0 where
  from_client : Recv → ChildEvent
  closed_pipe : ChildEvent
  no_notice : ChildEvent
  notice : ℕ → ChildEvent
  ignored : ChildEvent

-- the part behind `recv`
unfoldable pub after_recv : ℕ → Recv → Child → Run Child
after_recv idx again s = ok s
after_recv idx error s = ok (record s { stop = true })
after_recv idx (bytes []) s = ok (record s { stop = true })
after_recv idx (bytes (x ∷ xs)) s = do
  s' ← write_block idx (take (buffer_size - 1) (x ∷ xs)) s
  ok (record s' { sent = s'.sent ++ number idx ∷ [] })

unfoldable pub child_event : ℕ → ChildEvent → Child → Run Child
child_event idx (from_client r) s = do
  s' ← write_block idx (replicate buffer_size 0) s
  after_recv idx r s'
child_event idx closed_pipe s = ok (record s { stop = true })
child_event idx no_notice s = ok s
child_event idx (notice client) s = access (ltb client user_limit) out_of_bounds (record s {
  sent = s.sent ++ block (take buffer_size (drop (client * buffer_size) s.share_mem)) ∷ [];
})
child_event idx ignored s = ok s

unfoldable pub child_events : ℕ → List ChildEvent → Child → Run Child
child_events idx [] s = ok s
child_events idx (e ∷ es) s = do s' ← child_event idx e s; child_events idx es s'

-- What one `epoll_wait` returns; SIGTERM, whose handler sets `stop_child`, interrupts it.
pub data ChildWaited : Type 0 where
  failed interrupted terminated : ChildWaited
  ready : List ChildEvent → ChildWaited

unfoldable pub run_child : ℕ → List ChildWaited → Child → Run Child
run_child idx [] s = ok s
run_child idx (failed ∷ rs) s = ok s
run_child idx (interrupted ∷ rs) s = let rest = run_child idx rs s in if s.stop then ok s else rest
run_child idx (terminated ∷ rs) s = if s.stop then ok s else ok (record s { stop = true })
run_child idx (ready es ∷ rs) s =
    if s.stop then ok s else (do s' ← child_events idx es s; run_child idx rs s')
