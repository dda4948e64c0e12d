-- ===== src/HttpConn/Server/Count.antt =====
-- `m_user_count` under the event loop of thread_pool/main.cc and the workers.
use socket_test.Common.Array
use socket_test.Common.{
  ℕ, ◌-◌, ◌<◌, ◌≡◌, refl, sym, subst, ◌∙◌, Bool, if◌then◌else◌, true, false, Option, none, some,
  arith, ltb, length,
}
use socket_test.Common.Int.{pos, ◌+ℤ◌, ◌-ℤ◌, ltb_ℤ}
use socket_test.Common.Tally.{tally, tally-update}
use socket_test.Common.Run.{ok}
use socket_test.HttpConn.{HttpConn, Shared, read_buffer_size, call, removefd, close_conn}
use socket_test.HttpConn.Recv.{Recv}
use socket_test.HttpConn.Recv.Stored.{IsReceivable}
use socket_test.HttpConn.Server.{
  Server, Event, connection, accept_failure, other_event, hangup, readable, writable, max_fd, user,
  put,
}
use socket_test.HttpConn.Server.Unsent.{Settles}

abbrev pub one_if : Bool → ℕ
one_if b = if b then 1 else 0

-- `opened` tells the descriptors of the connections that were accepted and not closed since; no code
-- keeps it, and nothing is assumed of `m_sockfd` of the other entries, which `new` leaves unset.
-- `m_user_count` is the number of these connections, and they have the descriptor of their place.
pub record IsCounted (opened : ℕ → Bool) (s : Server) : Type 0 where
  pub counted : s.shared.user_count ≡ pos (tally one_if max_fd opened)
  pub in_place : (fd : ℕ) → fd < max_fd → opened fd ≡ true → (s.users fd).sockfd ≡ some fd
  pub sized : (fd : ℕ) → fd < max_fd → length (s.users fd).read_buf ≡ read_buffer_size

-- What the kernel promises of an event: `accept` returns a descriptor that is not open, epoll reports
-- on open connections, and the calls of `recv` and `writev` come to an end.
abbrev pub IsReported : Event → (ℕ → Bool) → Server → Type 0
IsReported (connection fd addr) opened s = (fd < max_fd) × (opened fd ≡ false)
IsReported accept_failure opened s = Unit
IsReported other_event opened s = Unit
IsReported (hangup fd) opened s = (fd < max_fd) × (opened fd ≡ true)
IsReported (readable fd rs) opened s =
    (fd < max_fd) × (opened fd ≡ true) × IsReceivable (read_buffer_size - (s.users fd).read_idx) rs
IsReported (writable fd rs) opened s = (fd < max_fd) × (opened fd ≡ true) × Settles rs

-- the entry of `users` that an event is handled on
abbrev pub touched : Event → Server → Option ℕ
touched (connection fd addr) s = if ltb_ℤ (pos max_fd) s.shared.user_count then none else some fd
touched accept_failure s = none
touched other_event s = none
touched (hangup fd) s = some fd
touched (readable fd rs) s = some fd
touched (writable fd rs) s = some fd

abbrev pub has_socket : HttpConn → Bool
has_socket c = elim c.sockfd [ none ↦ false | some fd ↦ true ]

-- the open connections behind a handler that has left the server in a state: the entry it was on is
-- one of them where its `m_sockfd` is not -1
abbrev pub opened_after : Option ℕ → (ℕ → Bool) → Server → ℕ → Bool
opened_after none opened s = opened
opened_after (some fd) opened s = Array.update opened fd (has_socket (s.users fd))

-- One connection changes: the count moves as it opens or closes.
put-IsCounted :
    (o : ℕ → Bool) (s : Server) (fd : ℕ) (w : Shared) (c : HttpConn)
    → IsCounted o s
    → fd < max_fd
    → w.user_count +ℤ pos (one_if (o fd)) ≡ s.shared.user_count +ℤ pos (one_if (has_socket c))
    → (has_socket c ≡ true → c.sockfd ≡ some fd)
    → length c.read_buf ≡ read_buffer_size
    → IsCounted (opened_after (some fd) o (put s fd (w, c))) (put s fd (w, c))
unfolding put ◌+ℤ◌
put-IsCounted o s fd w c v b count place size =
    let now : has_socket ((put s fd (w, c)).users fd) ≡ has_socket c = ground arith in
    subst (λ x. IsCounted (Array.update o fd x) (put s fd (w, c))) (sym now)
      (record {
        counted =
            ground (arith, v.counted, tally-update one_if max_fd fd o (has_socket c) b, count);
        in_place = λ i h on. ground (arith, v.in_place i h, place);
        sized = λ i h. ground (arith, v.sized i h);
      })

minus_one : (n : ℕ) → pos n -ℤ pos 1 +ℤ pos 1 ≡ pos n +ℤ pos 0
unfolding ◌+ℤ◌ ◌-ℤ◌
minus_one n = ground arith

-- an open connection keeps its socket, or is closed
module _ (o : ℕ → Bool) (s : Server) (fd : ℕ) (w : Shared) (c : HttpConn) (v : IsCounted o s)
    (b : fd < max_fd) (on : o fd ≡ true) (count : w.user_count ≡ s.shared.user_count)
    (socket : c.sockfd ≡ (s.users fd).sockfd) (size : length c.read_buf ≡ read_buffer_size) where
  mine : c.sockfd ≡ some fd
  mine = socket ∙ v.in_place fd b on

  pub kept-IsCounted : IsCounted (opened_after (some fd) o (put s fd (w, c))) (put s fd (w, c))
  unfolding mine
  kept-IsCounted =
      let has : has_socket c ≡ true = rw mine refl in
      put-IsCounted o s fd w c v b (rw (count, on, has) refl) (λ h. mine) size

  pub closed-IsCounted :
      IsCounted
        (opened_after (some fd) o (put s fd (close_conn (w, c))))
        (put s fd (close_conn (w, c)))
  unfolding close_conn removefd call mine
  closed-IsCounted =
      rw (mine, close_conn)
        (put-IsCounted o s fd (record (removefd fd w) { user_count = w.user_count -ℤ pos 1 })
          (record c { sockfd = none }) v b
          (rw (on, count, v.counted) (minus_one (tally one_if max_fd o)))
          (λ h. absurd (ground arith)) size)

pub user-ok : (s : Server) (fd : ℕ) → fd < max_fd → user s fd ≡ ok (s.users fd)
unfolding user
user-ok s fd b = let inside : ltb fd max_fd ≡ true = ground arith in rw inside

-- The count is right for the connections that are open behind a handler of an event.
abbrev pub IsRecounted : Event → (ℕ → Bool) → Server → Server → Type 0
IsRecounted e opened s s' = IsCounted (opened_after (touched e s) opened s') s'
