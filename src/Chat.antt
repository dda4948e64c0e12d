-- ===== src/Chat.antt =====
-- Chat/chat_server.cc: the loop over `fds`, the table that is given to `poll`. A descriptor -1 is
-- `none`; `write_buf`, which points to the buffer of a client, is that client's descriptor.
pub mod Steps
pub mod Bounds
use socket_test.Common.{
  ℕ, zero, suc, ◌+◌, ◌-◌, Bool, true, false, not, List, [], ◌∷◌, ◌++◌, Option, none, some, ◌==◌,
  ltb, ◌&&◌, if◌then◌else◌, length, set, take, replicate,
}
use socket_test.Common.Array
use socket_test.Common.Int.{ℤ, pos, negsuc, ◌+ℤ◌, ◌-ℤ◌, ltb_ℤ, pos_part}
use socket_test.Common.Run.{Run, ok, fault, out_of_fuel, out_of_bounds, ◌>>=◌, access}
use socket_test.Common.CString.{c_str}

abbrev pub user_limit : ℕ
user_limit = 5

abbrev pub buffer_size : ℕ
buffer_size = 64

abbrev pub fd_limit : ℕ
fd_limit = 65535

-- The bits of `events` and `revents` that the source names, and whether the others are set.
pub record Mask : Type 0 where
  pub pollin : Bool
  pub pollout : Bool
  pub pollrdhup : Bool
  pub pollerr : Bool
  pub others : Bool

pub record PollFd : Type 0 where
  pub fd : Option ℕ
  pub events : Mask
  pub revents : Mask

pub record ClientData : Type 0 where
  pub address : ℕ
  pub write_buf : Option ℕ
  pub buf : List ℕ

-- the variables of `main`, the descriptors that were closed and what was sent to clients
pub record Chat : Type 0 where
  pub listenfd : ℕ
  pub address : ℕ
  pub fds : List PollFd
  pub users : ℕ → ClientData
  pub user_counter : ℤ
  pub closed : List ℕ
  pub sent : List (ℕ × List ℕ)

-- `fds[i]`
unfoldable pub at : List PollFd → ℕ → Run PollFd
at [] i = fault out_of_bounds
at (p ∷ ps) zero = ok p
at (p ∷ ps) (suc i) = at ps i

unfoldable pub entry : List PollFd → ℤ → Run PollFd
unfolding at
entry ps (pos i) = at ps i
entry ps (negsuc i) = fault out_of_bounds

-- the place of a descriptor in `users`
unfoldable pub user_index : Option ℕ → Run ℕ
user_index none = fault out_of_bounds
user_index (some fd) = access (ltb fd fd_limit) out_of_bounds fd

unfoldable pub same_fd : Option ℕ → ℕ → Bool
same_fd none fd = false
same_fd (some p) fd = p == fd

-- `fds[user_counter]` is written for the new client.
unfoldable pub seat : ℤ → ℕ → Chat → Run Chat
seat (negsuc i) fd s = fault out_of_bounds
seat (pos i) fd s = access (ltb i (length s.fds)) out_of_bounds (record s {
  fds = set s.fds i (record {
    fd = some fd;
    events = record {
      pollin = true;
      pollout = false;
      pollrdhup = true;
      pollerr = true;
      others = false;
    };
    revents = record {
      pollin = false;
      pollout = false;
      pollrdhup = false;
      pollerr = false;
      others = false;
    };
  });
  user_counter = pos i;
})

-- A connection: `accept` fails or gives a descriptor. The address stored is the server's own.
unfoldable pub on_accept : Option ℕ → Chat → Run (Chat × Bool)
on_accept none s = ok (s, false)
on_accept (some fd) s =
    if not (ltb_ℤ s.user_counter (pos user_limit))
    then ok (record s { closed = s.closed ++ fd ∷ [] }, false)
    else (do
      u ← user_index (some fd)
      s' ←
          seat (s.user_counter +ℤ pos 1) fd (record s {
            users = Array.update s.users u (record (s.users u) { address = s.address });
          })
      ok (s', false))

-- The client of entry `i` is closed and the last entry takes its place. True means that the loop
-- comes back to `i`: `--i`.
unfoldable pub leave : ℕ → Chat → Run (Chat × Bool)
leave i s = do
  p ← at s.fds i
  q ← entry s.fds s.user_counter
  u ← user_index p.fd
  w ← user_index q.fd
  ok (
    record s {
      users = Array.update s.users u (s.users w);
      closed = s.closed ++ u ∷ [];
      fds = set s.fds i q;
      user_counter = s.user_counter -ℤ pos 1;
    },
    true,
  )

-- The loop that passes a message of `fd` on, from entry `j` with `n` to go: `events |= ~POLLIN` sets
-- every bit but POLLIN.
unfoldable pub broadcast : ℕ → ℕ → ℕ → Chat → Run Chat
broadcast zero j fd s = ok s
broadcast (suc n) j fd s = do
  p ← at s.fds j
  if same_fd p.fd fd then broadcast n (j + 1) fd s else (do
    u ← user_index p.fd
    broadcast n (j + 1) fd (record s {
      fds = set s.fds j (record p {
        events = record p.events {
          pollout = true;
          pollrdhup = true;
          pollerr = true;
          others = true;
        };
      });
      users = Array.update s.users u (record (s.users u) { write_buf = some fd });
    }))

-- what `recv` returns
pub data Received : Type 0 where
  bytes : List ℕ → Received
  peer_closed would_block recv_error : Received

-- the buffer of a client, zeroed and with what was received
unfoldable pub fill : ℕ → List ℕ → Chat → Chat
fill u text s = record s {
  users = Array.update s.users u (record (s.users u) {
    buf = take buffer_size (take (buffer_size - 1) text ++ replicate buffer_size 0);
  });
}

unfoldable pub on_data : ℕ → Received → Chat → Run (Chat × Bool)
on_data i r s = do
  p ← at s.fds i
  u ← user_index p.fd
  elim r [
    | bytes text ↦ do
      s' ← broadcast (pos_part s.user_counter - 1) 1 u (fill u text s)
      ok (s', false)
    | peer_closed ↦ ok (fill u [] s, false)
    | would_block ↦ ok (fill u [] s, false)
    | recv_error ↦ leave i (fill u [] s)
  ]

unfoldable pub on_writable : ℕ → Chat → Run (Chat × Bool)
on_writable i s = do
  p ← at s.fds i
  u ← user_index p.fd
  elim (s.users u).write_buf [
    | none ↦ ok (s, false)
    | some w ↦ ok (
      record s {
        sent = s.sent ++ (u, c_str (s.users w).buf) ∷ [];
        users = Array.update s.users u (record (s.users u) { write_buf = none });
        fds = set s.fds i (record p {
          events = record p.events {
            pollin = true;
            pollrdhup = true;
            pollerr = true;
            others = true;
          };
        });
      },
      false,
    )
  ]

-- what the calls made at an entry return
pub record Answer : Type 0 where
  pub accepted : Option ℕ
  pub received : Received

-- the body of the loop over the entries
unfoldable pub on_entry : Answer → ℕ → Chat → Run (Chat × Bool)
on_entry a i s = do
  p ← at s.fds i
  if same_fd p.fd s.listenfd && p.revents.pollin
      then on_accept a.accepted s
      else if p.revents.pollerr
      then ok (s, false)
      else if p.revents.pollrdhup
      then leave i s
      else if p.revents.pollin
      then on_data i a.received s
      else if p.revents.pollout
      then on_writable i s
      else ok (s, false)

-- The loop over the entries, from `i` on. `k` bounds its rounds, and `a` gives the answers by round.
unfoldable pub entries_loop : ℕ → (ℕ → Answer) → ℕ → Chat → Run Chat
entries_loop zero a i s = out_of_fuel
entries_loop (suc k) a i s =
    if not (ltb i (user_limit + 1))
    then ok s
    else (do (s', back) ← on_entry (a k) i s; entries_loop k a (if back then i else i + 1) s')

abbrev none_set : Mask
none_set = record {
  pollin = false;
  pollout = false;
  pollrdhup = false;
  pollerr = false;
  others = false;
}

-- the table before the loop, with what is in the arrays that the source does not set
unfoldable pub create : ℕ → ℕ → Mask → (ℕ → ClientData) → Chat
create listenfd address junk users = record {
  listenfd = listenfd;
  address = address;
  fds =
      record {
        fd = some listenfd;
        events = record none_set { pollin = true; pollerr = true };
        revents = none_set;
      }
      ∷ replicate (user_limit - 1) (record { fd = none; events = none_set; revents = junk });
  users = users;
  user_counter = pos 0;
  closed = [];
  sent = [];
}

-- the entries with what `poll` reports
unfoldable pub report : List Mask → List PollFd → List PollFd
report ms [] = []
report [] (p ∷ ps) = p ∷ ps
report (m ∷ ms) (p ∷ ps) = record p { revents = m } ∷ report ms ps

-- The loop of `main`, over what the calls of `poll` return: `none` where it fails.
unfoldable pub serve : ℕ → (ℕ → Answer) → List (Option (List Mask)) → Chat → Run Chat
serve k a [] s = ok s
serve k a (none ∷ rs) s = ok s
serve k a (some ms ∷ rs) s = do
  s' ← entries_loop k a 0 (record s { fds = report ms s.fds })
  serve k a rs s'
