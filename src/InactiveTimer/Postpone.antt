-- ===== src/InactiveTimer/Postpone.antt =====
-- The heap of timer/inactive_timer.cc when a client connects and when it sends data.
use socket_test.Common.{
  ℕ, ◌+◌, ◌≤◌, ◌<◌, ◌≡◌, refl, ◌≢◌, ◌⊎◌, ◌↔◌, true, false, some, ltb, arith, ◌==◌, if◌then◌else◌,
}
use socket_test.Common.Array
use socket_test.Common.Run.{◌>>=◌, Ends, ends, Ends-bind}
use socket_test.TimeHeap.{TimeHeap}
use socket_test.TimeHeap.Order.{parent, IsFilled}
use socket_test.TimeHeap.Down.{IsSunk, percolate_down-IsHeapOf}
use socket_test.TimeHeap.Valid.{Contains, IsValid, add_timer-IsAdded}
use socket_test.InactiveTimer.{Server, fd_limit, new_timer, on_connection, postpone}

-- the heap behind `postpone`
pub record IsPostponed (h : TimeHeap) (p cur : ℕ) (h' : TimeHeap) : Type 0 where
  pub valid : IsValid h'
  pub members : (q : ℕ) → Contains h' q ↔ Contains h q
  pub expires : (q : ℕ) → h'.timers.expire q ≡ (if q == p then cur + 15 else h.timers.expire q)
  pub callbacks : h'.timers.cb_func ≡ h.timers.cb_func
  pub owners : h'.timers.user_data ≡ h.timers.user_data
  pub capacity : h'.capacity ≡ h.capacity

-- Data from a client whose timer is in a well-formed heap, and does not expire later than 15 seconds
-- from now, sets the timer to 15 seconds from now and keeps the heap well formed, with its timers.
pub postpone-IsPostponed :
    (h : TimeHeap) (p cur : ℕ)
    → IsValid h
    → Contains h p
    → h.timers.expire p ≤ cur + 15
    → Ends (IsPostponed h p cur) (postpone p cur h)
unfolding postpone
postpone-IsPostponed h p cur v (i, inside, e) later =
    let alive : h.timers.live p ≡ true = ground (arith, v.filled.live i) in
    let t = record h.timers { expire = Array.update h.timers.expire p (cur + 15) } in
    let here : h.slots.index p ≡ i = ground (arith, v.filled.indexed i) in
    let filled : IsFilled t h.cur_size h.capacity h.slots = record {
      sized = v.filled.sized;
      room = v.filled.room;
      live = v.filled.live;
      distinct = v.filled.distinct;
      indexed = v.filled.indexed;
    } in
    let sunk : IsSunk 0 t h.cur_size (Array.get h.slots.array) i = record {
      edges = λ c a b l o.
          ground (arith, v.ordered c, v.filled.distinct c i, v.filled.distinct (parent c) i);
      bridged = λ c a b q o l.
          ground (
            arith,
            v.ordered c,
            v.ordered i,
            v.filled.distinct c i,
            v.filled.distinct (parent i) i,
          );
    } in
    rw (alive, here, ◌>>=◌)
      (Ends-bind (percolate_down-IsHeapOf 0 t h.cur_size h.capacity h.slots i inside filled sunk)
        λ s' done. ends (record {
          valid = record { filled = done.filled; ordered = done.ordered; null = v.null };
          members = λ q. (λ c. (done.same q).1 c, λ c. (done.same q).0 c);
          expires = λ q. ground arith;
          callbacks = refl;
          owners = refl;
          capacity = refl;
        }))

-- the server behind `on_connection`, by the heap behind `add_timer` of the new timer
pub record IsConnected (s : Server) (fd p cur : ℕ) (s' : Server) : Type 0 where
  pub valid : IsValid s'.h_timer
  pub members : (q : ℕ) → Contains s'.h_timer q ↔ (Contains s.h_timer q ⊎ (q ≡ p))
  pub expires : s'.h_timer.timers.expire p ≡ cur + 15
  pub owner : s'.h_timer.timers.user_data (s'.client_timer fd) ≡ fd
  pub callback : s'.h_timer.timers.cb_func (s'.client_timer fd) ≡ true
  pub timers : s'.h_timer.timers ≡ new_timer p fd cur s.h_timer.timers
  pub clients : s'.client_timer ≡ Array.update s.client_timer fd p
  pub room : 0 < s'.h_timer.capacity

-- A connection whose descriptor has an entry in `users`, and whose timer is allocated at a free address keeps the heap well formed and adds to it
-- that timer, 15 seconds from now and leading to the client; the client leads to the timer.
pub on_connection-IsConnected :
    (s : Server) (fd p cur : ℕ)
    → IsValid s.h_timer
    → 0 < s.h_timer.capacity
    → p ≢ 0
    → s.h_timer.timers.live p ≡ false
    → fd < fd_limit
    → Ends (IsConnected s fd p cur) (on_connection (some fd) p cur s)
unfolding on_connection new_timer
on_connection-IsConnected s fd p cur v room real free b =
    let inside : ltb fd fd_limit ≡ true = ground arith in
    let h = s.h_timer in
    let fresh : (i : ℕ) → i < h.cur_size → Array.get h.slots.array i ≢ p =
      λ i b e. ground (arith, v.filled.live i) in
    let made = record h { timers = new_timer p fd cur h.timers } in
    let valid : IsValid made = record {
      filled = record {
        sized = v.filled.sized;
        room = v.filled.room;
        live = λ i b. ground (arith, v.filled.live i);
        distinct = v.filled.distinct;
        indexed = v.filled.indexed;
      };
      ordered = λ c a b l. ground (arith, v.ordered c, fresh c, fresh (parent c));
      null = ground (arith, v.null);
    } in
    rw inside (
      Ends-bind (add_timer-IsAdded made p valid room (ground arith) λ (i, b, e). fresh i b e)
        λ h' a. ends (record {
          valid = a.valid;
          members = a.members;
          expires = ground (arith, a.kept);
          owner = ground (arith, a.kept);
          callback = ground (arith, a.kept);
          timers = a.kept;
          clients = refl;
          room = ground (arith, a.doubled);
        }))
