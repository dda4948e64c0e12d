-- ===== src/InactiveTimer/Alarm.antt =====
-- `timer_handler` of timer/inactive_timer.cc.
use mathlib.Core.List.{append_assoc, append-nil}
use socket_test.Common.{
  ℕ, ◌+◌, ◌-◌, ◌%◌, ◌^◌, ◌<◌, ◌≡◌, refl, ◌∙◌, true, false, List, [], ◌∷◌, ◌++◌, arith, ◌==◌,
}
use socket_test.Common.Run.{Ends, ends, Ends-bind}
use socket_test.TimeHeap.{empty}
use socket_test.TimeHeap.Order.{expire_of-ok}
use socket_test.TimeHeap.Valid.{Contains, IsValid}
use socket_test.TimeHeap.Pop.{IsFirst, top-IsFirst}
use socket_test.TimeHeap.Tick.{IsTicked, tick-IsTicked}
use socket_test.InactiveTimer.{Server, cb_func, call_back, timer_handler}

-- The heap has ticked, the connections whose callbacks were made are closed, and the alarm is set to
-- the time that the next timer has left.
pub record IsHandled (cur now : ℕ) (s s' : Server) : Type 0 where
  pub fds : List ℕ
  pub ticked : IsTicked cur s.h_timer [] (s'.h_timer, fds)
  pub closed : s'.closed ≡ s.closed ++ fds
  pub clients : s'.client_timer ≡ s.client_timer
  pub next : ℕ
  pub first : IsFirst s'.h_timer next
  pub alarm : s'.alarms ≡ s.alarms ++ (s'.h_timer.timers.expire next + 2 ^ 32 - now) % 2 ^ 32 ∷ []

call_back-all :
    (fds : List ℕ) (s : Server) → call_back fds s ≡ record s { closed = s.closed ++ fds }
unfolding call_back cb_func
call_back-all [] s = rw (append-nil s.closed)
call_back-all (fd ∷ fds) s =
    call_back-all fds (cb_func fd s) ∙ rw (append_assoc s.closed (fd ∷ []) fds)

-- Where the well-formed heap has a timer that is not due, `timer_handler` returns: the heap has
-- ticked, exactly the clients whose callbacks were made are closed, and the alarm is set to the time
-- left to the timer that expires first.
pub timer_handler-IsHandled :
    (cur now p : ℕ) (s : Server)
    → IsValid s.h_timer
    → Contains s.h_timer p
    → cur < s.h_timer.timers.expire p
    → Ends (IsHandled cur now s) (timer_handler cur now s)
unfolding timer_handler empty
timer_handler-IsHandled cur now p s v held late =
    Ends-bind (tick-IsTicked cur s.h_timer p v held late) λ (h, fds) t.
      let still = (t.left p).1 (held, late) in
      let some_left : 0 < h.cur_size = omega (arith, still.1) in
      let not_empty : (h.cur_size == 0) ≡ false = ground arith in
      Ends-bind (top-IsFirst h t.valid some_left) λ q first.
        let (i, b, e) = first.held in
        let alive : h.timers.live q ≡ true = ground (arith, t.valid.filled.live i b) in
        rw (not_empty, expire_of-ok h.timers q alive, call_back-all fds (record s { h_timer = h }))
          (ends (record {
            fds = fds;
            ticked = t;
            closed = refl;
            clients = refl;
            next = q;
            first = first;
            alarm = refl;
          }))
