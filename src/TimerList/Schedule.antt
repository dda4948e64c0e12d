-- ===== src/TimerList/Schedule.antt =====
-- What `sort_timer_lst` (list_timer.h) promises: a schedule of timers, its operations, and runs of them
-- by the code and by the specification.
use socket_test.Common.{ℕ, Bool, true, List, [], ◌∷◌, ◌++◌, map, ◌==◌, leb, ◌&&◌, not}
use socket_test.Common.Array
use socket_test.Common.Run.{Run, ok, ◌>>=◌, access, bad_pointer}
use socket_test.TimerList.{SortTimerLst, new_timer, add_timer, adjust_timer, del_timer, tick}
use socket_test.TimerList.Order.{insert, erase, has, due, later}

-- the timers in the order in which they expire, and what they hold
pub record Schedule : Type 0 where
  pub ids : List ℕ
  pub expire : ℕ → ℕ
  pub user_data : ℕ → ℕ

-- What the users of the class do: a new timer is set up and added, the time of a timer is put off and
-- the timer adjusted, a timer is deleted, and time passes.
pub data Op : Type 0 where
  adds : ℕ → ℕ → ℕ → Op
  adjusts : ℕ → ℕ → Op
  deletes : ℕ → Op
  ticks : ℕ → Op

-- the operation by the code, with the `user_data` that callbacks are called on
unfoldable pub perform : ℕ → Op → SortTimerLst → Run (SortTimerLst × List ℕ)
perform k (adds id expire user) s = do s' ← add_timer k id (new_timer id expire user s); ok (s', [])
perform k (adjusts id expire) s = do
  s1 ← access (s.live id) bad_pointer (record s { expire = Array.update s.expire id expire })
  s' ← adjust_timer k id s1
  ok (s', [])
perform k (deletes id) s = do s' ← del_timer id s; ok (s', [])
perform k (ticks cur) s = tick k cur s

-- the operation on the schedule
unfoldable pub specified : Op → Schedule → Schedule × List ℕ
specified (adds id expire user) m =
    let e = Array.update m.expire id expire in
    (
      record { ids = insert e id m.ids; expire = e; user_data = Array.update m.user_data id user },
      [],
    )
specified (adjusts id expire) m =
    let e = Array.update m.expire id expire in
    (record m { ids = insert e id (erase id m.ids); expire = e }, [])
specified (deletes id) m = (record m { ids = erase id m.ids }, [])
specified (ticks cur) m =
    (record m { ids = later m.expire cur m.ids }, map m.user_data (due m.expire cur m.ids))

-- `new` gives an address that is not in use; the other operations are called with timers of the list,
-- and a timer is put off, never moved forward.
unfoldable pub is_allowed : Op → Schedule → Bool
is_allowed (adds id expire user) m = not (id == 0) && not (has id m.ids)
is_allowed (adjusts id expire) m = has id m.ids && leb (m.expire id) expire
is_allowed (deletes id) m = has id m.ids
is_allowed (ticks cur) m = true

-- a run of the code, one operation after another
unfoldable pub perform_all : ℕ → List Op → SortTimerLst → Run (SortTimerLst × List ℕ)
perform_all k [] s = ok (s, [])
perform_all k (op ∷ ops) s = do
  r ← perform k op s
  r' ← perform_all k ops r.0
  ok (r'.0, r.1 ++ r'.1)

unfoldable pub specified_all : List Op → Schedule → Schedule × List ℕ
specified_all [] m = (m, [])
specified_all (op ∷ ops) m =
    let r = specified op m in let r' = specified_all ops r.0 in (r'.0, r.1 ++ r'.1)

unfoldable pub are_allowed : List Op → Schedule → Bool
are_allowed [] m = true
are_allowed (op ∷ ops) m = is_allowed op m && are_allowed ops (specified op m).0

abbrev pub no_timers : (ℕ → ℕ) → (ℕ → ℕ) → Schedule
no_timers expire user_data = record { ids = []; expire = expire; user_data = user_data }
