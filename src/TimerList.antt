-- ===== src/TimerList.antt =====
-- timer/list_timer.h: `sort_timer_lst`, a doubly linked list of timers in the order in which they
-- expire. A pointer is a number, 0 is NULL; the fields of the timer objects are maps from pointers,
-- and an access through NULL or through a pointer that was deleted is the fault `bad_pointer`.
pub mod Links
pub mod Cut
pub mod Order
pub mod Members
pub mod Add
pub mod Remove
pub mod Adjust
pub mod Tick
pub mod Destroy
pub mod Schedule
pub mod Refine
pub mod Lifetime
use socket_test.Common.{
  ℕ, zero, suc, ◌+◌, Bool, true, false, List, [], ◌∷◌, ◌++◌, ◌==◌, ltb, ◌&&◌, ◌||◌, not,
  if◌then◌else◌,
}
use socket_test.Common.Array
use socket_test.Common.Run.{Run, ok, out_of_fuel, bad_pointer, ◌>>=◌, access}

pub record SortTimerLst : Type 0 where
  pub live : ℕ → Bool
  pub expire : ℕ → ℕ
  pub user_data : ℕ → ℕ
  pub prev : ℕ → ℕ
  pub next : ℕ → ℕ
  pub head : ℕ
  pub tail : ℕ

-- `p->expire`, `p->prev` and `p->next`
unfoldable pub get_expire : SortTimerLst → ℕ → Run ℕ
get_expire s p = access (s.live p) bad_pointer (s.expire p)

unfoldable pub get_prev : SortTimerLst → ℕ → Run ℕ
get_prev s p = access (s.live p) bad_pointer (s.prev p)

unfoldable pub get_next : SortTimerLst → ℕ → Run ℕ
get_next s p = access (s.live p) bad_pointer (s.next p)

-- `p->prev = q`
unfoldable pub set_prev : ℕ → ℕ → SortTimerLst → Run SortTimerLst
set_prev p q s = access (s.live p) bad_pointer (record s { prev = Array.update s.prev p q })

-- `p->next = q`
unfoldable pub set_next : ℕ → ℕ → SortTimerLst → Run SortTimerLst
set_next p q s = access (s.live p) bad_pointer (record s { next = Array.update s.next p q })

-- `delete p`
unfoldable pub free : ℕ → SortTimerLst → Run SortTimerLst
free p s = access (s.live p) bad_pointer (record s { live = Array.update s.live p false })

-- `sort_timer_lst()`, with no timer allocated yet
unfoldable pub create : (ℕ → ℕ) → (ℕ → ℕ) → SortTimerLst
create junk data_of = record {
  live = λ p. false;
  expire = junk;
  user_data = data_of;
  prev = junk;
  next = junk;
  head = 0;
  tail = 0;
}

-- `new util_timer` at the address `p`, with `expire` and `user_data` set
unfoldable pub new_timer : ℕ → ℕ → ℕ → SortTimerLst → SortTimerLst
new_timer p expire user s = record s {
  live = Array.update s.live p true;
  expire = Array.update s.expire p expire;
  user_data = Array.update s.user_data p user;
  prev = Array.update s.prev p 0;
  next = Array.update s.next p 0;
}

-- The end of the private `add_timer`: the timer goes to the end of the list, behind `prev`.
unfoldable pub append_after : ℕ → ℕ → SortTimerLst → Run SortTimerLst
append_after timer prev s = do
  s1 ← set_next prev timer s
  s2 ← set_prev timer prev s1
  s3 ← set_next timer 0 s2
  ok (record s3 { tail = timer })

-- the timer goes between `prev` and `tmp`
unfoldable pub link_between : ℕ → ℕ → ℕ → SortTimerLst → Run SortTimerLst
link_between timer prev tmp s = do
  s1 ← set_next prev timer s
  s2 ← set_next timer tmp s1
  s3 ← set_prev timer prev s2
  set_prev tmp timer s3

-- the loop of the private `add_timer`
unfoldable pub add_loop : ℕ → ℕ → ℕ → ℕ → SortTimerLst → Run SortTimerLst
add_loop zero timer prev tmp s = out_of_fuel
add_loop (suc k) timer prev tmp s = elim (tmp == 0) [
  | true ↦ append_after timer prev s
  | false ↦ do
    et ← get_expire s timer
    e ← get_expire s tmp
    elim (ltb et e) [
      | true ↦ link_between timer prev tmp s
      | false ↦ do n ← get_next s tmp; add_loop k timer tmp n s
    ]
]

-- `add_timer(timer, lst_head)`. `k` bounds the rounds of the loop.
unfoldable pub add_behind : ℕ → ℕ → ℕ → SortTimerLst → Run SortTimerLst
add_behind k timer lst_head s = do tmp ← get_next s lst_head; add_loop k timer lst_head tmp s

-- the timer goes in front of the list
unfoldable pub add_first : ℕ → SortTimerLst → Run SortTimerLst
add_first timer s = do
  s1 ← set_next timer s.head s
  s2 ← set_prev s.head timer s1
  ok (record s2 { head = timer })

unfoldable pub add_timer : ℕ → ℕ → SortTimerLst → Run SortTimerLst
add_timer k timer s =
    if timer == 0
    then ok s
    else if s.head == 0
    then ok (record s { head = timer; tail = timer })
    else (do
      et ← get_expire s timer
      eh ← get_expire s s.head
      if ltb et eh then add_first timer s else add_behind k timer s.head s)

-- `head = head->next; head->prev = NULL`
unfoldable pub drop_head : SortTimerLst → Run SortTimerLst
drop_head s = do n ← get_next s s.head; set_prev n 0 (record s { head = n })

-- `timer->prev->next = timer->next; timer->next->prev = timer->prev`
unfoldable pub unlink : ℕ → SortTimerLst → Run SortTimerLst
unlink timer s = do
  p ← get_prev s timer
  n ← get_next s timer
  s1 ← set_next p n s
  p1 ← get_prev s1 timer
  n1 ← get_next s1 timer
  set_prev n1 p1 s1

-- what `adjust_timer` does with a timer that has to move
unfoldable pub move_back : ℕ → ℕ → SortTimerLst → Run SortTimerLst
move_back k timer s =
    if timer == s.head
    then (do s1 ← drop_head s; s2 ← set_next timer 0 s1; add_behind k timer s2.head s2)
    else (do s1 ← unlink timer s; n ← get_next s1 timer; add_behind k timer n s1)

unfoldable pub adjust_timer : ℕ → ℕ → SortTimerLst → Run SortTimerLst
adjust_timer k timer s = if timer == 0 then ok s else (do
  tmp ← get_next s timer
  stays ←
      (if tmp == 0
        then ok true
        else (do et ← get_expire s timer; e ← get_expire s tmp; ok (ltb et e)))
  if stays then ok s else move_back k timer s)

unfoldable pub del_timer : ℕ → SortTimerLst → Run SortTimerLst
del_timer timer s =
    if timer == 0
    then ok s
    else if timer == s.head && timer == s.tail
    then (do s1 ← free timer s; ok (record s1 { head = 0; tail = 0 }))
    else if timer == s.head
    then (do s1 ← drop_head s; free timer s1)
    else if timer == s.tail
    then (do p ← get_prev s s.tail; s1 ← set_next p 0 (record s { tail = p }); free timer s1)
    else (do s1 ← unlink timer s; free timer s1)

-- the part of a round of `tick` behind the callback of the timer `tmp`
unfoldable pub drop_due : ℕ → SortTimerLst → Run SortTimerLst
drop_due tmp s = do
  n ← get_next s tmp
  let s1 = record s { head = n }
  s2 ← (if n == 0 then ok s1 else set_prev n 0 s1)
  free tmp s2

-- The loop of `tick` at time `cur`. `fired` collects the `user_data` that callbacks were called on.
unfoldable pub tick_loop : ℕ → ℕ → ℕ → List ℕ → SortTimerLst → Run (SortTimerLst × List ℕ)
tick_loop zero cur tmp fired s = out_of_fuel
tick_loop (suc k) cur tmp fired s = elim (tmp == 0) [
  | true ↦ ok (s, fired)
  | false ↦ do
    e ← get_expire s tmp
    elim (ltb cur e) [
      | true ↦ ok (s, fired)
      | false ↦ do s' ← drop_due tmp s; tick_loop k cur s'.head (fired ++ s.user_data tmp ∷ []) s'
    ]
]

unfoldable pub tick : ℕ → ℕ → SortTimerLst → Run (SortTimerLst × List ℕ)
tick k cur s = if s.head == 0 then ok (s, []) else tick_loop k cur s.head [] s

-- the loop of `~sort_timer_lst`
unfoldable pub destroy_loop : ℕ → ℕ → SortTimerLst → Run SortTimerLst
destroy_loop zero tmp s = out_of_fuel
destroy_loop (suc k) tmp s = elim (tmp == 0) [
  | true ↦ ok s
  | false ↦ do n ← get_next s tmp; s' ← free tmp (record s { head = n }); destroy_loop k n s'
]

unfoldable pub destroy : ℕ → SortTimerLst → Run SortTimerLst
destroy k s = destroy_loop k s.head s
