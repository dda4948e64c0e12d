-- ===== src/TimeHeap.antt =====
-- timer/min_heap_timer.h: `time_heap`, a binary min-heap of pointers to timers.
-- A pointer is a number, 0 is NULL; an access through NULL or through a pointer that was deleted is
-- the fault `bad_pointer`, an access past `array` the fault `out_of_bounds`. The fields of the timer
-- objects are maps from pointers (`Timers`, and `index` in `Slots`, the part that sifting writes), so
-- aliasing is that of the source. Counts and times are small enough not to wrap an int or a time_t.
pub mod Order
pub mod Down
pub mod Up
pub mod Valid
pub mod Pop
pub mod Tick
pub mod Create
use socket_test.Common.{
  ℕ, zero, suc, ◌+◌, ◌-◌, ◌*◌, ◌/◌, Bool, true, false, List, [], ◌∷◌, ◌++◌, ◌||◌, ltb, leb, ◌==◌,
  if◌then◌else◌, length, set, replicate,
}
use socket_test.Common.Array
use socket_test.Common.Run.{
  Run, ok, fault, out_of_fuel, out_of_bounds, bad_pointer, exception, ◌>>=◌, access,
}

-- What sifting does not write: which timers exist, and their other fields. `cb_func` is true where
-- the callback is not NULL.
pub record Timers : Type 0 where
  pub live : ℕ → Bool
  pub expire : ℕ → ℕ
  pub cb_func : ℕ → Bool
  pub user_data : ℕ → ℕ

pub record Slots : Type 0 where
  pub array : List ℕ
  pub index : ℕ → ℕ

pub record TimeHeap : Type 0 where
  pub timers : Timers
  pub slots : Slots
  pub capacity : ℕ
  pub cur_size : ℕ

-- `array[i]`
unfoldable pub slot : Slots → ℕ → Run ℕ
slot s i = access (ltb i (length s.array)) out_of_bounds (Array.get s.array i)

-- `p->expire`
unfoldable pub expire_of : Timers → ℕ → Run ℕ
expire_of t p = access (t.live p) bad_pointer (t.expire p)

-- `array[hole] = p; array[hole]->index = hole`
unfoldable pub place : Timers → Slots → ℕ → ℕ → Run Slots
place t s hole p =
    if ltb hole (length s.array)
    then access (t.live p) bad_pointer
        (record { array = set s.array hole p; index = Array.update s.index p hole })
    else fault out_of_bounds

-- the child that the loop of `percolate_down` compares with
unfoldable pub pick_child : Timers → ℕ → Slots → ℕ → Run ℕ
pick_child t n s hole =
    if ltb (hole * 2 + 1) (n - 1)
    then (do
      right ← slot s (hole * 2 + 1 + 1)
      left ← slot s (hole * 2 + 1)
      er ← expire_of t right
      el ← expire_of t left
      ok (if ltb er el then hole * 2 + 1 + 1 else hole * 2 + 1))
    else ok (hole * 2 + 1)

-- the loop of `percolate_down`, over `n` entries, with `tmp` taken out of the hole
unfoldable pub down_loop : ℕ → Timers → ℕ → ℕ → Slots → ℕ → Run (Slots × ℕ)
down_loop zero t n tmp s hole = out_of_fuel
down_loop (suc k) t n tmp s hole = elim (leb (hole * 2 + 1) (n - 1)) [
  | false ↦ ok (s, hole)
  | true ↦ do
    child ← pick_child t n s hole
    p ← slot s child
    ep ← expire_of t p
    et ← expire_of t tmp
    elim (ltb ep et) [
      | true ↦ do moved ← place t s hole p; down_loop k t n tmp moved child
      | false ↦ ok (s, hole)
    ]
]

-- The hole at least doubles in each round, so as many rounds as there are entries are enough.
unfoldable pub percolate_down : Timers → ℕ → Slots → ℕ → Run Slots
percolate_down t n s hole = do
  tmp ← slot s hole
  (s', hole') ← down_loop (suc n) t n tmp s hole
  place t s' hole' tmp

-- the loop of `add_timer`
unfoldable pub up_loop : ℕ → Timers → ℕ → Slots → ℕ → Run (Slots × ℕ)
up_loop zero t timer s hole = out_of_fuel
up_loop (suc k) t timer s hole = elim (ltb 0 hole) [
  | false ↦ ok (s, hole)
  | true ↦ do
    p ← slot s ((hole - 1) / 2)
    ep ← expire_of t p
    et ← expire_of t timer
    elim (leb ep et) [
      | true ↦ ok (s, hole)
      | false ↦ do moved ← place t s hole p; up_loop k t timer moved ((hole - 1) / 2)
    ]
]

-- the copying loop of `resize`, from entry `i` on, into `tmp`
unfoldable pub copy_loop : ℕ → ℕ → Timers → List ℕ → Slots → Run Slots
copy_loop zero i t old s = ok s
copy_loop (suc k) i t old s = do
  p ← slot (record s { array = old }) i
  s' ← place t s i p
  copy_loop k (i + 1) t old s'

unfoldable pub resize : TimeHeap → Run TimeHeap
resize h = do
  let fresh = record h.slots { array = replicate (2 * h.capacity) 0 }
  s ← copy_loop h.cur_size 0 h.timers h.slots.array fresh
  ok (record h { slots = s; capacity = 2 * h.capacity })

-- `add_timer`, behind the test for NULL and the test for room
unfoldable pub sift_in : TimeHeap → ℕ → Run TimeHeap
sift_in h timer = do
  (s, hole) ← up_loop (suc h.cur_size) h.timers timer h.slots h.cur_size
  s' ← place h.timers s hole timer
  ok (record h { slots = s'; cur_size = h.cur_size + 1 })

unfoldable pub add_timer : TimeHeap → ℕ → Run TimeHeap
add_timer h timer =
    if timer == 0
    then ok h
    else (do roomy ← (if leb h.capacity h.cur_size then resize h else ok h); sift_in roomy timer)

-- The timer stays in the heap; `tick` skips its callback.
unfoldable pub del_timer : TimeHeap → ℕ → Run TimeHeap
del_timer h timer =
    if timer == 0
    then ok h
    else access (h.timers.live timer) bad_pointer (record h {
      timers = record h.timers { cb_func = Array.update h.timers.cb_func timer false };
    })

unfoldable pub empty : TimeHeap → Bool
empty h = h.cur_size == 0

unfoldable pub top : TimeHeap → Run ℕ
unfolding empty
top h = if empty h then ok 0 else slot h.slots 0

-- `delete p`
unfoldable pub free : Timers → ℕ → Run Timers
free t p = access (t.live p) bad_pointer (record t { live = Array.update t.live p false })

-- `pop_timer`, behind the tests for an empty heap and for NULL at the root: delete the root, move
-- the last entry there, and sift it down
unfoldable pub remove_root : TimeHeap → ℕ → Run TimeHeap
remove_root h root = do
  t ← free h.timers root
  last ← slot h.slots (h.cur_size - 1)
  s ← place t h.slots 0 last
  s' ← percolate_down t (h.cur_size - 1) s 0
  ok (record h { timers = t; slots = s'; cur_size = h.cur_size - 1 })

unfoldable pub pop_timer : TimeHeap → Run TimeHeap
unfolding empty
pop_timer h =
    if empty h
    then ok h
    else (do root ← slot h.slots 0; if root == 0 then ok h else remove_root h root)

-- `time_heap(int cap)`
unfoldable pub create : Timers → (ℕ → ℕ) → ℕ → TimeHeap
create t index cap = record {
  timers = t;
  slots = record { array = replicate cap 0; index = index };
  capacity = cap;
  cur_size = 0;
}

-- the second loop of the other constructor, from entry `i - 1` down to 0
unfoldable pub heapify : ℕ → Timers → ℕ → Slots → Run Slots
heapify zero t n s = ok s
heapify (suc i) t n s = do s' ← percolate_down t n s i; heapify i t n s'

-- `time_heap(heap_timer **init_array, int size, int capacity)`. `fresh` is the new array, whose
-- entries the source leaves unset from `size` on.
unfoldable pub create_from : Timers → (ℕ → ℕ) → List ℕ → List ℕ → ℕ → ℕ → Run TimeHeap
create_from t index fresh init_array size capacity =
    if ltb capacity size then fault exception else (do
      s ← copy_loop size 0 t init_array (record { array = fresh; index = index })
      s' ← (if size == 0 then ok s else heapify ((size - 1) / 2 + 1) t size s)
      ok (record { timers = t; slots = s'; capacity = capacity; cur_size = size }))

-- The loop of `tick` at time `cur`. `fired` collects the `user_data` that callbacks were called on.
unfoldable pub tick_loop : ℕ → ℕ → TimeHeap → ℕ → List ℕ → Run (TimeHeap × List ℕ)
unfolding empty
tick_loop zero cur h tmp fired = out_of_fuel
tick_loop (suc k) cur h tmp fired = elim (empty h || tmp == 0) [
  | true ↦ ok (h, fired)
  | false ↦ do
    et ← expire_of h.timers tmp
    elim (ltb cur et) [
      | true ↦ ok (h, fired)
      | false ↦ do
        root ← slot h.slots 0
        set_up ← access (h.timers.live root) bad_pointer (h.timers.cb_func root)
        h' ← pop_timer h
        tmp' ← slot h'.slots 0
        tick_loop k cur h' tmp' (if set_up then fired ++ h.timers.user_data root ∷ [] else fired)
    ]
]

-- Each round removes a timer, so one round more than there are timers is enough.
unfoldable pub tick : ℕ → TimeHeap → Run (TimeHeap × List ℕ)
tick cur h = do tmp ← slot h.slots 0; tick_loop (suc h.cur_size) cur h tmp []
