-- ===== src/TimeHeap/Pop.antt =====
-- `pop_timer` and `top` of min_heap_timer.h.
use socket_test.Common.{
  ℕ, zero, suc, ◌-◌, ◌≤◌, ◌<◌, ◌≡◌, refl, ◌≢◌, ◌↔◌, true, false, arith, ◌==◌, ltb, if◌then◌else◌,
  length, length-set, ℕ_discrete,
}
use socket_test.Common.Array
use socket_test.Common.Run.{ok, fault, bad_pointer, ◌>>=◌, Ends, ends, Ends-bind}
use socket_test.TimeHeap.{Timers, TimeHeap, slot, place, free, top, pop_timer, remove_root}
use socket_test.TimeHeap.Order.{parent, moved, Holds, IsFilled, slot-ok, place-ok}
use socket_test.TimeHeap.Down.{IsSunk, percolate_down-IsHeapOf}
use socket_test.TimeHeap.Valid.{Contains, IsValid}

abbrev pub root : TimeHeap → ℕ
root h = Array.get h.slots.array 0

root_first_below :
    (k : ℕ) (h : TimeHeap) (i : ℕ)
    → IsValid h
    → i < k
    → i < h.cur_size
    → h.timers.expire (root h) ≤ h.timers.expire (Array.get h.slots.array i)
root_first_below zero h i v f b = absurd (omega arith)
root_first_below (suc k) h i v f b = ground (arith, v.ordered i, root_first_below k h (parent i) v)

-- The root of a well-formed heap expires first.
pub root_first :
    (h : TimeHeap) (p : ℕ) → IsValid h → Contains h p → h.timers.expire (root h) ≤ h.timers.expire p
root_first h p v (i, b, e) = ground (arith, root_first_below (suc i) h i v)

-- A well-formed heap that is not empty has an existing timer at its root.
pub root-live : (h : TimeHeap) → IsValid h → 0 < h.cur_size → h.timers.live (root h) ≡ true
root-live h v pos = v.filled.live 0 pos

pub slot-root : (h : TimeHeap) → IsValid h → 0 < h.capacity → slot h.slots 0 ≡ ok (root h)
slot-root h v pos = slot-ok h.slots 0 (omega (arith, v.filled.sized))

-- a timer of the heap that expires first
pub record IsFirst (h : TimeHeap) (p : ℕ) : Type 0 where
  pub held : Contains h p
  pub first : (q : ℕ) → Contains h q → h.timers.expire p ≤ h.timers.expire q

-- `top` of a well-formed heap that is not empty is a timer of the heap that expires first.
pub top-IsFirst : (h : TimeHeap) → IsValid h → 0 < h.cur_size → Ends (IsFirst h) (top h)
unfolding top
top-IsFirst h v some_left =
    let test : (h.cur_size == 0) ≡ false = ground arith in
    rw (test, slot-root h v (omega (arith, v.filled.room)))
      (ends (record { held = (0, some_left, refl); first = λ q held. root_first h q v held }))

-- the outcome of `pop_timer`: the root is deleted and the others stay, in a well-formed heap
pub record IsPopped (h : TimeHeap) (h' : TimeHeap) : Type 0 where
  pub valid : IsValid h'
  pub members : (p : ℕ) → Contains h' p ↔ (Contains h p × (p ≢ root h))
  pub shrunk : h'.cur_size ≡ h.cur_size - 1
  pub kept : h'.capacity ≡ h.capacity
  pub deleted : h'.timers ≡ record h.timers { live = Array.update h.timers.live (root h) false }

module _ (h : TimeHeap) (v : IsValid h) (several : 1 < h.cur_size) where
  abbrev freed : Timers
  freed = record h.timers { live = Array.update h.timers.live (root h) false }

  abbrev last : ℕ
  last = Array.get h.slots.array (h.cur_size - 1)

  last-ne-root : last ≢ root h
  last-ne-root e =
      let same = v.filled.distinct (h.cur_size - 1) 0 (omega arith) (omega arith) e in
      absurd (omega arith)

  refilled :
      (i : ℕ)
      → Array.get (moved h.slots 0 last).array i
        ≡ (if i == 0 then last else Array.get h.slots.array i)
  refilled i = ground (arith, v.filled.sized, v.filled.room, Array.get-set h.slots.array 0 last i)

  -- the entries after the last one has moved to the root
  IsFilled-refilled : IsFilled freed (h.cur_size - 1) h.capacity (moved h.slots 0 last)
  IsFilled-refilled = record {
    sized = ground (arith, v.filled.sized, length-set h.slots.array 0 last);
    room = omega (arith, v.filled.room);
    live = λ i b. ground (
      arith,
      refilled i,
      v.filled.live i,
      v.filled.live (h.cur_size - 1),
      v.filled.distinct i 0,
      last-ne-root,
    );
    distinct = λ i j b d e. ground (
      arith,
      refilled i,
      refilled j,
      v.filled.distinct i j,
      v.filled.distinct (h.cur_size - 1) j,
      v.filled.distinct i (h.cur_size - 1),
    );
    indexed =
        λ i b. ground (arith, refilled i, v.filled.indexed i, v.filled.distinct (h.cur_size - 1) i);
  }

  IsSunk-refilled : IsSunk 0 freed (h.cur_size - 1) (Array.get (moved h.slots 0 last).array) 0
  IsSunk-refilled = record {
    edges = λ c p q l o. ground (arith, refilled c, refilled (parent c), v.ordered c);
    bridged = λ c p q e o l. absurd (omega arith);
  }

  members-refilled :
      (p : ℕ)
      → Holds (h.cur_size - 1) (Array.get (moved h.slots 0 last).array) p
        ↔ (Contains h p × (p ≢ root h))
  members-refilled p = (
    λ (i, b, e). elim (ℕ_discrete i 0) [
      | yes first ↦ (
        (h.cur_size - 1, omega arith, ground (arith, refilled i)),
        ground (arith, refilled i, last-ne-root),
      )
      | no other ↦ (
        (i, omega arith, ground (arith, refilled i)),
        ground (arith, refilled i, v.filled.distinct i 0),
      )
    ],
    λ ((i, b, e), o). elim (ℕ_discrete i (h.cur_size - 1)) [
      | yes at_end ↦ (0, omega arith, ground (arith, refilled 0))
      | no other ↦ (i, omega arith, ground (arith, refilled i))
    ],
  )

  -- `pop_timer` of a well-formed heap of two timers or more deletes the timer that expires first,
  -- keeps the others and leaves a well-formed heap.
  pub pop_timer-IsPopped : Ends (IsPopped h) (pop_timer h)
  unfolding pop_timer remove_root free
  pop_timer-IsPopped =
      let pos : 0 < h.capacity = omega (arith, v.filled.room) in
      let some_left : (h.cur_size == 0) ≡ false = ground arith in
      let alive = root-live h v (omega arith) in
      let real : (root h == 0) ≡ false = ground (arith, v.null) in
      let inside : h.cur_size - 1 < length h.slots.array =
        omega (arith, v.filled.sized, pos, v.filled.room) in
      let alive' : freed.live last ≡ true =
        ground (arith, v.filled.live (h.cur_size - 1), last-ne-root) in
      rw
        (
          some_left,
          slot-root h v pos,
          ◌>>=◌,
          real,
          alive,
          slot-ok h.slots (h.cur_size - 1) inside,
          place-ok freed h.slots 0 last (omega arith) alive',
        )
        (Ends-bind
          (percolate_down-IsHeapOf 0 freed (h.cur_size - 1) h.capacity (moved h.slots 0 last) 0
            (omega arith) IsFilled-refilled IsSunk-refilled)
          λ s done. ends (record {
            valid = record {
              filled = done.filled;
              ordered = done.ordered;
              null = ground (arith, v.null);
            };
            members = λ p. (
              λ held. (members-refilled p).0 ((done.same p).1 held),
              λ held. (done.same p).0 ((members-refilled p).1 held),
            );
            shrunk = refl;
            kept = refl;
            deleted = refl;
          }))

-- `pop_timer` of the only timer of a well-formed heap writes through the pointer that it has just
-- deleted.
pub pop_timer-single : (h : TimeHeap) → IsValid h → h.cur_size ≡ 1 → pop_timer h ≡ fault bad_pointer
unfolding pop_timer remove_root free place
pop_timer-single h v one =
    let alive = root-live h v (omega arith) in
    let pos : 0 < h.capacity = omega (arith, v.filled.room) in
    let real : (root h == 0) ≡ false = ground (arith, v.null) in
    let some_left : (h.cur_size == 0) ≡ false = ground arith in
    let at_root : h.cur_size - 1 ≡ 0 = omega arith in
    let inside : ltb 0 (length h.slots.array) ≡ true = ground (arith, v.filled.sized) in
    rw (some_left, slot-root h v pos, ◌>>=◌, real, alive, at_root, slot-root h v pos) (ground arith)
