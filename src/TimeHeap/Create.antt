-- ===== src/TimeHeap/Create.antt =====
-- The constructors of `time_heap` in min_heap_timer.h.
use socket_test.Common.{
  ℕ, zero, suc, ◌+◌, ◌-◌, ◌/◌, ◌≤◌, ◌<◌, ◌≡◌, refl, sym, ◌∙◌, true, false, arith, ◌==◌, ltb, length,
  List, length-replicate, ℕ_discrete,
}
use socket_test.Common.Array
use socket_test.Common.Run.{fault, exception, Ends, ends, Ends-bind, Ends-mono}
use socket_test.TimeHeap.{Timers, Slots, heapify, create, create_from}
use socket_test.TimeHeap.Order.{Same, Same-refl, Same-trans, IsOrderedFrom, IsFilled, IsHeapOf}
use socket_test.TimeHeap.Down.{percolate_down-IsHeapOf}
use socket_test.TimeHeap.Up.{copy_loop-IsCopied}
use socket_test.TimeHeap.Valid.{Contains, IsValid}

-- A heap made for a capacity is empty and well formed.
pub create-IsValid :
    (t : Timers) (index : ℕ → ℕ) (cap : ℕ)
    → t.live 0 ≡ false
    → IsValid (create t index cap) × ((p : ℕ) → ¬ Contains (create t index cap) p)
unfolding create
create-IsValid t index cap null = (
  record {
    filled = record {
      sized = length-replicate cap 0;
      room = omega arith;
      live = λ i b. absurd (omega arith);
      distinct = λ i j b d e. absurd (omega arith);
      indexed = λ i b. absurd (omega arith);
    };
    ordered = λ c p q l. absurd (omega arith);
    null = null;
  },
  λ p c. absurd (omega (arith, c.1)),
)

heapify-IsHeapOf :
    (i : ℕ) (t : Timers) (n len : ℕ) (s : Slots)
    → i ≤ n
    → IsFilled t n len s
    → IsOrderedFrom i t n (Array.get s.array)
    → Ends (IsHeapOf 0 t n len (Array.get s.array)) (heapify i t n s)
unfolding heapify
heapify-IsHeapOf zero t n len s b v o =
    ends (record { filled = v; ordered = o; same = Same-refl n _ })
heapify-IsHeapOf (suc i) t n len s b v o =
    Ends-bind
      (percolate_down-IsHeapOf i t n len s i (omega arith) v (record {
        edges = λ c p q l e. o c p q (omega arith);
        bridged = λ c p q e pos l. absurd (omega arith);
      }))
      λ s' done.
        Ends-mono (heapify-IsHeapOf i t n len s' (omega arith) done.filled done.ordered) λ s'' last.
          record {
            filled = last.filled;
            ordered = last.ordered;
            same = Same-trans done.same last.same;
          }

-- The constructor from an array of distinct existing timers, no more than the capacity, makes a
-- well-formed heap of exactly these timers, whatever the new array holds at first.
pub create_from-IsValid :
    (t : Timers) (index : ℕ → ℕ) (fresh init_array : List ℕ) (size capacity : ℕ)
    → size ≤ capacity
    → length fresh ≡ capacity
    → size ≤ length init_array
    → t.live 0 ≡ false
    → ((j : ℕ) → j < size → t.live (Array.get init_array j) ≡ true)
    → ((j m : ℕ) → j < size → m < size → Array.get init_array j ≡ Array.get init_array m → j ≡ m)
    → Ends
        (λ h.
          IsValid h
          × (h.timers ≡ t)
          × Same size (Array.get init_array) (Array.get h.slots.array)
          × (h.cur_size ≡ size)
          × (h.capacity ≡ capacity))
        (create_from t index fresh init_array size capacity)
unfolding create_from
create_from-IsValid t index fresh init size cap room sized enough null live distinct =
    let fits : ltb cap size ≡ false = ground arith in
    rw fits (
      Ends-bind
        (copy_loop-IsCopied size 0 size cap t init (record { array = fresh; index = index })
          (omega arith) room enough live distinct
          (record {
            sized = sized;
            copied = λ j b. absurd (omega arith);
            indexed = λ j b. absurd (omega arith);
          }))
        λ s c.
          let v : IsFilled t size cap s = record {
            sized = c.sized;
            room = room;
            live = λ i b. ground (arith, c.copied i, live i);
            distinct = λ i j b d e. distinct i j b d (sym (c.copied i b) ∙ e ∙ c.copied j d);
            indexed = λ i b. ground (arith, c.copied i, c.indexed i);
          } in
          let same : Same size (Array.get init) (Array.get s.array) = λ p.
            (λ (i, b, e). (i, b, c.copied i b ∙ e), λ (i, b, e). (i, b, sym (c.copied i b) ∙ e)) in
          Ends-bind {P = IsHeapOf 0 t size cap (Array.get s.array)}
            (elim (ℕ_discrete size 0) [
              | yes none_given ↦
                  let test : (size == 0) ≡ true = ground arith in
                  rw test (
                    ends (record {
                      filled = v;
                      ordered = λ m p q l. absurd (omega arith);
                      same = Same-refl size _;
                    }))
              | no some_given ↦
                  let test : (size == 0) ≡ false = ground arith in
                  rw test (
                    heapify-IsHeapOf ((size - 1) / 2 + 1) t size cap s (omega arith) v
                      λ m p q l. absurd (omega arith))
            ])
            λ s' done. ends (
              record { filled = done.filled; ordered = done.ordered; null = null },
              refl,
              Same-trans same done.same,
              refl,
              refl,
            ))

-- The constructor throws when it is given more timers than the capacity.
create_from-exception :
    (t : Timers) (index : ℕ → ℕ) (fresh init_array : List ℕ) (size capacity : ℕ)
    → capacity < size
    → create_from t index fresh init_array size capacity ≡ fault exception
unfolding create_from
create_from-exception t index fresh init size cap h = ground arith
