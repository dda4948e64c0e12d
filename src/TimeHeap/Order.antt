-- ===== src/TimeHeap/Order.antt =====
-- The heap order and the well-formedness of the slots, for an array one entry of which has been
-- taken out into `tmp`, as the sifting loops of min_heap_timer.h do.
use mathlib.Core.Path.{fun_ext}
use socket_test.Common.{
  ℕ, ◌-◌, ◌/◌, ◌≤◌, ◌<◌, ◌≡◌, sym, ◌∙◌, ◌≢◌, ◌↔◌, true, arith, ◌==◌, if◌then◌else◌, length, set,
  length-set,
}
use socket_test.Common.Array
use socket_test.Common.Run.{Ends, ends, ok}
use socket_test.TimeHeap.{Timers, Slots, slot, expire_of, place}

abbrev pub parent : ℕ → ℕ
parent c = (c - 1) / 2

-- the pointer at `i`, with `tmp` put back into the hole
abbrev pub view : Slots → ℕ → ℕ → ℕ → ℕ
view s hole tmp i = if hole == i then tmp else Array.get s.array i

-- `place t s hole p`, where it does not fault
abbrev pub moved : Slots → ℕ → ℕ → Slots
moved s hole p = record { array = set s.array hole p; index = Array.update s.index p hole }

-- the first `n` entries hold `p`
abbrev pub Holds : ℕ → (ℕ → ℕ) → ℕ → Type 0
Holds n f p = (i : ℕ) × (i < n) × (f i ≡ p)

abbrev pub Same : ℕ → (ℕ → ℕ) → (ℕ → ℕ) → Type 0
Same n f g = (p : ℕ) → Holds n f p ↔ Holds n g p

pub Same-refl : (n : ℕ) (f : ℕ → ℕ) → Same n f f
Same-refl n f p = (λ h. h, λ h. h)

pub Same-trans : {n : ℕ} {f g h : ℕ → ℕ} → Same n f g → Same n g h → Same n f h
Same-trans u v p = (λ x. (v p).0 ((u p).0 x), λ x. (u p).1 ((v p).1 x))

-- every edge whose parent is at `lo` or later is in order
abbrev pub IsOrderedFrom : ℕ → Timers → ℕ → (ℕ → ℕ) → Type 0
IsOrderedFrom lo t n f =
    (c : ℕ) → 0 < c → c < n → lo ≤ parent c → t.expire (f (parent c)) ≤ t.expire (f c)

-- The slots are an array of `len` entries of which the first `n` are distinct existing timers; all
-- but the one in the hole know their position.
pub record IsCells (t : Timers) (n len tmp : ℕ) (s : Slots) (hole : ℕ) : Type 0 where
  pub sized : length s.array ≡ len
  pub room : n ≤ len
  pub live : (i : ℕ) → i < n → t.live (view s hole tmp i) ≡ true
  pub distinct : (i j : ℕ) → i < n → j < n → view s hole tmp i ≡ view s hole tmp j → i ≡ j
  pub indexed : (i : ℕ) → i < n → i ≢ hole → s.index (view s hole tmp i) ≡ i

pub slot-ok : (s : Slots) (i : ℕ) → i < length s.array → slot s i ≡ ok (Array.get s.array i)
unfolding slot
slot-ok s i h = ground arith

pub expire_of-ok : (t : Timers) (p : ℕ) → t.live p ≡ true → expire_of t p ≡ ok (t.expire p)
unfolding expire_of
expire_of-ok t p h = rw h

pub place-ok :
    (t : Timers) (s : Slots) (hole p : ℕ)
    → hole < length s.array
    → t.live p ≡ true
    → place t s hole p ≡ ok (moved s hole p)
unfolding place
place-ok t s hole p h l = ground arith

-- where the entries go when the hole moves to `next`
swapped : ℕ → ℕ → ℕ → ℕ
swapped hole next i = if i == hole then next else if i == next then hole else i

module _ {t : Timers} {n len tmp : ℕ} {s : Slots} {hole : ℕ} (c : IsCells t n len tmp s hole)
    (next : ℕ) (inside : hole < n) (below : next < n) (apart : next ≢ hole) where
  pub view-moved :
      (i : ℕ)
      → view (moved s hole (Array.get s.array next)) next tmp i ≡ (
          if next == i
          then tmp
          else if hole == i
          then Array.get s.array next
          else Array.get s.array i)
  view-moved i =
      ground (arith, c.sized, c.room, Array.get-set s.array hole (Array.get s.array next) i)

  view-swapped :
      (i : ℕ)
      → (view (moved s hole (Array.get s.array next)) next tmp (swapped hole next i)
          ≡ view s hole tmp i)
        × (view s hole tmp (swapped hole next i)
            ≡ view (moved s hole (Array.get s.array next)) next tmp i)
  unfolding swapped
  view-swapped i = ground (arith, view-moved i, view-moved (swapped hole next i))

  pub Same-moved : Same n (view s hole tmp) (view (moved s hole (Array.get s.array next)) next tmp)
  unfolding swapped
  Same-moved p = (
    λ (i, h, e). (swapped hole next i, ground arith, ground (arith, (view-swapped i).0)),
    λ (i, h, e). (swapped hole next i, ground arith, ground (arith, (view-swapped i).1)),
  )

  pub IsCells-moved : IsCells t n len tmp (moved s hole (Array.get s.array next)) next
  IsCells-moved = record {
    sized = ground (arith, c.sized, length-set s.array hole (Array.get s.array next));
    room = c.room;
    live = λ i h. ground (arith, view-moved i, c.live i, c.live hole, c.live next);
    distinct = λ i j h k e. ground (
      arith,
      view-moved i,
      view-moved j,
      c.distinct i j,
      c.distinct i next,
      c.distinct next j,
      c.distinct i hole,
      c.distinct hole j,
      c.distinct next hole,
      c.distinct hole next,
    );
    indexed = λ i h o. ground (arith, view-moved i, c.indexed i, c.distinct i next);
  }

-- The slots with no hole: the first `n` entries are distinct existing timers that know their
-- position.
pub record IsFilled (t : Timers) (n len : ℕ) (s : Slots) : Type 0 where
  pub sized : length s.array ≡ len
  pub room : n ≤ len
  pub live : (i : ℕ) → i < n → t.live (Array.get s.array i) ≡ true
  pub distinct : (i j : ℕ) → i < n → j < n → Array.get s.array i ≡ Array.get s.array j → i ≡ j
  pub indexed : (i : ℕ) → i < n → s.index (Array.get s.array i) ≡ i

-- what a sifting loop makes of the slots `s` with the given hole
pub record IsSifted (lo : ℕ) (t : Timers) (n len tmp : ℕ) (f : ℕ → ℕ) (r : Slots × ℕ) : Type 0 where
  pub inside : r.1 < n
  pub cells : IsCells t n len tmp r.0 r.1
  pub ordered : IsOrderedFrom lo t n (view r.0 r.1 tmp)
  pub same : Same n f (view r.0 r.1 tmp)

-- what filling the hole again makes of them
pub record IsHeapOf (lo : ℕ) (t : Timers) (n len : ℕ) (f : ℕ → ℕ) (s : Slots) : Type 0 where
  pub filled : IsFilled t n len s
  pub ordered : IsOrderedFrom lo t n (Array.get s.array)
  pub same : Same n f (Array.get s.array)

module _ {t : Timers} {n len tmp : ℕ} {s : Slots} {hole : ℕ} (c : IsCells t n len tmp s hole)
    (inside : hole < n) where
  view-placed : (i : ℕ) → Array.get (moved s hole tmp).array i ≡ view s hole tmp i
  view-placed i = ground (arith, c.sized, c.room, Array.get-set s.array hole tmp i)

  IsFilled-placed : IsFilled t n len (moved s hole tmp)
  IsFilled-placed = record {
    sized = ground (arith, c.sized, length-set s.array hole tmp);
    room = c.room;
    live = λ i h. ground (arith, view-placed i, c.live i);
    distinct = λ i j h k e. ground (arith, view-placed i, view-placed j, c.distinct i j);
    indexed = λ i h. ground (arith, view-placed i, c.indexed i h, c.distinct i hole h inside);
  }

pub IsHeapOf-placed :
    {lo : ℕ} {t : Timers} {n len tmp : ℕ} {f : ℕ → ℕ} {s : Slots} {hole : ℕ}
    → IsSifted lo t n len tmp f (s, hole)
    → Ends (IsHeapOf lo t n len f) (place t s hole tmp)
IsHeapOf-placed {t} {n} {tmp} {s} {hole} r =
    let at = view-placed r.cells r.inside in
    let alive : t.live tmp ≡ true = ground (arith, r.cells.live hole r.inside) in
    rw (place-ok t s hole tmp (omega (arith, r.cells.sized, r.cells.room, r.inside)) alive) (
      ends (record {
        filled = IsFilled-placed r.cells r.inside;
        ordered = λ c p q l. ground (arith, at c, at (parent c), r.ordered c);
        same = λ p. (
          λ h. let (i, b, e) = (r.same p).0 h in (i, b, at i ∙ e),
          λ (i, b, e). (r.same p).1 (i, b, sym (at i) ∙ e),
        );
      }))

-- Taking an entry out and leaving its copy in the hole changes no view.
pub view-whole : (s : Slots) (hole : ℕ) → view s hole (Array.get s.array hole) ≡ Array.get s.array
view-whole s hole = fun_ext λ i. ground arith

pub IsCells-whole :
    {t : Timers} {n len : ℕ} {s : Slots} (hole : ℕ)
    → IsFilled t n len s
    → IsCells t n len (Array.get s.array hole) s hole
IsCells-whole {s} hole v = record {
  sized = v.sized;
  room = v.room;
  live = λ i h. ground (arith, v.live i);
  distinct = λ i j h k e. ground (arith, v.distinct i j);
  indexed = λ i h o. ground (arith, v.indexed i h);
}
