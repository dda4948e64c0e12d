-- ===== src/TimeHeap/Down.antt =====
-- `percolate_down` of min_heap_timer.h.
use mathlib.Core.Logic.{◌⊎◌, inl, inr}
use socket_test.Common.{
  ℕ, zero, suc, ◌+◌, ◌-◌, ◌*◌, ◌≤◌, ◌<◌, ◌≡◌, sym, subst, ◌≢◌, true, arith, ltb, leb, Bool-cases,
}
use socket_test.Common.Array
use socket_test.Common.Run.{ok, ◌>>=◌, Ends, ends, Ends-bind, Ends-mono}
use socket_test.TimeHeap.{Timers, Slots, slot, expire_of, pick_child, down_loop, percolate_down}
use socket_test.TimeHeap.Order.{
  parent, view, moved, Same-refl, Same-trans, IsCells, slot-ok, expire_of-ok, place-ok, view-moved,
  Same-moved, IsCells-moved, IsSifted, IsFilled, IsHeapOf, IsHeapOf-placed, view-whole,
  IsCells-whole,
}

-- Only the edges below the hole may be out of order.
pub record IsSunk (lo : ℕ) (t : Timers) (n : ℕ) (f : ℕ → ℕ) (hole : ℕ) : Type 0 where
  pub edges :
      (c : ℕ)
      → 0 < c
      → c < n
      → lo ≤ parent c
      → parent c ≢ hole
      → t.expire (f (parent c)) ≤ t.expire (f c)
  pub bridged :
      (c : ℕ)
      → 0 < c
      → c < n
      → parent c ≡ hole
      → 0 < hole
      → lo ≤ parent hole
      → t.expire (f (parent hole)) ≤ t.expire (f c)

-- `m` is the child of `i` that expires first.
record IsFirstChild (t : Timers) (n : ℕ) (f : ℕ → ℕ) (i m : ℕ) : Type 0 where
  inside : m < n
  child : (m ≡ 2 * i + 1) ⊎ (m ≡ 2 * i + 2)
  first : (c : ℕ) → 0 < c → c < n → parent c ≡ i → t.expire (f m) ≤ t.expire (f c)

module _ {t : Timers} {n len tmp : ℕ} {s : Slots} {hole : ℕ} (c : IsCells t n len tmp s hole) where
  -- an entry other than the hole can be read and followed
  pub entry-ok :
      (i : ℕ)
      → i < n
      → i ≢ hole
      → (slot s i ≡ ok (Array.get s.array i))
        × (t.live (Array.get s.array i) ≡ true)
        × (expire_of t (Array.get s.array i) ≡ ok (t.expire (Array.get s.array i)))
  entry-ok i h o =
      let alive : t.live (Array.get s.array i) ≡ true = ground (arith, c.live i) in
      (slot-ok s i (omega (arith, c.sized, c.room)), alive, expire_of-ok t _ alive)

  pick_child-IsFirstChild :
      hole * 2 + 1 < n → Ends (IsFirstChild t n (view s hole tmp) hole) (pick_child t n s hole)
  unfolding pick_child
  pick_child-IsFirstChild h = elim (Bool-cases (ltb (hole * 2 + 1) (n - 1))) [
    | inl two ↦
        let (r1, r2, r3) = entry-ok (hole * 2 + 1 + 1) (ground arith) (omega arith) in
        let (l1, l2, l3) = entry-ok (hole * 2 + 1) h (omega arith) in
        rw (two, r1, l1, r3, l3)
          (ends (record {
            inside = ground arith;
            child = ground arith;
            first = λ k p q e. ground arith;
          }))
    | inr one ↦
        rw one (ends (record { inside = h; child = omega arith; first = λ k p q e. ground arith }))
  ]

  IsSunk-moved :
      (lo m : ℕ)
      → hole < n
      → IsSunk lo t n (view s hole tmp) hole
      → IsFirstChild t n (view s hole tmp) hole m
      → t.expire (Array.get s.array m) < t.expire tmp
      → IsSunk lo t n (view (moved s hole (Array.get s.array m)) m tmp) m
  IsSunk-moved lo m inside v first lower =
      let at = view-moved c m inside first.inside (omega (arith, first.child)) in
      record {
        edges = λ k p q l o.
            ground (arith, at k, at (parent k), v.edges k, v.bridged m, first.child, first.first k);
        bridged = λ k p q e o l. ground (arith, at k, at (parent m), v.edges k, first.child);
      }

down_loop-IsSifted :
    (k lo : ℕ) {t : Timers} {n len tmp : ℕ} (s : Slots) (hole : ℕ)
    → n - hole < k
    → hole < n
    → IsCells t n len tmp s hole
    → IsSunk lo t n (view s hole tmp) hole
    → Ends (IsSifted lo t n len tmp (view s hole tmp)) (down_loop k t n tmp s hole)
unfolding down_loop
down_loop-IsSifted zero lo s hole fuel inside c v = absurd (omega arith)
down_loop-IsSifted (suc k) lo {t} {n} {len} {tmp} s hole fuel inside c v =
    elim (Bool-cases (leb (hole * 2 + 1) (n - 1))) [
      | inl more ↦
          rw (more, down_loop)
            (Ends-bind (pick_child-IsFirstChild c (ground arith)) λ m first.
              let next : m ≢ hole = omega (arith, first.child) in
              let (e1, alive, e2) = entry-ok c m first.inside next in
              let kept : t.live tmp ≡ true = ground (arith, c.live hole inside) in
              rw (e1, e2, expire_of-ok t tmp kept)
                (elim (Bool-cases (ltb (t.expire (Array.get s.array m)) (t.expire tmp))) [
                  | inl lower ↦
                      rw (lower, ◌>>=◌, place-ok t s hole _ (omega (arith, c.sized, c.room)) alive)
                        (Ends-mono
                          (down_loop-IsSifted k lo (moved s hole (Array.get s.array m)) m
                            (omega (arith, first.child)) first.inside
                            (IsCells-moved c m inside first.inside next)
                            (IsSunk-moved c lo m inside v first (ground arith)))
                          λ r done. record {
                            inside = done.inside;
                            cells = done.cells;
                            ordered = done.ordered;
                            same = Same-trans (Same-moved c m inside first.inside next) done.same;
                          })
                  | inr settled ↦
                      rw (settled, ◌>>=◌)
                        (ends (record {
                          inside = inside;
                          cells = c;
                          ordered = λ k p q l. ground (arith, v.edges k, first.first k, next);
                          same = Same-refl n _;
                        }))
                ]))
      | inr last ↦
          rw (last, down_loop)
            (ends (record {
              inside = inside;
              cells = c;
              ordered = λ k p q l. ground (arith, v.edges k);
              same = Same-refl n _;
            }))
    ]

-- `percolate_down` at an entry that may be too high in the heap, all other edges from `lo` on being
-- in order, puts them all in order and keeps the timers and their recorded positions.
pub percolate_down-IsHeapOf :
    (lo : ℕ) (t : Timers) (n len : ℕ) (s : Slots) (hole : ℕ)
    → hole < n
    → IsFilled t n len s
    → IsSunk lo t n (Array.get s.array) hole
    → Ends (IsHeapOf lo t n len (Array.get s.array)) (percolate_down t n s hole)
unfolding percolate_down
percolate_down-IsHeapOf lo t n len s hole inside c v =
    let whole = view-whole s hole in
    rw (slot-ok s hole (omega (arith, c.sized, c.room))) (
      Ends-bind
        (down_loop-IsSifted (suc n) lo s hole (omega arith) inside (IsCells-whole hole c)
          (subst (λ f. IsSunk lo t n f hole) (sym whole) v))
        λ r sifted.
          IsHeapOf-placed
            (subst (λ f. IsSifted lo t n len (Array.get s.array hole) f r) whole sifted))
