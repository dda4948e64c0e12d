-- ===== src/TimeHeap/Up.antt =====
-- The loop of `add_timer` in min_heap_timer.h, and `resize`.
use socket_test.Common.{
  ℕ, zero, suc, ◌+◌, ◌≤◌, ◌<◌, ◌≡◌, subst, ◌≢◌, true, arith, ltb, leb, length, length-set,
  Bool-cases, List, inl, inr,
}
use socket_test.Common.Array
use socket_test.Common.Run.{◌>>=◌, Ends, ends, Ends-mono}
use socket_test.TimeHeap.{Timers, Slots, up_loop, copy_loop}
use socket_test.TimeHeap.Order.{
  parent, view, moved, Same-refl, Same-trans, IsCells, slot-ok, expire_of-ok, place-ok, view-moved,
  Same-moved, IsCells-moved, IsSifted,
}
use socket_test.TimeHeap.Down.{entry-ok}

-- Only the edge above the hole may be out of order.
pub record IsRaised (t : Timers) (n : ℕ) (f : ℕ → ℕ) (hole : ℕ) : Type 0 where
  pub edges : (c : ℕ) → 0 < c → c < n → c ≢ hole → t.expire (f (parent c)) ≤ t.expire (f c)
  pub bridged :
      (c : ℕ)
      → 0 < c
      → c < n
      → parent c ≡ hole
      → 0 < hole
      → t.expire (f (parent hole)) ≤ t.expire (f c)

IsRaised-moved :
    {t : Timers} {n len tmp : ℕ} {s : Slots} {hole : ℕ} (c : IsCells t n len tmp s hole)
    → hole < n
    → 0 < hole
    → IsRaised t n (view s hole tmp) hole
    → t.expire tmp < t.expire (Array.get s.array (parent hole))
    → IsRaised t n
        (view (moved s hole (Array.get s.array (parent hole))) (parent hole) tmp)
        (parent hole)
IsRaised-moved {hole} c inside pos v lower =
    let at = view-moved c (parent hole) inside (omega arith) (omega arith) in
    record {
      edges = λ k p q o. ground (arith, at k, at (parent k), v.edges k, v.bridged k);
      bridged = λ k p q e o.
          ground (arith, at k, at (parent (parent hole)), v.edges k, v.edges (parent hole));
    }

pub up_loop-IsSifted :
    (k : ℕ) {t : Timers} {n len tmp : ℕ} (s : Slots) (hole : ℕ)
    → hole < k
    → hole < n
    → IsCells t n len tmp s hole
    → IsRaised t n (view s hole tmp) hole
    → Ends (IsSifted 0 t n len tmp (view s hole tmp)) (up_loop k t tmp s hole)
unfolding up_loop
up_loop-IsSifted zero s hole fuel inside c v = absurd (omega arith)
up_loop-IsSifted (suc k) {t} {n} {len} {tmp} s hole fuel inside c v =
    elim (Bool-cases (ltb 0 hole)) [
      | inl pos ↦
          let above : parent hole < n = ground arith in
          let next : parent hole ≢ hole = ground arith in
          let (e1, alive, e2) = entry-ok c (parent hole) above next in
          let kept : t.live tmp ≡ true = ground (arith, c.live hole inside) in
          rw (pos, up_loop, e1, e2, expire_of-ok t tmp kept)
            (elim (Bool-cases (leb (t.expire (Array.get s.array (parent hole))) (t.expire tmp))) [
              | inl settled ↦
                  rw (settled, ◌>>=◌)
                    (ends (record {
                      inside = inside;
                      cells = c;
                      ordered = λ m p q l. ground (arith, v.edges m);
                      same = Same-refl n _;
                    }))
              | inr lower ↦
                  rw (lower, ◌>>=◌, place-ok t s hole _ (omega (arith, c.sized, c.room)) alive)
                    (Ends-mono
                      (up_loop-IsSifted k (moved s hole (Array.get s.array (parent hole)))
                        (parent hole) (ground arith) above
                        (IsCells-moved c (parent hole) inside above next)
                        (IsRaised-moved c inside (ground arith) v (ground arith)))
                      λ r done. record {
                        inside = done.inside;
                        cells = done.cells;
                        ordered = done.ordered;
                        same = Same-trans (Same-moved c (parent hole) inside above next) done.same;
                      })
            ])
      | inr root ↦
          rw (root, up_loop)
            (ends (record {
              inside = inside;
              cells = c;
              ordered = λ m p q l. ground (arith, v.edges m);
              same = Same-refl n _;
            }))
    ]

-- After `i` rounds of the copying loop the first `i` entries are those of the old array, and they
-- know their position.
pub record IsCopied (old : List ℕ) (len i : ℕ) (s : Slots) : Type 0 where
  pub sized : length s.array ≡ len
  pub copied : (j : ℕ) → j < i → Array.get s.array j ≡ Array.get old j
  pub indexed : (j : ℕ) → j < i → s.index (Array.get old j) ≡ j

pub copy_loop-IsCopied :
    (k i n len : ℕ) (t : Timers) (old : List ℕ) (s : Slots)
    → i + k ≡ n
    → n ≤ len
    → n ≤ length old
    → ((j : ℕ) → j < n → t.live (Array.get old j) ≡ true)
    → ((j m : ℕ) → j < n → m < n → Array.get old j ≡ Array.get old m → j ≡ m)
    → IsCopied old len i s
    → Ends (IsCopied old len n) (copy_loop k i t old s)
unfolding copy_loop
copy_loop-IsCopied zero i n len t old s e room enough live distinct c =
    let same : i ≡ n = omega arith in ends (subst (λ m. IsCopied old len m s) same c)
copy_loop-IsCopied (suc k) i n len t old s e room enough live distinct c =
    let p = Array.get old i in
    let inside : i < n = omega arith in
    rw
      (
        slot-ok (record s { array = old }) i (omega arith),
        place-ok t s i p (omega (arith, c.sized)) (live i inside),
      )
      (copy_loop-IsCopied k (i + 1) n len t old (moved s i p) (omega arith) room enough live
        distinct
        (record {
          sized = ground (arith, c.sized, length-set s.array i p);
          copied = λ j h. ground (arith, c.sized, Array.get-set s.array i p j, c.copied j);
          indexed = λ j h. ground (arith, c.indexed j, distinct i j);
        }))
