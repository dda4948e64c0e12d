-- ===== src/TimerList/Cut.antt =====
-- How a timer is taken out of a `sort_timer_lst` (list_timer.h).
use socket_test.Common.{
  ℕ, suc, ◌-◌, ◌<◌, ◌≡◌, refl, ◌≢◌, true, false, List, arith, ◌==◌, ltb, if◌then◌else◌, length,
}
use socket_test.Common.Array
use socket_test.Common.Run.{ok}
use socket_test.TimerList.{SortTimerLst, get_prev, get_next, set_prev, set_next, drop_head, unlink}
use socket_test.TimerList.Links.{IsLinked}

-- `s'` is `s` with the neighbours of the timer at `k` led to each other; nothing is said of that
-- timer itself.
pub record IsCut (s : SortTimerLst) (xs : List ℕ) (k : ℕ) (s' : SortTimerLst) : Type 0 where
  pub alive : (i : ℕ) → i < length xs → i ≢ k → s'.live (Array.get xs i) ≡ true
  pub next :
      (i : ℕ)
      → i < length xs
      → i ≢ k
      → s'.next (Array.get xs i)
        ≡ (if suc i == k then Array.get xs (suc k) else s.next (Array.get xs i))
  pub prev :
      (i : ℕ)
      → i < length xs
      → i ≢ k
      → s'.prev (Array.get xs i) ≡ (
          if i == suc k
          then (if k == 0 then 0 else Array.get xs (k - 1))
          else s.prev (Array.get xs i))
  pub head : s'.head ≡ (if k == 0 then Array.get xs 1 else s.head)
  pub tail : 1 < length xs → s'.tail ≡ (if suc k == length xs then Array.get xs (k - 1) else s.tail)
  pub null : s'.live 0 ≡ false

pub cut-IsLinked :
    {s s' : SortTimerLst} {xs : List ℕ} {k : ℕ}
    → IsLinked s xs
    → k < length xs
    → IsCut s xs k s'
    → IsLinked s' (Array.remove_at xs k)
cut-IsLinked {s} {s'} {xs} {k} v inside c =
    let ys = Array.remove_at xs k in
    let len = Array.length-remove_at xs k inside in
    let at : (j : ℕ) → Array.get ys j ≡ (if ltb j k then Array.get xs j else Array.get xs (suc j)) =
      Array.get-remove_at xs k in
    record {
      alive = λ i b. ground (arith, at i, len, c.alive i, c.alive (suc i));
      distinct = λ i j b d e. ground (
        arith,
        at i,
        at j,
        len,
        v.distinct i j,
        v.distinct (suc i) j,
        v.distinct i (suc j),
        v.distinct (suc i) (suc j),
      );
      head = ground (arith, at 0, c.head, v.head);
      tail = λ b. ground (arith, at (length ys - 1), len, c.tail, v.tail);
      next = λ i b.
          ground (arith, at i, at (suc i), len, c.next i, c.next (suc i), v.next i, v.next (suc i));
      first = λ b. ground (arith, at 0, len, c.prev 0, c.prev 1, v.first);
      prev = λ i b. ground (
        arith,
        at i,
        at (suc i),
        len,
        c.prev (suc i),
        c.prev (suc (suc i)),
        v.prev i,
        v.prev (suc i),
      );
      null = c.null;
    }

module _ {s : SortTimerLst} {xs : List ℕ} (v : IsLinked s xs) where
  -- the head is taken out, and there is another timer
  abbrev pub headless : SortTimerLst
  headless = record s { head = Array.get xs 1; prev = Array.update s.prev (Array.get xs 1) 0 }

  pub drop_head-ok : 1 < length xs → drop_head s ≡ ok headless
  unfolding drop_head get_next set_prev
  drop_head-ok several = ground (arith, v.head, v.next 0, v.alive 0, v.alive 1)

  pub headless-IsCut : 1 < length xs → IsCut s xs 0 headless
  headless-IsCut several = record {
    alive = λ i b o. v.alive i b;
    next = λ i b o. ground arith;
    prev = λ i b o. ground (arith, v.distinct i 1);
    head = refl;
    tail = λ b. ground arith;
    null = v.null;
  }

  module _ (k : ℕ) (later : 0 < k) where
    abbrev pub bridged : SortTimerLst
    bridged = record s {
      next = Array.update s.next (Array.get xs (k - 1)) (Array.get xs (suc k));
      prev = Array.update s.prev (Array.get xs (suc k)) (Array.get xs (k - 1));
    }

    pub unlink-ok : suc k < length xs → unlink (Array.get xs k) s ≡ ok bridged
    unfolding unlink get_prev get_next set_prev set_next
    unlink-ok inside = ground (
      arith,
      v.alive k,
      v.alive (k - 1),
      v.alive (suc k),
      v.next k,
      v.prev (k - 1),
      v.distinct k (k - 1),
    )

    pub bridged-IsCut : suc k < length xs → IsCut s xs k bridged
    bridged-IsCut inside = record {
      alive = λ i b o. v.alive i b;
      next = λ i b o. ground (arith, v.distinct i (k - 1));
      prev = λ i b o. ground (arith, v.distinct i (suc k));
      head = ground arith;
      tail = λ b. ground arith;
      null = v.null;
    }

-- Writes to the timer that is taken out do not matter.
pub free-IsCut :
    {s s' : SortTimerLst} {xs : List ℕ} {k : ℕ}
    → IsLinked s xs
    → k < length xs
    → IsCut s xs k s'
    → IsCut s xs k (record s' { live = Array.update s'.live (Array.get xs k) false })
free-IsCut {xs} {k} v inside c = record {
  alive = λ i b o. ground (arith, c.alive i, v.distinct i k);
  next = c.next;
  prev = c.prev;
  head = c.head;
  tail = c.tail;
  null = ground (arith, c.null);
}

pub set_next-IsCut :
    {s s' : SortTimerLst} {xs : List ℕ} {k : ℕ} (q : ℕ)
    → IsLinked s xs
    → k < length xs
    → IsCut s xs k s'
    → IsCut s xs k (record s' { next = Array.update s'.next (Array.get xs k) q })
set_next-IsCut {xs} {k} q v inside c = record {
  alive = c.alive;
  next = λ i b o. ground (arith, c.next i, v.distinct i k);
  prev = c.prev;
  head = c.head;
  tail = c.tail;
  null = c.null;
}
