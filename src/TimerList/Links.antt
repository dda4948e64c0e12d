-- ===== src/TimerList/Links.antt =====
-- What makes a `sort_timer_lst` (list_timer.h) a doubly linked list, and how its links change.
use socket_test.Common.{
  ℕ, zero, suc, ◌-◌, ◌≤◌, ◌<◌, ◌≡◌, refl, ◌≢◌, true, false, List, [], ◌∷◌, arith, ◌==◌, ltb,
  if◌then◌else◌, length,
}
use socket_test.Common.Array
use socket_test.Common.Run.{ok}
use socket_test.TimerList.{SortTimerLst, set_prev, set_next, append_after, link_between, add_first}

-- The pointers of `xs` lead from the head to the tail and back; they are distinct existing timers.
pub record IsLinked (s : SortTimerLst) (xs : List ℕ) : Type 0 where
  pub alive : (i : ℕ) → i < length xs → s.live (Array.get xs i) ≡ true
  pub distinct : (i j : ℕ) → i < length xs → j < length xs → Array.get xs i ≡ Array.get xs j → i ≡ j
  pub head : s.head ≡ Array.get xs 0
  pub tail : 0 < length xs → s.tail ≡ Array.get xs (length xs - 1)
  pub next : (i : ℕ) → i < length xs → s.next (Array.get xs i) ≡ Array.get xs (suc i)
  pub first : 0 < length xs → s.prev (Array.get xs 0) ≡ 0
  pub prev : (i : ℕ) → suc i < length xs → s.prev (Array.get xs (suc i)) ≡ Array.get xs i
  pub null : s.live 0 ≡ false

-- an existing timer that is not in the list, with no links
pub record IsLoose (s : SortTimerLst) (xs : List ℕ) (t : ℕ) : Type 0 where
  pub alive : s.live t ≡ true
  pub outside : (i : ℕ) → i < length xs → Array.get xs i ≢ t

pub get-beyond : (xs : List ℕ) (i : ℕ) → length xs ≤ i → Array.get xs i ≡ 0
unfolding Array.get
get-beyond [] i h = refl
get-beyond (x ∷ xs) zero h = absurd (omega arith)
get-beyond (x ∷ xs) (suc i) h = get-beyond xs i (omega arith)

-- the fields that no operation on the links changes
pub record IsRelinked (s s' : SortTimerLst) : Type 0 where
  pub live : s'.live ≡ s.live
  pub expire : s'.expire ≡ s.expire
  pub user_data : s'.user_data ≡ s.user_data

module _ {s : SortTimerLst} {xs : List ℕ} (v : IsLinked s xs) {t : ℕ} (w : IsLoose s xs t) (k : ℕ)
    (behind : 0 < k) where
  abbrev pub between : SortTimerLst
  between = record s {
    next = Array.update (Array.update s.next (Array.get xs (k - 1)) t) t (Array.get xs k);
    prev = Array.update (Array.update s.prev t (Array.get xs (k - 1))) (Array.get xs k) t;
  }

  pub between-IsLinked : k < length xs → IsLinked between (Array.insert_at xs k t)
  between-IsLinked inside =
      let len = Array.length-insert_at xs k t in
      let at : (j : ℕ)
          → Array.get (Array.insert_at xs k t) j
            ≡ (if ltb j k then Array.get xs j else if j == k then t else Array.get xs (j - 1)) =
        λ j. Array.get-insert_at xs k t j (omega arith) in
      record {
        alive = λ i b. ground (arith, at i, len, v.alive i, v.alive (i - 1), w.alive);
        distinct = λ i j b c e. ground (
          arith,
          at i,
          at j,
          len,
          v.distinct i j,
          v.distinct (i - 1) j,
          v.distinct i (j - 1),
          v.distinct (i - 1) (j - 1),
          w.outside i,
          w.outside j,
          w.outside (i - 1),
          w.outside (j - 1),
        );
        head = ground (arith, at 0, v.head);
        tail = λ b. ground (arith, at (length (Array.insert_at xs k t) - 1), len, v.tail);
        next = λ i b. ground (
          arith,
          at i,
          at (suc i),
          len,
          v.next i,
          v.next (i - 1),
          w.outside i,
          w.outside (i - 1),
          v.distinct i (k - 1),
          v.distinct (i - 1) (k - 1),
        );
        first = λ b. ground (arith, at 0, len, v.first, v.distinct 0 k, w.outside 0);
        prev = λ i b. ground (
          arith,
          at i,
          at (suc i),
          len,
          v.prev i,
          v.prev (i - 1),
          w.outside (suc i),
          w.outside i,
          v.distinct (suc i) k,
          v.distinct i k,
        );
        null = v.null;
      }

  pub link_between-ok :
      k < length xs → link_between t (Array.get xs (k - 1)) (Array.get xs k) s ≡ ok between
  unfolding link_between set_next set_prev
  link_between-ok inside = ground (arith, v.alive k, v.alive (k - 1), w.alive)

  abbrev pub behind_last : SortTimerLst
  behind_last = record s {
    next = Array.update (Array.update s.next (Array.get xs (k - 1)) t) t 0;
    prev = Array.update s.prev t (Array.get xs (k - 1));
    tail = t;
  }

  pub behind_last-IsLinked : k ≡ length xs → IsLinked behind_last (Array.insert_at xs k t)
  behind_last-IsLinked end =
      let len = Array.length-insert_at xs k t in
      let at : (j : ℕ)
          → Array.get (Array.insert_at xs k t) j
            ≡ (if ltb j k then Array.get xs j else if j == k then t else Array.get xs (j - 1)) =
        λ j. Array.get-insert_at xs k t j (omega arith) in
      record {
        alive = λ i b. ground (arith, at i, len, v.alive i, w.alive);
        distinct =
            λ i j b c e. ground (arith, at i, at j, len, v.distinct i j, w.outside i, w.outside j);
        head = ground (arith, at 0, v.head);
        tail = λ b. ground (arith, at (length (Array.insert_at xs k t) - 1), len);
        next = λ i b. ground (
          arith,
          at i,
          at (suc i),
          len,
          v.next i,
          w.outside i,
          v.distinct i (k - 1),
          get-beyond xs k,
        );
        first = λ b. ground (arith, at 0, len, v.first, w.outside 0);
        prev = λ i b. ground (arith, at i, at (suc i), len, v.prev i, w.outside (suc i));
        null = v.null;
      }

  pub append_after-ok : k ≡ length xs → append_after t (Array.get xs (k - 1)) s ≡ ok behind_last
  unfolding append_after set_next set_prev
  append_after-ok end = ground (arith, v.alive (k - 1), w.alive)

module _ {s : SortTimerLst} {xs : List ℕ} (v : IsLinked s xs) {t : ℕ} (w : IsLoose s xs t) where
  abbrev pub in_front : SortTimerLst
  in_front = record s {
    next = Array.update s.next t s.head;
    prev = Array.update s.prev s.head t;
    head = t;
  }

  pub in_front-IsLinked : 0 < length xs → s.prev t ≡ 0 → IsLinked in_front (Array.insert_at xs 0 t)
  in_front-IsLinked some_there unset =
      let len = Array.length-insert_at xs 0 t in
      let at : (j : ℕ)
          → Array.get (Array.insert_at xs 0 t) j ≡ (if j == 0 then t else Array.get xs (j - 1)) =
        λ j. ground (arith, Array.get-insert_at xs 0 t j) in
      record {
        alive = λ i b. ground (arith, at i, len, v.alive (i - 1), w.alive);
        distinct = λ i j b c e. ground (
          arith,
          at i,
          at j,
          len,
          v.distinct (i - 1) (j - 1),
          w.outside (i - 1),
          w.outside (j - 1),
        );
        head = ground (arith, at 0);
        tail = λ b. ground (arith, at (length (Array.insert_at xs 0 t) - 1), len, v.tail);
        next =
            λ i b. ground (arith, at i, at (suc i), len, v.next (i - 1), w.outside (i - 1), v.head);
        first = λ b. ground (arith, at 0, len, w.outside 0, v.head);
        prev = λ i b.
            ground
              (arith, at i, at (suc i), len, v.prev (i - 1), w.outside i, v.head, v.distinct i 0);
        null = v.null;
      }

  pub add_first-ok : 0 < length xs → add_first t s ≡ ok in_front
  unfolding add_first set_next set_prev
  add_first-ok some_there = ground (arith, v.alive 0, v.head, w.alive)

  abbrev pub alone : SortTimerLst
  alone = record s { head = t; tail = t }

  pub alone-IsLinked :
      length xs ≡ 0 → s.prev t ≡ 0 → s.next t ≡ 0 → IsLinked alone (Array.insert_at xs 0 t)
  alone-IsLinked nothing unset_prev unset_next =
      let len = Array.length-insert_at xs 0 t in
      let at : (j : ℕ)
          → Array.get (Array.insert_at xs 0 t) j ≡ (if j == 0 then t else Array.get xs (j - 1)) =
        λ j. ground (arith, Array.get-insert_at xs 0 t j) in
      record {
        alive = λ i b. ground (arith, at i, len, w.alive);
        distinct = λ i j b c e. omega (arith, len);
        head = ground (arith, at 0);
        tail = λ b. ground (arith, at (length (Array.insert_at xs 0 t) - 1), len);
        next = λ i b. ground (arith, at i, at (suc i), len, get-beyond xs i);
        first = λ b. ground (arith, at 0);
        prev = λ i b. absurd (omega (arith, len));
        null = v.null;
      }
