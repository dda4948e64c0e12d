-- ===== src/TimerList/Order.antt =====
-- Lists of timers in the order in which they expire: what a `sort_timer_lst` (list_timer.h) stands
-- for. `e` gives the time at which a timer expires.
use socket_test.Common.{
  ℕ, zero, suc, ◌-◌, ◌≤◌, ◌<◌, ◌≡◌, refl, sym, subst, ◌≢◌, Bool, true, false, List, [], ◌∷◌, arith,
  ◌==◌, ltb, leb, ◌||◌, if◌then◌else◌, length, Bool-cases, inl, inr,
}
use socket_test.Common.Array

abbrev pub IsSorted : (ℕ → ℕ) → List ℕ → Type 0
IsSorted e xs = (i j : ℕ) → i < j → j < length xs → e (Array.get xs i) ≤ e (Array.get xs j)

-- the timer goes behind those that do not expire later
unfoldable pub insert : (ℕ → ℕ) → ℕ → List ℕ → List ℕ
insert e t [] = t ∷ []
insert e t (x ∷ xs) = if ltb (e t) (e x) then t ∷ x ∷ xs else x ∷ insert e t xs

unfoldable pub erase : ℕ → List ℕ → List ℕ
erase t [] = []
erase t (x ∷ xs) = if x == t then xs else x ∷ erase t xs

unfoldable pub has : ℕ → List ℕ → Bool
has t [] = false
has t (x ∷ xs) = (x == t) || has t xs

-- the timers that expire at `cur` or before, and those that expire later
unfoldable pub due : (ℕ → ℕ) → ℕ → List ℕ → List ℕ
due e cur [] = []
due e cur (x ∷ xs) = if leb (e x) cur then x ∷ due e cur xs else due e cur xs

unfoldable pub later : (ℕ → ℕ) → ℕ → List ℕ → List ℕ
later e cur [] = []
later e cur (x ∷ xs) = if leb (e x) cur then later e cur xs else x ∷ later e cur xs

-- An insertion at a place that is in order is the insertion by time.
pub insert-insert_at :
    (e : ℕ → ℕ) (t : ℕ) (xs : List ℕ) (k : ℕ)
    → k ≤ length xs
    → ((i : ℕ) → i < k → e (Array.get xs i) ≤ e t)
    → (k < length xs → e t < e (Array.get xs k))
    → insert e t xs ≡ Array.insert_at xs k t
unfolding insert Array.insert_at Array.get
insert-insert_at e t [] zero h before behind = refl
insert-insert_at e t [] (suc k) h before behind = absurd (omega arith)
insert-insert_at e t (x ∷ xs) zero h before behind = ground (arith, behind (omega arith))
insert-insert_at e t (x ∷ xs) (suc k) h before behind =
    let rest =
      insert-insert_at e t xs k (omega arith) (λ i b. before (suc i) (omega arith))
        (λ b. behind (omega arith)) in
    ground (arith, before 0, rest)

-- the place of an insertion
pub insert_place :
    (e : ℕ → ℕ) (t : ℕ) (xs : List ℕ)
    → IsSorted e xs
    → (k : ℕ) × (k ≤ length xs)
      × ((i : ℕ) → i < k → e (Array.get xs i) ≤ e t)
      × ((i : ℕ) → k ≤ i → i < length xs → e t < e (Array.get xs i))
unfolding Array.get
insert_place e t [] s = (0, omega arith, λ i b. absurd (omega arith), λ i a b. absurd (omega arith))
insert_place e t (x ∷ xs) s = elim (Bool-cases (ltb (e t) (e x))) [
  | inl here ↦ (0, omega arith, λ i b. absurd (omega arith), λ i a b. ground (arith, s 0 i))
  | inr further ↦
      let (k, h, before, behind) =
        insert_place e t xs (λ i j a b. s (suc i) (suc j) (omega arith) (omega arith)) in
      (
        suc k,
        omega arith,
        elim [ zero ↦ λ b. ground arith | suc i ↦ λ b. before i (omega arith) ],
        elim [
          | zero ↦ λ a b. absurd (omega arith)
          | suc i ↦ λ a b. behind i (omega arith) (omega arith)
        ],
      )
]

pub insert-IsSorted : (e : ℕ → ℕ) (t : ℕ) (xs : List ℕ) → IsSorted e xs → IsSorted e (insert e t xs)
insert-IsSorted e t xs s =
    let (k, h, before, behind) = insert_place e t xs s in
    let len = Array.length-insert_at xs k t in
    rw (insert-insert_at e t xs k h before (behind k (omega arith))) λ i j a b. ground (
      arith,
      len,
      Array.get-insert_at xs k t i,
      Array.get-insert_at xs k t j,
      s i j,
      s i (j - 1),
      s (i - 1) (j - 1),
      before i,
      before (j - 1),
      behind j,
      behind (j - 1),
      behind (i - 1),
    )

pub remove_at-IsSorted :
    (e : ℕ → ℕ) (xs : List ℕ) (k : ℕ)
    → k < length xs
    → IsSorted e xs
    → IsSorted e (Array.remove_at xs k)
remove_at-IsSorted e xs k h s i j a b = ground (
  arith,
  Array.length-remove_at xs k h,
  Array.get-remove_at xs k i,
  Array.get-remove_at xs k j,
  s i j,
  s i (suc j),
  s (suc i) (suc j),
)

pub erase-remove_at :
    (xs : List ℕ) (k : ℕ)
    → k < length xs
    → ((i : ℕ) → i < k → Array.get xs i ≢ Array.get xs k)
    → erase (Array.get xs k) xs ≡ Array.remove_at xs k
unfolding erase Array.remove_at Array.get
erase-remove_at [] k h apart = absurd (omega arith)
erase-remove_at (x ∷ xs) zero h apart = ground arith
erase-remove_at (x ∷ xs) (suc k) h apart =
    ground (arith, apart 0, erase-remove_at xs k (omega arith) (λ i b. apart (suc i) (omega arith)))

pub index_of_has :
    (t : ℕ) (xs : List ℕ) → has t xs ≡ true → (k : ℕ) × (k < length xs) × (Array.get xs k ≡ t)
unfolding has Array.get
index_of_has t [] h = cc
index_of_has t (x ∷ xs) h = elim (Bool-cases (x == t)) [
  | inl here ↦ (0, omega arith, ground arith)
  | inr further ↦ let (k, b, e) = index_of_has t xs (ground arith) in (suc k, omega arith, e)
]

-- Where every timer expires later, none is due.
pub none_due :
    (e : ℕ → ℕ) (cur : ℕ) (xs : List ℕ)
    → ((i : ℕ) → i < length xs → cur < e (Array.get xs i))
    → (due e cur xs ≡ []) × (later e cur xs ≡ xs)
unfolding due later Array.get
none_due e cur [] h = (refl, refl)
none_due e cur (x ∷ xs) h = ground (arith, h 0, none_due e cur xs (λ i b. h (suc i) (omega arith)))

pub later-IsSorted :
    (e : ℕ → ℕ) (cur : ℕ) (xs : List ℕ) → IsSorted e xs → IsSorted e (later e cur xs)
unfolding later Array.get
later-IsSorted e cur [] s = s
later-IsSorted e cur (x ∷ xs) s = elim (Bool-cases (leb (e x) cur)) [
  | inl now ↦
      rw now (later-IsSorted e cur xs λ i j a b. s (suc i) (suc j) (omega arith) (omega arith))
  | inr not_yet ↦
      let all = (none_due e cur (x ∷ xs) (λ i b. ground (arith, s 0 i))).1 in
      subst (λ l. IsSorted e l) (sym all) s
]
