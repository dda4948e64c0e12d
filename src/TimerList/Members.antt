-- ===== src/TimerList/Members.antt =====
-- Which timers are in a list, for the lists of list_timer.h.
use socket_test.Common.{
  ℕ, zero, suc, ◌≤◌, ◌<◌, ◌≡◌, refl, ◌≢◌, true, false, List, [], ◌∷◌, arith, ◌==◌, leb, ◌||◌, ◌&&◌,
  if◌then◌else◌, length,
}
use socket_test.Common.Array
use socket_test.TimerList.Order.{insert, erase, has, due, later}

pub has-insert :
    (e : ℕ → ℕ) (t p : ℕ) (xs : List ℕ) → has p (insert e t xs) ≡ ((t == p) || has p xs)
unfolding has insert
has-insert e t p [] = refl
has-insert e t p (x ∷ xs) = ground (arith, has-insert e t p xs)

pub has-due :
    (e : ℕ → ℕ) (cur p : ℕ) (xs : List ℕ) → has p (due e cur xs) ≡ (has p xs && leb (e p) cur)
unfolding has due
has-due e cur p [] = refl
has-due e cur p (x ∷ xs) = ground (arith, has-due e cur p xs)

pub has-later :
    (e : ℕ → ℕ) (cur p : ℕ) (xs : List ℕ)
    → has p (later e cur xs) ≡ (if has p (due e cur xs) then false else has p xs)
unfolding has due later
has-later e cur p [] = refl
has-later e cur p (x ∷ xs) = ground (arith, has-later e cur p xs, has-due e cur p xs)

pub has-get : (xs : List ℕ) (i : ℕ) → i < length xs → has (Array.get xs i) xs ≡ true
unfolding has Array.get
has-get [] i h = absurd (omega arith)
has-get (x ∷ xs) zero h = ground arith
has-get (x ∷ xs) (suc i) h = ground (arith, has-get xs i (omega arith))

pub has_not :
    (p : ℕ) (xs : List ℕ) → ((i : ℕ) → i < length xs → Array.get xs i ≢ p) → has p xs ≡ false
unfolding has Array.get
has_not p [] h = refl
has_not p (x ∷ xs) h = ground (arith, h 0, has_not p xs λ i b. h (suc i) (omega arith))

pub has-remove_at :
    (xs : List ℕ) (k p : ℕ)
    → k < length xs
    → ((i : ℕ) → i < length xs → Array.get xs i ≡ Array.get xs k → i ≡ k)
    → has p (Array.remove_at xs k) ≡ (if Array.get xs k == p then false else has p xs)
unfolding has Array.get Array.remove_at
has-remove_at [] k p h apart = absurd (omega arith)
has-remove_at (x ∷ xs) zero p h apart =
    let others = has_not x xs λ i b e. absurd (omega (arith, apart (suc i) (omega arith) e)) in
    ground (arith, others)
has-remove_at (x ∷ xs) (suc k) p h apart =
    let rest =
      has-remove_at xs k p (omega arith) λ i b e. omega (arith, apart (suc i) (omega arith) e) in
    ground (arith, rest, apart 0)

pub length-insert : (e : ℕ → ℕ) (t : ℕ) (xs : List ℕ) → length (insert e t xs) ≡ suc (length xs)
unfolding insert
length-insert e t [] = refl
length-insert e t (x ∷ xs) = ground (arith, length-insert e t xs)

pub length-erase : (t : ℕ) (xs : List ℕ) → length (erase t xs) ≤ length xs
unfolding erase
length-erase t [] = omega arith
length-erase t (x ∷ xs) = ground (arith, length-erase t xs)

pub length-later : (e : ℕ → ℕ) (cur : ℕ) (xs : List ℕ) → length (later e cur xs) ≤ length xs
unfolding later
length-later e cur [] = omega arith
length-later e cur (x ∷ xs) = ground (arith, length-later e cur xs)
