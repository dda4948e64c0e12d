-- ===== src/Common/Array.antt =====
-- Arrays of pointers as lists under native indices, read and written at an index that is in range.
-- Meant to be used qualified: `Array.get`.
use Prim.Native.Nat.{ℕ, zero, suc, ◌+◌, ◌-◌, ◌≤◌, ◌<◌}
use mathlib.Core.Path.{◌≡◌, refl, sym, ap, ◌∙◌}
use mathlib.Core.List.{List, [], ◌∷◌, ◌++◌}
use native.Mathlib.Omega.{arith}
use socket_test.Common.Tests.{◌==◌, ltb, if◌then◌else◌}
use socket_test.Common.Lists.{length, set, drop}

-- The entry at an index; 0, the null pointer, outside the array.
unfoldable pub get : List ℕ → ℕ → ℕ
get [] i = 0
get (x ∷ xs) zero = x
get (x ∷ xs) (suc i) = get xs i

pub get-set :
    (xs : List ℕ) (i v j : ℕ)
    → i < length xs
    → get (set xs i v) j ≡ (if i == j then v else get xs j)
unfolding get
get-set [] i v j h = absurd (omega arith)
get-set (x ∷ xs) zero v zero h = refl
get-set (x ∷ xs) zero v (suc j) h = ground arith
get-set (x ∷ xs) (suc i) v zero h = ground arith
get-set (x ∷ xs) (suc i) v (suc j) h = ground (arith, get-set xs i v j)

-- A field of the objects that pointers lead to, written at one pointer.
abbrev pub update {ℓ} : {A : Type ℓ} → (ℕ → A) → ℕ → A → ℕ → A
update f p v q = if p == q then v else f q

-- The rest of a list from an index that is in range.
pub drop-get : (xs : List ℕ) (i : ℕ) → i < length xs → drop i xs ≡ get xs i ∷ drop (suc i) xs
unfolding get
drop-get [] i h = absurd (omega arith)
drop-get (x ∷ xs) zero h = refl
drop-get (x ∷ xs) (suc i) h = drop-get xs i (omega arith)

-- a new entry in front of the one at an index, or at the end
unfoldable pub insert_at : List ℕ → ℕ → ℕ → List ℕ
insert_at xs zero v = v ∷ xs
insert_at [] (suc i) v = v ∷ []
insert_at (x ∷ xs) (suc i) v = x ∷ insert_at xs i v

pub get-insert_at :
    (xs : List ℕ) (i v j : ℕ)
    → i ≤ length xs
    → get (insert_at xs i v) j
      ≡ (if ltb j i then get xs j else if j == i then v else get xs (j - 1))
unfolding get insert_at
get-insert_at xs zero v zero h = refl
get-insert_at xs zero v (suc j) h = ground arith
get-insert_at [] (suc i) v j h = absurd (omega arith)
get-insert_at (x ∷ xs) (suc i) v zero h = ground arith
get-insert_at (x ∷ xs) (suc i) v (suc zero) h = ground (arith, get-insert_at xs i v zero)
get-insert_at (x ∷ xs) (suc i) v (suc (suc j)) h = ground (arith, get-insert_at xs i v (suc j))

pub length-insert_at : (xs : List ℕ) (i v : ℕ) → length (insert_at xs i v) ≡ suc (length xs)
unfolding insert_at
length-insert_at xs zero v = refl
length-insert_at [] (suc i) v = refl
length-insert_at (x ∷ xs) (suc i) v = ap suc (length-insert_at xs i v)

-- the list without the entry at an index
unfoldable pub remove_at : List ℕ → ℕ → List ℕ
remove_at [] i = []
remove_at (x ∷ xs) zero = xs
remove_at (x ∷ xs) (suc i) = x ∷ remove_at xs i

pub get-remove_at :
    (xs : List ℕ) (i j : ℕ)
    → get (remove_at xs i) j ≡ (if ltb j i then get xs j else get xs (suc j))
unfolding get remove_at
get-remove_at [] i j = ground arith
get-remove_at (x ∷ xs) zero j = ground arith
get-remove_at (x ∷ xs) (suc i) zero = ground arith
get-remove_at (x ∷ xs) (suc i) (suc j) = ground (arith, get-remove_at xs i j)

pub length-remove_at :
    (xs : List ℕ) (i : ℕ) → i < length xs → suc (length (remove_at xs i)) ≡ length xs
unfolding remove_at
length-remove_at [] i h = absurd (omega arith)
length-remove_at (x ∷ xs) zero h = refl
length-remove_at (x ∷ xs) (suc i) h = ap suc (length-remove_at xs i (omega arith))

pub insert_at-remove_at :
    (xs : List ℕ) (i : ℕ) → i < length xs → insert_at (remove_at xs i) i (get xs i) ≡ xs
unfolding get insert_at remove_at
insert_at-remove_at [] i h = absurd (omega arith)
insert_at-remove_at (x ∷ xs) zero h = refl
insert_at-remove_at (x ∷ xs) (suc i) h = ap (λ l. x ∷ l) (insert_at-remove_at xs i (omega arith))

pub get-append :
    (xs ys : List ℕ) (j : ℕ)
    → get (xs ++ ys) j ≡ (if ltb j (length xs) then get xs j else get ys (j - length xs))
unfolding get
get-append [] ys j = ground arith
get-append (x ∷ xs) ys zero = ground arith
get-append (x ∷ xs) ys (suc j) = ground (arith, get-append xs ys j)

pub get-drop : (b : List ℕ) (i j : ℕ) → get (drop i b) j ≡ get b (i + j)
unfolding get
get-drop b zero j = ground arith
get-drop [] (suc i) j = refl
get-drop (x ∷ b) (suc i) j =
    let next : suc i + j ≡ suc (i + j) = omega arith in rw next (get-drop b i j)

pub drop-set : (b : List ℕ) (i j v : ℕ) → drop i (set b (i + j) v) ≡ set (drop i b) j v
drop-set b zero j v = let same : 0 + j ≡ j = omega arith in rw same refl
drop-set [] (suc i) j v = refl
drop-set (x ∷ b) (suc i) j v =
    let next : suc i + j ≡ suc (i + j) = omega arith in rw next (drop-set b i j v)

drop-nil : (i : ℕ) → drop {A = ℕ} i [] ≡ []
drop-nil zero = refl
drop-nil (suc i) = refl

pub drop-drop : (b : List ℕ) (i j : ℕ) → drop (i + j) b ≡ drop j (drop i b)
drop-drop b zero j = let same : 0 + j ≡ j = omega arith in rw same refl
drop-drop [] (suc i) j = drop-nil (suc i + j) ∙ sym (drop-nil j)
drop-drop (x ∷ b) (suc i) j =
    let next : suc i + j ≡ suc (i + j) = omega arith in rw next (drop-drop b i j)

pub set-append : (xs ys : List ℕ) (j v : ℕ) → set (xs ++ ys) (length xs + j) v ≡ xs ++ set ys j v
set-append [] ys j v = let same : 0 + j ≡ j = omega arith in rw same refl
set-append (x ∷ xs) ys j v =
    let next : suc (length xs) + j ≡ suc (length xs + j) = omega arith in
    rw next (ap (λ l. x ∷ l) (set-append xs ys j v))

-- `text` stands in `b` from `i` on
abbrev pub HasText : List ℕ → ℕ → List ℕ → Type 0
HasText b i text = (m : ℕ) → i ≤ m → m < i + length text → get b m ≡ get text (m - i)

pub get-front : (b xs rest : List ℕ) (i : ℕ) → drop i b ≡ xs ++ rest → HasText b i xs
get-front b xs rest i e m low high =
    let place : i + (m - i) ≡ m = omega arith in
    ap (get b) (sym place)
    ∙ sym (get-drop b i (m - i))
    ∙ ap (λ l. get l (m - i)) e
    ∙ ground (arith, get-append xs rest (m - i))
