-- ===== src/Common/CString/Decimal.antt =====
-- What `%d` prints, `atol` reads.
use Prim.Native.Nat.{ℕ, zero, suc, ◌+◌, ◌-◌, ◌*◌, ◌/◌, ◌%◌, ◌^◌, ◌≤◌, ◌<◌}
use mathlib.Core.Path.{◌≡◌, refl, ap, ◌∙◌}
use mathlib.Core.Bool.{true, false}
use mathlib.Core.List.{List, [], ◌∷◌, ◌++◌}
use native.Mathlib.Omega.{arith}
use socket_test.Common.Tests.{ltb, leb, ◌==◌, if◌then◌else◌, Bool-cases}
use mathlib.Core.Logic.{inl, inr}
use socket_test.Common.Int.{pos}
use socket_test.Common.Lists.{length}
use socket_test.Common.Array
use socket_test.Common.CString.{
  skip_space, leading_number, signed_number, atol, decimal_loop, decimal,
}

-- only digits
abbrev pub IsDigits : List ℕ → Type 0
IsDigits l = (i : ℕ) → i < length l → (b'0' ≤ Array.get l i) × (Array.get l i ≤ b'9')

IsDigits-cons : (d : ℕ) (l : List ℕ) → b'0' ≤ d → d ≤ b'9' → IsDigits l → IsDigits (d ∷ l)
unfolding Array.get
IsDigits-cons d l low high h zero b = (low, high)
IsDigits-cons d l low high h (suc i) b = h i (omega arith)

decimal_loop-IsDigits : (k n : ℕ) (acc : List ℕ) → IsDigits acc → IsDigits (decimal_loop k n acc)
unfolding decimal_loop
decimal_loop-IsDigits zero n acc h = h
decimal_loop-IsDigits (suc k) n acc h = elim (Bool-cases (ltb n 10)) [
  | inl one ↦ rw one (IsDigits-cons (b'0' + n) acc (ground arith) (ground arith) h)
  | inr more ↦ rw more (
      decimal_loop-IsDigits k (n / 10) ((b'0' + n % 10) ∷ acc)
        (IsDigits-cons (b'0' + n % 10) acc (omega arith) (omega arith) h))
]

decimal_loop-length : (k n : ℕ) (acc : List ℕ) → length acc ≤ length (decimal_loop k n acc)
unfolding decimal_loop
decimal_loop-length zero n acc = omega arith
decimal_loop-length (suc k) n acc =
    ground (arith, decimal_loop-length k (n / 10) ((b'0' + n % 10) ∷ acc))

leading_number-digit :
    (a d : ℕ) (s : List ℕ)
    → d < 10
    → leading_number a ((b'0' + d) ∷ s) ≡ leading_number (a * 10 + d) s
unfolding leading_number
leading_number-digit a d s h =
    let low : leb b'0' (b'0' + d) ≡ true = ground arith in
    let high : leb (b'0' + d) b'9' ≡ true = ground arith in
    let value : b'0' + d - b'0' ≡ d = omega arith in rw (low, high, value) refl

leading_number-end : (a c : ℕ) (s : List ℕ) → c < b'0' → leading_number a (c ∷ s) ≡ a
unfolding leading_number
leading_number-end a c s h = ground arith

-- The digits stand for the number, with enough rounds.
leading_number-decimal_loop :
    (k n : ℕ) (acc s : List ℕ)
    → n < k
    → leading_number 0 (decimal_loop k n acc ++ s) ≡ leading_number n (acc ++ s)
unfolding decimal_loop
leading_number-decimal_loop zero n acc s h = absurd (omega arith)
leading_number-decimal_loop (suc k) n acc s h = elim (Bool-cases (ltb n 10)) [
  | inl one ↦
      let value : 0 * 10 + n ≡ n = omega arith in
      rw one (
        leading_number-digit 0 n (acc ++ s) (ground arith)
        ∙ ap (λ m. leading_number m (acc ++ s)) value)
  | inr more ↦
      let value : n / 10 * 10 + n % 10 ≡ n = omega arith in
      rw more (
        leading_number-decimal_loop k (n / 10) ((b'0' + n % 10) ∷ acc) s (ground arith)
        ∙ leading_number-digit (n / 10) (n % 10) (acc ++ s) (omega arith)
        ∙ ap (λ m. leading_number m (acc ++ s)) value)
]

skip_space-digit : (d : ℕ) (l : List ℕ) → b'0' ≤ d → skip_space (d ∷ l) ≡ d ∷ l
unfolding skip_space
skip_space-digit d l low = ground arith

not_clamped : (m : ℕ) → m < 2 ^ 63 → (if ltb m (2 ^ 63) then pos m else pos (2 ^ 63 - 1)) ≡ pos m
not_clamped m small = ground arith

signed_number-digit :
    (d : ℕ) (l : List ℕ)
    → b'0' ≤ d
    → leading_number 0 (d ∷ l) < 2 ^ 63
    → signed_number (d ∷ l) ≡ pos (leading_number 0 (d ∷ l))
unfolding signed_number
signed_number-digit d l low small =
    let minus : (d == b'-') ≡ false = ground arith in
    let plus : (d == b'+') ≡ false = ground arith in
    rw (minus, plus) (not_clamped (leading_number 0 (d ∷ l)) small)

-- A number that a digit starts has no blanks and no sign in front.
atol-digits :
    (l s : List ℕ)
    → IsDigits l
    → 0 < length l
    → leading_number 0 (l ++ s) < 2 ^ 63
    → atol (l ++ s) ≡ pos (leading_number 0 (l ++ s))
unfolding atol Array.get
atol-digits [] s digits some small = absurd (omega arith)
atol-digits (d ∷ l) s digits some small =
    let low = (digits 0 (omega arith)).0 in
    rw (skip_space-digit d (l ++ s) low) (signed_number-digit d (l ++ s) low small)

pub decimal-IsDigits : (n : ℕ) → IsDigits (decimal (pos n))
unfolding decimal
decimal-IsDigits n = decimal_loop-IsDigits (suc n) n [] λ i b. absurd (omega arith)

pub decimal-some : (n : ℕ) → 0 < length (decimal (pos n))
unfolding decimal decimal_loop
decimal-some n = ground (arith, decimal_loop-length n (n / 10) ((b'0' + n % 10) ∷ []))

-- `atol` of a number that `%d` printed, with a byte behind it that comes before the digits.
pub atol-decimal :
    (n c : ℕ) (s : List ℕ) → n < 2 ^ 63 → c < b'0' → atol (decimal (pos n) ++ c ∷ s) ≡ pos n
unfolding decimal
atol-decimal n c s small stop =
    let value : leading_number 0 (decimal (pos n) ++ c ∷ s) ≡ n =
      leading_number-decimal_loop (suc n) n [] (c ∷ s) (omega arith)
      ∙ leading_number-end n c s stop in
    atol-digits (decimal (pos n)) (c ∷ s) (decimal-IsDigits n) (decimal-some n)
      (ground (arith, value))
    ∙ ap pos value
