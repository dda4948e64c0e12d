-- ===== src/Common/Tally.antt =====
-- Sums over the first `n` members of a family, when one member changes.
use Prim.Native.Nat.{ℕ, zero, suc, ◌+◌, ◌≤◌, ◌<◌}
use mathlib.Core.Path.{◌≡◌, refl}
use native.Mathlib.Omega.{arith}
use native.Mathlib.Decide.{dec_lt}
use socket_test.Common.Array.{update}

module _ {ℓ} {A : Type ℓ} (weight : A → ℕ) where
  abbrev pub tally : ℕ → (ℕ → A) → ℕ
  tally zero f = 0
  tally (suc n) f = weight (f n) + tally n f

  tally-beyond : (n i : ℕ) (f : ℕ → A) (a : A) → n ≤ i → tally n (update f i a) ≡ tally n f
  tally-beyond zero i f a h = refl
  tally-beyond (suc n) i f a h = ground (arith, tally-beyond n i f a)

  pub tally-update :
      (n i : ℕ) (f : ℕ → A) (a : A)
      → i < n
      → tally n (update f i a) + weight (f i) ≡ tally n f + weight a
  tally-update zero i f a h = absurd (omega arith)
  tally-update (suc n) i f a h = elim (dec_lt i n) [
    | yes below ↦ ground (arith, tally-update n i f a below)
    | no top ↦ ground (arith, tally-beyond n i f a)
  ]

  -- a member counts
  pub le-tally : (n i : ℕ) (f : ℕ → A) → i < n → weight (f i) ≤ tally n f
  le-tally zero i f h = absurd (omega arith)
  le-tally (suc n) i f h = elim (dec_lt i n) [
    | yes below ↦ omega (arith, le-tally n i f below)
    | no top ↦ ground arith
  ]

  pub tally-zero : (n : ℕ) (f : ℕ → A) → ((i : ℕ) → i < n → weight (f i) ≡ 0) → tally n f ≡ 0
  tally-zero zero f h = refl
  tally-zero (suc n) f h = omega (arith, h n, tally-zero n f (λ i b. h i (omega arith)))
