-- ===== src/Common/Run.antt =====
-- How a C++ call ends: with a value, with undefined behaviour (a fault), or with the model's fuel
-- running out. `Ends P r` says that the call returns, with a value of which `P` holds.
use mathlib.Core.Path.{◌≡◌, refl}
use mathlib.Core.Bool.{Bool, true, false}
use socket_test.Common.Tests.{if◌then◌else◌}

pub data Fault : Type 0 where
  out_of_bounds bad_pointer int_overflow exception missing_return : Fault

pub data Run {ℓ} (A : Type ℓ) : Type ℓ where
  ok : A → Run A
  fault : Fault → Run A
  out_of_fuel : Run A

infixl 5 ◌>>=◌
abbrev pub ◌>>=◌ {ℓ κ} : {A : Type ℓ} {B : Type κ} → Run A → (A → Run B) → Run B
ok a >>= f = f a
fault e >>= f = fault e
out_of_fuel >>= f = out_of_fuel

-- A memory access that is allowed when the test holds.
abbrev pub access {ℓ} : {A : Type ℓ} → Bool → Fault → A → Run A
access b e a = if b then ok a else fault e

pub data Ends {ℓ κ} {A : Type ℓ} (P : A → Type κ) : Run A → Type (ℓ ⊔ κ) where
  ends : {a : A} → P a → Ends P (ok a)

-- `P` holds of the value, if the call returns one.
pub data Keeps {ℓ κ} {A : Type ℓ} (P : A → Type κ) : Run A → Type (ℓ ⊔ κ) where
  returned : {a : A} → P a → Keeps P (ok a)
  faulted : {e : Fault} → Keeps P (fault e)
  still_running : Keeps P out_of_fuel

module _ {ℓ κ} {A : Type ℓ} {P : A → Type κ} where
  pub Keeps-bind {ℓ' κ'} :
      {B : Type ℓ'} {Q : B → Type κ'} {r : Run A} {f : A → Run B}
      → Keeps P r
      → ((a : A) → P a → Keeps Q (f a))
      → Keeps Q (r >>= f)
  Keeps-bind (returned p) next = next _ p
  Keeps-bind faulted next = faulted
  Keeps-bind still_running next = still_running

  pub Keeps-mono {κ'} :
      {Q : A → Type κ'} {r : Run A} → Keeps P r → ((a : A) → P a → Q a) → Keeps Q r
  Keeps-mono (returned p) weaken = returned (weaken _ p)
  Keeps-mono faulted weaken = faulted
  Keeps-mono still_running weaken = still_running

  pub if-Keeps : (b : Bool) {r r' : Run A} → Keeps P r → Keeps P r' → Keeps P (if b then r else r')
  if-Keeps true p q = p
  if-Keeps false p q = q

  pub Keeps-ok : {a : A} → Keeps P (ok a) → P a
  Keeps-ok (returned p) = p

  pub Ends-bind {ℓ' κ'} :
      {B : Type ℓ'} {Q : B → Type κ'} {r : Run A} {f : A → Run B}
      → Ends P r
      → ((a : A) → P a → Ends Q (f a))
      → Ends Q (r >>= f)
  Ends-bind (ends p) next = next _ p

  pub Ends-mono {κ'} : {Q : A → Type κ'} {r : Run A} → Ends P r → ((a : A) → P a → Q a) → Ends Q r
  Ends-mono (ends p) weaken = ends (weaken _ p)

  pub Ends-bind_fault {ℓ'} :
      {B : Type ℓ'} {r : Run A} {f : A → Run B} {e : Fault}
      → Ends P r
      → ((a : A) → P a → f a ≡ fault e)
      → (r >>= f) ≡ fault e
  Ends-bind_fault (ends p) next = next _ p

  pub Ends-ok : {a : A} → Ends P (ok a) → P a
  Ends-ok (ends p) = p

  pub Ends-value : {r : Run A} → Ends P r → (a : A) × (r ≡ ok a) × P a
  Ends-value (ends p) = (_, refl, p)

  -- what holds of the value that a call ends with
  pub with_value {κ'} :
      {After : A → Type κ'} {r : Run A}
      → Ends P r
      → ((a : A) → r ≡ ok a → After a)
      → Ends (λ a. P a × After a) r
  with_value (ends p) next = ends (p, next _ refl)

  pub if-Ends :
      (b : Bool) {r r' : Run A}
      → (b ≡ true → Ends P r)
      → (b ≡ false → Ends P r')
      → Ends P (if b then r else r')
  if-Ends true p q = p refl
  if-Ends false p q = q refl
