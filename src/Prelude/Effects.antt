-- ===== src/Prelude/Effects.antt =====
-- The effects of C++ code that the components share.
use Prim.Native.Nat.{ℕ}
use mathlib.Core.Bool.{Bool, true, false}
use mathlib.Core.Option.{Option, none, some}
use garbage.Prelude.Tests.{◌==◌, if◌then◌else◌}

-- The effect of undefined behaviour is `none`.
infixl 5 ◌>>=◌
abbrev pub ◌>>=◌ {ℓ κ} : {A : Type ℓ} {B : Type κ} → Option A → (A → Option B) → Option B
none >>= f = none
some a >>= f = f a

-- How a call ends: with its result, or with an exception and the state that it leaves.
pub data Outcome {ℓ κ} (S : Type ℓ) (R : Type κ) : Type (ℓ ⊔ κ) where
  returns : S → R → Outcome S R
  throws : S → Outcome S R

-- A write to memory.
abbrev pub update {ℓ} : {A : Type ℓ} → (ℕ → A) → ℕ → A → ℕ → A
update f k v n = if n == k then v else f n

-- Pointers by address: `none` is NULL.
abbrev pub ptr_eq : Option ℕ → Option ℕ → Bool
ptr_eq none none = true
ptr_eq none (some b) = false
ptr_eq (some a) none = false
ptr_eq (some a) (some b) = a == b
