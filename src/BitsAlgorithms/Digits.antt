-- ===== src/BitsAlgorithms/Digits.antt =====
-- The binary digits of `&` and `|`: one equation for the lowest, and bounds.
use Prim.Native.Nat.{min, max, digits, bitwise, bit_and, bit_or, bit_and-bitwise, bit_or-bitwise}
use native.Mathlib.Nat.{le_refl, pow-suc}
use garbage.Prelude.{ℕ, zero, suc, ◌+◌, ◌*◌, ◌/◌, ◌%◌, ◌^◌, ◌≤◌, ◌<◌, ◌≡◌, refl, ap, arith}

module _ (rest : ℕ → ℕ) (digit : ℕ → ℕ → ℕ) where
  -- How much fuel is given does not matter, if it is enough.
  enough : (m n a b : ℕ) → a ≤ m → a ≤ n → digits rest digit m a b ≡ digits rest digit n a b
  enough zero zero a b h k = refl
  enough (suc m) (suc n) zero b h k = refl
  enough zero (suc n) zero b h k = refl
  enough (suc m) zero zero b h k = refl
  enough zero n (suc a) b h k = absurd (omega arith)
  enough (suc m) zero (suc a) b h k = absurd (omega arith)
  enough (suc m) (suc n) (suc a) b h k =
      ap (λ d. d * 2 + digit (suc a % 2) (b % 2))
        (enough m n (suc a / 2) (b / 2) (omega arith) (omega arith))

  lowest :
      (a b : ℕ)
      → bitwise rest digit (suc a) b
        ≡ bitwise rest digit (suc a / 2) (b / 2) * 2 + digit (suc a % 2) (b % 2)
  lowest a b =
      ap (λ d. d * 2 + digit (suc a % 2) (b % 2))
        (enough a (suc a / 2) (suc a / 2) (b / 2) (omega arith) (le_refl _))

pub bit_or-lowest : (a b : ℕ) → bit_or a b ≡ bit_or (a / 2) (b / 2) * 2 + max (a % 2) (b % 2)
bit_or-lowest zero b = simp bit_or-bitwise (omega arith)
bit_or-lowest (suc a) b = simp bit_or-bitwise (lowest (λ y. y) max a b)

pub bit_and-lowest : (a b : ℕ) → bit_and a b ≡ bit_and (a / 2) (b / 2) * 2 + min (a % 2) (b % 2)
bit_and-lowest zero b = simp bit_and-bitwise (omega arith)
bit_and-lowest (suc a) b = simp bit_and-bitwise (lowest (λ y. zero) min a b)

-- `|` has the digits of both.
bit_or-at_least : (n a b : ℕ) → a ≤ n → a ≤ bit_or a b
bit_or-at_least n zero b h = omega arith
bit_or-at_least zero (suc a) b h = absurd (omega arith)
bit_or-at_least (suc n) (suc a) b h =
    omega (arith, bit_or-lowest (suc a) b, bit_or-at_least n (suc a / 2) (b / 2) (omega arith))

pub le-bit_or : (a b : ℕ) → a ≤ bit_or a b
le-bit_or a b = bit_or-at_least a a b (le_refl a)

neither : (a b : ℕ) → a < 1 → b < 1 → bit_or a b < 1
neither zero zero h k = omega arith
neither zero (suc b) h k = absurd (omega arith)
neither (suc a) b h k = absurd (omega arith)

pub bit_or-bound : (k a b : ℕ) → a < 2 ^ k → b < 2 ^ k → bit_or a b < 2 ^ k
bit_or-bound zero a b h k = neither a b h k
bit_or-bound (suc n) a b h k = omega (
  arith,
  pow-suc 2 n,
  bit_or-lowest a b,
  bit_or-bound n (a / 2) (b / 2) (omega (arith, pow-suc 2 n)) (omega (arith, pow-suc 2 n)),
)

twice : (q m : ℕ) → q * 2 ^ suc m ≡ 2 * (q * 2 ^ m)
twice q m = omega (arith, ap (λ (p : ℕ). q * p) (pow-suc 2 m))

half : (q r m : ℕ) → (q * 2 ^ suc m + r) / 2 ≡ q * 2 ^ m + r / 2
half q r m = omega (arith, twice q m)

-- The digits from `m` on are those of the first, and the others at least those of the second.
pub le-bit_or-fields :
    (m q r t : ℕ) → r < 2 ^ m → t < 2 ^ m → q * 2 ^ m + t ≤ bit_or (q * 2 ^ m + r) t
le-bit_or-fields zero q r t h k = omega (arith, le-bit_or (q * 2 ^ zero + r) t)
le-bit_or-fields (suc m) q r t h k = omega (
  arith,
  twice q m,
  bit_or-lowest (q * 2 ^ suc m + r) t,
  ap (λ (a : ℕ). bit_or a (t / 2)) (half q r m),
  le-bit_or-fields m q (r / 2) (t / 2) (omega (arith, pow-suc 2 m)) (omega (arith, pow-suc 2 m)),
)
