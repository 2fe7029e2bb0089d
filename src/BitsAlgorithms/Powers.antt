-- ===== src/BitsAlgorithms/Powers.antt =====
-- BitsAlgorithms.h: the shifts of `TRoundUpPowerOfTwoIncludingZeroPower` fill a number with ones.
use Prim.Native.Nat.{bit_or}
use native.Mathlib.Nat.{
  pow-suc, one-le-pow, mul_comm, mul-add, mul-le-mul_right, le-div_iff_mul-le, div-lt_iff_lt-mul,
  pow-le-pow_right, sub-le, mod-lt, div-add-mod', div-le_self,
}
use garbage.Prelude.{
  ℕ, zero, suc, ◌+◌, ◌-◌, ◌*◌, ◌/◌, ◌%◌, ◌^◌, ◌≤◌, ◌<◌, ◌≡◌, ap, ◌∙◌, arith, leb, Bool-cases, inl,
  inr,
}
use garbage.BitsAlgorithms.{or_shifted}
use garbage.BitsAlgorithms.Digits.{le-bit_or, bit_or-bound, le-bit_or-fields}

-- A number of `k` digits of which the first `s` are ones, or all if there are fewer.
pub record Ones (k s v : ℕ) : Type 0 where
  pub filled : 2 ^ k ≤ v + 2 ^ (k - s)
  pub below : v < 2 ^ k

-- The number of digits.
less : (n : ℕ) → suc n - 1 ≡ n
less n = omega arith

longer : (k v : ℕ) → 1 ≤ v → Ones k 1 (v / 2) → Ones (suc k) 1 v
longer zero v b o = record { filled = omega (arith, o.filled); below = omega (arith, o.below) }
longer (suc j) v b o = record {
  filled = omega (
    arith,
    o.filled,
    pow-suc 2 j,
    pow-suc 2 (suc j),
    ap (λ (n : ℕ). 2 ^ n) (less j),
    ap (λ (n : ℕ). 2 ^ n) (less (suc j)),
  );
  below = omega (arith, o.below, pow-suc 2 (suc j));
}

pub digits_of : (n v : ℕ) → v ≤ n → (k : ℕ) × Ones k 1 v
digits_of n zero h = (0, record { filled = omega arith; below = omega arith })
digits_of zero (suc v) h = absurd (omega arith)
digits_of (suc n) (suc v) h =
    let (k, ones) = digits_of n (suc v / 2) (omega arith) in
    (suc k, longer k (suc v) (omega arith) ones)

two_powers : (m s : ℕ) → 2 ^ (m + s) ≡ 2 ^ s * 2 ^ m
two_powers m zero = omega (arith, ap (λ (n : ℕ). 2 ^ n) (none_more m))
  where
    none_more : (m : ℕ) → m + 0 ≡ m
    none_more m = omega arith
two_powers m (suc s) = omega (
  arith,
  ap (λ (n : ℕ). 2 ^ n) (one_more m s),
  pow-suc 2 (m + s),
  ap (λ (n : ℕ). n * 2 ^ m) (pow-suc 2 s),
  two_powers m s,
)
  where
    one_more : (m s : ℕ) → m + suc s ≡ suc (m + s)
    one_more m s = omega arith

-- A product and its parts.
with_rest : (p m j : ℕ) → j ≤ m → p * m ≡ p * (m - j) + p * j
with_rest p m j h = ap (λ (n : ℕ). p * n) (parts m j h) ∙ mul-add p (m - j) j
  where
    parts : (m j : ℕ) → j ≤ m → m ≡ (m - j) + j
    parts m j h = omega arith

but_one : (p m : ℕ) → 1 ≤ p → p * m ≡ (p - 1) * m + m
but_one p m h = omega (arith, mul_comm p m, mul_comm (p - 1) m, with_rest m p 1 h)

-- The digits that are shifted in: `M`, `p` and `j` are 2 to the m, s and m - s.
shifted_digits : (p M j v : ℕ) → 1 ≤ p → j ≤ M → M ≤ p * j → p * M ≤ v + M → M - j ≤ v / p
shifted_digits p M j v b c d l =
    (le-div_iff_mul-le {k = p} {x = M - j} {y = v} b).1
      (omega (arith, with_rest p M j c, mul_comm p (M - j)))

first_digits : (p M v : ℕ) → 1 ≤ p → 1 ≤ M → p * M ≤ v + M → (p - 1) * M ≤ v / M * M
first_digits p M v b c l =
    mul-le-mul_right M
      ((le-div_iff_mul-le {k = M} {x = p - 1} {y = v} c).1 (omega (arith, but_one p M b)))

-- A number of m + s digits of which the first s are ones, and another with as many ones below them.
shifted_in :
    (m s v : ℕ)
    → 2 ^ s * 2 ^ m ≤ v + 2 ^ m
    → v < 2 ^ s * 2 ^ m
    → 2 ^ s * 2 ^ m ≤ bit_or v (v / 2 ^ s) + 2 ^ (m - s)
shifted_in m s v l u =
    let p = one-le-pow s 2 (omega arith) in
    let q = one-le-pow m 2 (omega arith) in
    let fits : m ≤ (m - s) + s = omega arith in
    let reach = pow-le-pow_right {n = 2} (omega arith) fits in
    let smaller = pow-le-pow_right {n = 2} (omega arith) {i = m - s} {j = m} (sub-le m s) in
    let shifted =
      shifted_digits (2 ^ s) (2 ^ m) (2 ^ (m - s)) v p smaller
        (omega (arith, reach, two_powers (m - s) s)) l in
    let below =
      (div-lt_iff_lt-mul {k = 2 ^ s} {x = v} {y = 2 ^ m} p).1
        (omega (arith, u, mul_comm (2 ^ s) (2 ^ m))) in
    let fields = le-bit_or-fields m (v / 2 ^ m) (v % 2 ^ m) (v / 2 ^ s) (mod-lt v q) below in
    omega (
      arith,
      but_one (2 ^ s) (2 ^ m) p,
      first_digits (2 ^ s) (2 ^ m) v p q l,
      shifted,
      fields,
      smaller,
      ap (λ (n : ℕ). bit_or n (v / 2 ^ s)) (div-add-mod' v (2 ^ m)),
    )

enough_digits : (k s v : ℕ) → s ≤ k → Ones k s v → 2 ^ k ≤ bit_or v (v / 2 ^ s) + 2 ^ (k - (s + s))
enough_digits k s v h o =
    let split : k ≡ (k - s) + s = omega arith in
    let twice_less : (k - s) - s ≡ k - (s + s) = omega arith in
    let whole = ap (λ (n : ℕ). 2 ^ n) split ∙ two_powers (k - s) s in
    omega (
      arith,
      whole,
      ap (λ (n : ℕ). 2 ^ n) twice_less,
      shifted_in (k - s) s v (omega (arith, whole, o.filled)) (omega (arith, whole, o.below)),
    )

all_digits : (k s v : ℕ) → k < s → Ones k s v → 2 ^ k ≤ bit_or v (v / 2 ^ s) + 2 ^ (k - (s + s))
all_digits k s v h o =
    let none_left : k - s ≡ 0 = omega arith in
    omega (
      arith,
      o.filled,
      ap (λ (n : ℕ). 2 ^ n) none_left,
      le-bit_or v (v / 2 ^ s),
      one-le-pow (k - (s + s)) 2 (omega arith),
    )

-- One line of the template doubles the ones.
pub or_shifted-Ones : (k s v : ℕ) → Ones k s v → Ones k (s + s) (or_shifted v s)
unfolding or_shifted
or_shifted-Ones k s v o = record {
  filled = elim (Bool-cases (leb s k)) [
    | inl enough ↦ enough_digits k s v (ground (arith, enough)) o
    | inr few ↦ all_digits k s v (ground (arith, few)) o
  ];
  below = bit_or-bound k v (v / 2 ^ s) o.below (omega (arith, o.below, div-le_self v (2 ^ s)));
}
