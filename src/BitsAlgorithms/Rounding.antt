-- ===== src/BitsAlgorithms/Rounding.antt =====
-- BitsAlgorithms.h: the powers of two that the templates find and test.
use Prim.Native.Nat.{bit_and}
use native.Mathlib.Nat.{le_refl, pow-suc, one-le-pow, pow-le-pow_right}
use garbage.Prelude.{
  ℕ, zero, suc, ◌+◌, ◌-◌, ◌*◌, ◌/◌, ◌%◌, ◌^◌, ◌≤◌, ◌<◌, ◌≡◌, refl, sym, ap, ap₂, ◌∙◌, arith, true,
  false, leb, ==_iff, ◌==◌, ◌↔◌, Bool-cases, inl, inr,
}
use garbage.BitsAlgorithms.{
  or_shifted, round_up_power_of_two, is_power_of_two, max_template_value, word, minus_one,
}
use garbage.BitsAlgorithms.Digits.{bit_and-lowest}
use garbage.BitsAlgorithms.Powers.{Ones, digits_of, or_shifted-Ones}

minus_one-exact : (value : ℕ) → 1 ≤ value → value < word → minus_one value ≡ value - 1
minus_one-exact value b c = omega arith

-- A number of k digits is below 2 ^ j for no smaller j.
least : (k v j : ℕ) → Ones k 1 v → v < 2 ^ j → k ≤ j
least zero v j o b = omega arith
least (suc k) v j o b = elim (Bool-cases (leb (suc k) j)) [
  | inl enough ↦ ground (arith, enough)
  | inr few ↦
      let same : suc k - 1 ≡ k = omega arith in
      let below : j ≤ k = ground (arith, few) in
      absurd (
        omega (
          arith,
          o.filled,
          ap (λ (n : ℕ). 2 ^ n) same,
          pow-suc 2 k,
          pow-le-pow_right {n = 2} (omega arith) below,
        ))
]

-- After the five lines every digit is a one.
all_ones : ℕ → ℕ
all_ones v = or_shifted (or_shifted (or_shifted (or_shifted (or_shifted v 1) 2) 4) 8) 16

all_ones_lem : (k v : ℕ) → k ≤ 30 → Ones k 1 v → all_ones v + 1 ≡ 2 ^ k
unfolding all_ones
all_ones_lem k v few o =
    let o2 = or_shifted-Ones k 1 v o in
    let o4 = or_shifted-Ones k 2 (or_shifted v 1) o2 in
    let o8 = or_shifted-Ones k 4 (or_shifted (or_shifted v 1) 2) o4 in
    let o16 = or_shifted-Ones k 8 (or_shifted (or_shifted (or_shifted v 1) 2) 4) o8 in
    let o32 =
      or_shifted-Ones k 16 (or_shifted (or_shifted (or_shifted (or_shifted v 1) 2) 4) 8) o16 in
    let none_left : k - 32 ≡ 0 = omega (arith, few) in
    omega (arith, o32.filled, o32.below, ap (λ (n : ℕ). 2 ^ n) none_left)

round_up-all_ones :
    (value : ℕ) → round_up_power_of_two value ≡ (all_ones (minus_one value) + 1) % word
unfolding round_up_power_of_two all_ones
round_up-all_ones value = refl

in_word : (k : ℕ) → k ≤ 30 → 2 ^ k % word ≡ 2 ^ k
in_word k few = omega (arith, pow-le-pow_right {n = 2} (omega arith) few)

round_up_lem :
    (value k : ℕ)
    → 1 ≤ value
    → value < word
    → k ≤ 30
    → Ones k 1 (value - 1)
    → round_up_power_of_two value ≡ 2 ^ k
round_up_lem value k b c few o =
    round_up-all_ones value
    ∙ ap (λ (v : ℕ). (all_ones v + 1) % word) (minus_one-exact value b c)
    ∙ ap (λ (v : ℕ). v % word) (all_ones_lem k (value - 1) few o)
    ∙ in_word k few

-- For 1 to the largest template value: the template rounds up to a power of two that is not less
-- than the value, and no smaller power of two is.
pub round_up_power_of_two-least :
    (value : ℕ)
    → 1 ≤ value
    → value ≤ max_template_value
    → (k : ℕ) × (round_up_power_of_two value ≡ 2 ^ k)
      × (value ≤ 2 ^ k)
      × ((j : ℕ) → value ≤ 2 ^ j → 2 ^ k ≤ 2 ^ j)
round_up_power_of_two-least value b c =
    let (k, ones) = digits_of (value - 1) (value - 1) (le_refl _) in
    (
      k,
      round_up_lem value k b (omega (arith, c)) (least k (value - 1) 30 ones (omega (arith, b, c)))
          ones,
      omega (arith, ones.below),
      (λ j d.
          pow-le-pow_right {n = 2} (omega arith)
            (least k (value - 1) j ones (omega (arith, b, d)))),
    )

-- The digits that a number and the one below it share.
and_self : (n a : ℕ) → a ≤ n → bit_and a a ≡ a
and_self n zero h = refl
and_self zero (suc a) h = absurd (omega arith)
and_self (suc n) (suc a) h =
    omega (arith, bit_and-lowest (suc a) (suc a), and_self n (suc a / 2) (omega arith))

and_below_even : (w : ℕ) → 1 ≤ w → bit_and (2 * w) (2 * w - 1) ≡ 2 * bit_and w (w - 1)
and_below_even w b =
    omega (arith, bit_and-lowest (2 * w) (2 * w - 1), ap₂ bit_and (half_even w) (half_below w b))
  where
    half_even : (w : ℕ) → 2 * w / 2 ≡ w
    half_even w = omega arith

    half_below : (w : ℕ) → 1 ≤ w → (2 * w - 1) / 2 ≡ w - 1
    half_below w b = omega arith

and_below_odd : (w : ℕ) → bit_and (2 * w + 1) (2 * w + 1 - 1) ≡ 2 * w
and_below_odd w = omega (
  arith,
  bit_and-lowest (2 * w + 1) (2 * w + 1 - 1),
  ap₂ bit_and (half_odd w) (half_less w),
  and_self w w (le_refl w),
)
  where
    half_odd : (w : ℕ) → (2 * w + 1) / 2 ≡ w
    half_odd w = omega arith

    half_less : (w : ℕ) → (2 * w + 1 - 1) / 2 ≡ w
    half_less w = omega arith

power_lem : (k : ℕ) → bit_and (2 ^ k) (2 ^ k - 1) ≡ 0
power_lem zero = refl
power_lem (suc k) =
    ap (λ (p : ℕ). bit_and p (p - 1)) (doubled k)
    ∙ and_below_even (2 ^ k) (one-le-pow k 2 (omega arith))
    ∙ ap (λ (n : ℕ). 2 * n) (power_lem k)
  where
    doubled : (k : ℕ) → 2 ^ suc k ≡ 2 * 2 ^ k
    doubled k = omega (arith, pow-suc 2 k)

power_from : (n v : ℕ) → v ≤ n → 1 ≤ v → bit_and v (v - 1) ≡ 0 → (k : ℕ) × (v ≡ 2 ^ k)
power_from zero v h b e = absurd (omega arith)
power_from (suc n) v h b e = elim (Bool-cases (v % 2 == 0)) [
  | inl even ↦
      let whole : v ≡ 2 * (v / 2) = ground (arith, even) in
      let less =
        ap (λ (p : ℕ). bit_and p (p - 1)) whole
        ∙ and_below_even (v / 2) (omega (arith, b, whole)) in
      let (k, p) =
        power_from n (v / 2) (omega arith) (omega (arith, b, whole)) (omega (arith, e, less)) in
      (suc k, omega (arith, whole, p, pow-suc 2 k))
  | inr odd ↦
      let part : v ≡ 2 * (v / 2) + 1 = ground (arith, odd) in
      let less = ap (λ (p : ℕ). bit_and p (p - 1)) part ∙ and_below_odd (v / 2) in
      (0, omega (arith, e, less, part))
]

is_power_lem :
    (value : ℕ)
    → 1 ≤ value
    → value < word
    → is_power_of_two value ≡ (bit_and value (value - 1) == 0)
unfolding is_power_of_two
is_power_lem value b c =
    let there : (value == 0) ≡ false = ground arith in rw (there, minus_one-exact value b c) refl

-- For 0 to the largest template value: the template's value is true exactly for the powers of
-- two.
pub is_power_of_two-exact :
    (value : ℕ)
    → value ≤ max_template_value
    → (is_power_of_two value ≡ true) ↔ ((k : ℕ) × (value ≡ 2 ^ k))
unfolding is_power_of_two
is_power_of_two-exact zero c =
    ((λ e. cc e), (λ (k, e). absurd (omega (arith, one-le-pow k 2 (omega arith)))))
is_power_of_two-exact (suc v) c =
    let test = is_power_lem (suc v) (omega arith) (omega (arith, c)) in
    (
      (λ e.
          power_from (suc v) (suc v) (le_refl _) (omega arith)
            ((==_iff (bit_and (suc v) (suc v - 1)) 0).0 (sym test ∙ e))),
      (λ (k, e).
          test
          ∙ (==_iff (bit_and (suc v) (suc v - 1)) 0).1
              (ap (λ (p : ℕ). bit_and p (p - 1)) e ∙ power_lem k)),
    )
