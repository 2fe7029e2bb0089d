-- ===== src/BitsAlgorithms/Tests.antt =====
-- BitsAlgorithms.h: the templates at some values.
use garbage.Prelude.{ℕ, ◌^◌, ◌≤◌, ◌≡◌, refl, false, arith}
use garbage.BitsAlgorithms.{round_up_power_of_two, is_power_of_two}
use garbage.BitsAlgorithms.Rounding.{round_up_power_of_two-least}

five : round_up_power_of_two 5 ≡ 8
unfolding round_up_power_of_two
five = refl

six : is_power_of_two 6 ≡ false
unfolding is_power_of_two
six = refl

round_up_power_of_two-least_example :
    (k : ℕ) × (round_up_power_of_two 1000 ≡ 2 ^ k)
    × (1000 ≤ 2 ^ k)
    × ((j : ℕ) → 1000 ≤ 2 ^ j → 2 ^ k ≤ 2 ^ j)
round_up_power_of_two-least_example = round_up_power_of_two-least 1000 (omega arith) (omega arith)
