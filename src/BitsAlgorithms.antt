-- ===== src/BitsAlgorithms.antt =====
-- BitsAlgorithms.h: the templates `TIsPowerOfTwoIncludingZeroPower` and
-- `TRoundUpPowerOfTwoIncludingZeroPower`, at the 32 bits that their static checks ask for.
pub mod Digits
pub mod Powers
pub mod Rounding
pub mod Tests
use Prim.Native.Nat.{bit_and, bit_or}
use garbage.Prelude.{ℕ, ◌+◌, ◌-◌, ◌/◌, ◌%◌, ◌^◌, Bool, not, ◌&&◌, ◌==◌}

-- `MAX_TEMPLATE_VALUE`
abbrev pub max_template_value : ℕ
max_template_value = 1073741824

abbrev pub word : ℕ
word = 2 ^ 32

abbrev pub minus_one : ℕ → ℕ
minus_one value = (value + word - 1) % word

unfoldable pub is_power_of_two : ℕ → Bool
is_power_of_two value = not (value == 0) && (bit_and value (minus_one value) == 0)

-- `v | v >> s`
unfoldable pub or_shifted : ℕ → ℕ → ℕ
or_shifted v s = bit_or v (v / 2 ^ s)

-- `v1` to `vr`
unfoldable pub round_up_power_of_two : ℕ → ℕ
unfolding or_shifted
round_up_power_of_two value =
    let v2 = or_shifted (minus_one value) 1 in
    let v4 = or_shifted v2 2 in
    let v8 = or_shifted v4 4 in
    let v16 = or_shifted v8 8 in let v32 = or_shifted v16 16 in (v32 + 1) % word
