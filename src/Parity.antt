-- ===== src/Parity.antt =====
-- The odd parity bit of a reading (`calculate_odd_parity` of compute_engine/main.c).
pub mod Ones
pub mod Detect
use data_stream_pilot.Shared.{ℕ, zero, suc, ◌+◌, ◌/◌, ◌%◌, ◌==◌, if◌then◌else◌}
use data_stream_pilot.Shared.Int.{ℤ, pos, negsuc}

-- `num & 1`, of an int in two's complement
abbrev pub low_bit : ℤ → ℕ
low_bit (pos n) = n % 2
low_bit (negsuc n) = (n + 1) % 2

-- `num >>= 1`, an arithmetic shift
abbrev pub shift_right : ℤ → ℤ
shift_right (pos n) = pos (n / 2)
shift_right (negsuc n) = negsuc (n / 2)

-- the loop, with the rounds left; `count` is at most 16 and fits its int8_t
unfoldable pub count_bits : ℕ → ℤ → ℕ → ℕ
count_bits zero num count = count
count_bits (suc rounds) num count =
    count_bits rounds (shift_right num) (if low_bit num == 0 then count else count + 1)

unfoldable pub calculate_odd_parity : ℤ → ℕ
unfolding count_bits
calculate_odd_parity num = if count_bits 16 num 0 % 2 == 0 then 1 else 0
