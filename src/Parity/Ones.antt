-- ===== src/Parity/Ones.antt =====
-- The loop of `calculate_odd_parity` against the number of ones in a 16-bit pattern.
use native.Mathlib.Nat.{pow-suc}
use data_stream_pilot.Shared.{
  ℕ, zero, suc, ◌+◌, ◌/◌, ◌%◌, ◌^◌, ◌≤◌, ◌≡◌, refl, ◌==◌, if◌then◌else◌, arith,
}
use data_stream_pilot.Shared.Int.{ℤ, pos, negsuc, IsI16, to_u16}
use data_stream_pilot.Parity.{count_bits, calculate_odd_parity}

-- the ones among the `rounds` lowest bits of a pattern
unfoldable pub ones : ℕ → ℕ → ℕ
ones zero w = 0
ones (suc rounds) w = w % 2 + ones rounds (w / 2)

count_bits_pos : (r n c : ℕ) → count_bits r (pos n) c ≡ c + ones r n
unfolding count_bits ones
count_bits_pos zero n c = omega arith
count_bits_pos (suc r) n c =
    ground (arith, count_bits_pos r (n / 2) c, count_bits_pos r (n / 2) (c + 1))

-- The bits of a negative number are those of its complement, exchanged.
count_bits_negsuc : (r n c : ℕ) → count_bits r (negsuc n) c + ones r n ≡ c + r
unfolding count_bits ones
count_bits_negsuc zero n c = omega arith
count_bits_negsuc (suc r) n c =
    ground (arith, count_bits_negsuc r (n / 2) c, count_bits_negsuc r (n / 2) (c + 1))

ones_complement : (r w n : ℕ) → w + n + 1 ≡ 2 ^ r → ones r w + ones r n ≡ r
unfolding ones
ones_complement zero w n h = refl
ones_complement (suc r) w n h =
    omega (arith, pow-suc 2 r, ones_complement r (w / 2) (n / 2) (omega (arith, pow-suc 2 r)))

pub count_bits-ones : (num : ℤ) → IsI16 num → count_bits 16 num 0 ≡ ones 16 (to_u16 num)
count_bits-ones (pos n) h =
    let e : n % 65_536 ≡ n = omega arith in rw (e, count_bits_pos 16 n 0) (omega arith)
count_bits-ones (negsuc n) h =
    omega (arith, count_bits_negsuc 16 n 0, ones_complement 16 (to_u16 (negsuc n)) n (omega arith))

parity_of_count :
    (m : ℕ) → let parity : ℕ = if m % 2 == 0 then 1 else 0 in (parity ≤ 1) × ((m + parity) % 2 ≡ 1)
parity_of_count m = ground arith

-- For every 16-bit reading, the parity is a bit, and with it the number of ones in the reading's
-- two's complement pattern is odd.
pub calculate_odd_parity_odd :
    (num : ℤ)
    → IsI16 num
    → (calculate_odd_parity num ≤ 1) × ((ones 16 (to_u16 num) + calculate_odd_parity num) % 2 ≡ 1)
unfolding calculate_odd_parity
calculate_odd_parity_odd num h = rw (count_bits-ones num h) (parity_of_count (ones 16 (to_u16 num)))
