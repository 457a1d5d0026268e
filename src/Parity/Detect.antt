-- ===== src/Parity/Detect.antt =====
-- What a receiver can detect by the parity bit that is sent with a reading.
use native.Mathlib.Nat.{pow-suc}
use data_stream_pilot.Shared.{
  ℕ, zero, suc, ◌+◌, ◌-◌, ◌*◌, ◌/◌, ◌%◌, ◌^◌, ◌<◌, ◌≡◌, Bool, true, false, ◌==◌, arith,
}
use data_stream_pilot.Shared.Int.{ℤ, IsI16, to_u16}
use data_stream_pilot.Parity.{calculate_odd_parity}
use data_stream_pilot.Parity.Ones.{ones, calculate_odd_parity_odd}

-- the receiver's test of a pattern and the parity that came with it
abbrev pub is_accepted : ℕ → ℕ → Bool
is_accepted w parity = (ones 16 w + parity) % 2 == 1

-- the pattern with bit `k` inverted
unfoldable pub toggle : ℕ → ℕ → ℕ
toggle zero w = w / 2 * 2 + (1 - w % 2)
toggle (suc k) w = w % 2 + toggle k (w / 2) * 2

-- a bit within the pattern is inverted within it
pub toggle-lt : (r k w : ℕ) → k < r → w < 2 ^ r → toggle k w < 2 ^ r
unfolding toggle
toggle-lt zero k w h l = absurd (omega arith)
toggle-lt (suc r) zero w h l = omega (arith, pow-suc 2 r)
toggle-lt (suc r) (suc k) w h l =
    let half : w / 2 < 2 ^ r = omega (arith, pow-suc 2 r) in
    omega (arith, pow-suc 2 r, toggle-lt r k (w / 2) (omega arith) half)

ones-toggle : (r k w : ℕ) → k < r → (ones r (toggle k w) + ones r w) % 2 ≡ 1
unfolding ones toggle
ones-toggle zero k w h = absurd (omega arith)
ones-toggle (suc r) zero w h =
    let e : (w / 2 * 2 + (1 - w % 2)) / 2 ≡ w / 2 = omega arith in rw e (omega arith)
ones-toggle (suc r) (suc k) w h =
    let e : (w % 2 + toggle k (w / 2) * 2) / 2 ≡ toggle k (w / 2) = omega arith in
    rw e (omega (arith, ones-toggle r k (w / 2) (omega arith)))

-- A 16-bit reading that arrives as it was sent is accepted with its parity bit; with any one of its
-- sixteen bits inverted, or with the parity bit inverted, it is refused.
pub parity_detects :
    (num : ℤ) (k : ℕ)
    → IsI16 num
    → k < 16
    → let parity = calculate_odd_parity num in
      (is_accepted (to_u16 num) parity ≡ true)
      × (is_accepted (toggle k (to_u16 num)) parity ≡ false)
      × (is_accepted (to_u16 num) (1 - parity) ≡ false)
parity_detects num k h hk =
    ground (arith, calculate_odd_parity_odd num h, ones-toggle 16 k (to_u16 num) hk)
