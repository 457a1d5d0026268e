-- ===== src/Noise.antt =====
-- The noise that compute_engine/main.c adds to a reading, and the sleep between two rounds. `rand`
-- is the C library's: `R` is its hidden state.
use data_stream_pilot.Shared.{ℕ, ◌+◌, ◌*◌, ◌/◌, ◌%◌, if◌then◌else◌, leb}
use data_stream_pilot.Shared.Int.{pos, negsuc}
use data_stream_pilot.Float.{Float}

pub record Rand (R : Type 0) : Type 0 where
  pub rand : R → ℕ × R
  pub rand_max : ℕ

module _ {F D R : Type 0} (fl : Float F D) (rn : Rand R) where
  open fl use {f_of_int, d_of_int, widen, narrow, f_mul, f_div, d_mul, d_div, sqrt, log, cos}
  open rn use {rand, rand_max}

  -- `float M_PI = 3.1415926535`; both numbers are whole and below 2^53, so the quotient is the
  -- literal's double
  abbrev pub m_pi : F
  m_pi = narrow (d_div (d_of_int (pos 31_415_926_535)) (d_of_int (pos 10_000_000_000)))

  -- `rand() / (float)RAND_MAX`
  abbrev pub unit_random : R → F × R
  unit_random r = let (n, r') = rand r in (f_div (f_of_int (pos n)) (f_of_int (pos rand_max)), r')

  -- the standard normal value of two uniform ones
  abbrev pub normal_value : F → F → F
  normal_value u1 u2 = narrow (
      d_mul (sqrt (d_mul (d_of_int (negsuc 1)) (log (widen u1))))
        (cos (widen (f_mul (f_mul (f_of_int (pos 2)) m_pi) u2))))

  unfoldable pub generate_normal_random : F → R → F × R
  generate_normal_random stddev r =
      let (u1, r1) = unit_random r in
      let (u2, r2) = unit_random r1 in (f_mul stddev (normal_value u1 u2), r2)

  unfoldable pub add_noise : F → R → F × R
  unfolding generate_normal_random
  add_noise stddev r =
      let (n, r') = rand r in
      let num = n % 100 + 1 in
      if leb 50 num then generate_normal_random stddev r' else (f_of_int (pos 0), r')

-- `sleepDuration` from the value of `rand()`: the quotient is one of integers, and the float that
-- it is given to holds it exactly
unfoldable pub sleep_duration : ℕ → ℕ → ℕ
sleep_duration rand_max randi = let u1 = randi / rand_max in u1 * 1000 + 1000
