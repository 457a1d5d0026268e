-- ===== src/Denoiser.antt =====
-- The filter of the three sensors of one site (denoiser/main.c).
pub mod Exact
use data_stream_pilot.Shared.{ℕ, ◌-◌, Bool, List, [], ◌∷◌, if◌then◌else◌}
use data_stream_pilot.Shared.Int.{ℤ, pos, wrap_i16}
use data_stream_pilot.Loops.{for_each}
use data_stream_pilot.Float.{Float}

abbrev pub num_sensors : ℕ
num_sensors = 3

module _ {F D : Type 0} (fl : Float F D) where
  open fl use {
    f_of_int, d_of_int, d_div, widen, narrow, f_add, f_sub, f_div, f_lt, f_to_int, square, sqrt,
    fabs,
  }

  unfoldable pub mean_reading : List ℤ → F
  mean_reading readings =
      f_div (for_each (λ sum x. f_add sum (f_of_int x)) readings num_sensors 0 (f_of_int (pos 0)))
        (f_of_int (pos num_sensors))

  unfoldable pub std_dev_reading : List ℤ → F → F
  std_dev_reading readings mean = narrow (
      sqrt (
        widen (
          f_div
            (for_each (λ sum x. f_add sum (narrow (square (widen (f_sub (f_of_int x) mean)))))
              readings num_sensors 0 (f_of_int (pos 0)))
            (f_of_int (pos num_sensors)))))

  -- `z_score > z_threshold`
  abbrev pub is_outlier : F → F → F → ℤ → Bool
  is_outlier z_threshold mean std_dev x =
      f_lt z_threshold (narrow (fabs (widen (f_div (f_sub (f_of_int x) mean) std_dev))))

  -- the body of the last loop, over `new_mean_reading` and `sensors_count`
  abbrev pub add_kept : (ℤ → Bool) → F × ℕ → ℤ → F × ℕ
  add_kept outlier (new_mean, sensors_count) x =
      if outlier x
      then (new_mean, sensors_count - 1)
      else (f_add new_mean (f_of_int x), sensors_count)

  -- the value returned, from the sum and the count
  abbrev pub rounded_mean : F × ℕ → ℤ
  rounded_mean (new_mean, sensors_count) =
      wrap_i16 (f_to_int (f_div new_mean (f_of_int (pos sensors_count))))

  unfoldable pub filter_outliers : List ℤ → F → ℤ
  filter_outliers readings z_threshold =
      let mean = mean_reading readings in
      let std_dev = std_dev_reading readings mean in
      rounded_mean (
        for_each (add_kept (is_outlier z_threshold mean std_dev)) readings num_sensors 0
          (f_of_int (pos 0), num_sensors))

  -- `float z_threshold = 1.3`: both numbers are whole, so the quotient is the literal's double
  abbrev pub fixed_threshold : F
  fixed_threshold = narrow (d_div (d_of_int (pos 13)) (d_of_int (pos 10)))

  -- what main prints: `avg_temp`, of one set of readings
  unfoldable pub denoised : ℤ
  unfolding filter_outliers
  denoised = filter_outliers (pos 4150 ∷ pos 4250 ∷ pos 4450 ∷ []) fixed_threshold
