-- ===== src/Window.antt =====
-- The window of readings of compute_engine/main.c, its statistics and the removal of outliers.
pub mod Clean
pub mod Sums
pub mod Steady
use data_stream_pilot.Shared.{ℕ, zero, suc, ◌+◌, Bool, not, List, if◌then◌else◌, get_or, set, arith}
use data_stream_pilot.Shared.Int.{ℤ, pos, eqb_ℤ}
use data_stream_pilot.Loops.{for_each}
use data_stream_pilot.Float.{Float}

abbrev pub window_size : ℕ
window_size = 65

module _ {F D : Type 0} (fl : Float F D) where
  open fl use {
    f_of_int, d_of_int, widen, narrow, f_sub, fabsf, d_add, d_mul, d_div, d_le, square, sqrt,
  }

  -- `sum += data.tempList[i]` of main
  abbrev pub add_reading : D → ℤ → D
  add_reading sum x = d_add sum (d_of_int x)

  unfoldable pub sum_window : List ℤ → D
  sum_window temp_list = for_each add_reading temp_list window_size 0 (d_of_int (pos 0))

  -- `data[i] - mean` is a float, and pow takes it as a double
  abbrev pub add_deviation : F → D → ℤ → D
  add_deviation mean sum x = d_add sum (square (widen (f_sub (f_of_int x) mean)))

  unfoldable pub calculate_stddev : List ℤ → F → F
  calculate_stddev temp_list mean = narrow (
      sqrt (
        d_div (for_each (add_deviation mean) temp_list window_size 0 (d_of_int (pos 0)))
          (d_of_int (pos window_size))))

  -- `fabsf((float)x - mean) <= DEVIATION_FACTOR * stddev`, with the factor 2.0
  abbrev pub is_good : F → F → ℤ → Bool
  is_good mean stddev x =
      d_le (widen (fabsf (f_sub (f_of_int x) mean))) (d_mul (d_of_int (pos 2)) (widen stddev))

  -- the loop, in place: element `i` is read and element `j` is written
  unfoldable pub remove_from : F → F → ℕ → ℕ → ℕ → List ℤ → List ℤ
  remove_from mean stddev zero i j temp_list = temp_list
  remove_from mean stddev (suc rounds) i j temp_list =
      let x = get_or temp_list i (pos 0) in
      remove_from mean stddev rounds (i + 1) (j + 1)
        (set temp_list j (if is_good mean stddev x then x else pos 0))

  unfoldable pub remove_outliers : List ℤ → F → F → List ℤ
  remove_outliers temp_list mean stddev = remove_from mean stddev window_size 0 0 temp_list

  -- `if (data[i] != 0) { sum += data[i]; count = count + 1; }`
  abbrev pub add_nonzero : D × ℕ → ℤ → D × ℕ
  add_nonzero (sum, count) x =
      if eqb_ℤ x (pos 0) then (sum, count) else (d_add sum (d_of_int x), count + 1)

  -- `average = sum / count`, in doubles
  abbrev pub quotient : D × ℕ → D
  quotient (sum, count) = d_div sum (d_of_int (pos count))

  unfoldable pub calculate_average : List ℤ → D
  calculate_average temp_list =
      quotient (for_each add_nonzero temp_list window_size 0 (d_of_int (pos 0), 0))
