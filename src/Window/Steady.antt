-- ===== src/Window/Steady.antt =====
-- A window of equal readings: nothing is removed, and the statistics are exact.
use mathlib.Core.List.{foldl}
use mathlib.Core.Path.{ap₂}
use data_stream_pilot.Shared.{
  ℕ, zero, suc, ◌*◌, ◌<◌, ◌≡◌, refl, ap, ◌∙◌, true, List, ◌∷◌, map, arith, length, if◌then◌else◌,
  All, replicate, length-replicate,
}
use data_stream_pilot.Shared.Int.{ℤ, pos, ◌+ℤ◌, +ℤ_parts, eq_of_parts, IsI16}
use data_stream_pilot.Loops.{for_each-foldl}
use data_stream_pilot.Float.{Float, IsIeee}
use data_stream_pilot.Window.{
  sum_window, add_deviation, calculate_stddev, is_good, remove_outliers, calculate_average,
}
use data_stream_pilot.Window.Clean.{clean, remove_outliers-map}
use data_stream_pilot.Window.Sums.{
  total, select, is_nonzero, sum_window_exact, calculate_average_lem,
}

abbrev pub steady : ℕ → ℕ → List ℤ
steady n m = replicate n (pos m)

total-steady : (n m : ℕ) → total (steady n m) ≡ pos (n * m)
unfolding total
total-steady zero m = ap pos (omega arith)
total-steady (suc n) m = rw (total-steady n m) (eq_of_parts _ _ (omega (arith, +ℤ_parts)))

pub All-steady : (n m : ℕ) → m < 32_768 → All IsI16 (steady n m)
All-steady zero m h = tt
All-steady (suc n) m h = (omega arith, All-steady n m h)

select-steady : (n m : ℕ) → 0 < m → select is_nonzero (steady n m) ≡ steady n m
unfolding select
select-steady zero m h = refl
select-steady (suc n) m h =
    let e : is_nonzero (pos m) ≡ true = ground arith in rw (e, select-steady n m h)

module _ {F D : Type 0} (fl : Float F D) (laws : IsIeee fl) where
  open fl use {
    f_of_int, d_of_int, widen, narrow, f_sub, fabsf, d_add, d_mul, d_div, d_le, square, sqrt,
  }

  zero_square :
      (m : ℕ)
      → m < 32_768
      → square (widen (f_sub (f_of_int (pos m)) (f_of_int (pos m)))) ≡ d_of_int (pos 0)
  zero_square m h =
      ap (λ x. square (widen x)) (laws.f_sub_self (pos m) (omega arith))
      ∙ ap square (laws.widen_exact (pos 0) (omega arith))
      ∙ laws.square_zero

  no_deviation :
      (m : ℕ)
      → m < 32_768
      → add_deviation fl (f_of_int (pos m)) (d_of_int (pos 0)) (pos m) ≡ d_of_int (pos 0)
  unfolding ◌+ℤ◌
  no_deviation m h =
      ap (λ x. d_add (d_of_int (pos 0)) x) (zero_square m h)
      ∙ laws.d_add_exact (pos 0) (pos 0) (omega arith) (omega arith) (omega arith)

  foldl-no_deviation :
      (n m : ℕ)
      → m < 32_768
      → foldl (add_deviation fl (f_of_int (pos m))) (d_of_int (pos 0)) (steady n m)
        ≡ d_of_int (pos 0)
  foldl-no_deviation zero m h = refl
  foldl-no_deviation (suc n) m h =
      ap (λ a. foldl (add_deviation fl (f_of_int (pos m))) a (steady n m)) (no_deviation m h)
      ∙ foldl-no_deviation n m h

  pub stddev-steady :
      (m : ℕ) → m < 32_768 → calculate_stddev fl (steady 65 m) (f_of_int (pos m)) ≡ f_of_int (pos 0)
  unfolding calculate_stddev
  stddev-steady m h =
      ap (λ s. narrow (sqrt (d_div s (d_of_int (pos 65)))))
        (for_each-foldl (add_deviation fl (f_of_int (pos m))) (steady 65 m) 65 (d_of_int (pos 0))
            (length-replicate 65 (pos m))
          ∙ foldl-no_deviation 65 m h)
      ∙ ap (λ q. narrow (sqrt q)) (laws.d_div_pos 0 65 (omega arith) (omega arith) (omega arith))
      ∙ ap narrow laws.sqrt_zero
      ∙ laws.narrow_exact (pos 0) (omega arith)

  good-steady :
      (m : ℕ) → m < 32_768 → is_good fl (f_of_int (pos m)) (f_of_int (pos 0)) (pos m) ≡ true
  good-steady m h =
      ap (λ x. d_le (widen (fabsf x)) (d_mul (d_of_int (pos 2)) (widen (f_of_int (pos 0)))))
        (laws.f_sub_self (pos m) (omega arith))
      ∙ ap (λ x. d_le (widen x) (d_mul (d_of_int (pos 2)) (widen (f_of_int (pos 0)))))
          laws.fabsf_zero
      ∙ ap (λ x. d_le x (d_mul (d_of_int (pos 2)) x)) (laws.widen_exact (pos 0) (omega arith))
      ∙ ap (λ x. d_le (d_of_int (pos 0)) x) laws.d_mul_zero
      ∙ laws.d_le_refl (pos 0)

  map-clean-steady :
      (n m : ℕ)
      → m < 32_768
      → map (clean fl (f_of_int (pos m)) (f_of_int (pos 0))) (steady n m) ≡ steady n m
  map-clean-steady zero m h = refl
  map-clean-steady (suc n) m h =
      ap₂ (λ b r. (if b then pos m else pos 0) ∷ r) (good-steady m h) (map-clean-steady n m h)

  pub remove_outliers-steady :
      (m : ℕ)
      → m < 32_768
      → remove_outliers fl (steady 65 m) (f_of_int (pos m)) (f_of_int (pos 0)) ≡ steady 65 m
  remove_outliers-steady m h =
      remove_outliers-map fl (f_of_int (pos m)) (f_of_int (pos 0)) (steady 65 m)
        (length-replicate 65 (pos m))
      ∙ map-clean-steady 65 m h

  pub mean-steady :
      (m : ℕ)
      → m < 32_768
      → narrow (d_div (sum_window fl (steady 65 m)) (d_of_int (pos 65))) ≡ f_of_int (pos m)
  mean-steady m h =
      ap (λ s. narrow (d_div s (d_of_int (pos 65))))
        (sum_window_exact fl laws (steady 65 m) (length-replicate 65 (pos m)) (All-steady 65 m h)
          ∙ ap d_of_int (total-steady 65 m))
      ∙ ap narrow (laws.d_div_pos m 65 h (omega arith) (omega arith))
      ∙ laws.narrow_exact (pos m) (omega arith)

  pub average-steady :
      (m : ℕ) → 0 < m → m < 32_768 → calculate_average fl (steady 65 m) ≡ d_of_int (pos m)
  average-steady m p h =
      calculate_average_lem fl laws (steady 65 m) (length-replicate 65 (pos m)) (All-steady 65 m h)
      ∙ ap (λ l. d_div (d_of_int (total l)) (d_of_int (pos (length l)))) (select-steady 65 m p)
      ∙ ap (λ t. d_div (d_of_int t) (d_of_int (pos (length (steady 65 m))))) (total-steady 65 m)
      ∙ ap (λ k. d_div (d_of_int (pos (65 * m))) (d_of_int (pos k))) (length-replicate 65 (pos m))
      ∙ laws.d_div_pos m 65 h (omega arith) (omega arith)
