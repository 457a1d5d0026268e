-- ===== src/Engine/Steady.antt =====
-- A steady temperature is reported as it is.
use data_stream_pilot.Shared.{ℕ, ◌<◌, ◌≡◌, refl, ap, ◌∙◌, arith}
use data_stream_pilot.Shared.Int.{pos, wrap_i16, wrap_i16_of_IsI16}
use data_stream_pilot.Float.{Float, IsIeee}
use data_stream_pilot.Window.{sum_window, calculate_stddev, remove_outliers, calculate_average}
use data_stream_pilot.Window.Steady.{
  steady, mean-steady, stddev-steady, remove_outliers-steady, average-steady,
}
use data_stream_pilot.Engine.{report_cleaned, report}

module _ {F D : Type 0} (fl : Float F D) (laws : IsIeee fl) where
  open fl use {f_of_int, d_of_int, widen, narrow, round, d_to_int}

  -- the report of a window and of its mean
  report_of :
      (m : ℕ)
      → 0 < m
      → m < 32_768
      → wrap_i16 (d_to_int (round (widen (narrow (calculate_average fl (steady 65 m)))))) ≡ pos m
  report_of m p h =
      ap (λ a. wrap_i16 (d_to_int (round (widen (narrow a))))) (average-steady fl laws m p h)
      ∙ ap (λ a. wrap_i16 (d_to_int (round (widen a)))) (laws.narrow_exact (pos m) (omega arith))
      ∙ ap (λ a. wrap_i16 (d_to_int (round a))) (laws.widen_exact (pos m) (omega arith))
      ∙ ap (λ a. wrap_i16 (d_to_int a)) (laws.round_exact (pos m) (omega arith))
      ∙ ap wrap_i16 (laws.d_to_int_exact (pos m) (omega arith))
      ∙ wrap_i16_of_IsI16 (pos m) (omega arith)

  nothing_removed :
      (m : ℕ)
      → m < 32_768
      → let l = steady 65 m in
        let mean = narrow (fl.d_div (sum_window fl l) (d_of_int (pos 65))) in
        remove_outliers fl l mean (calculate_stddev fl l mean) ≡ l
  nothing_removed m h =
      let l = steady 65 m in
      ap (λ mean. remove_outliers fl l mean (calculate_stddev fl l mean)) (mean-steady fl laws m h)
      ∙ ap (λ s. remove_outliers fl l (f_of_int (pos m)) s) (stddev-steady fl laws m h)
      ∙ remove_outliers-steady fl laws m h

  report_cleaned-steady :
      (m : ℕ)
      → 0 < m
      → m < 32_768
      → let r = report_cleaned fl (steady 65 m) in
        (r.cleaned ≡ steady 65 m)
        × (r.average ≡ f_of_int (pos m))
        × (r.deviation ≡ f_of_int (pos 0))
        × (r.rounded ≡ pos m)
  unfolding report_cleaned
  report_cleaned-steady m p h =
      let average : narrow (calculate_average fl (steady 65 m)) ≡ f_of_int (pos m) =
        ap narrow (average-steady fl laws m p h) ∙ laws.narrow_exact (pos m) (omega arith) in
      (
        refl,
        average,
        ap (λ a. calculate_stddev fl (steady 65 m) a) average ∙ stddev-steady fl laws m h,
        report_of m p h,
      )

  report-nothing_removed :
      (m : ℕ) → m < 32_768 → report fl (steady 65 m) ≡ report_cleaned fl (steady 65 m)
  unfolding report
  report-nothing_removed m h = ap (report_cleaned fl) (nothing_removed m h)

  -- Under the laws of IEEE 754 in IsIeee: where all 65 readings of the window are one positive
  -- temperature of 16 bits, no reading is removed, the standard deviation is 0, and the average and
  -- the rounded value to post are that temperature.
  pub report-steady :
      (m : ℕ)
      → 0 < m
      → m < 32_768
      → let r = report fl (steady 65 m) in
        (r.cleaned ≡ steady 65 m)
        × (r.average ≡ f_of_int (pos m))
        × (r.deviation ≡ f_of_int (pos 0))
        × (r.rounded ≡ pos m)
  report-steady m p h = rw (report-nothing_removed m h) (report_cleaned-steady m p h)
