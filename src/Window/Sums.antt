-- ===== src/Window/Sums.antt =====
-- The sums of a window are exact: the code adds 16-bit readings in doubles.
use mathlib.Core.List.{foldl}
use mathlib.Core.Path.{ap₂}
use data_stream_pilot.Shared.{
  ℕ, ◌+◌, ◌*◌, ◌^◌, ◌≤◌, ◌≡◌, refl, sym, ap, ◌∙◌, Bool, Bool-cases, inl, inr, not, ◌&&◌, List, [],
  ◌∷◌, map, arith, length, if◌then◌else◌, All, length-map,
}
use data_stream_pilot.Shared.Int.{
  ℤ, pos, pos_part, neg_part, ◌+ℤ◌, eqb_ℤ, +ℤ_parts, eq_of_parts, IsI16,
}
use data_stream_pilot.Loops.{for_each-foldl}
use data_stream_pilot.Float.{Float, IsIeee}
use data_stream_pilot.Window.{
  window_size, add_reading, sum_window, add_nonzero, quotient, calculate_average, is_good,
  remove_outliers,
}
use data_stream_pilot.Window.Clean.{clean, remove_outliers-map}

-- the mathematical sum
unfoldable pub total : List ℤ → ℤ
total [] = pos 0
total (x ∷ xs) = x +ℤ total xs

unfoldable pub select : (ℤ → Bool) → List ℤ → List ℤ
select p [] = []
select p (x ∷ xs) = if p x then x ∷ select p xs else select p xs

abbrev pub is_nonzero : ℤ → Bool
is_nonzero x = not (eqb_ℤ x (pos 0))

pub total_assoc : (a x t : ℤ) → (a +ℤ x) +ℤ t ≡ a +ℤ (x +ℤ t)
total_assoc a x t = eq_of_parts _ _ (omega (arith, +ℤ_parts))

pub zero-total : (t : ℤ) → pos 0 +ℤ t ≡ t
zero-total t = eq_of_parts _ _ (omega (arith, +ℤ_parts))

total-zero : (t : ℤ) → t +ℤ pos 0 ≡ t
total-zero t = eq_of_parts _ _ (omega (arith, +ℤ_parts))

-- one more reading is at most 2^15 away
abbrev pub IsBelow : ℕ → ℤ → Type 0
IsBelow b a = (pos_part a ≤ b) × (neg_part a ≤ b)

pub IsBelow-step : (b : ℕ) (a x : ℤ) → IsBelow b a → IsI16 x → IsBelow (b + 32_768) (a +ℤ x)
unfolding ◌+ℤ◌
IsBelow-step b a x h k = ground arith

module _ {F D : Type 0} (fl : Float F D) (laws : IsIeee fl) where
  exact_step :
      (b : ℕ) (a x : ℤ)
      → b ≤ 2 ^ 52
      → IsBelow b a
      → IsI16 x
      → fl.d_add (fl.d_of_int a) (fl.d_of_int x) ≡ fl.d_of_int (a +ℤ x)
  exact_step b a x h k i =
      let s = IsBelow-step b a x k i in
      laws.d_add_exact a x (omega arith, omega arith) (omega arith, omega arith)
        (omega arith, omega arith)

  foldl-add_reading :
      (l : List ℤ) (b : ℕ) (a : ℤ)
      → b + 32_768 * length l ≤ 2 ^ 52
      → IsBelow b a
      → All IsI16 l
      → foldl (add_reading fl) (fl.d_of_int a) l ≡ fl.d_of_int (a +ℤ total l)
  unfolding total
  foldl-add_reading [] b a h k i = ap fl.d_of_int (sym (total-zero a))
  foldl-add_reading (x ∷ l) b a h k i = rw (exact_step b a x (omega arith) k i.0) (
      foldl-add_reading l (b + 32_768) (a +ℤ x) (omega arith) (IsBelow-step b a x k i.0) i.1
      ∙ ap fl.d_of_int (total_assoc a x (total l)))

  foldl-add_nonzero :
      (l : List ℤ) (b : ℕ) (a : ℤ) (n : ℕ)
      → b + 32_768 * length l ≤ 2 ^ 52
      → IsBelow b a
      → All IsI16 l
      → foldl (add_nonzero fl) (fl.d_of_int a, n) l
        ≡ (fl.d_of_int (a +ℤ total (select is_nonzero l)), n + length (select is_nonzero l))
  unfolding total select
  foldl-add_nonzero [] b a n h k i =
      ap₂ (λ t m. (fl.d_of_int t, m)) (sym (total-zero a)) (omega arith)
  foldl-add_nonzero (x ∷ l) b a n h k i = elim (Bool-cases (eqb_ℤ x (pos 0))) [
    | inl e ↦ rw e (foldl-add_nonzero l b a n (omega arith) k i.1)
    | inr e ↦
        rw (e, exact_step b a x (omega arith) k i.0)
          (foldl-add_nonzero l (b + 32_768) (a +ℤ x) (n + 1) (omega arith)
              (IsBelow-step b a x k i.0) i.1
            ∙ ap₂ (λ t m. (fl.d_of_int t, m)) (total_assoc a x (total (select is_nonzero l)))
                (omega arith))
  ]

  -- The sum of a window of 65 readings of 16 bits is exact: the double that the loop ends with is
  -- the mathematical sum.
  pub sum_window_exact :
      (temp_list : List ℤ)
      → length temp_list ≡ window_size
      → All IsI16 temp_list
      → sum_window fl temp_list ≡ fl.d_of_int (total temp_list)
  unfolding sum_window
  sum_window_exact temp_list e i =
      for_each-foldl (add_reading fl) temp_list window_size (fl.d_of_int (pos 0)) e
      ∙ foldl-add_reading temp_list 0 (pos 0) (omega arith) (omega arith) i
      ∙ ap fl.d_of_int (zero-total (total temp_list))

  -- the average of the readings that are not 0
  pub calculate_average_lem :
      (temp_list : List ℤ)
      → length temp_list ≡ window_size
      → All IsI16 temp_list
      → let kept = select is_nonzero temp_list in
        calculate_average fl temp_list
        ≡ fl.d_div (fl.d_of_int (total kept)) (fl.d_of_int (pos (length kept)))
  unfolding calculate_average
  calculate_average_lem temp_list e i = ap (quotient fl) (
      for_each-foldl (add_nonzero fl) temp_list window_size (fl.d_of_int (pos 0), 0) e
      ∙ foldl-add_nonzero temp_list 0 (pos 0) 0 (omega arith) (omega arith) i
      ∙ ap₂ (λ t m. (fl.d_of_int t, m)) (zero-total (total (select is_nonzero temp_list)))
          (omega arith))

module _ {F D : Type 0} (fl : Float F D) (mean stddev : F) where
  -- a reading that the average after the cleaning takes in
  abbrev pub survives : ℤ → Bool
  survives x = is_good fl mean stddev x && is_nonzero x

  select-clean : (l : List ℤ) → select is_nonzero (map (clean fl mean stddev) l) ≡ select survives l
  unfolding select
  select-clean [] = refl
  select-clean (x ∷ l) = elim (Bool-cases (is_good fl mean stddev x)) [
    | inl e ↦ rw (e, select-clean l)
    | inr e ↦ rw (e, select-clean l)
  ]

  pub clean-IsI16 : (l : List ℤ) → All IsI16 l → All IsI16 (map (clean fl mean stddev) l)
  clean-IsI16 [] i = tt
  clean-IsI16 (x ∷ l) i = elim (Bool-cases (is_good fl mean stddev x)) [
    | inl e ↦ rw e (i.0, clean-IsI16 l i.1)
    | inr e ↦ rw e (omega arith, clean-IsI16 l i.1)
  ]

  -- Under the laws of IEEE 754 in IsIeee, the average that the code takes after the removal of the
  -- outliers of a window of 65 readings of 16 bits is the quotient of the exact sum and of the
  -- number of the readings that are within two standard deviations and not 0: the readings that
  -- were overwritten do not count.
  pub calculate_average-remove_outliers :
      IsIeee fl
      → (temp_list : List ℤ) → length temp_list ≡ window_size
      → All IsI16 temp_list
      → let kept = select survives temp_list in
        calculate_average fl (remove_outliers fl temp_list mean stddev)
        ≡ fl.d_div (fl.d_of_int (total kept)) (fl.d_of_int (pos (length kept)))
  calculate_average-remove_outliers laws temp_list e i =
      rw (remove_outliers-map fl mean stddev temp_list e, ← select-clean temp_list)
        (calculate_average_lem fl laws (map (clean fl mean stddev) temp_list)
          (length-map (clean fl mean stddev) temp_list ∙ e) (clean-IsI16 temp_list i))
