-- ===== src/Float.antt =====
-- The floating-point arithmetic that the sensor's C code relies on. The code's own operations are
-- modelled over any `float` and `double` types with these operations; `IsIeee` names the facts of
-- IEEE 754 and of the C mathematical library that the theorems rest on.
use data_stream_pilot.Shared.{ℕ, ◌*◌, ◌^◌, ◌≤◌, ◌<◌, ◌≡◌, Bool, true}
use data_stream_pilot.Shared.Int.{ℤ, pos, pos_part, neg_part, ◌+ℤ◌, IsI16}

-- `F` is float, `D` is double
pub record Float (F D : Type 0) : Type 0 where
  pub f_of_int : ℤ → F
  pub d_of_int : ℤ → D
  pub widen : F → D
  pub narrow : D → F
  pub f_add : F → F → F
  pub f_sub : F → F → F
  pub f_mul : F → F → F
  pub f_div : F → F → F
  pub f_lt : F → F → Bool
  pub fabsf : F → F
  pub d_add : D → D → D
  pub d_mul : D → D → D
  pub d_div : D → D → D
  pub d_le : D → D → Bool
  pub square : D → D  -- pow(x, 2)
  pub sqrt : D → D
  pub fabs : D → D
  pub log : D → D
  pub cos : D → D
  pub round : D → D
  pub d_to_int : D → ℤ  -- the conversion to an integer type, towards zero
  pub f_to_int : F → ℤ

-- the integers up to 2^k in size
abbrev pub IsWithin : ℕ → ℤ → Type 0
IsWithin k z = (pos_part z ≤ 2 ^ k) × (neg_part z ≤ 2 ^ k)

pub record IsIeee {F D : Type 0} (fl : Float F D) : Type 0 where
  -- sums of integers are exact up to 2^53
  pub d_add_exact :
      (a b : ℤ)
      → IsWithin 53 a
      → IsWithin 53 b
      → IsWithin 53 (a +ℤ b)
      → fl.d_add (fl.d_of_int a) (fl.d_of_int b) ≡ fl.d_of_int (a +ℤ b)
  pub f_add_exact :
      (a b : ℤ)
      → IsWithin 24 a
      → IsWithin 24 b
      → IsWithin 24 (a +ℤ b)
      → fl.f_add (fl.f_of_int a) (fl.f_of_int b) ≡ fl.f_of_int (a +ℤ b)
  -- a 16-bit integer is a float and a double, and stays itself from one to the other
  pub narrow_exact : (z : ℤ) → IsI16 z → fl.narrow (fl.d_of_int z) ≡ fl.f_of_int z
  pub widen_exact : (z : ℤ) → IsI16 z → fl.widen (fl.f_of_int z) ≡ fl.d_of_int z
  pub round_exact : (z : ℤ) → IsI16 z → fl.round (fl.d_of_int z) ≡ fl.d_of_int z
  pub d_to_int_exact : (z : ℤ) → IsI16 z → fl.d_to_int (fl.d_of_int z) ≡ z
  pub f_to_int_zero : fl.f_to_int (fl.f_of_int (pos 0)) ≡ pos 0
  pub f_sub_self :
      (z : ℤ) → IsI16 z → fl.f_sub (fl.f_of_int z) (fl.f_of_int z) ≡ fl.f_of_int (pos 0)
  pub fabsf_zero : fl.fabsf (fl.f_of_int (pos 0)) ≡ fl.f_of_int (pos 0)
  pub square_zero : fl.square (fl.d_of_int (pos 0)) ≡ fl.d_of_int (pos 0)
  pub sqrt_zero : fl.sqrt (fl.d_of_int (pos 0)) ≡ fl.d_of_int (pos 0)
  -- the product of 2 and 0
  pub d_mul_zero : fl.d_mul (fl.d_of_int (pos 2)) (fl.d_of_int (pos 0)) ≡ fl.d_of_int (pos 0)
  pub d_le_refl : (z : ℤ) → fl.d_le (fl.d_of_int z) (fl.d_of_int z) ≡ true
  -- a quotient that is a 16-bit integer is exact: n * z / n
  pub d_div_pos :
      (m n : ℕ)
      → m < 32_768
      → 0 < n
      → n < 2 ^ 16
      → fl.d_div (fl.d_of_int (pos (n * m))) (fl.d_of_int (pos n)) ≡ fl.d_of_int (pos m)
