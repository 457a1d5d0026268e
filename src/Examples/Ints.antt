-- ===== src/Examples/Ints.antt =====
-- An arithmetic of whole numbers in which the laws of `IsIeee` hold, for the examples.
use native.Mathlib.Nat.{mul-div_cancel_left}
use data_stream_pilot.Shared.{ℕ, zero, suc, ◌+◌, ◌*◌, ◌/◌, ◌≡◌, refl, ap, arith, if◌then◌else◌, leb}
use data_stream_pilot.Shared.Int.{
  ℤ, pos, negsuc, pos_part, neg_part, sub_ℕ, ◌+ℤ◌, ◌-ℤ◌, -ℤ_parts, eq_of_parts, ltb_ℤ,
}
use data_stream_pilot.Float.{Float, IsIeee}

abbrev abs_ℤ : ℤ → ℤ
abs_ℤ z = pos (pos_part z + neg_part z)

unfoldable pub mul_ℤ : ℤ → ℤ → ℤ
mul_ℤ a b =
    sub_ℕ (pos_part a * pos_part b + neg_part a * neg_part b)
      (pos_part a * neg_part b + neg_part a * pos_part b)

-- towards zero
unfoldable pub div_ℤ : ℤ → ℤ → ℤ
div_ℤ (pos a) (pos b) = pos (a / b)
div_ℤ (pos a) (negsuc b) = sub_ℕ 0 (a / suc b)
div_ℤ (negsuc a) (pos b) = sub_ℕ 0 (suc a / b)
div_ℤ (negsuc a) (negsuc b) = pos (suc a / suc b)

-- the greatest number up to `k` whose square is at most `n`
unfoldable pub root_below : ℕ → ℕ → ℕ
root_below n zero = 0
root_below n (suc k) = if leb (suc k * suc k) n then suc k else root_below n k

abbrev root_ℤ : ℤ → ℤ
root_ℤ z = pos (root_below (pos_part z) (pos_part z))

abbrev pub ints : Float ℤ ℤ
ints = record {
  f_of_int = λ z. z;
  d_of_int = λ z. z;
  widen = λ z. z;
  narrow = λ z. z;
  f_add = ◌+ℤ◌;
  f_sub = ◌-ℤ◌;
  f_mul = mul_ℤ;
  f_div = div_ℤ;
  f_lt = ltb_ℤ;
  fabsf = abs_ℤ;
  d_add = ◌+ℤ◌;
  d_mul = mul_ℤ;
  d_div = div_ℤ;
  d_le = λ a b. leb (pos_part a + neg_part b) (pos_part b + neg_part a);
  square = λ z. mul_ℤ z z;
  sqrt = root_ℤ;
  fabs = abs_ℤ;
  log = λ z. z;
  cos = λ z. z;
  round = λ z. z;
  d_to_int = λ z. z;
  f_to_int = λ z. z;
}

mul_zero : (z : ℤ) → mul_ℤ z (pos 0) ≡ pos 0
unfolding mul_ℤ
mul_zero z = ground arith

pub ints-IsIeee : IsIeee ints
unfolding mul_ℤ div_ℤ root_below
ints-IsIeee = record {
  d_add_exact = λ a b h k s. refl;
  f_add_exact = λ a b h k s. refl;
  narrow_exact = λ z h. refl;
  widen_exact = λ z h. refl;
  round_exact = λ z h. refl;
  d_to_int_exact = λ z h. refl;
  f_to_int_zero = refl;
  f_sub_self = λ z h. eq_of_parts _ _ (omega (arith, -ℤ_parts z z));
  fabsf_zero = refl;
  square_zero = refl;
  sqrt_zero = refl;
  d_mul_zero = mul_zero (pos 2);
  d_le_refl = λ z. ground arith;
  d_div_pos = λ m n h p k. ap pos (mul-div_cancel_left m p);
}
