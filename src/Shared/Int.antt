-- ===== src/Shared/Int.antt =====
-- Signed integers over the native numbers, and the 16-bit ones among them.
use data_stream_pilot.Shared.Tests.{ltb, leb, if◌then◌else◌, ◌==◌}
use Prim.Native.Nat.{ℕ, suc, ◌+◌, ◌-◌, ◌%◌, ◌≤◌, ◌<◌}
use mathlib.Core.Path.{◌≡◌}
use mathlib.Core.Bool.{Bool}
use native.Mathlib.Omega.{arith}

-- `negsuc n` is -(n + 1).
pub data ℤ : Type 0 where
  pos : ℕ → ℤ
  negsuc : ℕ → ℤ

abbrev pub pos_part : ℤ → ℕ
pos_part (pos n) = n
pos_part (negsuc n) = 0

abbrev pub neg_part : ℤ → ℕ
neg_part (pos n) = 0
neg_part (negsuc n) = suc n

-- a - b, as an integer
abbrev pub sub_ℕ : ℕ → ℕ → ℤ
sub_ℕ a b = if leb b a then pos (a - b) else negsuc (b - a - 1)

infixl 65 ◌+ℤ◌ ◌-ℤ◌
infix 50 ◌≤ℤ◌
unfoldable pub ◌+ℤ◌ : ℤ → ℤ → ℤ
a +ℤ b = sub_ℕ (pos_part a + pos_part b) (neg_part a + neg_part b)

unfoldable pub ◌-ℤ◌ : ℤ → ℤ → ℤ
a -ℤ b = sub_ℕ (pos_part a + neg_part b) (neg_part a + pos_part b)

abbrev pub ◌≤ℤ◌ : ℤ → ℤ → Type 0
a ≤ℤ b = pos_part a + neg_part b ≤ pos_part b + neg_part a

abbrev pub ltb_ℤ : ℤ → ℤ → Bool
ltb_ℤ a b = ltb (pos_part a + neg_part b) (pos_part b + neg_part a)

abbrev pub eqb_ℤ : ℤ → ℤ → Bool
eqb_ℤ a b = (pos_part a + neg_part b) == (pos_part b + neg_part a)

pub +ℤ_parts :
    (a b : ℤ)
    → pos_part (a +ℤ b) + neg_part a + neg_part b ≡ neg_part (a +ℤ b) + pos_part a + pos_part b
unfolding ◌+ℤ◌
+ℤ_parts a b = ground arith

pub -ℤ_parts :
    (a b : ℤ)
    → pos_part (a -ℤ b) + neg_part a + pos_part b ≡ neg_part (a -ℤ b) + pos_part a + neg_part b
unfolding ◌-ℤ◌
-ℤ_parts a b = ground arith

pub eq_of_parts : (a b : ℤ) → pos_part a + neg_part b ≡ pos_part b + neg_part a → a ≡ b
eq_of_parts a b h = ground arith

-- the range of int16_t
abbrev pub IsI16 : ℤ → Type 0
IsI16 z = (pos_part z < 32_768) × (neg_part z ≤ 32_768)

-- the bit pattern of a value in two's complement, on 16 bits
abbrev pub to_u16 : ℤ → ℕ
to_u16 (pos n) = n % 65_536
to_u16 (negsuc n) = 65_535 - n % 65_536

abbrev pub of_u16 : ℕ → ℤ
of_u16 w = if ltb w 32_768 then pos w else negsuc (65_535 - w)

-- the conversion to int16_t, which keeps the low 16 bits
unfoldable pub wrap_i16 : ℤ → ℤ
wrap_i16 z = of_u16 (to_u16 z)

pub wrap_i16-IsI16 : (z : ℤ) → IsI16 (wrap_i16 z)
unfolding wrap_i16
wrap_i16-IsI16 z = ground arith

pub wrap_i16_of_IsI16 : (z : ℤ) → IsI16 z → wrap_i16 z ≡ z
unfolding wrap_i16
wrap_i16_of_IsI16 z h = ground arith

-- A pattern of 16 bits is that of the number that it stands for.
pub to_u16-of_u16 : (w : ℕ) → w < 65_536 → IsI16 (of_u16 w) × (to_u16 (of_u16 w) ≡ w)
to_u16-of_u16 w h = ground arith
