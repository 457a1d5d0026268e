-- ===== src/Shared/Decimal.antt =====
-- Decimal numbers in C: `%d` and `%u` of printf, `strtoul` and `atoi`.
pub mod RoundTrip
use Prim.Native.Nat.{ℕ, zero, suc, ◌+◌, ◌-◌, ◌*◌, ◌/◌, ◌%◌, ◌^◌, ◌≤◌, ◌<◌}
use mathlib.Core.Path.{◌≡◌, refl, ap, ◌∙◌}
use mathlib.Core.Logic.{◌≢◌, inl, inr}
use mathlib.Core.Bool.{Bool, true, false, ◌&&◌, ◌||◌}
use mathlib.Core.List.{List, [], ◌∷◌, ◌++◌}
use native.Mathlib.Omega.{arith}
use data_stream_pilot.Shared.Tests.{◌==◌, if◌then◌else◌, ltb, leb, Bool-cases}
use data_stream_pilot.Shared.Lists.{length, All, length-append}
use data_stream_pilot.Shared.Int.{ℤ, pos, negsuc, sub_ℕ}
use data_stream_pilot.Shared.Text.{Text}

-- the digits of `n` in front of `tail`; ten rounds serve every number below 10^10, so each 32-bit one
unfoldable pub digits_before : ℕ → ℕ → Text → Text
digits_before zero n tail = tail
digits_before (suc fuel) n tail =
    let rest = digits_before fuel (n / 10) ((b'0' + n % 10) ∷ tail) in
    if ltb n 10 then (b'0' + n) ∷ tail else rest

unfoldable pub unsigned_decimal : ℕ → Text
unfolding digits_before
unsigned_decimal n = digits_before 10 n []

unfoldable pub signed_decimal : ℤ → Text
unfolding unsigned_decimal
signed_decimal (pos n) = unsigned_decimal n
signed_decimal (negsuc n) = b'-' ∷ unsigned_decimal (suc n)

abbrev pub is_digit : ℕ → Bool
is_digit c = leb b'0' c && leb c b'9'

-- `isspace`
abbrev pub is_space : ℕ → Bool
is_space c = c == 32 || (leb 9 c && leb c 13)

unfoldable pub digits_value : ℕ → Text → ℕ
digits_value acc [] = acc
digits_value acc (c ∷ s) =
    let rest = digits_value (acc * 10 + (c - b'0')) s in if is_digit c then rest else acc

unfoldable pub skip_space : Text → Text
skip_space [] = []
skip_space (c ∷ s) = if is_space c then skip_space s else c ∷ s

-- the sign, and what follows it
unfoldable pub signed_value : Text → Bool × ℕ
unfolding digits_value
signed_value [] = (false, 0)
signed_value (c ∷ s) =
    if c == b'-'
    then (true, digits_value 0 s)
    else if c == b'+'
    then (false, digits_value 0 s)
    else (false, digits_value 0 (c ∷ s))

-- `strtoul(s, NULL, 10)` with a 32-bit unsigned long: too large a number gives ULONG_MAX, and a
-- minus sign negates in the unsigned type
unfoldable pub strtoul : Text → ℕ
unfolding signed_value skip_space
strtoul s =
    let (minus, v) = signed_value (skip_space s) in
    if ltb (2 ^ 32 - 1) v then 2 ^ 32 - 1 else if minus then (2 ^ 32 - v) % 2 ^ 32 else v

abbrev pub signed_int : Bool × ℕ → ℤ
signed_int (minus, v) = if minus then sub_ℕ 0 v else pos v

-- `atoi`. C leaves a number outside the range of int undefined; here it is the number itself.
unfoldable pub atoi : Text → ℤ
atoi s = signed_int (signed_value (skip_space s))
