-- ===== src/Shared/Decimal/RoundTrip.antt =====
-- A number that is printed in decimal reads back, and its length is bounded.
use native.Mathlib.Nat.{pow-suc}
use Prim.Native.Nat.{ℕ, zero, suc, ◌+◌, ◌*◌, ◌/◌, ◌%◌, ◌^◌, ◌≤◌, ◌<◌}
use mathlib.Core.Path.{◌≡◌, refl, sym, ap, ◌∙◌}
use mathlib.Core.Logic.{◌≢◌, inl, inr}
use mathlib.Core.Bool.{true, false}
use mathlib.Core.List.{[], ◌∷◌, ◌++◌}
use native.Mathlib.Omega.{arith}
use data_stream_pilot.Shared.Tests.{ltb, Bool-cases}
use data_stream_pilot.Shared.Lists.{length, All}
use data_stream_pilot.Shared.Int.{ℤ, pos, negsuc, pos_part, neg_part}
use data_stream_pilot.Shared.Text.{Text}
use data_stream_pilot.Shared.Decimal.{
  digits_before, unsigned_decimal, signed_decimal, is_digit, digits_value, skip_space, signed_value,
  signed_int, strtoul, atoi,
}

-- a text that does not go on with a digit
abbrev pub EndsDigits : Text → Type 0
EndsDigits [] = Unit
EndsDigits (c ∷ s) = is_digit c ≡ false

digits_value-digit :
    (a d : ℕ) (tail : Text)
    → d < 10
    → digits_value a ((b'0' + d) ∷ tail) ≡ digits_value (a * 10 + d) tail
unfolding digits_value
digits_value-digit a d tail h =
    let e : is_digit (b'0' + d) ≡ true = ground arith in
    rw e (ap (λ k. digits_value k tail) (omega arith))

digits_value_end : (a : ℕ) (tail : Text) → EndsDigits tail → digits_value a tail ≡ a
unfolding digits_value
digits_value_end a [] h = refl
digits_value_end a (c ∷ s) h = rw h

digits_value-digits_before :
    (f n : ℕ) (tail : Text)
    → n < 10 ^ f
    → digits_value 0 (digits_before f n tail) ≡ digits_value n tail
unfolding digits_before
digits_value-digits_before zero n tail h = let e : n ≡ 0 = omega arith in rw e
digits_value-digits_before (suc f) n tail h = elim (Bool-cases (ltb n 10)) [
  | inl e ↦
      rw e
        (digits_value-digit 0 n tail (ground arith) ∙ ap (λ k. digits_value k tail) (omega arith))
  | inr e ↦ rw e (
      digits_value-digits_before f (n / 10) ((b'0' + n % 10) ∷ tail) (omega (arith, pow-suc 10 f))
      ∙ digits_value-digit (n / 10) (n % 10) tail (omega arith)
      ∙ ap (λ k. digits_value k tail) (omega arith))
]

digits_before-append :
    (f n : ℕ) (a tail : Text) → digits_before f n (a ++ tail) ≡ digits_before f n a ++ tail
unfolding digits_before
digits_before-append zero n a tail = refl
digits_before-append (suc f) n a tail = elim (Bool-cases (ltb n 10)) [
  | inl e ↦ rw e
  | inr e ↦ rw e (digits_before-append f (n / 10) ((b'0' + n % 10) ∷ a) tail)
]

-- what begins with a digit
abbrev StartsDigits : Text → Type 0
StartsDigits [] = ⊥
StartsDigits (c ∷ s) = is_digit c ≡ true

digits_before-StartsDigits :
    (f n : ℕ) (tail : Text) → StartsDigits tail → StartsDigits (digits_before f n tail)
unfolding digits_before
digits_before-StartsDigits zero n tail h = h
digits_before-StartsDigits (suc f) n tail h = elim (Bool-cases (ltb n 10)) [
  | inl e ↦ rw e (ground arith)
  | inr e ↦ rw e (digits_before-StartsDigits f (n / 10) ((b'0' + n % 10) ∷ tail) (ground arith))
]

unsigned_decimal-StartsDigits : (n : ℕ) (rest : Text) → StartsDigits (digits_before 10 n rest)
unfolding digits_before
unsigned_decimal-StartsDigits n rest = elim (Bool-cases (ltb n 10)) [
  | inl e ↦ rw e (ground arith)
  | inr e ↦ rw e (digits_before-StartsDigits 9 (n / 10) ((b'0' + n % 10) ∷ rest) (ground arith))
]

unsigned_decimal-append :
    (n : ℕ) (rest : Text) → unsigned_decimal n ++ rest ≡ digits_before 10 n rest
unfolding unsigned_decimal
unsigned_decimal-append n rest = sym (digits_before-append 10 n [] rest)

unsigned_decimal_value :
    (n : ℕ) (rest : Text)
    → n < 10 ^ 10
    → EndsDigits rest
    → digits_value 0 (unsigned_decimal n ++ rest) ≡ n
unsigned_decimal_value n rest h e =
    rw (unsigned_decimal-append n rest)
      (digits_value-digits_before 10 n rest h ∙ digits_value_end n rest e)

signed_value_of_digits :
    (s : Text) → StartsDigits s → signed_value (skip_space s) ≡ (false, digits_value 0 s)
unfolding signed_value skip_space
signed_value_of_digits [] h = absurd h
signed_value_of_digits (c ∷ s) h = ground arith

signed_value-unsigned_decimal :
    (n : ℕ) (rest : Text)
    → n < 10 ^ 10
    → EndsDigits rest
    → signed_value (skip_space (unsigned_decimal n ++ rest)) ≡ (false, n)
signed_value-unsigned_decimal n rest h e =
    signed_value_of_digits (unsigned_decimal n ++ rest)
      (rw (unsigned_decimal-append n rest) (unsigned_decimal-StartsDigits n rest))
    ∙ ap (λ v. (false, v)) (unsigned_decimal_value n rest h e)

-- What `%u` prints, `strtoul` reads.
pub strtoul-unsigned_decimal :
    (n : ℕ) (rest : Text) → n < 2 ^ 32 → EndsDigits rest → strtoul (unsigned_decimal n ++ rest) ≡ n
unfolding strtoul
strtoul-unsigned_decimal n rest h e =
    rw (signed_value-unsigned_decimal n rest (omega arith) e) (ground arith)

signed_value_minus :
    (n : ℕ) (rest : Text)
    → n < 10 ^ 10
    → EndsDigits rest
    → signed_value (skip_space (b'-' ∷ (unsigned_decimal n ++ rest))) ≡ (true, n)
unfolding signed_value skip_space
signed_value_minus n rest h e = ap (λ v. (true, v)) (unsigned_decimal_value n rest h e)

-- What `%d` prints, `atoi` reads.
pub atoi-signed_decimal :
    (z : ℤ) (rest : Text)
    → pos_part z < 10 ^ 10
    → neg_part z < 10 ^ 10
    → EndsDigits rest
    → atoi (signed_decimal z ++ rest) ≡ z
unfolding atoi signed_decimal
atoi-signed_decimal (pos n) rest h k e = ap signed_int (signed_value-unsigned_decimal n rest h e)
atoi-signed_decimal (negsuc n) rest h k e =
    ap signed_int (signed_value_minus (suc n) rest k e) ∙ ground arith

length-digits_before :
    (f k n : ℕ) (tail : Text)
    → n < 10 ^ suc k
    → length (digits_before f n tail) ≤ suc k + length tail
unfolding digits_before
length-digits_before zero k n tail h = omega arith
length-digits_before (suc f) zero n tail h =
    let e : ltb n 10 ≡ true = ground arith in rw e (omega arith)
length-digits_before (suc f) (suc k) n tail h = elim (Bool-cases (ltb n 10)) [
  | inl e ↦ rw e (omega arith)
  | inr e ↦ rw e (
      omega (
        arith,
        length-digits_before f k (n / 10) ((b'0' + n % 10) ∷ tail)
            (omega (arith, pow-suc 10 (suc k), h)),
      ))
]

-- A number below 10^k takes at most k digits.
pub length-unsigned_decimal : (k n : ℕ) → n < 10 ^ suc k → length (unsigned_decimal n) ≤ suc k
unfolding unsigned_decimal
length-unsigned_decimal k n h = omega (arith, length-digits_before 10 k n [] h)

pub length-signed_decimal :
    (k : ℕ) (z : ℤ)
    → pos_part z < 10 ^ suc k
    → neg_part z < 10 ^ suc k
    → length (signed_decimal z) ≤ suc (suc k)
unfolding signed_decimal
length-signed_decimal k (pos n) p q = omega (arith, length-unsigned_decimal k n p)
length-signed_decimal k (negsuc n) p q = omega (arith, length-unsigned_decimal k (suc n) q)

digits_before-ne :
    (x f n : ℕ) (tail : Text)
    → x < b'0'
    → All (λ c. c ≢ x) tail
    → n < 10 ^ suc f
    → All (λ c. c ≢ x) (digits_before f n tail)
unfolding digits_before
digits_before-ne x zero n tail l h k = h
digits_before-ne x (suc f) n tail l h k = elim (Bool-cases (ltb n 10)) [
  | inl e ↦ rw e (omega arith, h)
  | inr e ↦ rw e (
      digits_before-ne x f (n / 10) ((b'0' + n % 10) ∷ tail) l (omega arith, h)
        (omega (arith, pow-suc 10 (suc f))))
]

-- No digit is a character in front of '0': a NUL, a quote, a comma or a minus.
pub unsigned_decimal-ne : (x n : ℕ) → x < b'0' → n < 10 ^ 10 → All (λ c. c ≢ x) (unsigned_decimal n)
unfolding unsigned_decimal
unsigned_decimal-ne x n l h = digits_before-ne x 10 n [] l tt (omega arith)

pub unsigned_decimal-digit : (n : ℕ) → n < 10 → unsigned_decimal n ≡ (b'0' + n) ∷ []
unfolding unsigned_decimal digits_before
unsigned_decimal-digit n h = let e : ltb n 10 ≡ true = ground arith in rw e refl
