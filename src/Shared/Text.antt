-- ===== src/Shared/Text.antt =====
-- C strings as lists of bytes: the functions of the C library that the program calls.
use Prim.Native.Nat.{ℕ, zero, suc, ◌-◌, ◌≤◌, ◌<◌}
use Prim.Native.Char.{code}
use Prim.Native.String.{String}
use mathlib.Core.Path.{◌≡◌, refl, ap}
use mathlib.Core.Logic.{◌↔◌, ◌≢◌}
use mathlib.Core.Bool.{Bool, true, false, ◌&&◌}
use mathlib.Core.List.{List, [], ◌∷◌, ◌++◌}
use native.Mathlib.Omega.{arith}
use data_stream_pilot.Shared.Tests.{◌==◌, if◌then◌else◌}
use data_stream_pilot.Shared.Lists.{All, length, take, drop}

-- a string without its NUL
abbrev pub Text : Type 0
Text = List ℕ

abbrev pub codes : String → Text
codes String.[] = []
codes (String.◌∷◌ c s) = code c ∷ codes s

-- `strcmp(a, b) == 0`
unfoldable pub str_eq : Text → Text → Bool
str_eq [] [] = true
str_eq [] (y ∷ ys) = false
str_eq (x ∷ xs) [] = false
str_eq (x ∷ xs) (y ∷ ys) = x == y && str_eq xs ys

-- the string that a buffer holds: what stands before its first NUL
unfoldable pub c_string : List ℕ → Text
c_string [] = []
c_string (x ∷ xs) = if x == 0 then [] else x ∷ c_string xs

-- `memcpy(buf, src, len src)`, within the buffer
abbrev pub overwrite : List ℕ → List ℕ → List ℕ
overwrite buf src = src ++ drop (length src) buf

pub str_eq_iff : (a b : Text) → (str_eq a b ≡ true) ↔ (a ≡ b)
unfolding str_eq
str_eq_iff [] [] = ground arith
str_eq_iff [] (y ∷ ys) = ground arith
str_eq_iff (x ∷ xs) [] = ground arith
str_eq_iff (x ∷ xs) (y ∷ ys) = ground (arith, str_eq_iff xs ys)

pub str_eq_refl : (a : Text) → str_eq a a ≡ true
str_eq_refl a = (str_eq_iff a a).1 refl

-- `snprintf(buf, size, ...)` of a text: the string that `buf` then holds, and the value returned
abbrev pub snprintf : ℕ → Text → Text × ℕ
snprintf size text = (take (size - 1) text, length text)

pub take_all {ℓ} : {A : Type ℓ} (n : ℕ) (xs : List A) → length xs ≤ n → take n xs ≡ xs
take_all zero [] h = refl
take_all zero (x ∷ xs) h = absurd (omega arith)
take_all (suc n) [] h = refl
take_all (suc n) (x ∷ xs) h = ap (λ l. x ∷ l) (take_all n xs (omega arith))

pub snprintf_fits :
    (size : ℕ) (text : Text) → length text < size → snprintf size text ≡ (text, length text)
snprintf_fits size text h = ap (λ t. (t, length text)) (take_all (size - 1) text (omega arith))

pub append-cancel {ℓ} : {A : Type ℓ} (xs : List A) {ys zs : List A} → xs ++ ys ≡ xs ++ zs → ys ≡ zs
append-cancel [] h = h
append-cancel (x ∷ xs) h = append-cancel xs (cc)

-- A copy of a string without NULs ends where its NUL is put.
pub c_string_terminated : (xs rest : Text) → All (λ x. x ≢ 0) xs → c_string (xs ++ (0 ∷ rest)) ≡ xs
unfolding c_string
c_string_terminated [] rest h = refl
c_string_terminated (x ∷ xs) rest h = ground (arith, c_string_terminated xs rest h.1)
