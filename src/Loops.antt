-- ===== src/Loops.antt =====
-- The counted loops over an array, `for (int i = 0; i < n; i++) body(data[i])`.
use data_stream_pilot.Shared.{
  ℕ, zero, suc, ◌+◌, ◌≡◌, refl, ap, List, [], ◌∷◌, ◌++◌, arith, length, get_or, set,
}
use data_stream_pilot.Shared.Int.{ℤ, pos}
use mathlib.Core.List.{foldl, append_assoc}

module _ {ℓ} {S : Type ℓ} where
  -- `rounds` rounds from index `i` on; `s` holds the variables that the body changes
  unfoldable pub for_each : (S → ℤ → S) → List ℤ → ℕ → ℕ → S → S
  for_each body data_list zero i s = s
  for_each body data_list (suc rounds) i s =
      for_each body data_list rounds (i + 1) (body s (get_or data_list i (pos 0)))

pub get_or-append :
    (before : List ℤ) (x : ℤ) (after : List ℤ) (d : ℤ)
    → get_or (before ++ (x ∷ after)) (length before) d ≡ x
get_or-append [] x after d = refl
get_or-append (y ∷ before) x after d = get_or-append before x after d

pub set-append :
    (before : List ℤ) (x : ℤ) (after : List ℤ) (v : ℤ)
    → set (before ++ (x ∷ after)) (length before) v ≡ before ++ (v ∷ after)
set-append [] x after v = refl
set-append (y ∷ before) x after v = ap (λ l. y ∷ l) (set-append before x after v)

pub length-snoc : (before : List ℤ) (x : ℤ) → length (before ++ (x ∷ [])) ≡ length before + 1
length-snoc [] x = omega arith
length-snoc (y ∷ before) x = omega (arith, length-snoc before x)

module _ {ℓ} {S : Type ℓ} (body : S → ℤ → S) where
  for_each_rest :
      (after before : List ℤ) (s : S)
      → for_each body (before ++ after) (length after) (length before) s ≡ foldl body s after
  unfolding for_each
  for_each_rest [] before s = refl
  for_each_rest (x ∷ after) before s =
      let ih = for_each_rest after (before ++ (x ∷ [])) (body s x) in
      rw (get_or-append before x after (pos 0), for_each)
        (rw (append_assoc before (x ∷ []) after, length-snoc before x) at ih)

  -- The loop over a whole array is a left fold.
  pub for_each-foldl :
      (data_list : List ℤ) (n : ℕ) (s : S)
      → length data_list ≡ n
      → for_each body data_list n 0 s ≡ foldl body s data_list
  for_each-foldl data_list n s e = rw (← e) (for_each_rest data_list [] s)
