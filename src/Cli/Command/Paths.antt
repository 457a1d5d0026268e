-- ===== src/Cli/Command/Paths.antt =====
-- The path that is retained for block-wise transfers.
use data_stream_pilot.Shared.{
  ℕ, zero, suc, ◌+◌, ◌-◌, ◌≤◌, ◌<◌, ◌≡◌, ◌≢◌, refl, true, List, [], ◌∷◌, ◌++◌, arith, if◌then◌else◌,
  ltb, Bool-cases, inl, inr, length, replicate, get_or, drop, take, All, length-append, length-take,
  length-replicate,
}
use data_stream_pilot.Shared.Text.{Text, c_string, take_all}
use data_stream_pilot.Cli.{last_req_path_max}
use data_stream_pilot.Cli.Command.{retain_path}

-- a buffer of 64 bytes whose last byte is a NUL
abbrev pub IsRetained : List ℕ → Type 0
IsRetained path = (length path ≡ last_req_path_max) × (get_or path 63 1 ≡ 0)

drop-replicate : (k n : ℕ) → drop k (replicate {A = ℕ} n 0) ≡ replicate (n - k) 0
drop-replicate zero n = let e : n - 0 ≡ n = omega arith in rw e
drop-replicate (suc k) zero = let e : 0 - suc k ≡ 0 = omega arith in rw e
drop-replicate (suc k) (suc n) =
    let e : suc n - suc k ≡ n - k = omega arith in rw e (drop-replicate k n)

get_or-append_zeros :
    (xs : List ℕ) (m i : ℕ)
    → length xs ≤ i
    → i < length xs + m
    → get_or (xs ++ replicate m 0) i 1 ≡ 0
get_or-append_zeros [] zero i h k = absurd (omega arith)
get_or-append_zeros [] (suc m) zero h k = refl
get_or-append_zeros [] (suc m) (suc i) h k = get_or-append_zeros [] m i (omega arith) (omega arith)
get_or-append_zeros (x ∷ xs) m zero h k = absurd (omega arith)
get_or-append_zeros (x ∷ xs) m (suc i) h k = get_or-append_zeros xs m i (omega arith) (omega arith)

abbrev padded : Text → List ℕ
padded xs = xs ++ replicate (64 - length xs) 0

padded-IsRetained : (xs : Text) → length xs < 64 → IsRetained (padded xs)
padded-IsRetained xs h =
    let zeros : length (replicate {A = ℕ} (64 - length xs) 0) ≡ 64 - length xs =
      length-replicate (64 - length xs) 0 in
    (
      omega (arith, length-append xs (replicate (64 - length xs) 0), zeros),
      get_or-append_zeros xs (64 - length xs) 63 (omega arith) (omega arith),
    )

retain_path-short : (uri : Text) (n : ℕ) → n < 64 → retain_path uri n ≡ padded (take n uri)
unfolding retain_path
retain_path-short uri n h =
    let e : ltb n 64 ≡ true = ground arith in rw (e, drop-replicate (length (take n uri)) 64)

pub retain_path-IsRetained : (uri : Text) (n : ℕ) → IsRetained (retain_path uri n)
retain_path-IsRetained uri n = elim (Bool-cases (ltb n 64)) [
  | inl e ↦
      rw (retain_path-short uri n (ground arith))
        (padded-IsRetained (take n uri) (ground (arith, length-take n uri)))
  | inr e ↦ unfold retain_path in rw e (omega arith)
]

c_string-append_zeros :
    (xs : Text) (m : ℕ) → All (λ x. x ≢ 0) xs → c_string (xs ++ replicate (suc m) 0) ≡ xs
unfolding c_string
c_string-append_zeros [] m h = refl
c_string-append_zeros (x ∷ xs) m h = ground (arith, c_string-append_zeros xs m h.1)

padded_string : (uri : Text) → All (λ x. x ≢ 0) uri → length uri < 64 → c_string (padded uri) ≡ uri
padded_string uri h k =
    let e : 64 - length uri ≡ suc (63 - length uri) = omega arith in
    rw e (c_string-append_zeros uri (63 - length uri) h)

-- A path of less than 64 bytes is retained whole, and a longer one is forgotten: the buffer then
-- holds the empty string.
pub retain_path_lem :
    (uri : Text)
    → All (λ x. x ≢ 0) uri
    → c_string (retain_path uri (length uri))
      ≡ (if ltb (length uri) last_req_path_max then uri else [])
retain_path_lem uri h = elim (Bool-cases (ltb (length uri) 64)) [
  | inl e ↦
      rw
        (
          e,
          retain_path-short uri (length uri) (ground arith),
          take_all (length uri) uri (omega arith),
        )
        (padded_string uri h (ground arith))
  | inr e ↦ unfold retain_path c_string in rw e refl
]
