-- ===== src/Mqtt/Data.antt =====
-- The block that holds the last publication.
use mathlib.Core.List.{append_assoc}
use data_stream_pilot.Shared.{
  ℕ, zero, suc, ◌+◌, ◌-◌, ◌≤◌, ◌≡◌, ◌≢◌, refl, ap, ◌∙◌, List, [], ◌∷◌, ◌++◌, Option, none, some,
  arith, length, take, replicate, All, length-append, length-take, length-replicate,
}
use data_stream_pilot.Shared.Text.{c_string, c_string_terminated}
use data_stream_pilot.Mqtt.{Received, strncpy, on_pub}

-- one block is held when the pointer is set, and none when it is NULL
unfoldable pub IsHeld : Received → Type 0
IsHeld r = elim r.denoised_data [ none ↦ r.blocks ≡ 0 | some block ↦ r.blocks ≡ 1 ]

unfoldable pub publications : List (List ℕ × ℕ) → Received → Received
unfolding on_pub
publications [] r = r
publications ((bytes, len) ∷ rest) r = publications rest (on_pub bytes len r)

-- the string of a buffer has no NUL, and is no longer than the buffer
c_string_nonzero : (l : List ℕ) → All (λ x. x ≢ 0) (c_string l)
unfolding c_string
c_string_nonzero [] = tt
c_string_nonzero (x ∷ l) = ground (arith, c_string_nonzero l)

length-c_string : (l : List ℕ) → length (c_string l) ≤ length l
unfolding c_string
length-c_string [] = omega arith
length-c_string (x ∷ l) = ground (arith, length-c_string l)

length-strncpy : (len : ℕ) (bytes : List ℕ) → length (strncpy len bytes) ≡ len
unfolding strncpy
length-strncpy len bytes =
    let s = c_string (take len bytes) in
    omega (
      arith,
      length-append s (replicate (len - length s) 0),
      length-replicate {A = ℕ} (len - length s) 0,
      length-c_string (take len bytes),
      length-take len bytes,
    )

replicate-snoc : (n : ℕ) → let zeros : List ℕ = replicate n 0 in zeros ++ (0 ∷ []) ≡ 0 ∷ zeros
replicate-snoc zero = refl
replicate-snoc (suc n) = ap (λ l. 0 ∷ l) (replicate-snoc n)

c_string-strncpy :
    (len : ℕ) (bytes : List ℕ)
    → c_string (strncpy len bytes ++ (0 ∷ [])) ≡ c_string (take len bytes)
unfolding strncpy
c_string-strncpy len bytes =
    let s = c_string (take len bytes) in
    let k = len - length s in
    ap c_string (append_assoc s (replicate k 0) (0 ∷ []) ∙ ap (λ l. s ++ l) (replicate-snoc k))
    ∙ c_string_terminated s (replicate k 0) (c_string_nonzero (take len bytes))

pub on_pub-IsHeld :
    (bytes : List ℕ) (len : ℕ) (r : Received) → IsHeld r → IsHeld (on_pub bytes len r)
unfolding on_pub IsHeld
on_pub-IsHeld bytes len r h = go r.denoised_data r.blocks h
  where
    go :
        (d : Option (List ℕ)) (n : ℕ)
        → elim d as (λ x. Type 0) [ none ↦ n ≡ 0 | some block ↦ n ≡ 1 ]
        → (elim d as (λ x. ℕ) [ none ↦ n | some old ↦ n - 1 ]) + 1 ≡ 1
    go none n h = omega arith
    go (some old) n h = omega arith

-- `denoised_data` when the program starts
abbrev pub nothing : Received
nothing = record { denoised_data = none; blocks = 0 }

-- From a state in which one block is held if the pointer is set and none if it is NULL, the same
-- holds after any publications: each one frees the block before its own.
pub publications-IsHeld :
    (l : List (List ℕ × ℕ)) (r : Received) → IsHeld r → IsHeld (publications l r)
unfolding publications
publications-IsHeld [] r h = h
publications-IsHeld ((bytes, len) ∷ l) r h =
    publications-IsHeld l (on_pub bytes len r) (on_pub-IsHeld bytes len r h)

-- After a publication of `len` bytes the block has `len + 1` bytes, and the string that it holds is
-- the one in the first `len` bytes published.
on_pub_block :
    (bytes : List ℕ) (len : ℕ) (r : Received)
    → let block = strncpy len bytes ++ (0 ∷ []) in
      ((on_pub bytes len r).denoised_data ≡ some block)
      × (length block ≡ len + 1)
      × (c_string block ≡ c_string (take len bytes))
unfolding on_pub
on_pub_block bytes len r = (
  refl,
  omega (arith, length-append (strncpy len bytes) (0 ∷ []), length-strncpy len bytes),
  c_string-strncpy len bytes,
)
