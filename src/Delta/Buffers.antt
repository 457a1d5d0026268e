-- ===== src/Delta/Buffers.antt =====
-- The buffers that a round of the second main writes its texts to with sprintf and strcat, neither
-- of which knows how much there is room for.
use data_stream_pilot.Shared.{
  ℕ, ◌%◌, ◌<◌, ◌≡◌, refl, Bool-cases, inl, inr, if◌then◌else◌, List, [], ◌∷◌, ◌++◌, some, none,
  arith, length, length-append, All, All-append,
}
use data_stream_pilot.Shared.Int.{ℤ, pos, IsI16, ltb_ℤ}
use data_stream_pilot.Shared.Text.{Text}
use data_stream_pilot.Shared.Decimal.{unsigned_decimal, signed_decimal}
use data_stream_pilot.Shared.Decimal.RoundTrip.{length-unsigned_decimal, length-signed_decimal}
use data_stream_pilot.Parity.{calculate_odd_parity}
use data_stream_pilot.Parity.Ones.{calculate_odd_parity_odd}
use data_stream_pilot.Delta.{Encoder, encode, round, initial}
use data_stream_pilot.Delta.Exact.{
  IsReady, IsTaken, initial-IsReady, encode_lem, round_goes_on, next_state,
}

-- `data_t.buffer`, `temp_str` and `parity_bit`
abbrev pub buffer_size : ℕ
buffer_size = 128

abbrev pub temp_str_size : ℕ
temp_str_size = 10

abbrev pub parity_bit_size : ℕ
parity_bit_size = 4

-- the strings that a round writes, in its order, each with the size of its buffer
unfoldable pub writes : Encoder → ℤ → List (Text × ℕ)
writes s temp =
    if ltb_ℤ (pos 30) temp
    then (let value = (encode (s.counter % 10) s.base_value temp).value in
        let temp_str = signed_decimal value ++ (b',' ∷ []) in
        let parity_bit = unsigned_decimal (calculate_odd_parity value) ++ (b',' ∷ []) in
        (temp_str, temp_str_size)
        ∷ (s.buffer ++ temp_str, buffer_size)
        ∷ (parity_bit, parity_bit_size)
        ∷ (s.buffer ++ (temp_str ++ parity_bit), buffer_size)
        ∷ [])
    else []

-- all that main's loop writes over the readings of its rounds
unfoldable pub all_writes : ℕ → Encoder → List ℤ → List (Text × ℕ)
all_writes site s [] = []
all_writes site s (temp ∷ temps) =
    writes s temp ++ (elim (round site s temp) [ none ↦ [] | some r ↦ all_writes site r.0 temps ])

-- a string with its NUL is within its buffer
abbrev pub IsWithin : Text × ℕ → Type 0
IsWithin (text, size) = length text < size

writes-IsWithin : (s : Encoder) (temp : ℤ) → IsReady s → IsI16 temp → All IsWithin (writes s temp)
unfolding writes
writes-IsWithin s temp r h = elim (Bool-cases (ltb_ℤ (pos 30) temp)) [
  | inr e ↦ rw e tt
  | inl e ↦
      let taken : IsTaken temp = ground arith in
      let x = encode (s.counter % 10) s.base_value temp in
      let (_, word, _, _) = encode_lem (s.counter % 10) s.base_value temp taken r.based in
      let bit = (calculate_odd_parity_odd x.value word).0 in
      let value = length-signed_decimal 4 x.value (omega arith) (omega arith) in
      let parity = length-unsigned_decimal 0 (calculate_odd_parity x.value) (omega arith) in
      let empty : length s.buffer ≡ 0 = rw r.emptied refl in
      rw e (omega (arith, value, parity, empty, length-append {0}))
]

all_writes-IsWithin :
    (site : ℕ) (s : Encoder) (temps : List ℤ)
    → site < 8
    → IsReady s
    → All IsI16 temps
    → All IsWithin (all_writes site s temps)
unfolding all_writes round
all_writes-IsWithin site s [] h r t = tt
all_writes-IsWithin site s (temp ∷ temps) h r t = elim (Bool-cases (ltb_ℤ (pos 30) temp)) [
  | inl e ↦
      let taken : IsTaken temp = ground arith in
      let (goes, ready) = round_goes_on site s temp h r taken in
      rw (goes, all_writes)
        (All-append IsWithin (writes s temp) _ (writes-IsWithin s temp r t.0)
          (all_writes-IsWithin site (next_state s temp) temps h ready t.1))
  | inr e ↦
      let skipped : round site s temp ≡ some (s, none) = rw e refl in
      rw (skipped, all_writes)
        (All-append IsWithin (writes s temp) _ (writes-IsWithin s temp r t.0)
          (all_writes-IsWithin site s temps h r t.1))
]

-- Over any 16-bit readings, for a site code of three bits, every string that main's loop writes from
-- its start is, with its NUL, within its buffer.
pub initial_writes-IsWithin :
    (site : ℕ) (temps : List ℤ)
    → site < 8
    → All IsI16 temps
    → All IsWithin (all_writes site initial temps)
initial_writes-IsWithin site temps h t = all_writes-IsWithin site initial temps h initial-IsReady t
