-- ===== src/Delta/Exact.antt =====
-- What the encoded readings stand for, and that main's loop goes on.
use data_stream_pilot.Shared.{
  ℕ, suc, ◌+◌, ◌%◌, ◌≤◌, ◌<◌, ◌≡◌, ◌≢◌, refl, ap, ◌==◌, if◌then◌else◌, Bool-cases, inl, inr, List,
  [], ◌∷◌, some, arith, length, length-append, ◌⊎◌, All, true, false, leb,
}
use data_stream_pilot.Shared.Int.{
  ℤ, pos, negsuc, ◌-ℤ◌, ◌+ℤ◌, ◌≤ℤ◌, -ℤ_parts, +ℤ_parts, eq_of_parts, wrap_i16, wrap_i16_of_IsI16,
  IsI16, ltb_ℤ,
}
use data_stream_pilot.Shared.Text.{Text, snprintf_fits}
use data_stream_pilot.Shared.Decimal.RoundTrip.{length-unsigned_decimal, length-signed_decimal}
use data_stream_pilot.Parity.{calculate_odd_parity}
use data_stream_pilot.Parity.Ones.{calculate_odd_parity_odd}
use data_stream_pilot.Delta.{
  Encoder, Sample, clamp, encode, sample_text, sample_json, round, run, initial,
  max_json_payload_size,
}

-- a reading that the loop takes
abbrev pub IsTaken : ℤ → Type 0
IsTaken temp = IsI16 temp × (pos 31 ≤ℤ temp)

-- the receiver's view of a sample: a base, or a difference from the last base
unfoldable pub decode : ℤ → Sample → ℤ
decode base s = if s.is_base == 1 then s.value else base +ℤ s.value

difference-IsI16 : (a b : ℤ) → IsTaken a → IsTaken b → IsI16 (a -ℤ b)
unfolding ◌-ℤ◌
difference-IsI16 a b h k = ground arith

clamp_lem :
    (t : ℤ)
    → (negsuc 127 ≤ℤ clamp t)
      × (clamp t ≤ℤ pos 127)
      × (negsuc 127 ≤ℤ t → t ≤ℤ pos 127 → clamp t ≡ t)
unfolding clamp
clamp_lem t = ground arith

add-sub : (a b : ℤ) → b +ℤ (a -ℤ b) ≡ a
add-sub a b = eq_of_parts _ _ (omega (arith, +ℤ_parts b (a -ℤ b), -ℤ_parts a b))

abbrev pub IsByte : ℤ → Type 0
IsByte z = (negsuc 127 ≤ℤ z) × (z ≤ℤ pos 127)

IsByte-IsI16 : (z : ℤ) → IsByte z → IsI16 z
IsByte-IsI16 z h = ground arith

in_range : (counter : ℕ) (d : ℤ) → (counter ≡ 0) ⊎ IsByte d → (counter == 0) ≡ false → IsByte d
in_range counter d (inl z) e = absurd (ground arith)
in_range counter d (inr b) e = b

difference_lem :
    (base temp : ℤ)
    → IsTaken base
    → IsTaken temp
    → let v = clamp (wrap_i16 (temp -ℤ base)) in
      IsByte v × (IsByte (temp -ℤ base) → base +ℤ v ≡ temp)
difference_lem base temp b t =
    let (lo, hi, same) = clamp_lem (temp -ℤ base) in
    rw (wrap_i16_of_IsI16 (temp -ℤ base) (difference-IsI16 temp base t b))
      ((lo, hi), λ h. rw (same h.0 h.1) (add-sub temp base))

-- In a round that is not a base's, the last base is known.
base-IsTaken :
    (counter : ℕ) (base : ℤ) → (counter ≡ 0) ⊎ IsTaken base → (counter == 0) ≡ false → IsTaken base
base-IsTaken counter base (inl z) e = absurd (ground arith)
base-IsTaken counter base (inr b) e = b

pub encode_lem :
    (counter : ℕ) (base temp : ℤ)
    → IsTaken temp
    → (counter ≡ 0) ⊎ IsTaken base
    → let s = encode counter base temp in
      IsTaken s.next_base
      × IsI16 s.value
      × (counter ≢ 0 → IsByte s.value)
      × ((counter ≡ 0) ⊎ IsByte (temp -ℤ base) → decode base s ≡ temp)
unfolding encode decode
encode_lem counter base temp h k = elim (Bool-cases (counter == 0)) [
  | inl e ↦ rw e (h, h.0, ground arith, λ _. refl)
  | inr e ↦
      let b = base-IsTaken counter base k e in
      let (byte, exact) = difference_lem base temp b h in
      rw e (b, IsByte-IsI16 _ byte, λ _. byte, λ w. exact (in_range counter (temp -ℤ base) w e))
]

-- A reading above 30 that is sent as a base, or that lies from -128 to 127 away from a base above
-- 30, is what the receiver decodes: neither the subtraction nor the clamp changes it.
pub encode_decodes :
    (counter : ℕ) (base temp : ℤ)
    → IsTaken temp
    → (counter ≡ 0) ⊎ (IsTaken base × IsByte (temp -ℤ base))
    → decode base (encode counter base temp) ≡ temp
encode_decodes counter base temp h (inl z) = (encode_lem counter base temp h (inl z)).3 (inl z)
encode_decodes counter base temp h (inr (b, near)) =
    (encode_lem counter base temp h (inr b)).3 (inr near)

-- A difference of readings above 30, however large, is sent in eight bits.
encode-IsByte :
    (counter : ℕ) (base temp : ℤ)
    → counter ≢ 0
    → IsTaken base
    → IsTaken temp
    → IsByte (encode counter base temp).value
encode-IsByte counter base temp n b h = (encode_lem counter base temp h (inr b)).2 n

-- the state at the head of the loop
pub record IsReady (s : Encoder) : Type 0 where
  pub counted : s.counter ≤ 10
  pub emptied : s.buffer ≡ []
  pub based : (s.counter % 10 ≡ 0) ⊎ IsTaken s.base_value

pub initial-IsReady : IsReady initial
initial-IsReady = record { counted = omega arith; emptied = refl; based = inl refl }

length-sample_json :
    (site : ℕ) (buffer : Text) (is_base : ℕ)
    → site < 10
    → is_base < 10
    → length (sample_json site buffer is_base) ≤ 30 + length buffer
length-sample_json site buffer is_base h k = omega (
  arith,
  length-append {0},
  length-unsigned_decimal 0 site h,
  length-unsigned_decimal 0 is_base k,
)

pub encode-is_base : (counter : ℕ) (base temp : ℤ) → (encode counter base temp).is_base ≤ 1
unfolding encode
encode-is_base counter base temp = ground arith

length-sample_text : (value : ℤ) → IsI16 value → length (sample_text value) ≤ 9
length-sample_text value v = omega (
  arith,
  length-append {0},
  length-signed_decimal 4 value (omega arith) (omega arith),
  length-unsigned_decimal 0 (calculate_odd_parity value)
      (omega (arith, (calculate_odd_parity_odd value v).0)),
)

-- A payload of a reading above 30 has 39 bytes at most.
pub length-payload :
    (site counter : ℕ) (base temp : ℤ)
    → site < 8
    → IsTaken temp
    → (counter ≡ 0) ⊎ IsTaken base
    → let x = encode counter base temp in
      length (sample_json site (sample_text x.value) x.is_base) ≤ 39
length-payload site counter base temp h t b =
    let x = encode counter base temp in
    let (_, word, _, _) = encode_lem counter base temp t b in
    omega (
      arith,
      length-sample_json site (sample_text x.value) x.is_base (omega arith)
          (omega (arith, encode-is_base counter base temp)),
      length-sample_text x.value word,
    )

-- the state after a round with a reading above 30
abbrev pub next_state : Encoder → ℤ → Encoder
next_state s temp = record {
  base_value = (encode (s.counter % 10) s.base_value temp).next_base;
  counter = s.counter % 10 + 1;
  buffer = [];
}

-- From a ready state, a round with a reading above 30 hands the whole payload of its sample to
-- gcoap_post, does not leave main, and is ready for the next round.
pub round_goes_on :
    (site : ℕ) (s : Encoder) (temp : ℤ)
    → site < 8
    → IsReady s
    → IsTaken temp
    → let x = encode (s.counter % 10) s.base_value temp in
      (round site s temp
        ≡ some (next_state s temp, some (sample_json site (sample_text x.value) x.is_base)))
      × IsReady (next_state s temp)
unfolding round
round_goes_on site s temp h r t =
    let x = encode (s.counter % 10) s.base_value temp in
    let (based, _, _, _) = encode_lem (s.counter % 10) s.base_value temp t r.based in
    let text = sample_json site (sample_text x.value) x.is_base in
    let short : length text < max_json_payload_size =
      omega (arith, length-payload site (s.counter % 10) s.base_value temp h t r.based) in
    let taken : ltb_ℤ (pos 30) temp ≡ true = ground arith in
    let fits : leb max_json_payload_size (length text) ≡ false = ground arith in
    (
      rw (r.emptied, taken, fits)
          (ap (λ q. some (next_state s temp, some q.0)) (snprintf_fits _ text short)),
      record { counted = omega arith; emptied = refl; based = inr based },
    )

-- Over any number of readings above 30, main does not return, and hands one payload for each
-- reading to gcoap_post.
run_goes_on :
    (site : ℕ) (s : Encoder) (temps : List ℤ)
    → site < 8
    → IsReady s
    → All IsTaken temps
    → (payloads : List Text) × (run site s temps ≡ some payloads) × (length payloads ≡ length temps)
unfolding run
run_goes_on site s [] h r t = ([], refl, refl)
run_goes_on site s (temp ∷ temps) h r t =
    let (e, ready) = round_goes_on site s temp h r t.0 in
    let (rest, f, same) = run_goes_on site (next_state s temp) temps h ready t.1 in
    let x = encode (s.counter % 10) s.base_value temp in
    (sample_json site (sample_text x.value) x.is_base ∷ rest, rw (e, run, f), ap suc same)
