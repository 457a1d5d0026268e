-- ===== src/Delta.antt =====
-- The differential encoding of readings (`main` of "compute_engine copy"/main.c).
pub mod Exact
pub mod Receive
pub mod Buffers
use mathlib.Core.Option
use data_stream_pilot.Shared.{
  ℕ, ◌+◌, ◌%◌, ◌++◌, ◌==◌, if◌then◌else◌, leb, List, [], ◌∷◌, Option, none, some, not,
}
use data_stream_pilot.Shared.Int.{ℤ, pos, negsuc, ◌-ℤ◌, wrap_i16, ltb_ℤ}
use data_stream_pilot.Shared.Text.{Text, codes, snprintf}
use data_stream_pilot.Shared.Decimal.{unsigned_decimal, signed_decimal}
use data_stream_pilot.Parity.{calculate_odd_parity}

-- the variables of main's loop; `buffer` is the string in `data.buffer`
pub record Encoder : Type 0 where
  pub base_value : ℤ
  pub counter : ℕ
  pub buffer : Text

abbrev pub max_json_payload_size : ℕ
max_json_payload_size = 256

-- `temp = (temp < -128) ? -128 : (temp > 127) ? 127 : temp`
unfoldable pub clamp : ℤ → ℤ
clamp temp =
    if ltb_ℤ temp (negsuc 127) then negsuc 127 else if ltb_ℤ (pos 127) temp then pos 127 else temp

-- what a round sends as the value, and whether it is a base
pub record Sample : Type 0 where
  pub value : ℤ
  pub is_base : ℕ
  pub next_base : ℤ

-- the branch on `counter == 0`, after `counter = counter % 10`
unfoldable pub encode : ℕ → ℤ → ℤ → Sample
encode counter base_value temp =
    if counter == 0 then record { value = temp; is_base = 1; next_base = temp } else record {
      value = clamp (wrap_i16 (temp -ℤ base_value));
      is_base = 0;
      next_base = base_value;
    }

-- what the round appends to `data.buffer`: `"%i,"` of the value and of its parity
abbrev pub sample_text : ℤ → Text
sample_text value =
    signed_decimal value ++ (b',' ∷ (unsigned_decimal (calculate_odd_parity value) ++ (b',' ∷ [])))

-- `"{\"s\": \"%d\", \"t\": \"%s\", \"b\": \"%d\"}"`
abbrev pub sample_json : ℕ → Text → ℕ → Text
sample_json site buffer is_base =
    codes "{\"s\": \""
    ++ (unsigned_decimal site
        ++ (codes "\", \"t\": \""
            ++ (buffer ++ (codes "\", \"b\": \"" ++ (unsigned_decimal is_base ++ codes "\"}")))))

-- one round: the new state and the payload handed to gcoap_post; `none` is the `return 1` of main
-- when the payload does not fit. A reading of 30 or less is skipped.
unfoldable pub round : ℕ → Encoder → ℤ → Option (Encoder × Option Text)
round site s temp =
    if ltb_ℤ (pos 30) temp
    then (let counter = s.counter % 10 in
        let sample = encode counter s.base_value temp in
        let buffer = s.buffer ++ sample_text sample.value in
        let (payload, result) =
          snprintf max_json_payload_size (sample_json site buffer sample.is_base) in
        if leb max_json_payload_size result
        then none
        else some (
          record { base_value = sample.next_base; counter = counter + 1; buffer = [] },
          some payload,
        ))
    else some (s, none)

-- the state at the head of the loop, and the reading that main is built with
abbrev pub initial : Encoder
initial = record { base_value = pos 0; counter = 0; buffer = [] }

abbrev pub fixed_temp : ℤ
fixed_temp = pos 3250

-- a round's payload, in front of those of the later rounds
abbrev pub emit : Option Text → Option (List Text) → Option (List Text)
emit none rest = rest
emit (some payload) rest = Option.map (λ l. payload ∷ l) rest

-- main's loop over the readings of its rounds; the list holds the payloads handed to gcoap_post,
-- and `none` is the return from main
unfoldable pub run : ℕ → Encoder → List ℤ → Option (List Text)
run site s [] = some []
run site s (temp ∷ temps) = elim (round site s temp) [
  | none ↦ none
  | some r ↦ emit r.1 (run site r.0 temps)
]
