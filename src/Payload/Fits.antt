-- ===== src/Payload/Fits.antt =====
-- The payload is never cut short, and tells readings apart.
use data_stream_pilot.Shared.{
  ℕ, ◌+◌, ◌≤◌, ◌<◌, ◌≡◌, refl, sym, ap, ◌∙◌, ◌++◌, [], ◌∷◌, arith, length, length-append,
}
use data_stream_pilot.Shared.Int.{ℤ, IsI16}
use data_stream_pilot.Shared.Text.{Text, codes, snprintf_fits, append-cancel}
use data_stream_pilot.Shared.Decimal.{unsigned_decimal, signed_decimal, atoi, strtoul}
use data_stream_pilot.Shared.Decimal.RoundTrip.{
  length-unsigned_decimal, length-signed_decimal, atoi-signed_decimal, strtoul-unsigned_decimal,
}
use data_stream_pilot.Payload.{max_json_payload_size, json_text, json_payload}

pub length-json_text :
    (site : ℕ) (sensor : Text) (value : ℤ) (parity : ℕ)
    → site < 10
    → IsI16 value
    → parity < 10
    → length (json_text site sensor value parity) ≤ 49 + length sensor
unfolding json_text
length-json_text site sensor value parity s v p = omega (
  arith,
  length-append {0},
  length-unsigned_decimal 0 site s,
  length-unsigned_decimal 0 parity p,
  length-signed_decimal 4 value (omega arith) (omega arith),
)

-- For a site code of one digit, a parity bit and a sensor id of at most 78 bytes, the payload of
-- any 16-bit reading is written whole, and snprintf returns its length, which is below the size of
-- the buffer: the error branch of main is not taken.
pub json_payload_fits :
    (site : ℕ) (sensor : Text) (value : ℤ) (parity : ℕ)
    → site < 8
    → length sensor ≤ 78
    → IsI16 value
    → parity ≤ 1
    → (json_payload site sensor value parity
        ≡ (json_text site sensor value parity, length (json_text site sensor value parity)))
      × ((json_payload site sensor value parity).1 < max_json_payload_size)
unfolding json_payload
json_payload_fits site sensor value parity s n v p =
    let short = length-json_text site sensor value parity (omega arith) v (omega arith) in
    (
      snprintf_fits max_json_payload_size (json_text site sensor value parity) (omega arith),
      omega arith,
    )

value_of_rest :
    (value : ℤ) (rest : Text) → IsI16 value → atoi (signed_decimal value ++ (b',' ∷ rest)) ≡ value
value_of_rest value rest v =
    atoi-signed_decimal value (b',' ∷ rest) (omega arith) (omega arith) refl

parity_of_rest :
    (parity : ℕ) → parity ≤ 1 → strtoul (unsigned_decimal parity ++ codes "\"}") ≡ parity
parity_of_rest parity p = strtoul-unsigned_decimal parity (codes "\"}") (omega arith) refl

-- Two readings of one sensor that differ in the value or the parity have different payload texts.
json_text_injective :
    (site : ℕ) (sensor : Text) (value value' : ℤ) (parity parity' : ℕ)
    → IsI16 value
    → IsI16 value'
    → parity ≤ 1
    → parity' ≤ 1
    → json_text site sensor value parity ≡ json_text site sensor value' parity'
    → (value ≡ value') × (parity ≡ parity')
unfolding json_text
json_text_injective site sensor value value' parity parity' v v' p p' e =
    let rest : ℕ → Text = λ n. b' ' ∷ (unsigned_decimal n ++ codes "\"}") in
    let tail : signed_decimal value ++ (b',' ∷ rest parity)
        ≡ signed_decimal value' ++ (b',' ∷ rest parity') =
      append-cancel (codes "\", \"value\": \"") (
        append-cancel sensor (
          append-cancel (codes "\", \"sensor\": \"")
            (append-cancel (unsigned_decimal site) (append-cancel (codes "{\"site\": \"") e)))) in
    let same : value ≡ value' =
      sym (value_of_rest value (rest parity) v)
      ∙ ap atoi tail
      ∙ value_of_rest value' (rest parity') v' in
    let end : rest parity ≡ rest parity' =
      append-cancel (b',' ∷ []) (append-cancel (signed_decimal value) (rw (← same) at tail)) in
    (
      same,
      sym (parity_of_rest parity p)
          ∙ ap strtoul (append-cancel (b' ' ∷ []) end)
          ∙ parity_of_rest parity' p',
    )
