-- ===== src/Payload/Receive.antt =====
-- A receiver of the sensor node's payloads: what it reads back from their texts.
use data_stream_pilot.Shared.{
  ℕ, zero, suc, ◌+◌, ◌-◌, ◌≤◌, ◌<◌, ◌≡◌, ◌≢◌, refl, ap, ◌∙◌, ◌==◌, if◌then◌else◌, true, false, [],
  ◌∷◌, ◌++◌, Option, none, some, All, arith,
}
use data_stream_pilot.Shared.Int.{ℤ, pos, negsuc, IsI16, to_u16, of_u16, to_u16-of_u16}
use data_stream_pilot.Shared.Text.{Text, codes}
use data_stream_pilot.Shared.Decimal.{unsigned_decimal, signed_decimal, atoi, strtoul, skip_space}
use data_stream_pilot.Shared.Decimal.RoundTrip.{
  atoi-signed_decimal, strtoul-unsigned_decimal, unsigned_decimal-ne, unsigned_decimal-digit,
}
use data_stream_pilot.Parity.{calculate_odd_parity}
use data_stream_pilot.Parity.Ones.{calculate_odd_parity_odd}
use data_stream_pilot.Parity.Detect.{is_accepted, toggle, toggle-lt, parity_detects}
use data_stream_pilot.Payload.{json_text}

-- what stands before the first `x`, and after it
unfoldable before : ℕ → Text → Text
before x [] = []
before x (c ∷ s) = let rest = before x s in if c == x then [] else c ∷ rest

unfoldable after : ℕ → Text → Text
after x [] = []
after x (c ∷ s) = let rest = after x s in if c == x then s else rest

-- what stands after `k` quotes
unfoldable after_quotes : ℕ → Text → Text
after_quotes zero s = s
after_quotes (suc k) s = after_quotes k (after b'"' s)

-- The receiver's view of a payload: the site, the sensor and the value, which stand behind its third,
-- its seventh and its eleventh quote, if the value goes with its parity.
unfoldable pub receive : Text → Option (ℕ × Text × ℤ)
unfolding before after after_quotes
receive payload =
    let reading = after_quotes 11 payload in
    let value = atoi reading in
    let site = strtoul (after_quotes 3 payload) in
    let sensor = before b'"' (after_quotes 7 payload) in
    if is_accepted (to_u16 value) (strtoul (after b',' reading))
    then some (site, sensor, value)
    else none

after_lem : (x : ℕ) (a s : Text) → All (λ c. c ≢ x) a → after x (a ++ (x ∷ s)) ≡ s
unfolding after
after_lem x [] s h = let e : (x == x) ≡ true = ground arith in rw e refl
after_lem x (c ∷ a) s h =
    let e : (c == x) ≡ false = ground (arith, h.0) in rw e (after_lem x a s h.1)

before_lem : (x : ℕ) (a s : Text) → All (λ c. c ≢ x) a → before x (a ++ (x ∷ s)) ≡ a
unfolding before
before_lem x [] s h = let e : (x == x) ≡ true = ground arith in rw e refl
before_lem x (c ∷ a) s h =
    let e : (c == x) ≡ false = ground (arith, h.0) in rw e (ap (λ l. c ∷ l) (before_lem x a s h.1))

signed_decimal-ne-comma : (z : ℤ) → IsI16 z → All (λ c. c ≢ b',') (signed_decimal z)
unfolding signed_decimal
signed_decimal-ne-comma (pos n) h = unsigned_decimal-ne b',' n (omega arith) (omega arith)
signed_decimal-ne-comma (negsuc n) h =
    (omega arith, unsigned_decimal-ne b',' (suc n) (omega arith) (omega arith))

-- the text from the sensor on, from the value on, and the parity
abbrev value_text : ℤ → ℕ → Text
value_text value parity =
    signed_decimal value ++ (codes ", " ++ (unsigned_decimal parity ++ codes "\"}"))

abbrev sensor_text : Text → ℤ → ℕ → Text
sensor_text sensor value parity = sensor ++ (codes "\", \"value\": \"" ++ value_text value parity)

three_quotes :
    (site : ℕ) (sensor : Text) (value : ℤ) (parity : ℕ)
    → after_quotes 3 (json_text site sensor value parity)
      ≡ unsigned_decimal site ++ (codes "\", \"sensor\": \"" ++ sensor_text sensor value parity)
unfolding json_text after_quotes after
three_quotes site sensor value parity = refl

seven_quotes :
    (site : ℕ) (sensor : Text) (value : ℤ) (parity : ℕ)
    → site < 10
    → after_quotes 7 (json_text site sensor value parity) ≡ sensor_text sensor value parity
unfolding json_text after_quotes after
seven_quotes site sensor value parity h =
    let e : ((b'0' + site) == b'"') ≡ false = ground arith in
    rw (unsigned_decimal-digit site h) (rw e refl)

eleven_quotes :
    (site : ℕ) (sensor : Text) (value : ℤ) (parity : ℕ)
    → site < 10
    → All (λ c. c ≢ b'"') sensor
    → after_quotes 11 (json_text site sensor value parity) ≡ value_text value parity
unfolding after_quotes after
eleven_quotes site sensor value parity h q =
    ap (after_quotes 4) (seven_quotes site sensor value parity h)
    ∙ ap (after_quotes 3) (after_lem b'"' sensor _ q)

parity_read :
    (value : ℤ) (parity : ℕ)
    → IsI16 value
    → parity ≤ 1
    → strtoul (after b',' (value_text value parity)) ≡ parity
unfolding strtoul skip_space
parity_read value parity v p =
    ap strtoul (after_lem b',' (signed_decimal value) _ (signed_decimal-ne-comma value v))
    ∙ strtoul-unsigned_decimal parity (codes "\"}") (omega arith) refl

-- what the receiver makes of a text with any parity bit
receive-json_text :
    (site : ℕ) (sensor : Text) (value : ℤ) (parity : ℕ)
    → site < 8
    → All (λ c. c ≢ b'"') sensor
    → IsI16 value
    → parity ≤ 1
    → receive (json_text site sensor value parity)
      ≡ (if is_accepted (to_u16 value) parity then some (site, sensor, value) else none)
unfolding receive
receive-json_text site sensor value parity h q v p =
    let site_read =
      ap strtoul (three_quotes site sensor value parity)
      ∙ strtoul-unsigned_decimal site
          (codes "\", \"sensor\": \"" ++ sensor_text sensor value parity) (omega arith) refl in
    let sensor_read =
      ap (before b'"') (seven_quotes site sensor value parity (omega arith))
      ∙ before_lem b'"' sensor (codes ", \"value\": \"" ++ value_text value parity) q in
    let value_read =
      atoi-signed_decimal value (codes ", " ++ (unsigned_decimal parity ++ codes "\"}"))
        (omega arith) (omega arith) refl in
    rw
      (
        site_read,
        sensor_read,
        eleven_quotes site sensor value parity (omega arith) q,
        value_read,
        parity_read value parity v p,
      )
      refl

-- For a site code of three bits, a sensor id without a quote and any 16-bit value: the receiver reads
-- the site, the sensor and the value back from the text that the node posts, and it refuses the text
-- with any one bit of the value inverted, and the text with the parity inverted.
pub receive_lem :
    (site : ℕ) (sensor : Text) (value : ℤ) (k : ℕ)
    → site < 8
    → All (λ c. c ≢ b'"') sensor
    → IsI16 value
    → k < 16
    → let parity = calculate_odd_parity value in
      (receive (json_text site sensor value parity) ≡ some (site, sensor, value))
      × (receive (json_text site sensor (of_u16 (toggle k (to_u16 value))) parity) ≡ none)
      × (receive (json_text site sensor value (1 - parity)) ≡ none)
receive_lem site sensor value k h q v l =
    let parity = calculate_odd_parity value in
    let (accepts, refuses_value, refuses_parity) = parity_detects value k v l in
    let bit = (calculate_odd_parity_odd value v).0 in
    let flipped = toggle k (to_u16 value) in
    let other = of_u16 flipped in
    let (word, same) = to_u16-of_u16 flipped (toggle-lt 16 k (to_u16 value) l (ground arith)) in
    (
      rw (receive-json_text site sensor value parity h q v bit, accepts) refl,
      rw (receive-json_text site sensor other parity h q word bit, same, refuses_value) refl,
      rw (receive-json_text site sensor value (1 - parity) h q v (omega arith), refuses_parity)
          refl,
    )
