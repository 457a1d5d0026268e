-- ===== src/Payload.antt =====
-- The JSON text that compute_engine/main.c posts for each reading.
pub mod Fits
pub mod Receive
use data_stream_pilot.Shared.{ℕ, ◌++◌, List, [], ◌∷◌}
use data_stream_pilot.Shared.Int.{ℤ}
use data_stream_pilot.Shared.Text.{Text, codes, snprintf}
use data_stream_pilot.Shared.Decimal.{unsigned_decimal, signed_decimal}

abbrev pub max_json_payload_size : ℕ
max_json_payload_size = 128

-- `"{\"site\": \"%d\", \"sensor\": \"%s\", \"value\": \"%d, %d\"}"`
unfoldable pub json_text : ℕ → Text → ℤ → ℕ → Text
json_text site sensor value parity =
    codes "{\"site\": \""
    ++ (unsigned_decimal site
        ++ (codes "\", \"sensor\": \""
            ++ (sensor
                ++ (codes "\", \"value\": \""
                    ++ (signed_decimal value
                        ++ (codes ", " ++ (unsigned_decimal parity ++ codes "\"}")))))))

-- the string in `json_payload` after the call of snprintf, and its result
unfoldable pub json_payload : ℕ → Text → ℤ → ℕ → Text × ℕ
unfolding json_text
json_payload site sensor value parity =
    snprintf max_json_payload_size (json_text site sensor value parity)
