-- ===== src/Examples/Sensor.antt =====
-- The sensor side: parity, window, main loop, driver.
use data_stream_pilot.Shared.{
  ◌*◌, ℕ, ◌+◌, ◌-◌, ◌≤◌, ◌<◌, ◌≡◌, ◌≢◌, refl, true, false, List, [], ◌∷◌, arith, some,
  if◌then◌else◌, ltb, length, All,
}
use data_stream_pilot.Shared.Int.{ℤ, pos, negsuc, IsI16, to_u16, eqb_ℤ}
use data_stream_pilot.Shared.Text.{codes}
use data_stream_pilot.Site.{get_binary_value, location_map}
use data_stream_pilot.Site.Lookup.{get_binary_value_injective}
use data_stream_pilot.Parity.{calculate_odd_parity, count_bits}
use data_stream_pilot.Parity.Detect.{is_accepted, toggle, parity_detects}
use data_stream_pilot.Window.{calculate_average, remove_outliers}
use data_stream_pilot.Window.Sums.{total, select, survives, calculate_average-remove_outliers}
use data_stream_pilot.Window.Steady.{steady, All-steady}
use data_stream_pilot.Noise.{sleep_duration}
use data_stream_pilot.Payload.{json_text, json_payload, max_json_payload_size}
use data_stream_pilot.Payload.Fits.{json_payload_fits}
use data_stream_pilot.Driver.{Board, boot_delay, start_reset, temp_sensor_reset}
use data_stream_pilot.Driver.Reset.{boot_delay_ends, temp_sensor_reset_returns}
use data_stream_pilot.Cli.Command.Effects.{initial-IsValid}
use data_stream_pilot.Engine.{Config, Engine, engine_rounds}
use data_stream_pilot.Engine.Rounds.{IsReady, engine_rounds-IsReady, sleep_duration_lem}
use data_stream_pilot.Engine.History.{Matches, Matches-refl, history_rounds, engine_rounds-Matches}
use data_stream_pilot.Examples.Ints.{ints, ints-IsIeee}
use data_stream_pilot.Examples.Net.{net, started, counting, lps, board, server_text}

abbrev config : Config
config = record { site_name = 1; sensor_id = codes "m3-95"; server_ip = server_text }

-- main at the head of its loop, after a first reading of 20.00 °C
abbrev engine : Engine ℕ ℕ (List ℕ) ℤ
engine = record {
  board = board;
  random = 7;
  cli = started;
  temp_list = steady 65 2_000;
  current_index = 0;
  avg_temp = pos 0;
  stddev = pos 0;
}

calculate_odd_parity-negative : calculate_odd_parity (negsuc 0) ≡ 1
unfolding calculate_odd_parity count_bits
calculate_odd_parity-negative = refl

calculate_odd_parity-seven : calculate_odd_parity (pos 7) ≡ 0
unfolding calculate_odd_parity count_bits
calculate_odd_parity-seven = refl

engine-IsReady : IsReady engine
engine-IsReady = record {
  full = refl;
  words = All-steady 65 2_000 (omega arith);
  inside = omega arith;
  client = initial-IsValid [];
}

engine_rounds-IsReady_example : IsReady (engine_rounds ints counting lps net config 70 engine)
engine_rounds-IsReady_example =
    engine_rounds-IsReady ints counting lps net config 70 engine engine-IsReady

engine_rounds-Matches_example :
    Matches
      (history_rounds ints counting lps net config 70 engine.temp_list engine)
      (engine_rounds ints counting lps net config 70 engine).temp_list
engine_rounds-Matches_example =
    engine_rounds-Matches ints counting lps net config 70 engine.temp_list engine engine-IsReady
      (Matches-refl engine.temp_list)

lps-words : (v : ℕ) → IsI16 (lps.read_temp v).1
lps-words v = omega arith

-- a window with one outlier
abbrev spiked : List ℤ
spiked = pos 9_000 ∷ steady 64 2_000

spiked-words : All IsI16 spiked
spiked-words = (omega arith, All-steady 64 2_000 (omega arith))

calculate_average-remove_outliers_example :
    let kept = select (survives ints (pos 2_107) (pos 800)) spiked in
    calculate_average ints (remove_outliers ints spiked (pos 2_107) (pos 800))
    ≡ ints.d_div (ints.d_of_int (total kept)) (ints.d_of_int (pos (length kept)))
calculate_average-remove_outliers_example =
    calculate_average-remove_outliers ints (pos 2_107) (pos 800) ints-IsIeee spiked refl
      spiked-words

parity_detects_example :
    let parity = calculate_odd_parity (negsuc 1_249) in
    (is_accepted (to_u16 (negsuc 1_249)) parity ≡ true)
    × (is_accepted (toggle 15 (to_u16 (negsuc 1_249))) parity ≡ false)
    × (is_accepted (to_u16 (negsuc 1_249)) (1 - parity) ≡ false)
parity_detects_example = parity_detects (negsuc 1_249) 15 (omega arith) (omega arith)

json_payload_fits_example :
    (json_payload 5 (codes "m3-95") (negsuc 1_249) 1 ≡ (
      json_text 5 (codes "m3-95") (negsuc 1_249) 1,
      length (json_text 5 (codes "m3-95") (negsuc 1_249) 1),
    ))
    × ((json_payload 5 (codes "m3-95") (negsuc 1_249) 1).1 < max_json_payload_size)
json_payload_fits_example =
    json_payload_fits 5 (codes "m3-95") (negsuc 1_249) 1 (omega arith) (omega arith) (omega arith)
      (omega arith)

boot_delay_ends_example :
    (b' : Board ℕ) × (boot_delay lps board ≡ some b')
    × (board.time + 100 ≤ b'.time)
    × (b'.time ≤ board.time + 500)
    × (board.unlocked + 1 ≤ b'.unlocked)
    × (b'.unlocked ≤ board.unlocked + 5)
    × (b'.time + 100 * board.unlocked ≡ board.time + 100 * b'.unlocked)
boot_delay_ends_example = boot_delay_ends lps board refl

temp_sensor_reset_returns_example :
    (booted : Board ℕ) × (r : ℤ × Board ℕ) × (boot_delay lps (start_reset lps board) ≡ some booted)
    × (temp_sensor_reset lps board ≡ some r)
    × (r.0 ≡ (if eqb_ℤ (lps.enable booted.device).0 lps.ok then pos 0 else pos 1))
    × (r.0 ≢ negsuc 0)
temp_sensor_reset_returns_example = temp_sensor_reset_returns lps board

sleep_duration_lem_example :
    sleep_duration 32_767 20_000 ≡ (if ltb 20_000 32_767 then 1000 else 2000)
sleep_duration_lem_example = sleep_duration_lem 32_767 20_000 (omega arith) (omega arith)

get_binary_value-saclay : get_binary_value location_map (codes "saclay") ≢ 0
unfolding get_binary_value
get_binary_value-saclay = ground arith

get_binary_value_injective_example : codes "saclay" ≡ codes "saclay"
get_binary_value_injective_example =
    get_binary_value_injective (codes "saclay") (codes "saclay") get_binary_value-saclay refl
