-- ===== src/Engine.antt =====
-- The main loop of compute_engine/main.c: a round reads the sensor, cleans the window of readings
-- and posts the average.
pub mod Rounds
pub mod History
pub mod Steady
pub mod Start
pub mod Delivery
pub mod Own
pub mod Threads
pub mod Posting
pub mod Constant
pub mod Posted
pub mod Received
use data_stream_pilot.Shared.{
  ℕ, zero, suc, ◌+◌, Bool, List, [], ◌∷◌, Option, none, some, if◌then◌else◌, leb, set, replicate,
}
use data_stream_pilot.Shared.Int.{ℤ, pos, ◌+ℤ◌, wrap_i16, eqb_ℤ}
use data_stream_pilot.Shared.Text.{Text, codes}
use data_stream_pilot.Float.{Float}
use data_stream_pilot.Window.{
  window_size, sum_window, calculate_stddev, remove_outliers, calculate_average,
}
use data_stream_pilot.Noise.{Rand, add_noise, sleep_duration}
use data_stream_pilot.Parity.{calculate_odd_parity}
use data_stream_pilot.Payload.{json_payload}
use data_stream_pilot.Driver.{Lps, Board, sleep, temp_sensor_reset}
use data_stream_pilot.Gcoap.{Gcoap}
use data_stream_pilot.Cli.{Cli, initial}
use data_stream_pilot.Cli.Command.{cli_cmd}

-- what the build gives: SITE_NAME by its code, SENSOR_ID, and the address of the server
pub record Config : Type 0 where
  pub site_name : ℕ
  pub sensor_id : Text
  pub server_ip : Text

-- the variables of main, the sensor, the generator of random numbers and the CoAP client
pub record Engine (V R W F : Type 0) : Type 0 where
  pub board : Board V
  pub random : R
  pub cli : Cli W
  pub temp_list : List ℤ
  pub current_index : ℕ
  pub avg_temp : F
  pub stddev : F

-- what a round computes from the window
pub record Report (F : Type 0) : Type 0 where
  pub cleaned : List ℤ
  pub average : F
  pub deviation : F
  pub rounded : ℤ

-- `data.tempList[current_index++] = x`, and the return to 0
unfoldable pub next_index : ℕ → ℕ
next_index i = if leb window_size (i + 1) then 0 else i + 1

-- `coap_command`
abbrev pub coap_command : Text → Text → List Text
coap_command server_ip payload =
    codes "coap" ∷ codes "post" ∷ server_ip ∷ codes "5683" ∷ codes "/temp" ∷ payload ∷ []

-- the window before the loop: the first reading in each slot, or 0 where the driver leaves
-- `initial_temp` alone
abbrev pub fill_window : ℤ → List ℤ
fill_window initial_temp = replicate window_size initial_temp

module _ {F D : Type 0} (fl : Float F D) where
  open fl use {d_of_int, widen, narrow, d_div, round, d_to_int}

  -- from `avg_temp = calculate_average(data.tempList)` to `rounded_avg_temp`
  unfoldable pub report_cleaned : List ℤ → Report F
  report_cleaned cleaned =
      let average = narrow (calculate_average fl cleaned) in
      record {
        cleaned = cleaned;
        average = average;
        deviation = calculate_stddev fl cleaned average;
        rounded = wrap_i16 (d_to_int (round (widen average)));
      }

  -- the same from `sum = 0` on
  unfoldable pub report : List ℤ → Report F
  unfolding report_cleaned
  report temp_list =
      let mean = narrow (d_div (sum_window fl temp_list) (d_of_int (pos window_size))) in
      let spread = calculate_stddev fl temp_list mean in
      report_cleaned (remove_outliers fl temp_list mean spread)

module _ {F D R : Type 0} (fl : Float F D) (rn : Rand R) where
  open fl use {d_of_int, narrow, d_div, f_to_int}

  -- `temp + (int16_t)add_noise(789.2)`, as an int16_t
  unfoldable pub noisy : ℤ → R → ℤ × R
  noisy temp r =
      let (noise, r') =
        add_noise fl rn (narrow (d_div (d_of_int (pos 7892)) (d_of_int (pos 10)))) r in
      (wrap_i16 (temp +ℤ wrap_i16 (f_to_int noise)), r')

module _ {V R W F : Type 0} (rn : Rand R) where
  -- the end of a round: a random number, and the sleep
  unfoldable pub rest : Engine V R W F → Engine V R W F
  unfolding sleep_duration sleep
  rest e =
      let (randi, r) = rn.rand e.random in
      record e { random = r; board = sleep (sleep_duration rn.rand_max randi) e.board }

module _ {V R P W F D : Type 0} (fl : Float F D) (rn : Rand R) (lps : Lps V) (g : Gcoap P W)
    (config : Config) where
  open config use {site_name, sensor_id, server_ip}

  -- the branch of a successful reading
  unfoldable pub take_reading : ℤ → Engine V R W F → Engine V R W F
  take_reading temp e =
      let (temp_n_noise, r) = noisy fl rn temp e.random in
      let window = set e.temp_list e.current_index temp_n_noise in
      let result = report fl window in
      let payload =
        json_payload site_name sensor_id result.rounded (calculate_odd_parity result.rounded) in
      record e {
        random = r;
        temp_list = result.cleaned;
        current_index = next_index e.current_index;
        avg_temp = result.average;
        stddev = result.deviation;
        cli = (cli_cmd g (coap_command server_ip payload.0) e.cli).1;
      }

  -- one round of `while (1)`
  unfoldable pub engine_round : Engine V R W F → Engine V R W F
  engine_round e0 =
      let (ret, temp, v) = lps.read_temp e0.board.device in
      let e = record e0 { board = record e0.board { device = v } } in
      rest rn (if eqb_ℤ ret lps.ok then take_reading temp e else e)

  unfoldable pub engine_rounds : ℕ → Engine V R W F → Engine V R W F
  engine_rounds zero e = e
  engine_rounds (suc n) e = engine_rounds n (engine_round e)

  -- main up to its loop; the value of the reset is only reported, and setup_coap_client sleeps 2000 ms. `none`: the reset did not return.
  unfoldable pub start : Board V → R → W → Option (Engine V R W F)
  unfolding sleep
  start b0 r w = elim (temp_sensor_reset lps (sleep 5000 b0)) [
    | none ↦ none
    | some reset ↦
        let b = sleep 4000 (sleep 2000 reset.1) in
        let (ret, initial_temp, v) = lps.read_temp b.device in
        some (record {
          board = record b { device = v };
          random = r;
          cli = initial w;
          temp_list = fill_window initial_temp;
          current_index = 0;
          avg_temp = fl.f_of_int (pos 0);
          stddev = fl.f_of_int (pos 0);
        })
  ]
