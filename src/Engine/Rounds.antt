-- ===== src/Engine/Rounds.antt =====
-- What holds between two rounds, and what a round posts.
use native.Mathlib.Nat.{div-eq_of_lt, div_self}
use data_stream_pilot.Shared.{
  ℕ, zero, suc, ◌≤◌, ◌<◌, ◌≡◌, refl, ap, ◌∙◌, List, [], ◌∷◌, map, arith, length, if◌then◌else◌,
  Bool-cases, inl, inr, ltb, set, length-set, length-map, All,
}
use data_stream_pilot.Shared.Int.{ℤ, pos, IsI16, wrap_i16-IsI16, eqb_ℤ}
use data_stream_pilot.Float.{Float}
use data_stream_pilot.Window.{window_size, sum_window, calculate_stddev}
use data_stream_pilot.Window.Clean.{clean, remove_outliers-map}
use data_stream_pilot.Window.Sums.{clean-IsI16}
use data_stream_pilot.Noise.{Rand, sleep_duration}
use data_stream_pilot.Parity.{calculate_odd_parity}
use data_stream_pilot.Parity.Ones.{calculate_odd_parity_odd}
use data_stream_pilot.Payload.{json_text}
use data_stream_pilot.Payload.Fits.{json_payload_fits}
use data_stream_pilot.Driver.{Lps}
use data_stream_pilot.Gcoap.{Gcoap}
use data_stream_pilot.Cli.Command.{cli_cmd}
use data_stream_pilot.Cli.Command.Effects.{IsValid, cli_cmd-IsValid}
use data_stream_pilot.Engine.{
  Config, Engine, next_index, coap_command, report, noisy, take_reading, rest, engine_round,
  engine_rounds,
}

-- The window has 65 readings of 16 bits, the index lies in it, and the client is valid.
pub record IsReady {V R W F : Type 0} (e : Engine V R W F) : Type 0 where
  pub full : length e.temp_list ≡ window_size
  pub words : All IsI16 e.temp_list
  pub inside : e.current_index < window_size
  pub client : IsValid e.cli

next_index-lt : (i : ℕ) → next_index i < window_size
unfolding next_index
next_index-lt i = ground arith

All-set : (l : List ℤ) (i : ℕ) (x : ℤ) → All IsI16 l → IsI16 x → All IsI16 (set l i x)
All-set [] i x h k = tt
All-set (y ∷ l) zero x h k = (k, h.1)
All-set (y ∷ l) (suc i) x h k = (h.0, All-set l i x h.1 k)

module _ {F D : Type 0} (fl : Float F D) where
  -- the cleaned window is the window, reading by reading
  pub report-cleaned :
      (l : List ℤ)
      → length l ≡ window_size
      → (m : F) × (s : F) × ((report fl l).cleaned ≡ map (clean fl m s) l)
  unfolding report
  report-cleaned l h =
      let m = fl.narrow (fl.d_div (sum_window fl l) (fl.d_of_int (pos window_size))) in
      let s = calculate_stddev fl l m in (m, s, remove_outliers-map fl m s l h)

  pub report-rounded : (l : List ℤ) → IsI16 (report fl l).rounded
  unfolding report
  report-rounded l = wrap_i16-IsI16 _

module _ {V R P W F D : Type 0} (fl : Float F D) (rn : Rand R) (lps : Lps V) (g : Gcoap P W)
    (config : Config) where
  noisy-IsI16 : (temp : ℤ) (r : R) → IsI16 (noisy fl rn temp r).0
  unfolding noisy
  noisy-IsI16 temp r = wrap_i16-IsI16 _

  take_reading-IsReady :
      (temp : ℤ) (e : Engine V R W F) → IsReady e → IsReady (take_reading fl rn lps g config temp e)
  unfolding take_reading
  take_reading-IsReady temp e h =
      let x = (noisy fl rn temp e.random).0 in
      let window = set e.temp_list e.current_index x in
      let full = length-set e.temp_list e.current_index x ∙ h.full in
      let (m, s, same) = report-cleaned fl window full in
      record {
        full = rw same (length-map (clean fl m s) window ∙ full);
        words = rw same (
            clean-IsI16 fl m s window
              (All-set e.temp_list e.current_index x h.words (noisy-IsI16 temp e.random)));
        inside = next_index-lt e.current_index;
        client = cli_cmd-IsValid g _ e.cli h.client;
      }

  rest-IsReady : (e : Engine V R W F) → IsReady e → IsReady (rest rn e)
  unfolding rest
  rest-IsReady e h = record { full = h.full; words = h.words; inside = h.inside; client = h.client }

  pub engine_round-IsReady :
      (e : Engine V R W F) → IsReady e → IsReady (engine_round fl rn lps g config e)
  unfolding engine_round
  engine_round-IsReady e h =
      let (ret, temp, v) = lps.read_temp e.board.device in
      let e' : Engine V R W F = record e { board = record e.board { device = v } } in
      let h' : IsReady e' = record {
        full = h.full;
        words = h.words;
        inside = h.inside;
        client = h.client;
      } in
      elim (Bool-cases (eqb_ℤ ret lps.ok)) [
        | inl ok ↦ rw ok (rest-IsReady _ (take_reading-IsReady temp e' h'))
        | inr failed ↦ rw failed (rest-IsReady e' h')
      ]

  -- From a state in which the window has 65 readings of 16 bits, the index of the next one lies in
  -- it and the CoAP client is valid, the same holds after any number of rounds, whatever the
  -- sensor, the random numbers and the network do: no read or write of the window is out of bounds.
  pub engine_rounds-IsReady :
      (n : ℕ) (e : Engine V R W F) → IsReady e → IsReady (engine_rounds fl rn lps g config n e)
  unfolding engine_rounds
  engine_rounds-IsReady zero e h = h
  engine_rounds-IsReady (suc n) e h =
      engine_rounds-IsReady n (engine_round fl rn lps g config e) (engine_round-IsReady e h)

  -- For a site code of three bits and a sensor id of at most 78 bytes, a successful reading posts
  -- the whole JSON text of the rounded average and of its parity: nothing of it is cut off.
  pub take_reading_posts :
      (temp : ℤ) (e : Engine V R W F)
      → config.site_name < 8
      → length config.sensor_id ≤ 78
      → let x = (noisy fl rn temp e.random).0 in
        let value = (report fl (set e.temp_list e.current_index x)).rounded in
        let text = json_text config.site_name config.sensor_id value (calculate_odd_parity value) in
        (take_reading fl rn lps g config temp e).cli
        ≡ (cli_cmd g (coap_command config.server_ip text) e.cli).1
  unfolding take_reading
  take_reading_posts temp e site sensor =
      let x = (noisy fl rn temp e.random).0 in
      let l = set e.temp_list e.current_index x in
      let value = (report fl l).rounded in
      let word = report-rounded fl l in
      ap (λ p. (cli_cmd g (coap_command config.server_ip p.0) e.cli).1)
        (json_payload_fits config.site_name config.sensor_id value (calculate_odd_parity value) site
          sensor word (calculate_odd_parity_odd value word).0).0

-- For a random number below RAND_MAX the sleep between two rounds is 1000 ms, and for RAND_MAX
-- itself it is 2000 ms: the integer quotient leaves nothing in between.
pub sleep_duration_lem :
    (rand_max randi : ℕ)
    → 0 < rand_max
    → randi ≤ rand_max
    → sleep_duration rand_max randi ≡ (if ltb randi rand_max then 1000 else 2000)
unfolding sleep_duration
sleep_duration_lem rand_max randi p h = elim (Bool-cases (ltb randi rand_max)) [
  | inl e ↦ let small : randi < rand_max = ground arith in rw (e, div-eq_of_lt small) refl
  | inr e ↦ let same : randi ≡ rand_max = ground arith in rw (e, same, div_self p) refl
]
