-- ===== src/Engine/Start.antt =====
-- main from power-on.
use data_stream_pilot.Shared.{
  ℕ, zero, suc, ◌≡◌, refl, some, All, replicate, length-replicate, arith,
}
use data_stream_pilot.Shared.Int.{ℤ, pos, IsI16}
use data_stream_pilot.Float.{Float}
use data_stream_pilot.Window.{window_size}
use data_stream_pilot.Noise.{Rand}
use data_stream_pilot.Driver.{Lps, Board, sleep}
use data_stream_pilot.Driver.Reset.{temp_sensor_reset_returns}
use data_stream_pilot.Gcoap.{Gcoap}
use data_stream_pilot.Cli.{initial}
use data_stream_pilot.Cli.Command.Effects.{initial-IsValid}
use data_stream_pilot.Engine.{Config, Engine, fill_window, start, engine_rounds}
use data_stream_pilot.Engine.Rounds.{IsReady, engine_rounds-IsReady}

All-replicate : (n : ℕ) (z : ℤ) → IsI16 z → All IsI16 (replicate n z)
All-replicate zero z h = tt
All-replicate (suc n) z h = (h, All-replicate n z h)

module _ {V R P W F D : Type 0} (fl : Float F D) (rn : Rand R) (lps : Lps V) (g : Gcoap P W)
    (config : Config) where
  pub start_lem :
      (b : Board V) (r : R) (w : W)
      → ((v : V) → IsI16 (lps.read_temp v).1)
      → (e : Engine V R W F) × (v : V) × (start fl rn lps g config b r w ≡ some e)
        × IsReady e
        × (e.cli ≡ initial w)
        × (e.temp_list ≡ fill_window (lps.read_temp v).1)
  unfolding start
  start_lem b r w word =
      let (booted, reset, boots, returns, result, never) =
        temp_sensor_reset_returns lps (sleep 5000 b) in
      let board = sleep 4000 (sleep 2000 reset.1) in
      let (ret, initial_temp, v) = lps.read_temp board.device in
      let e : Engine V R W F = record {
        board = record board { device = v };
        random = r;
        cli = initial w;
        temp_list = fill_window initial_temp;
        current_index = 0;
        avg_temp = fl.f_of_int (pos 0);
        stddev = fl.f_of_int (pos 0);
      } in
      (
        e,
        board.device,
        rw (start, returns) refl,
        record {
          full = length-replicate window_size initial_temp;
          words = All-replicate window_size initial_temp (word board.device);
          inside = omega arith;
          client = initial-IsValid w;
        },
        refl,
        refl,
      )

  pub start-IsReady :
      (b : Board V) (r : R) (w : W)
      → ((v : V) → IsI16 (lps.read_temp v).1)
      → (e : Engine V R W F) × (start fl rn lps g config b r w ≡ some e)
        × IsReady e
        × (e.cli ≡ initial w)
  start-IsReady b r w word =
      let (e, v, starts, ready, fresh, filled) = start_lem b r w word in (e, starts, ready, fresh)

  -- From power-on, if the driver stores readings of 16 bits: main reaches its loop whatever the
  -- reset returns, and after any number of rounds its window has 65 readings of 16 bits, the index
  -- lies in it and the CoAP client is valid.
  start-engine_rounds :
      (n : ℕ) (b : Board V) (r : R) (w : W)
      → ((v : V) → IsI16 (lps.read_temp v).1)
      → (e : Engine V R W F) × (start fl rn lps g config b r w ≡ some e)
        × IsReady (engine_rounds fl rn lps g config n e)
  start-engine_rounds n b r w word =
      let (e, starts, ready, _) = start-IsReady b r w word in
      (e, starts, engine_rounds-IsReady fl rn lps g config n e ready)
