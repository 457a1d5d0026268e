-- ===== src/Driver.antt =====
-- The sensor's registers, the wait for its boot and its reset (compute_engine/main.c). The I2C bus
-- and the lpsxxx driver are RIOT's: their operations and constants are parameters.
pub mod Bus
pub mod Reset
use data_stream_pilot.Shared.{
  ℕ, zero, suc, ◌+◌, ◌/◌, ◌%◌, ◌^◌, Bool, true, false, not, Option, none, some, ◌==◌, if◌then◌else◌,
  leb,
}
use data_stream_pilot.Shared.Int.{ℤ, pos, negsuc, ◌-ℤ◌, ltb_ℤ, eqb_ℤ}

-- `V` is the state of the device and of the driver; each operation returns the code that its C
-- function returns.
pub record Lps (V : Type 0) : Type 0 where
  pub ok : ℤ
  pub err_i2c : ℤ
  pub ctrl_reg2 : ℕ
  pub res_conf : ℕ
  pub init : V → ℤ × V
  pub enable : V → ℤ × V
  pub read_temp : V → ℤ × ℤ × V
  pub i2c_write_reg : ℕ → ℕ → V → ℤ × V
  pub i2c_read_reg : ℕ → V → ℤ × ℕ × V

-- `held`: this code has acquired the bus. `time`: the milliseconds slept. `unlocked`: how many
-- registers were accessed while the bus was not held.
pub record Board (V : Type 0) : Type 0 where
  pub device : V
  pub held : Bool
  pub time : ℕ
  pub unlocked : ℕ

module _ {V : Type 0} where
  unfoldable pub sleep : ℕ → Board V → Board V
  sleep ms b = record b { time = b.time + ms }

  abbrev pub acquire : Board V → Board V
  acquire b = record b { held = true }

  abbrev pub release : Board V → Board V
  release b = record b { held = false }

  -- the device after an access of a register
  abbrev pub access : Board V → V → Board V
  access b v = record b { device = v; unlocked = if b.held then b.unlocked else b.unlocked + 1 }

module _ {V : Type 0} (lps : Lps V) where
  open lps use {ok, err_i2c, ctrl_reg2, res_conf, init, enable, i2c_write_reg, i2c_read_reg}

  unfoldable pub write_register_value : ℕ → ℕ → Board V → ℤ × Board V
  write_register_value reg value b0 =
      let b = acquire b0 in
      let (ret, v) = i2c_write_reg reg value b.device in
      let b = access b v in
      if not (eqb_ℤ ret (pos 0)) then (pos 0 -ℤ err_i2c, release b) else (ok, release b)

  -- `while (1)` of bootDealay from the round `i` on; `none`: the fuel ran out
  unfoldable pub boot_loop : ℕ → ℕ → Board V → Option (Board V)
  unfolding sleep
  boot_loop zero i b0 = none
  boot_loop (suc fuel) i b0 =
      let b = sleep 100 b0 in
      let (ret, val, v) = i2c_read_reg ctrl_reg2 b.device in
      let b = access b v in
      let again = boot_loop fuel (i + 1) b in
      if ltb_ℤ ret (pos 0)
      then some b
      else if val / 2 ^ 7 % 2 == 0
      then some b
      else if leb 5 (i + 1)
      then some b
      else again

  -- The sleep of 5000 ms behind the loop is never reached: the loop ends by `return` alone.
  unfoldable pub boot_delay : Board V → Option (Board V)
  boot_delay b = boot_loop 5 0 b

  unfoldable pub temp_sensor_write_ctrl_reg2_value : ℕ → Board V → ℤ × Board V
  unfolding write_register_value
  temp_sensor_write_ctrl_reg2_value value b = write_register_value ctrl_reg2 value b

  unfoldable pub temp_sensor_write_res_conf : ℕ → Board V → ℤ × Board V
  unfolding write_register_value
  temp_sensor_write_res_conf value b = write_register_value res_conf value b

  -- the end of temp_sensor_reset, from the call of lpsxxx_enable on
  unfoldable pub enable_sensor : Board V → ℤ × Board V
  unfolding sleep
  enable_sensor b0 =
      let (ret, v) = enable b0.device in
      let b = record b0 { device = v } in
      if not (eqb_ℤ ret ok) then (pos 1, b) else (pos 0, sleep 2000 b)

  -- temp_sensor_reset up to the call of bootDealay; a failed init or write is only reported
  unfoldable pub start_reset : Board V → Board V
  start_reset b0 =
      let b = sleep 1000 b0 in
      let b = sleep 1000 (record b { device = (init b.device).1 }) in
      (temp_sensor_write_ctrl_reg2_value (2 ^ 7 + 2 ^ 2) b).1

  unfoldable pub temp_sensor_reset : Board V → Option (ℤ × Board V)
  temp_sensor_reset b = elim (boot_delay (start_reset b)) [
    | none ↦ none
    | some b' ↦ some (enable_sensor (sleep 1000 b'))
  ]
