-- ===== src/Driver/Bus.antt =====
-- The bus is released on every path of a register write.
use data_stream_pilot.Shared.{ℕ, ◌≡◌, false, if◌then◌else◌, arith}
use data_stream_pilot.Shared.Int.{pos, ◌-ℤ◌, eqb_ℤ}
use data_stream_pilot.Driver.{Lps, Board, write_register_value}

module _ {V : Type 0} (lps : Lps V) where
  open lps use {ok, err_i2c, i2c_write_reg}

  -- A register write makes the one write, with the bus held, and on every path leaves the bus
  -- released. It returns LPSXXX_OK if the bus reports 0, and otherwise the negated I2C error.
  write_register_value_lem :
      (reg value : ℕ) (b : Board V)
      → let (ret, v) = i2c_write_reg reg value b.device in
        let (result, b') = write_register_value lps reg value b in
        (b' ≡ record b { device = v; held = false })
        × (result ≡ (if eqb_ℤ ret (pos 0) then ok else pos 0 -ℤ err_i2c))
  unfolding write_register_value
  write_register_value_lem reg value b = ground arith
