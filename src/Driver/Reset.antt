-- ===== src/Driver/Reset.antt =====
-- The wait for the boot ends, and what the reset returns.
use data_stream_pilot.Shared.{
  ℕ, zero, suc, ◌+◌, ◌*◌, ◌/◌, ◌%◌, ◌^◌, ◌≤◌, ◌≡◌, ◌≢◌, inl, inr, some, false, Bool-cases,
  if◌then◌else◌, ◌==◌, ◌||◌, arith,
}
use data_stream_pilot.Shared.Int.{ℤ, pos, negsuc, ltb_ℤ, eqb_ℤ}
use data_stream_pilot.Driver.{
  Lps, Board, sleep, access, boot_loop, boot_delay, temp_sensor_write_ctrl_reg2_value, start_reset,
  enable_sensor, temp_sensor_reset,
}

-- what the wait has done: it slept 100 ms for each of at most `rounds` reads, none under the lock
pub record Waited {V : Type 0} (rounds : ℕ) (b b' : Board V) : Type 0 where
  pub polled : b.unlocked + 1 ≤ b'.unlocked
  pub bounded : b'.unlocked ≤ b.unlocked + rounds
  pub slept : b'.time + 100 * b.unlocked ≡ b.time + 100 * b'.unlocked
  pub still_free : b'.held ≡ false

module _ {V : Type 0} (lps : Lps V) where
  open lps use {ctrl_reg2, i2c_read_reg, enable}

  -- the board after one read
  abbrev poll : Board V → Board V
  poll b = access (sleep 100 b) (i2c_read_reg ctrl_reg2 b.device).2

  poll-Waited : (n : ℕ) (b : Board V) → b.held ≡ false → Waited (suc n) b (poll b)
  unfolding sleep
  poll-Waited n b free = ground arith

  poll_next : (n : ℕ) (b b' : Board V) → b.held ≡ false → Waited n (poll b) b' → Waited (suc n) b b'
  unfolding sleep
  poll_next n b b' free w = ground arith

  boot_loop_lem :
      (fuel i : ℕ) (b : Board V)
      → i + suc fuel ≡ 5
      → b.held ≡ false
      → (b' : Board V) × (boot_loop lps (suc fuel) i b ≡ some b') × Waited (suc fuel) b b'
  unfolding boot_loop
  boot_loop_lem zero i b h free = (poll b, ground arith, poll-Waited 0 b free)
  boot_loop_lem (suc fuel) i b h free =
      let (b', e, w) = boot_loop_lem fuel (i + 1) (poll b) (omega arith) free in
      let (ret, val, v) = i2c_read_reg ctrl_reg2 b.device in
      elim (Bool-cases (ltb_ℤ ret (pos 0) || (val / 2 ^ 7 % 2 == 0))) [
        | inl stop ↦ (poll b, ground arith, poll-Waited (suc fuel) b free)
        | inr go ↦ (b', ground (arith, e), poll_next (suc fuel) b b' free w)
      ]

  -- With the bus not held, bootDealay always ends, after one to five reads of the register, a sleep of 100 ms before
  -- each, and so after half a second at most; it reads the register without the bus acquired.
  pub boot_delay_ends :
      (b : Board V)
      → b.held ≡ false
      → (b' : Board V) × (boot_delay lps b ≡ some b')
        × (b.time + 100 ≤ b'.time)
        × (b'.time ≤ b.time + 500)
        × (b.unlocked + 1 ≤ b'.unlocked)
        × (b'.unlocked ≤ b.unlocked + 5)
        × (b'.time + 100 * b.unlocked ≡ b.time + 100 * b'.unlocked)
  unfolding boot_delay
  boot_delay_ends b free =
      let (b', e, w) = boot_loop_lem 4 0 b (omega arith) free in
      (b', e, omega arith, omega arith, omega arith, omega arith, omega arith)

  start_reset_free : (b : Board V) → (start_reset lps b).held ≡ false
  unfolding start_reset temp_sensor_write_ctrl_reg2_value sleep
  start_reset_free b = ground arith

  enable_sensor_lem :
      (b : Board V)
      → let code = (enable b.device).0 in
        let r = (enable_sensor lps (sleep 1000 b)).0 in
        (r ≡ (if eqb_ℤ code lps.ok then pos 0 else pos 1)) × (r ≢ negsuc 0)
  unfolding enable_sensor sleep
  enable_sensor_lem b = ground arith

  -- temp_sensor_reset always returns: 0 where lpsxxx_enable succeeds after the boot, 1 where it
  -- fails, and never the -1 that main tests for.
  pub temp_sensor_reset_returns :
      (b : Board V)
      → (booted : Board V) × (r : ℤ × Board V) × (boot_delay lps (start_reset lps b) ≡ some booted)
        × (temp_sensor_reset lps b ≡ some r)
        × (r.0 ≡ (if eqb_ℤ (enable booted.device).0 lps.ok then pos 0 else pos 1))
        × (r.0 ≢ negsuc 0)
  unfolding temp_sensor_reset
  temp_sensor_reset_returns b =
      let (booted, e, _, _, _, _, _) = boot_delay_ends (start_reset lps b) (start_reset_free b) in
      let (result, never) = enable_sensor_lem booted in
      (booted, enable_sensor lps (sleep 1000 booted), e, rw (e, temp_sensor_reset), result, never)
