-- ===== src/Mqtt/Connect.antt =====
-- The connection to the broker (`initizlize_mqtt_client` of "compute_engine copy"/main.c).
use data_stream_pilot.Shared.{
  ℕ, zero, suc, ◌+◌, ◌*◌, ◌/◌, ◌≤◌, ◌<◌, ◌≡◌, ◌≢◌, refl, Bool-cases, inl, inr, List, [], ◌∷◌,
  Option, none, some, false, if◌then◌else◌, arith, ltb,
}
use data_stream_pilot.Shared.Int.{ℤ, pos, negsuc, eqb_ℤ}
use data_stream_pilot.Shared.Text.{Text, codes}
use data_stream_pilot.Noise.{Rand}
use native.Mathlib.Nat.{div-eq_of_lt, div_self}

-- the sleep before a new attempt: as in the other node, the quotient is one of integers
unfoldable pub retry_sleep : ℕ → ℕ → ℕ
retry_sleep rand_max randi = let u1 = randi / rand_max in u1 * 5000 + 10_000

-- what the loop changes: the network, the generator of random numbers, and the milliseconds slept
pub record Link (R W : Type 0) : Type 0 where
  pub world : W
  pub random : R
  pub slept : ℕ

-- `cmd_con` is declared and defined in no file of the repository: `con` is its value and effect.
module _ {R W : Type 0} (rn : Rand R) (con : List Text → W → ℤ × W) (server_ip : Text) where
  abbrev cmd_con_m : List Text
  cmd_con_m = codes "con" ∷ server_ip ∷ codes "1885" ∷ []

  -- `while (cmd_con(...))`; `none`: the fuel ran out
  unfoldable pub connect : ℕ → Link R W → Option (Link R W)
  connect zero l = none
  connect (suc fuel) l =
      let (ret, w) = con cmd_con_m l.world in
      let (randi, r) = rn.rand l.random in
      let again =
        connect fuel
          (record { world = w; random = r; slept = l.slept + retry_sleep rn.rand_max randi }) in
      if eqb_ℤ ret (pos 0) then some (record l { world = w }) else again

  -- The broker refuses `k` attempts from this state of the network on, and accepts the next.
  abbrev pub Accepts : ℕ → W → Type 0
  Accepts zero w = (con cmd_con_m w).0 ≡ pos 0
  Accepts (suc k) w = ((con cmd_con_m w).0 ≢ pos 0) × Accepts k (con cmd_con_m w).1

  refused : (ret : ℤ) → ret ≢ pos 0 → eqb_ℤ ret (pos 0) ≡ false
  refused (pos zero) h = absurd (h refl)
  refused (pos (suc n)) h = ground arith
  refused (negsuc n) h = ground arith

  retry_sleep-bounds :
      (p randi : ℕ)
      → 0 < p
      → randi ≤ p
      → (10_000 ≤ retry_sleep p randi) × (retry_sleep p randi ≤ 15_000)
  unfolding retry_sleep
  retry_sleep-bounds p randi h le = elim (Bool-cases (ltb randi p)) [
    | inl e ↦
        let small : randi < p = ground arith in rw (div-eq_of_lt small) (omega arith, omega arith)
    | inr e ↦
        let same : randi ≡ p = ground arith in rw (same, div_self h) (omega arith, omega arith)
  ]

  -- Where the broker accepts after `k` refusals, the loop ends with the (k + 1)-th attempt, and has
  -- slept between 10 and 15 seconds for each refusal, taken together.
  pub connect_returns :
      (k : ℕ) (l : Link R W)
      → 0 < rn.rand_max
      → ((r : R) → (rn.rand r).0 ≤ rn.rand_max)
      → Accepts k l.world
      → (l' : Link R W) × (connect (suc k) l ≡ some l')
        × (l.slept + 10_000 * k ≤ l'.slept)
        × (l'.slept ≤ l.slept + 15_000 * k)
  unfolding connect
  connect_returns zero l p h a =
      (record l { world = (con cmd_con_m l.world).1 }, rw a refl, omega arith, omega arith)
  connect_returns (suc k) l p h (refusal, a) =
      let (ret, w) = con cmd_con_m l.world in
      let (randi, r) = rn.rand l.random in
      let next : Link R W = record {
        world = w;
        random = r;
        slept = l.slept + retry_sleep rn.rand_max randi;
      } in
      let (l', same, low, high) = connect_returns k next p h a in
      let (s_low, s_high) = retry_sleep-bounds rn.rand_max randi p (h l.random) in
      (l', rw (refused ret refusal) same, omega arith, omega arith)

  -- Against a broker that never accepts the loop never ends.
  connect_never :
      (fuel : ℕ) (l : Link R W) → ((w : W) → (con cmd_con_m w).0 ≢ pos 0) → connect fuel l ≡ none
  unfolding connect
  connect_never zero l h = refl
  connect_never (suc fuel) l h =
      let (ret, w) = con cmd_con_m l.world in
      let (randi, r) = rn.rand l.random in
      let l' : Link R W = record {
        world = w;
        random = r;
        slept = l.slept + retry_sleep rn.rand_max randi;
      } in
      rw (refused ret (h l.world)) (connect_never fuel l' h)
