-- ===== src/Engine/Delivery.antt =====
-- The requests of the sensor node's loop over a network that takes every packet.
use data_stream_pilot.Shared.{
  ℕ, zero, suc, ◌+◌, ◌%◌, ◌^◌, ◌≤◌, ◌<◌, ◌≡◌, ◌≢◌, refl, ap, true, false, Bool-cases, inl, inr, [],
  some, ◌==◌, if◌then◌else◌, leb, set, length, arith,
}
use data_stream_pilot.Shared.Int.{ℤ, IsI16, eqb_ℤ}
use data_stream_pilot.Shared.Text.{Text, codes}
use data_stream_pilot.Float.{Float}
use data_stream_pilot.Noise.{Rand}
use data_stream_pilot.Parity.{calculate_odd_parity}
use data_stream_pilot.Parity.Ones.{calculate_odd_parity_odd}
use data_stream_pilot.Payload.{json_text}
use data_stream_pilot.Payload.Fits.{json_payload_fits, length-json_text}
use data_stream_pilot.Driver.{Lps, Board}
use data_stream_pilot.Gcoap.{Gcoap, Endpoint}
use data_stream_pilot.Cli.{Cli, zero_endpoint, parse_endpoint, to_size, send}
use data_stream_pilot.Cli.Command.{cli_cmd, retain_path}
use data_stream_pilot.Cli.Command.Effects.{notify_lem}
use data_stream_pilot.Cli.Command.Post.{post_argv, post_packet, post_lem}
use data_stream_pilot.Engine.{
  Config, Engine, start, report, noisy, take_reading, rest, engine_round, engine_rounds,
}
use data_stream_pilot.Engine.Rounds.{report-rounded}
use data_stream_pilot.Engine.Start.{start-IsReady}

-- a network that takes every packet, a server whose address is accepted, and packets of a POST to
-- /temp with room for `room` bytes
pub record IsDelivering {P W : Type 0} (g : Gcoap P W) (server_ip : Text) (room : ℕ) : Type 0 where
  pub named : server_ip ≢ codes "-c"
  pub parsed : (w : W) → (parse_endpoint g w zero_endpoint server_ip (codes "5683")).0 ≡ true
  pub taken :
      (pdu : P) (len : ℕ) (remote : Endpoint) (w : W) → (g.req_send pdu len remote 0 w).0 ≢ 0
  pub roomy : (w : W) → room ≤ g.payload_len (post_packet g (codes "/temp") w).1

module _ {P W : Type 0} (g : Gcoap P W) (server_ip : Text) {room : ℕ}
    (delivers : IsDelivering g server_ip room) where
  send_counted :
      (pdu : P) (len : ℕ) (c : Cli W)
      → c.proxied ≡ false
      → let (n, c') = send g pdu len server_ip (codes "5683") c in
        (n ≢ 0) × (c'.req_count ≡ (c.req_count + 1) % 2 ^ 16) × (c'.proxied ≡ false)
  unfolding send
  send_counted pdu len c e =
      let remote = (parse_endpoint g c.world zero_endpoint server_ip (codes "5683")).1 in
      rw (e, delivers.parsed c.world) (ground (arith, delivers.taken pdu len remote c.world))

  post_counted :
      (body : Text) (c : Cli W)
      → body ≢ []
      → length body ≤ room
      → c.proxied ≡ false
      → let (code, c') = cli_cmd g (post_argv server_ip (codes "5683") (codes "/temp") body) c in
        (code ≡ 0) × (c'.req_count ≡ (c.req_count + 1) % 2 ^ 16) × (c'.proxied ≡ false)
  post_counted body c some_body short e =
      let path = codes "/temp" in
      let (len, pdu) = post_packet g path c.world in
      let begun = record c {
        last_req_path = retain_path path (length path);
        world = (g.req_init g.uninitialised 2 (some path) c.world).1;
      } in
      let packet = g.write_payload body pdu in
      let size = (to_size len + length body) % 2 ^ 32 in
      let (n, sent) = send g packet size server_ip (codes "5683") begun in
      let (nonzero, counted, unproxied) = send_counted packet size begun e in
      let enough = delivers.roomy c.world in
      let fits : leb (length body) (g.payload_len pdu) ≡ true = ground arith in
      let some_sent : (n == 0) ≡ false = ground arith in
      rw
        (
          post_lem g server_ip (codes "5683") path body c delivers.named some_body e,
          fits,
          some_sent,
          notify_lem g sent,
        )
        (refl, counted, unproxied)

pub json_text-some :
    (site : ℕ) (sensor : Text) (value : ℤ) (parity : ℕ) → json_text site sensor value parity ≢ []
unfolding json_text
json_text-some site sensor value parity e = cc

-- how many of the next readings of the sensor succeed
unfoldable pub successes : {V : Type 0} → Lps V → ℕ → V → ℕ
successes lps zero v = 0
successes lps (suc n) v =
    let (ret, temp, v') = lps.read_temp v in
    (if eqb_ℤ ret lps.ok then 1 else 0) + successes lps n v'

module _ {V R P W F D : Type 0} (fl : Float F D) (rn : Rand R) (lps : Lps V) (g : Gcoap P W)
    (config : Config) {room : ℕ} (delivers : IsDelivering g config.server_ip room)
    (site : config.site_name < 8) (sensor : length config.sensor_id ≤ 78)
    (fitting : 49 + length config.sensor_id ≤ room) where
  take_reading_counted :
      (temp : ℤ) (e : Engine V R W F)
      → e.cli.proxied ≡ false
      → let c' = (take_reading fl rn lps g config temp e).cli in
        (c'.req_count ≡ (e.cli.req_count + 1) % 2 ^ 16) × (c'.proxied ≡ false)
  unfolding take_reading
  take_reading_counted temp e p =
      let x = (noisy fl rn temp e.random).0 in
      let value = (report fl (set e.temp_list e.current_index x)).rounded in
      let parity = calculate_odd_parity value in
      let word = report-rounded fl (set e.temp_list e.current_index x) in
      let (whole, short) =
        json_payload_fits config.site_name config.sensor_id value parity site sensor word
          (calculate_odd_parity_odd value word).0 in
      let text = json_text config.site_name config.sensor_id value parity in
      let brief =
        length-json_text config.site_name config.sensor_id value parity (omega arith) word
          (omega (arith, (calculate_odd_parity_odd value word).0)) in
      let posted =
        post_counted g config.server_ip delivers text e.cli (json_text-some _ _ value parity)
          (omega (arith, brief, fitting)) p in
      rw whole (posted.1, posted.2)

  take_reading-board :
      (temp : ℤ) (e : Engine V R W F) → (take_reading fl rn lps g config temp e).board ≡ e.board
  unfolding take_reading
  take_reading-board temp e = refl

  pub round_counted :
      (e : Engine V R W F)
      → e.cli.proxied ≡ false
      → let (ret, temp, v) = lps.read_temp e.board.device in
        let e' = engine_round fl rn lps g config e in
        (e'.cli.req_count % 2 ^ 16
          ≡ (e.cli.req_count + (if eqb_ℤ ret lps.ok then 1 else 0)) % 2 ^ 16)
        × (e'.cli.proxied ≡ false)
        × (e'.board.device ≡ v)
  unfolding engine_round rest
  round_counted e p =
      let (ret, temp, v) = lps.read_temp e.board.device in
      let e' : Engine V R W F = record e { board = record e.board { device = v } } in
      elim (Bool-cases (eqb_ℤ ret lps.ok)) [
        | inl ok ↦
            let (counted, unproxied) = take_reading_counted temp e' p in
            rw ok
              (omega (arith, counted), unproxied, ap (λ b. b.device) (take_reading-board temp e'))
        | inr failed ↦ rw failed (omega arith, p, refl)
      ]

  rounds_counted :
      (n : ℕ) (e : Engine V R W F)
      → e.cli.proxied ≡ false
      → (engine_rounds fl rn lps g config n e).cli.req_count % 2 ^ 16
        ≡ (e.cli.req_count + successes lps n e.board.device) % 2 ^ 16
  unfolding engine_rounds successes
  rounds_counted zero e p = omega arith
  rounds_counted (suc n) e p =
      let e' = engine_round fl rn lps g config e in
      let (counted, unproxied, same) = round_counted e p in
      omega (arith, rounds_counted n e' unproxied, counted, ap (λ v. successes lps n v) same)

  -- From power-on, where the driver stores readings of 16 bits, over a network that takes every
  -- packet with room for 49 bytes more than the sensor id, for a site code of three bits and a sensor
  -- id of at most 78 bytes: main reaches its loop,
  -- and in any number of rounds it sends one counted request for each reading that succeeds, and
  -- none for one that fails.
  readings_delivered :
      (n : ℕ) (b : Board V) (r : R) (w : W)
      → ((v : V) → IsI16 (lps.read_temp v).1)
      → (e : Engine V R W F) × (start fl rn lps g config b r w ≡ some e)
        × ((engine_rounds fl rn lps g config n e).cli.req_count % 2 ^ 16
            ≡ successes lps n e.board.device % 2 ^ 16)
  readings_delivered n b r w word =
      let (e, starts, _, fresh) = start-IsReady fl rn lps g config b r w word in
      let unproxied : e.cli.proxied ≡ false = ap (λ c. c.proxied) fresh in
      let none_yet : e.cli.req_count ≡ 0 = ap (λ c. c.req_count) fresh in
      (e, starts, omega (arith, rounds_counted n e unproxied, none_yet))
