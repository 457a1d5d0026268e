-- ===== src/Engine/Posted.antt =====
-- What an observer of the network sees of the sensor node: the reports of its rounds.
use mathlib.Core.List.{append_assoc, append-nil, map-append}
use data_stream_pilot.Shared.{
  ◌+◌, ℕ, ◌<◌, ◌≤◌, ◌≡◌, refl, sym, ap, ◌∙◌, ◌⊎◌, false, Bool-cases, inl, inr, List, [], ◌∷◌, ◌++◌,
  map, none, some, if◌then◌else◌, set, length, arith, All,
}
use data_stream_pilot.Shared.Int.{ℤ, IsI16, eqb_ℤ}
use data_stream_pilot.Shared.Text.{Text}
use data_stream_pilot.Float.{Float}
use data_stream_pilot.Noise.{Rand}
use data_stream_pilot.Parity.{calculate_odd_parity}
use data_stream_pilot.Parity.Ones.{calculate_odd_parity_odd}
use data_stream_pilot.Payload.{json_text}
use data_stream_pilot.Payload.Fits.{json_payload_fits, length-json_text}
use data_stream_pilot.Driver.{Lps, Board}
use data_stream_pilot.Gcoap.{Gcoap, Endpoint, Block, MemoState, memo_timeout, memo_err}
use data_stream_pilot.Gcoap.Recording.{Recording}
use data_stream_pilot.Cli.{Cli}
use data_stream_pilot.Cli.Response.{resp_handler, next_block}
use data_stream_pilot.Engine.{
  Config, Engine, start, report, noisy, take_reading, rest, engine_round,
}
use data_stream_pilot.Engine.Delivery.{IsDelivering, json_text-some, round_counted}
use data_stream_pilot.Engine.Rounds.{report-rounded, take_reading_posts}
use data_stream_pilot.Engine.Start.{start-IsReady}
use data_stream_pilot.Engine.Posting.{post_logged}
use data_stream_pilot.Engine.Threads.{Event, next_round, answered, step, run}

-- the JSON text of an average and of its parity
abbrev pub report_text : Config → ℤ → Text
report_text config value =
    json_text config.site_name config.sensor_id value (calculate_odd_parity value)

-- a response with no block, or with the last one
abbrev pub IsPlain : {P W : Type 0} → Gcoap P W → Event P → Type 0
IsPlain g next_round = Unit
IsPlain g (answered state context pdu remote) =
    (g.get_block2 pdu ≡ none)
    ⊎ ((block : Block) × (g.get_block2 pdu ≡ some block) × (block.more ≡ false))

module _ {V R P W F D : Type 0} (fl : Float F D) (rn : Rand R) (lps : Lps V) (g : Gcoap P W)
    (config : Config) where
  -- what the next round reports, if its reading succeeds
  abbrev pub reported : Engine V R W F → List ℤ
  reported e =
      let (ret, temp, v) = lps.read_temp e.board.device in
      let x = (noisy fl rn temp e.random).0 in
      if eqb_ℤ ret lps.ok then (report fl (set e.temp_list e.current_index x)).rounded ∷ [] else []

  -- the averages that the rounds report, in order
  unfoldable pub reports : List (Event P) → Engine V R W F → List ℤ
  reports [] e = []
  reports (next_round ∷ es) e = reported e ++ reports es (step fl rn lps g config next_round e)
  reports (answered state context pdu remote ∷ es) e =
      reports es (step fl rn lps g config (answered state context pdu remote) e)

  module _ (rec : Recording g) {room : ℕ} (delivers : IsDelivering g config.server_ip room)
      (site : config.site_name < 8) (sensor : length config.sensor_id ≤ 78)
      (fitting : 49 + length config.sensor_id ≤ room) where
    take_reading_logged :
        (temp : ℤ) (e : Engine V R W F)
        → e.cli.proxied ≡ false
        → let x = (noisy fl rn temp e.random).0 in
          let value = (report fl (set e.temp_list e.current_index x)).rounded in
          rec.log (take_reading fl rn lps g config temp e).cli.world
          ≡ rec.log e.cli.world ++ (report_text config value ∷ [])
    take_reading_logged temp e p =
        let x = (noisy fl rn temp e.random).0 in
        let value = (report fl (set e.temp_list e.current_index x)).rounded in
        let parity = calculate_odd_parity value in
        let word = report-rounded fl (set e.temp_list e.current_index x) in
        let odd = calculate_odd_parity_odd value word in
        let (whole, short) =
          json_payload_fits config.site_name config.sensor_id value parity site sensor word odd.0 in
        let text = report_text config value in
        let brief =
          length-json_text config.site_name config.sensor_id value parity (omega arith) word
            (omega (arith, odd.0)) in
        rw (take_reading_posts fl rn lps g config temp e site sensor) (
          post_logged g rec config.server_ip delivers text e.cli (json_text-some _ _ value parity)
            (omega (arith, brief, fitting)) p)

    round_logged :
        (e : Engine V R W F)
        → e.cli.proxied ≡ false
        → rec.log (engine_round fl rn lps g config e).cli.world
          ≡ rec.log e.cli.world ++ map (report_text config) (reported e)
    unfolding engine_round rest
    round_logged e p =
        let (ret, temp, v) = lps.read_temp e.board.device in
        let e' : Engine V R W F = record e { board = record e.board { device = v } } in
        elim (Bool-cases (eqb_ℤ ret lps.ok)) [
          | inl ok ↦ rw ok (take_reading_logged temp e' p)
          | inr failed ↦ rw failed (sym (append-nil (rec.log e.cli.world)))
        ]

    plain_answer :
        (state : MemoState) (context : ℕ) (pdu : P) (remote : Endpoint) (c : Cli W)
        → IsPlain g (answered state context pdu remote)
        → resp_handler g state context pdu remote c ≡ c
    unfolding resp_handler next_block
    plain_answer memo_timeout context pdu remote c h = refl
    plain_answer memo_err context pdu remote c h = refl
    plain_answer _ context pdu remote c (inl e) = rw e refl
    plain_answer _ context pdu remote c (inr (block, e, m)) = rw (e, m) refl

    run_logged :
        (es : List (Event P)) (e : Engine V R W F)
        → All (IsPlain g) es
        → e.cli.proxied ≡ false
        → rec.log (run fl rn lps g config es e).cli.world
          ≡ rec.log e.cli.world ++ map (report_text config) (reports es e)
    unfolding run step reports
    run_logged [] e h p = sym (append-nil (rec.log e.cli.world))
    run_logged (next_round ∷ es) e h p =
        let e' = engine_round fl rn lps g config e in
        let unproxied = (round_counted fl rn lps g config delivers site sensor fitting e p).1 in
        run_logged es e' h.1 unproxied
        ∙ rw (round_logged e p, map-append (report_text config) (reported e) (reports es e'))
            (append_assoc (rec.log e.cli.world) (map (report_text config) (reported e))
              (map (report_text config) (reports es e')))
    run_logged (answered state context pdu remote ∷ es) e h p =
        let e' = step fl rn lps g config (answered state context pdu remote) e in
        let plain = plain_answer state context pdu remote e.cli h.0 in
        let unproxied : e'.cli.proxied ≡ false = ap (λ c. c.proxied) plain ∙ p in
        run_logged es e' h.1 unproxied
        ∙ ap (λ c. rec.log c.world ++ map (report_text config) (reports es e')) plain

    -- From power-on, where the driver stores readings of 16 bits, over a network that takes every
    -- packet with room for 49 bytes more than the sensor id, for a site code of three bits and a
    -- sensor id of at most 78 bytes: main reaches its
    -- loop, and after any sequence of rounds and of responses none of which has a further block, the
    -- requests that an observer of the network has seen since are exactly the whole JSON texts of
    -- the averages that the rounds report, each with its parity, in the order of the rounds.
    pub any_order_posted :
        (es : List (Event P)) (b : Board V) (r : R) (w : W)
        → All (IsPlain g) es
        → ((v : V) → IsI16 (lps.read_temp v).1)
        → (e : Engine V R W F) × (start fl rn lps g config b r w ≡ some e)
          × (rec.log (run fl rn lps g config es e).cli.world
              ≡ rec.log w ++ map (report_text config) (reports es e))
    any_order_posted es b r w plain word =
        let (e, starts, _, fresh) = start-IsReady fl rn lps g config b r w word in
        let unproxied : e.cli.proxied ≡ false = ap (λ c. c.proxied) fresh in
        let begun : rec.log e.cli.world ≡ rec.log w = ap (λ c. rec.log c.world) fresh in
        (
          e,
          starts,
          run_logged es e plain unproxied
              ∙ ap (λ l. l ++ map (report_text config) (reports es e)) begun,
        )
