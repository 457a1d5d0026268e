-- ===== src/Engine/Own.antt =====
-- The sensor node's requests are all for the path /temp, and no proxy is set.
use data_stream_pilot.Shared.{
  ℕ, ◌+◌, ◌%◌, ◌^◌, ◌≡◌, ◌≢◌, refl, ◌==◌, Bool-cases, inl, inr, [], some, leb, length,
}
use data_stream_pilot.Shared.Int.{ℤ, eqb_ℤ}
use data_stream_pilot.Shared.Text.{Text, codes, c_string}
use data_stream_pilot.Float.{Float}
use data_stream_pilot.Noise.{Rand}
use data_stream_pilot.Payload.{json_text, json_payload}
use data_stream_pilot.Driver.{Lps}
use data_stream_pilot.Gcoap.{Gcoap, Endpoint, MemoState}
use data_stream_pilot.Cli.{Cli, to_size, send}
use data_stream_pilot.Cli.Endpoints.{send_lem}
use data_stream_pilot.Cli.Command.{cli_cmd, notify, retain_path}
use data_stream_pilot.Cli.Command.Effects.{notify_lem}
use data_stream_pilot.Cli.Command.Post.{post_packet, post_lem}
use data_stream_pilot.Cli.Response.{resp_handler}
use data_stream_pilot.Cli.Response.Blocks.{resp_handler_frame}
use data_stream_pilot.Cli.Response.Own.{IsOwn}
use data_stream_pilot.Engine.{Config, Engine, coap_command, take_reading, rest, engine_round}

module _ {V R P W F D : Type 0} (fl : Float F D) (rn : Rand R) (lps : Lps V) (g : Gcoap P W)
    (config : Config) where
  temp_retained : c_string (retain_path (codes "/temp") 5) ≡ codes "/temp"
  unfolding retain_path c_string
  temp_retained = refl

  send-IsOwn :
      (pdu : P) (len : ℕ) (addr port : Text) (c : Cli W)
      → IsOwn c
      → IsOwn (send g pdu len addr port c).1
  send-IsOwn pdu len addr port c h =
      rw (send_lem g pdu len addr port c) (record { direct = h.direct; path = h.path })

  notify-IsOwn : (c : Cli W) → IsOwn c → IsOwn (notify g c)
  notify-IsOwn c h = rw (notify_lem g c) (record { direct = h.direct; path = h.path })

  post-IsOwn :
      (body : Text) (c : Cli W)
      → config.server_ip ≢ codes "-c"
      → body ≢ []
      → IsOwn c
      → IsOwn (cli_cmd g (coap_command config.server_ip body) c).1
  post-IsOwn body c named some_body h =
      let (len, pdu) = post_packet g (codes "/temp") c.world in
      let begun = record c {
        last_req_path = retain_path (codes "/temp") 5;
        world = (g.req_init g.uninitialised 2 (some (codes "/temp")) c.world).1;
      } in
      let begun_own : IsOwn begun = record { direct = h.direct; path = inr temp_retained } in
      let packet = g.write_payload body pdu in
      let size = (to_size len + length body) % 2 ^ 32 in
      let sent_own = send-IsOwn packet size config.server_ip (codes "5683") begun begun_own in
      let (n, sent) = send g packet size config.server_ip (codes "5683") begun in
      let posted =
        post_lem g config.server_ip (codes "5683") (codes "/temp") body c named some_body
          h.direct in
      elim (Bool-cases (leb (length body) (g.payload_len pdu))) [
        | inl fits ↦ elim (Bool-cases (n == 0)) [
          | inl e ↦ rw (posted, fits, e) sent_own
          | inr e ↦ rw (posted, fits, e) (notify-IsOwn sent sent_own)
        ]
        | inr e ↦ rw (posted, e) begun_own
      ]

  pub answered-IsOwn :
      (state : MemoState) (context : ℕ) (pdu : P) (remote : Endpoint) (c : Cli W)
      → IsOwn c
      → IsOwn (resp_handler g state context pdu remote c)
  answered-IsOwn state context pdu remote c h =
      rw (resp_handler_frame g state context pdu remote c)
        (record { direct = h.direct; path = h.path })

  payload-some :
      (site : ℕ) (sensor : Text) (value : ℤ) (parity : ℕ)
      → (json_payload site sensor value parity).0 ≢ []
  unfolding json_payload json_text
  payload-some site sensor value parity e = cc

  module _ (named : config.server_ip ≢ codes "-c") where
    take_reading-IsOwn :
        (temp : ℤ) (e : Engine V R W F)
        → IsOwn e.cli
        → IsOwn (take_reading fl rn lps g config temp e).cli
    unfolding take_reading
    take_reading-IsOwn temp e h = post-IsOwn _ e.cli named (payload-some _ _ _ _) h

    pub engine_round-IsOwn :
        (e : Engine V R W F) → IsOwn e.cli → IsOwn (engine_round fl rn lps g config e).cli
    unfolding engine_round rest
    engine_round-IsOwn e h =
        let (ret, temp, v) = lps.read_temp e.board.device in
        let e' : Engine V R W F = record e { board = record e.board { device = v } } in
        elim (Bool-cases (eqb_ℤ ret lps.ok)) [
          | inl ok ↦ rw ok (take_reading-IsOwn temp e' h)
          | inr failed ↦ rw failed h
        ]
