-- ===== src/Engine/Posting.antt =====
-- What an observer of the network sees of one POST of the sensor node.
use data_stream_pilot.Shared.{
  ℕ, ◌+◌, ◌%◌, ◌^◌, ◌≤◌, ◌≡◌, ◌≢◌, refl, ◌==◌, ◌∙◌, true, false, [], ◌∷◌, ◌++◌, some, leb, length,
  arith,
}
use data_stream_pilot.Shared.Text.{Text, codes}
use data_stream_pilot.Gcoap.{Gcoap, finish_payload}
use data_stream_pilot.Gcoap.Recording.{Recording}
use data_stream_pilot.Cli.{Cli, zero_endpoint, parse_endpoint, to_size, send}
use data_stream_pilot.Cli.Command.{cli_cmd, notify, retain_path}
use data_stream_pilot.Cli.Command.Post.{post_packet, post_lem}
use data_stream_pilot.Engine.{coap_command}
use data_stream_pilot.Engine.Delivery.{IsDelivering}

module _ {P W : Type 0} (g : Gcoap P W) (rec : Recording g) where
  notify_logged : (c : Cli W) → rec.log (notify g c).world ≡ rec.log c.world
  unfolding notify
  notify_logged c =
      let (status, pdu0, w) = g.obs_init 0 c.world in
      let (len, pdu) = g.finish finish_payload (g.add_format g.format_text pdu0) in
      let text = g.fmt_u16_dec c.req_count in
      let size = (to_size len + length text) % 2 ^ 32 in
      ground (arith, rec.observes 0 c.world, rec.notifies (g.write_payload text pdu) size 0 w)

module _ {P W : Type 0} (g : Gcoap P W) (rec : Recording g) (server_ip : Text) {room : ℕ}
    (delivers : IsDelivering g server_ip room) where
  send_logged :
      (pdu : P) (len : ℕ) (c : Cli W)
      → c.proxied ≡ false
      → let (n, sent) = send g pdu len server_ip (codes "5683") c in
        (n ≢ 0) × (rec.log sent.world ≡ rec.log c.world ++ (rec.body pdu ∷ []))
  unfolding send
  send_logged pdu len c e =
      let remote = (parse_endpoint g c.world zero_endpoint server_ip (codes "5683")).1 in
      rw (e, delivers.parsed c.world)
        (delivers.taken pdu len remote c.world, rec.sends pdu len remote 0 c.world)

  pub post_logged :
      (body : Text) (c : Cli W)
      → body ≢ []
      → length body ≤ room
      → c.proxied ≡ false
      → let after = (cli_cmd g (coap_command server_ip body) c).1 in
        rec.log after.world ≡ rec.log c.world ++ (body ∷ [])
  post_logged body c some_body short e =
      let path = codes "/temp" in
      let (len, pdu) = post_packet g path c.world in
      let begun = record c {
        last_req_path = retain_path path 5;
        world = (g.req_init g.uninitialised 2 (some path) c.world).1;
      } in
      let packet = g.write_payload body pdu in
      let size = (to_size len + length body) % 2 ^ 32 in
      let (n, sent) = send g packet size server_ip (codes "5683") begun in
      let (nonzero, logged) = send_logged packet size begun e in
      let enough = delivers.roomy c.world in
      let fits : leb (length body) (g.payload_len pdu) ≡ true = ground arith in
      let some_sent : (n == 0) ≡ false = ground arith in
      let kept = rec.begins g.uninitialised 2 (some path) c.world in
      rw
        (
          post_lem g server_ip (codes "5683") path body c delivers.named some_body e,
          fits,
          some_sent,
        )
        (notify_logged g rec sent ∙ logged ∙ rw (rec.writes body pdu, kept) refl)
