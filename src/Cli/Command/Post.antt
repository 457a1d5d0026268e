-- ===== src/Cli/Command/Post.antt =====
-- A POST, as main of compute_engine/main.c makes it: `coap post <addr> <port> <path> <data>`.
use data_stream_pilot.Shared.{
  ◌+◌, ◌%◌, ◌^◌, ◌≡◌, ◌≢◌, refl, false, List, [], ◌∷◌, some, ◌==◌, arith, if◌then◌else◌, leb,
  Bool-cases, inl, inr, length,
}
use data_stream_pilot.Shared.Text.{Text, codes, str_eq}
use data_stream_pilot.Shared.Int.{ℤ}
use data_stream_pilot.Gcoap.{Gcoap, finish_payload}
use data_stream_pilot.Cli.{Cli, to_size, send}
use data_stream_pilot.Cli.Command.{
  cli_cmd, method_cmd, find_code, parse_options, has_arity, request, begin_request, complete,
  finish_request, send_and_notify, notify, retain_path,
}
use data_stream_pilot.Cli.Command.Refused.{str_eq_of_ne}

abbrev pub post_argv : Text → Text → Text → Text → List Text
post_argv addr port path body = codes "coap" ∷ codes "post" ∷ addr ∷ port ∷ path ∷ body ∷ []

module _ {P W : Type 0} (g : Gcoap P W) where
  open g use {
    type_non, format_text, uninitialised, req_init, set_type, add_format, finish, payload_len,
    write_payload,
  }

  post_options :
      (addr port path body : Text)
      → addr ≢ codes "-c"
      → parse_options (post_argv addr port path body) 2 ≡ (false, 2)
  unfolding parse_options
  post_options addr port path body h = rw (str_eq_of_ne addr (codes "-c") h)

  post-request :
      (addr port path body : Text) (c : Cli W)
      → addr ≢ codes "-c"
      → cli_cmd g (post_argv addr port path body) c
        ≡ request g (post_argv addr port path body) 2 type_non 2 c
  unfolding cli_cmd method_cmd find_code has_arity str_eq
  post-request addr port path body c h = rw (post_options addr port path body h)

  has_data : (body : Text) → body ≢ [] → (length body == 0) ≡ false
  has_data [] h = absurd (h refl)
  has_data (x ∷ body) h = ground arith

  -- the packet of a POST to `path`, with room for its payload, and its length
  abbrev pub post_packet : Text → W → ℤ × P
  post_packet path w =
      finish finish_payload
        (add_format format_text (set_type type_non (req_init uninitialised 2 (some path) w).0))

  -- With no proxy set, a POST whose address is not the option "-c" and whose data is not empty
  -- retains its path, builds one packet (method 2, the path, the type of a non-confirmable message,
  -- the format of text) and, if the data fits the packet, copies the data behind it, sends that
  -- packet with both lengths added, notifies the observers if bytes were sent, and returns 0. If
  -- the data does not fit it sends nothing and returns 1.
  pub post_lem :
      (addr port path body : Text) (c : Cli W)
      → addr ≢ codes "-c"
      → body ≢ []
      → c.proxied ≡ false
      → let (len, pdu) = post_packet path c.world in
        let begun = record c {
          last_req_path = retain_path path (length path);
          world = (req_init uninitialised 2 (some path) c.world).1;
        } in
        let (n, sent) =
          send g (write_payload body pdu) ((to_size len + length body) % 2 ^ 32) addr port begun in
        cli_cmd g (post_argv addr port path body) c ≡ (
          if leb (length body) (payload_len pdu)
          then (0, if n == 0 then sent else notify g sent)
          else (1, begun))
  unfolding request begin_request complete finish_request send_and_notify
  post_lem addr port path body c h nonempty e =
      let some_data : (length body == 0) ≡ false = has_data body nonempty in
      elim (Bool-cases (leb (length body) (payload_len (post_packet path c.world).1))) [
        | inl f ↦ rw (post-request addr port path body c h, e, some_data, f)
        | inr f ↦ rw (post-request addr port path body c h, e, some_data, f)
      ]
