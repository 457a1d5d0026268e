-- ===== src/Client/Requests.antt =====
-- What a GET and a POST of a resource change, for any table of resources.
use data_stream_pilot.Shared.{
  ℕ, ◌+◌, ◌%◌, ◌^◌, ◌≤◌, ◌≡◌, ◌≢◌, true, refl, Bool-cases, inl, inr, leb, ◌∙◌, List, [], ◌∷◌, ◌++◌,
  some, arith, length,
}
use data_stream_pilot.Shared.Int.{pos, ltb_ℤ}
use data_stream_pilot.Shared.Text.{Text}
use data_stream_pilot.Gcoap.{Endpoint, finish_none, finish_payload}
use data_stream_pilot.Gcoap.Recording.{Recording}
use data_stream_pilot.Cli.{Cli, to_size}
use data_stream_pilot.Cli.Command.{retain_path}
use data_stream_pilot.Cli.Command.Paths.{retain_path-IsRetained}
use data_stream_pilot.Cli.Command.Effects.{IsValid}
use data_stream_pilot.Client.{Server, with_port, send, begin, get_at, finish_post, post_at}
use data_stream_pilot.Client.Command.Effects.{send-IsValid}

-- the packet of a POST to `uri`, before it is finished
abbrev pub packet_of : {P W : Type 0} → Server P W → Text → W → P
packet_of srv uri w =
    let g = srv.gcoap in
    g.add_format g.format_text
      (g.set_type g.type_con (g.req_init g.uninitialised srv.method_post (some uri) w).0)

module _ {P W : Type 0} (srv : Server P W) where
  begin-IsValid :
      (method : ℕ) (uri : Text) (uri_len : ℕ) (c : Cli W)
      → IsValid c
      → IsValid (begin srv method uri uri_len c).1
  unfolding begin
  begin-IsValid method uri uri_len c v = record {
    retained = retain_path-IsRetained _ _;
    counted = v.counted;
  }

  pub get_at-IsValid :
      (uri : Text) (uri_len : ℕ) (c : Cli W) → IsValid c → IsValid (get_at srv uri uri_len c)
  unfolding get_at
  get_at-IsValid uri uri_len c v =
      let (pdu0, begun) = begin srv srv.gcoap.method_get uri uri_len c in
      let (len, pdu) = srv.gcoap.finish finish_none pdu0 in
      let begun_valid = begin-IsValid srv.gcoap.method_get uri uri_len c v in
      ground (arith, send-IsValid srv pdu (to_size len) srv.server_name begun begun_valid)

  finish_post-IsValid :
      (msg : Text) (pdu : P) (c : Cli W) → IsValid c → IsValid (finish_post srv msg pdu c).1
  unfolding finish_post
  finish_post-IsValid msg pdu0 c v =
      let (pdu_len, pdu) = srv.gcoap.finish finish_payload pdu0 in
      let len = (to_size pdu_len + length msg) % 2 ^ 32 in
      ground (arith, send-IsValid srv (srv.gcoap.write_payload msg pdu) len srv.server_name c v)

  pub post_at-IsValid :
      (msg uri : Text) (uri_len : ℕ) (c : Cli W)
      → IsValid c
      → IsValid (post_at srv msg uri uri_len c).1
  unfolding post_at
  post_at-IsValid msg uri uri_len c v =
      let (pdu, begun) = begin srv srv.method_post uri uri_len c in
      let begun_valid = begin-IsValid srv.method_post uri uri_len c v in
      ground (arith, finish_post-IsValid msg pdu begun begun_valid)

  -- With an address of the server that parses, a GET retains its path and keeps the proxy.
  pub get_at-path :
      (uri : Text) (uri_len : ℕ) (c : Cli W) (addr : List ℕ)
      → srv.gcoap.addr_from_str srv.server_ip ≡ some addr
      → let after = get_at srv uri uri_len c in
        (after.last_req_path ≡ retain_path (uri ++ (0 ∷ [])) uri_len)
        × (after.proxied ≡ c.proxied)
        × (after.proxy_remote ≡ c.proxy_remote)
  unfolding get_at begin send
  get_at-path uri uri_len c addr e = ground arith

  -- a network that takes every packet, and a server whose name and address are read
  pub record IsOpen : Type 0 where
    pub parsed : (addr : List ℕ) × (srv.gcoap.addr_from_str srv.server_ip ≡ some addr)
    pub named : (remote : Endpoint) × (srv.name2ep srv.server_name ≡ some remote)
    pub taken :
        (pdu : P) (len : ℕ) (remote : Endpoint) (context : ℕ) (w : W)
        → (srv.gcoap.req_send pdu len remote context w).0 ≢ 0

  -- such a network, where the packet of a POST to `uri` is finished with a length, and has room for
  -- `room` bytes
  pub record IsWorking (uri : Text) (room : ℕ) : Type 0 where
    pub opened : IsOpen
    pub finished :
        (w : W) → ltb_ℤ (pos 0) (srv.gcoap.finish finish_payload (packet_of srv uri w)).0 ≡ true
    pub roomy :
        (w : W)
        → room ≤ srv.gcoap.payload_len (srv.gcoap.finish finish_payload (packet_of srv uri w)).1

  module _ (opened : IsOpen) where
    open opened use {parsed, named, taken}

    send_counted :
        (pdu : P) (len : ℕ) (c : Cli W)
        → (send srv pdu len srv.server_name c).1.req_count ≡ (c.req_count + 1) % 2 ^ 16
    unfolding send
    send_counted pdu len c = ground (
      arith,
      named.1,
      taken pdu len c.proxy_remote 0 c.world,
      taken pdu len (with_port srv named.0) 0 c.world,
    )

    -- A GET is counted.
    pub get_at_counted :
        (uri : Text) (uri_len : ℕ) (c : Cli W)
        → (get_at srv uri uri_len c).req_count ≡ (c.req_count + 1) % 2 ^ 16
    unfolding get_at begin
    get_at_counted uri uri_len c = rw (parsed.1, get_at) (send_counted _ _ _)

    module _ (rec : Recording srv.gcoap) where
      send_logged :
          (pdu : P) (len : ℕ) (c : Cli W)
          → rec.log (send srv pdu len srv.server_name c).1.world
            ≡ rec.log c.world ++ (rec.body pdu ∷ [])
      unfolding send
      send_logged pdu len c = elim (Bool-cases c.proxied) [
        | inl e ↦ rw e (rec.sends pdu len c.proxy_remote 0 c.world)
        | inr e ↦ rw (e, named.1) (rec.sends pdu len (with_port srv named.0) 0 c.world)
      ]

  module _ {uri : Text} {room : ℕ} (works : IsWorking uri room) where
    open works use {opened, finished, roomy}

    -- A POST whose payload fits returns 0 and is counted.
    pub post_at_counted :
        (msg : Text) (uri_len : ℕ) (c : Cli W)
        → length msg ≤ room
        → ((post_at srv msg uri uri_len c).0 ≡ pos 0)
          × ((post_at srv msg uri uri_len c).1.req_count ≡ (c.req_count + 1) % 2 ^ 16)
    unfolding post_at begin finish_post
    post_at_counted msg uri_len c h =
        let (pdu0, begun) = begin srv srv.method_post uri uri_len c in
        let (pdu_len, pdu) = srv.gcoap.finish finish_payload pdu0 in
        let len = (to_size pdu_len + length msg) % 2 ^ 32 in
        ground (
          arith,
          opened.parsed.1,
          finished c.world,
          roomy c.world,
          send_counted opened (srv.gcoap.write_payload msg pdu) len begun,
        )

    module _ (rec : Recording srv.gcoap) where
      -- A POST whose payload fits is seen with its payload.
      pub post_at_logged :
          (msg : Text) (uri_len : ℕ) (c : Cli W)
          → length msg ≤ room
          → rec.log (post_at srv msg uri uri_len c).1.world ≡ rec.log c.world ++ (msg ∷ [])
      unfolding post_at begin finish_post
      post_at_logged msg uri_len c h =
          let (pdu0, begun) = begin srv srv.method_post uri uri_len c in
          let (pdu_len, pdu) = srv.gcoap.finish finish_payload pdu0 in
          let len = (to_size pdu_len + length msg) % 2 ^ 32 in
          let room_enough = roomy c.world in
          let fits : leb (length msg) (srv.gcoap.payload_len pdu) ≡ true = ground arith in
          let sent = send_logged opened rec (srv.gcoap.write_payload msg pdu) len begun in
          let kept = rec.begins srv.gcoap.uninitialised srv.method_post (some uri) c.world in
          rw (opened.parsed.1, post_at, fits, finished c.world)
            (sent ∙ rw (rec.writes msg pdu, kept) refl)
