-- ===== src/Station/Late.antt =====
-- A block that comes late: after the next request.
use data_stream_pilot.Shared.{
  ℕ, ◌+◌, ◌%◌, ◌^◌, ◌≡◌, ◌≢◌, refl, ap, ◌∙◌, true, false, List, [], ◌∷◌, ◌++◌, some,
}
use data_stream_pilot.Shared.Text.{c_string}
use data_stream_pilot.Gcoap.{Endpoint, Block, finish_none, memo_resp}
use data_stream_pilot.Cli.{Cli, to_size}
use data_stream_pilot.Cli.Command.{retain_path}
use data_stream_pilot.Cli.Response.Blocks.{next_packet, next_block_asks}
use data_stream_pilot.Client.{Resource, temp, time, core, board, hello, riot_v, sha_256, Server}
use data_stream_pilot.Client.Requests.{get_at-path}
use data_stream_pilot.Client.Command
use data_stream_pilot.Station.{
  get_resource_path, get_resource_path_len, send_coap_get_request, resp_handler,
}

-- The retained path of each resource is its path.
pub retained_string :
    (r : Resource)
    → (c_string (retain_path (get_resource_path r ++ (0 ∷ [])) (get_resource_path_len r))
        ≡ get_resource_path r)
      × (get_resource_path r ≢ [])
unfolding get_resource_path get_resource_path_len retain_path c_string
retained_string temp = (refl, λ e. cc)
retained_string time = (refl, λ e. cc)
retained_string core = (refl, λ e. cc)
retained_string board = (refl, λ e. cc)
retained_string hello = (refl, λ e. cc)
retained_string riot_v = (refl, λ e. cc)
retained_string sha_256 = (refl, λ e. cc)

module _ {P W : Type 0} (srv : Server P W) where
  pub get-path :
      (r : Resource) (c : Cli W) (addr : List ℕ)
      → srv.gcoap.addr_from_str srv.server_ip ≡ some addr
      → let after = send_coap_get_request srv r c in
        (c_string after.last_req_path ≡ get_resource_path r) × (after.proxied ≡ c.proxied)
  unfolding send_coap_get_request
  get-path r c addr e =
      let (path, proxied, _) =
        get_at-path srv (get_resource_path r) (get_resource_path_len r) c addr e in
      (ap c_string path ∙ (retained_string r).0, proxied)

  -- A fault: the thread asks for one resource and, a second later, for another. If the response to
  -- the first comes after that, with a block that is not the last, the block with the next number is
  -- asked for of the second resource, whatever the first one was.
  pub late_block :
      (first second : Resource) (context : ℕ) (pdu : P) (block : Block) (remote : Endpoint)
      (c : Cli W) (addr : List ℕ)
      → c.proxied ≡ false
      → srv.gcoap.addr_from_str srv.server_ip ≡ some addr
      → srv.gcoap.get_block2 pdu ≡ some block
      → block.more ≡ true
      → let c' = send_coap_get_request srv second (send_coap_get_request srv first c) in
        let path = get_resource_path second in
        let w = (srv.gcoap.req_init pdu srv.gcoap.method_get (some path) c'.world).1 in
        let (len, next) =
          srv.gcoap.finish finish_none
            (next_packet srv.gcoap path pdu block ((block.blknum + 1) % 2 ^ 32) c'.world) in
        resp_handler srv memo_resp context pdu remote c'
        ≡ record c' { world = (srv.gcoap.req_send next (to_size len) remote context w).1 }
  unfolding resp_handler Command.resp_handler
  late_block first second context pdu block remote c addr p a b m =
      let asked = send_coap_get_request srv first c in
      let c' = send_coap_get_request srv second asked in
      let (path, proxied) = get-path second asked addr a in
      let kept = (get-path first c addr a).1 in
      rw b (
        next_block_asks srv.gcoap (get_resource_path second) context pdu block remote c' path
          (retained_string second).1 (proxied ∙ kept ∙ p) m)
