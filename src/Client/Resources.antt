-- ===== src/Client/Resources.antt =====
-- The table of resources, and what a POST keeps and retains.
use data_stream_pilot.Shared.{ℕ, ◌+◌, ◌%◌, ◌^◌, ◌≡◌, ◌≢◌, refl, List, none, some, arith, length}
use data_stream_pilot.Shared.Int.{pos}
use data_stream_pilot.Shared.Text.{Text, c_string}
use data_stream_pilot.Gcoap.{finish_payload}
use data_stream_pilot.Cli.{Cli, to_size, last_req_path_max}
use data_stream_pilot.Cli.Command.{retain_path}
use data_stream_pilot.Client.{
  Resource, temp, time, core, board, hello, riot_v, sha_256, get_resource_path,
  get_resource_path_len, Server, retain_resource, send, begin, finish_post, gcoap_post,
}

-- The table of lengths agrees with the paths, their NUL counted, so that for each resource the
-- retained request path is a buffer of 64 bytes whose string is the path.
pub retain_resource_lem :
    (r : Resource)
    → (get_resource_path_len r ≡ length (get_resource_path r) + 1)
      × (length (retain_resource r) ≡ last_req_path_max)
      × (c_string (retain_resource r) ≡ get_resource_path r)
unfolding get_resource_path get_resource_path_len retain_resource retain_path c_string
retain_resource_lem temp = (refl, refl, refl)
retain_resource_lem time = (refl, refl, refl)
retain_resource_lem core = (refl, refl, refl)
retain_resource_lem board = (refl, refl, refl)
retain_resource_lem hello = (refl, refl, refl)
retain_resource_lem riot_v = (refl, refl, refl)
retain_resource_lem sha_256 = (refl, refl, refl)

module _ {P W : Type 0} (srv : Server P W) where
  -- A POST that reports a failure has counted no request, and leaves the proxy as it was. Its path
  -- is retained all the same, unless the address of the server is refused.
  gcoap_post_fails :
      (msg : Text) (path : Resource) (c : Cli W)
      → (gcoap_post srv msg path c).0 ≢ pos 0
      → let after = (gcoap_post srv msg path c).1 in
        (after.req_count ≡ c.req_count)
        × (after.proxied ≡ c.proxied)
        × (after.last_req_path ≡ (elim (srv.gcoap.addr_from_str srv.server_ip) as (λ x. List ℕ) [
          | none ↦ c.last_req_path
          | some addr ↦ retain_resource path
        ]))
  unfolding gcoap_post begin finish_post retain_resource
  gcoap_post_fails msg path c h = ground arith

  send-frame :
      (pdu : P) (len : ℕ) (host : Text) (c : Cli W)
      → let after = (send srv pdu len host c).1 in
        (after.proxied ≡ c.proxied) × (after.last_req_path ≡ c.last_req_path)
  unfolding send
  send-frame pdu len host c = ground arith

  finish_post-frame :
      (msg : Text) (pdu : P) (c : Cli W)
      → let after = (finish_post srv msg pdu c).1 in
        (after.proxied ≡ c.proxied) × (after.last_req_path ≡ c.last_req_path)
  unfolding finish_post
  finish_post-frame msg pdu0 c =
      let (pdu_len, pdu) = srv.gcoap.finish finish_payload pdu0 in
      let len = (to_size pdu_len + length msg) % 2 ^ 32 in
      ground (arith, send-frame (srv.gcoap.write_payload msg pdu) len srv.server_name c)

  -- A POST leaves the proxy as it was, and its path is retained, unless the address of the server
  -- is refused.
  pub gcoap_post-path :
      (msg : Text) (path : Resource) (c : Cli W)
      → let after = (gcoap_post srv msg path c).1 in
        (after.proxied ≡ c.proxied)
        × (after.last_req_path ≡ (elim (srv.gcoap.addr_from_str srv.server_ip) as (λ x. List ℕ) [
          | none ↦ c.last_req_path
          | some addr ↦ retain_resource path
        ]))
  unfolding gcoap_post begin retain_resource
  gcoap_post-path msg path c =
      let (pdu, begun) =
        begin srv srv.method_post (get_resource_path path) (get_resource_path_len path) c in
      ground (arith, finish_post-frame msg pdu begun)
