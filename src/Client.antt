-- ===== src/Client.antt =====
-- The requests that the program makes of itself ("compute_engine copy"/client.c): the paths of the
-- resources, a GET and a POST. The static variables are those of `Cli`.
pub mod Resources
pub mod Command
pub mod Requests
pub mod Steps
use data_stream_pilot.Shared.{
  ℕ, suc, ◌+◌, ◌%◌, ◌^◌, Bool, true, false, not, List, [], ◌∷◌, ◌++◌, Option, none, some, ◌==◌,
  if◌then◌else◌, ltb, leb, length, take, replicate,
}
use data_stream_pilot.Shared.Int.{ℤ, pos, negsuc, ltb_ℤ}
use data_stream_pilot.Shared.Text.{Text, codes, overwrite}
use data_stream_pilot.Gcoap.{Gcoap, Endpoint, finish_none, finish_payload}
use data_stream_pilot.Cli.{Cli, to_size, send_to}
use data_stream_pilot.Cli.Command.{retain_path}

-- `resource_path`
pub data Resource : Type 0 where
  temp time core board hello riot_v sha_256 : Resource

unfoldable pub get_resource_path : Resource → Text
get_resource_path temp = codes "/temp"
get_resource_path time = codes "/time"
get_resource_path core = codes "/.well-known/core"
get_resource_path board = codes "/riot/board"
get_resource_path hello = codes "/echo/hello"
get_resource_path riot_v = codes "/riot/ver"
get_resource_path sha_256 = codes "/sha256"

unfoldable pub get_resource_path_len : Resource → ℕ
get_resource_path_len temp = 6
get_resource_path_len time = 6
get_resource_path_len core = 18
get_resource_path_len board = 12
get_resource_path_len hello = 12
get_resource_path_len riot_v = 10
get_resource_path_len sha_256 = 8

-- what the build and the network stack give: the address of the server in two forms, the port of
-- CoAP, and how a name is read as an endpoint
pub record Server (P W : Type 0) : Type 0 where
  pub gcoap : Gcoap P W
  pub server_ip : Text
  pub server_name : Text
  pub method_post : ℕ
  pub default_port : ℕ
  pub name2ep : Text → Option Endpoint
  -- what a text that is not read as an endpoint leaves in the one to fill
  pub name2ep_left : Text → Endpoint → Endpoint
  -- inet_ntop
  pub addr_text : Endpoint → Text

-- the path of a resource as it is retained: memcpy of `uri_len` bytes takes in its NUL
unfoldable pub retain_resource : Resource → List ℕ
unfolding get_resource_path get_resource_path_len retain_path
retain_resource path = retain_path (get_resource_path path ++ (0 ∷ [])) (get_resource_path_len path)

module _ {P W : Type 0} (srv : Server P W) where
  open srv use {gcoap, server_ip, server_name, method_post, default_port, name2ep}
  open gcoap use {
    type_con, format_text, method_get, uninitialised, req_init, set_type, add_format, finish,
    payload_len, write_payload, addr_from_str,
  }

  -- the port of CoAP, where none is given
  abbrev pub with_port : Endpoint → Endpoint
  with_port remote = if remote.port == 0 then record remote { port = default_port } else remote

  -- `_send`
  unfoldable pub send : P → ℕ → Text → Cli W → ℕ × Cli W
  unfolding send_to
  send pdu len addr_str c =
      if c.proxied then send_to gcoap pdu len c.proxy_remote c else elim (name2ep addr_str) [
        | none ↦ (0, c)
        | some remote ↦ send_to gcoap pdu len (with_port remote) c
      ]

  -- the packet of a request with the text format, and the state after the path is retained
  unfoldable pub begin : ℕ → Text → ℕ → Cli W → P × Cli W
  begin method uri uri_len c =
      let (pdu, w) = req_init uninitialised method (some uri) c.world in
      (
        add_format format_text (set_type type_con pdu),
        record c { last_req_path = retain_path (uri ++ (0 ∷ [])) uri_len; world = w },
      )

  -- send_coap_get_request of a path and of its entry in the table of lengths
  unfoldable pub get_at : Text → ℕ → Cli W → Cli W
  get_at uri uri_len c0 = elim (addr_from_str server_ip) [
    | none ↦ c0
    | some addr ↦
        let (pdu0, c) = begin method_get uri uri_len c0 in
        let (len, pdu) = finish finish_none pdu0 in (send pdu (to_size len) server_name c).1
  ]

  unfoldable pub send_coap_get_request : Resource → Cli W → Cli W
  unfolding get_at
  send_coap_get_request path c = get_at (get_resource_path path) (get_resource_path_len path) c

  -- gcoap_post from coap_opt_finish on
  unfoldable pub finish_post : Text → P → Cli W → ℤ × Cli W
  finish_post msg pdu0 c =
      let (pdu_len, pdu) = finish finish_payload pdu0 in
      let paylen = length msg in
      if leb paylen (payload_len pdu)
      then (if not (ltb_ℤ (pos 0) pdu_len)
          then (negsuc 0, c)
          else (let len = (to_size pdu_len + paylen) % 2 ^ 32 in
              (pos 0, (send (write_payload msg pdu) len server_name c).1)))
      else (pos 1, c)

  -- gcoap_post of a path and of its entry in the table of lengths
  unfoldable pub post_at : Text → Text → ℕ → Cli W → ℤ × Cli W
  post_at msg uri uri_len c0 = elim (addr_from_str server_ip) [
    | none ↦ (negsuc 0, c0)
    | some addr ↦ let (pdu0, c) = begin method_post uri uri_len c0 in finish_post msg pdu0 c
  ]

  unfoldable pub gcoap_post : Text → Resource → Cli W → ℤ × Cli W
  unfolding post_at
  gcoap_post msg path c = post_at msg (get_resource_path path) (get_resource_path_len path) c
