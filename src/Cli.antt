-- ===== src/Cli.antt =====
-- The CoAP client of compute_engine/gcoap_cli.c: its static variables, and the functions that read
-- an endpoint and send a request.
pub mod Endpoints
pub mod Command
pub mod Response
pub mod Server
pub mod Events
use data_stream_pilot.Shared.{
  ℕ, zero, suc, ◌+◌, ◌-◌, ◌%◌, ◌^◌, Bool, true, false, not, ◌&&◌, List, [], ◌∷◌, Option, none, some,
  ◌==◌, if◌then◌else◌, ltb, replicate,
}
use data_stream_pilot.Shared.Int.{ℤ, pos, negsuc, to_u16}
use data_stream_pilot.Shared.Text.{Text}
use data_stream_pilot.Shared.Decimal.{atoi}
use data_stream_pilot.Gcoap.{Gcoap, Endpoint}

-- `proxy_uri` is the string in its buffer; `last_req_path` is the whole buffer of 64 bytes; `world`
-- is the network stack.
pub record Cli (W : Type 0) : Type 0 where
  pub proxied : Bool
  pub proxy_remote : Endpoint
  pub proxy_uri : Text
  pub last_req_path : List ℕ
  pub req_count : ℕ
  pub world : W

abbrev pub last_req_path_max : ℕ
last_req_path_max = 64

-- an endpoint of zero bytes
abbrev pub zero_endpoint : Endpoint
zero_endpoint = record { family = 0; netif = 0; addr = replicate 16 0; port = 0 }

-- the static variables at start
abbrev pub initial : {W : Type 0} → W → Cli W
initial w = record {
  proxied = false;
  proxy_remote = zero_endpoint;
  proxy_uri = [];
  last_req_path = replicate last_req_path_max 0;
  req_count = 0;
  world = w;
}

-- the conversion of an ssize_t to size_t, on 32 bits
abbrev pub to_size : ℤ → ℕ
to_size (pos n) = n % 2 ^ 32
to_size (negsuc n) = 2 ^ 32 - 1 - n % 2 ^ 32

module _ {P W : Type 0} (g : Gcoap P W) where
  open g use {
    af_inet6, any_netif, netif_numof, netif_pid, netif_exists, split_iface, addr_from_str,
    is_link_local, req_send,
  }

  -- the end of _parse_endpoint, from the port on; the Boolean is the value returned
  unfoldable pub parse_port : Text → Endpoint → Bool × Endpoint
  parse_port port_str remote0 =
      let remote = record remote0 { port = to_u16 (atoi port_str) } in
      if remote.port == 0 then (false, remote) else (true, remote)

  -- the middle of _parse_endpoint, from the address on
  unfoldable pub parse_address : Text → Text → Endpoint → Bool × Endpoint
  unfolding parse_port
  parse_address addr_str port_str remote = elim (addr_from_str addr_str) [
    | none ↦ (false, remote)
    | some addr ↦
        if remote.netif == any_netif && is_link_local addr
        then (false, remote)
        else parse_port port_str (record remote { addr = addr })
  ]

  -- the start of _parse_endpoint: the interface, if the address names one. The text of the address is
  -- not cut in the arguments of the caller.
  unfoldable pub parse_iface : W → Text → Endpoint → Text × Option Text → Bool × Endpoint
  unfolding parse_address
  parse_iface w port_str remote (addr_str, none) =
      parse_address addr_str port_str
        (record remote { netif = if netif_numof w == 1 then netif_pid w % 2 ^ 16 else any_netif })
  parse_iface w port_str remote (addr_str, some name) =
      if not (netif_exists w (atoi name))
      then (false, remote)
      else parse_address addr_str port_str (record remote { netif = to_u16 (atoi name) })

  -- `_parse_endpoint`: it writes the fields of `remote` one by one, also where it then fails
  unfoldable pub parse_endpoint : W → Endpoint → Text → Text → Bool × Endpoint
  unfolding parse_iface
  parse_endpoint w remote addr_str port_str =
      parse_iface w port_str (record remote { family = af_inet6 }) (split_iface addr_str)

  -- the call of gcoap_req_send in _send, and the count of the requests sent
  unfoldable pub send_to : P → ℕ → Endpoint → Cli W → ℕ × Cli W
  send_to pdu len remote c =
      let (bytes_sent, w) = req_send pdu len remote 0 c.world in
      (
        bytes_sent,
        record c {
          world = w;
          req_count = if ltb 0 bytes_sent then (c.req_count + 1) % 2 ^ 16 else c.req_count;
        },
      )

  -- `_send`; an endpoint on the stack begins with any bytes, here zeros
  unfoldable pub send : P → ℕ → Text → Text → Cli W → ℕ × Cli W
  unfolding send_to
  send pdu len addr_str port_str c =
      if c.proxied
      then send_to pdu len c.proxy_remote c
      else (let (parsed, new_remote) = parse_endpoint c.world zero_endpoint addr_str port_str in
          if parsed then send_to pdu len new_remote c else (0, c))
