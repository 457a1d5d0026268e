-- ===== src/Cli/Endpoints.antt =====
-- What `_parse_endpoint` accepts, and where `_send` sends to.
use data_stream_pilot.Shared.{
  ℕ, ◌+◌, ◌%◌, ◌^◌, ◌≡◌, ◌≢◌, true, Option, none, some, ◌==◌, arith, if◌then◌else◌,
}
use data_stream_pilot.Shared.Int.{to_u16}
use data_stream_pilot.Shared.Text.{Text}
use data_stream_pilot.Shared.Decimal.{atoi}
use data_stream_pilot.Gcoap.{Gcoap, Endpoint}
use data_stream_pilot.Cli.{Cli, zero_endpoint, parse_address, parse_endpoint, send}

module _ {P W : Type 0} (g : Gcoap P W) where
  open g use {af_inet6, any_netif, addr_from_str, split_iface, is_link_local, req_send}

  -- an endpoint that `_parse_endpoint` has filled from an address and a port
  pub record IsParsed (addr_str port_str : Text) (remote : Endpoint) : Type 0 where
    pub inet6 : remote.family ≡ af_inet6
    pub address : addr_from_str (split_iface addr_str).0 ≡ some remote.addr
    pub port_read : remote.port ≡ to_u16 (atoi port_str)
    pub port_set : remote.port ≢ 0
    pub scoped : ¬ ((is_link_local remote.addr ≡ true) × (remote.netif ≡ any_netif))

  -- the same, of the steps from the address on
  IsFilled : Text → Text → Endpoint → Endpoint → Type 0
  IsFilled addr_str port_str remote result =
      (result.family ≡ remote.family)
      × (addr_from_str addr_str ≡ some result.addr)
      × (result.port ≡ to_u16 (atoi port_str))
      × (result.port ≢ 0)
      × (¬ ((is_link_local result.addr ≡ true) × (result.netif ≡ any_netif)))

  parse_address-IsFilled :
      (addr_str port_str : Text) (remote : Endpoint)
      → (parse_address g addr_str port_str remote).0 ≡ true
      → IsFilled addr_str port_str remote (parse_address g addr_str port_str remote).1
  unfolding parse_address IsFilled
  parse_address-IsFilled addr_str port_str remote h = ground arith

  -- An endpoint that _parse_endpoint accepts has the family AF_INET6, the parsed address, the
  -- parsed port, which is not 0, and for a link-local address an interface.
  pub parse_endpoint-IsParsed :
      (w : W) (remote : Endpoint) (addr_str port_str : Text)
      → (parse_endpoint g w remote addr_str port_str).0 ≡ true
      → IsParsed addr_str port_str (parse_endpoint g w remote addr_str port_str).1
  unfolding parse_endpoint IsFilled
  parse_endpoint-IsParsed w remote addr_str port_str h = ground arith

  -- where a request goes: to the proxy if one is set, else to the endpoint that the address and the
  -- port stand for, if they are accepted
  abbrev pub target : Text → Text → Cli W → Option Endpoint
  target addr_str port_str c =
      if c.proxied
      then some c.proxy_remote
      else (let (parsed, remote) = parse_endpoint g c.world zero_endpoint addr_str port_str in
          if parsed then some remote else none)

  -- the network's answer to a request for a target; with no target nothing is sent
  abbrev pub answer : P → ℕ → W → Option Endpoint → ℕ × W
  answer pdu len w none = (0, w)
  answer pdu len w (some remote) = req_send pdu len remote 0 w

  -- _send sends one packet to its target, or none if there is no target, and returns the bytes
  -- sent. It counts the request exactly if bytes were sent, modulo 2^16, and changes no other
  -- static variable.
  pub send_lem :
      (pdu : P) (len : ℕ) (addr_str port_str : Text) (c : Cli W)
      → let (n, w) = answer pdu len c.world (target addr_str port_str c) in
        send g pdu len addr_str port_str c ≡ (
          n,
          record c {
            req_count = if n == 0 then c.req_count else (c.req_count + 1) % 2 ^ 16;
            world = w;
          },
        )
  unfolding send
  send_lem pdu len addr_str port_str c = ground arith
