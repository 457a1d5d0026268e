-- ===== src/Cli/Command/Proxy.antt =====
-- The proxy of the client: what `proxy set` and `proxy unset` leave behind.
use data_stream_pilot.Shared.{
  ℕ, ◌≡◌, refl, true, false, List, [], ◌∷◌, none, some, arith, if◌then◌else◌,
}
use data_stream_pilot.Shared.Int.{to_u16}
use data_stream_pilot.Shared.Decimal.{atoi}
use data_stream_pilot.Shared.Text.{Text, codes, str_eq}
use data_stream_pilot.Gcoap.{Gcoap, Endpoint}
use data_stream_pilot.Cli.{Cli, zero_endpoint, parse_endpoint, parse_address, parse_port}
use data_stream_pilot.Cli.Endpoints.{IsParsed, parse_endpoint-IsParsed, target}
use data_stream_pilot.Cli.Command.{cli_cmd, proxy_cmd}

-- `coap proxy set <addr> <port>` and `coap proxy unset`
abbrev pub set_argv : Text → Text → List Text
set_argv addr port = codes "coap" ∷ codes "proxy" ∷ codes "set" ∷ addr ∷ port ∷ []

abbrev pub unset_argv : List Text
unset_argv = codes "coap" ∷ codes "proxy" ∷ codes "unset" ∷ []

module _ {P W : Type 0} (g : Gcoap P W) where
  cli_cmd-set :
      (addr port : Text) (c : Cli W)
      → let (parsed, remote) = parse_endpoint g c.world c.proxy_remote addr port in
        cli_cmd g (set_argv addr port) c ≡ (
          if parsed
          then (0, record c { proxy_remote = remote; proxied = true })
          else (1, record c { proxy_remote = remote }))
  unfolding cli_cmd proxy_cmd str_eq
  cli_cmd-set addr port c = refl

  cli_cmd-unset :
      (c : Cli W)
      → cli_cmd g unset_argv c ≡ (0, record c { proxy_remote = zero_endpoint; proxied = false })
  unfolding cli_cmd proxy_cmd str_eq
  cli_cmd-unset c = refl

  cli_cmd-set_ok :
      (addr port : Text) (c : Cli W)
      → (cli_cmd g (set_argv addr port) c).0 ≡ 0
      → let (parsed, remote) = parse_endpoint g c.world c.proxy_remote addr port in
        (parsed ≡ true)
        × ((cli_cmd g (set_argv addr port) c).1
            ≡ record c { proxy_remote = remote; proxied = true })
  cli_cmd-set_ok addr port c h = ground (arith, cli_cmd-set addr port c)

  -- Where `proxy set` returns 0, the proxy is the endpoint that its arguments stand for, with a
  -- port that is not 0; every later request, to whatever address, goes to it; and `proxy unset`
  -- then returns 0 and leaves no proxy and an endpoint of zeros.
  proxy_set_unset :
      (addr port other_addr other_port : Text) (c : Cli W)
      → (cli_cmd g (set_argv addr port) c).0 ≡ 0
      → let c' = (cli_cmd g (set_argv addr port) c).1 in
        IsParsed g addr port c'.proxy_remote
        × (target g other_addr other_port c' ≡ some c'.proxy_remote)
        × (cli_cmd g unset_argv c'
            ≡ (0, record c { proxy_remote = zero_endpoint; proxied = false }))
  proxy_set_unset addr port other_addr other_port c h =
      let (parsed, e) = cli_cmd-set_ok addr port c h in
      rw (e, cli_cmd-unset)
        (parse_endpoint-IsParsed g c.world c.proxy_remote addr port parsed, refl, refl)

  bad_address :
      (addr port : Text) (bytes : List ℕ) (remote : Endpoint)
      → g.addr_from_str addr ≡ some bytes
      → g.is_link_local bytes ≡ false
      → to_u16 (atoi port) ≡ 0
      → let (parsed, remote') = parse_address g addr port remote in
        (parsed ≡ false) × (remote'.port ≡ 0) × (remote'.addr ≡ bytes)
  unfolding parse_address parse_port
  bad_address addr port bytes remote f l z = ground arith

  bad_port :
      (addr port a : Text) (bytes : List ℕ) (w : W) (remote : Endpoint)
      → g.split_iface addr ≡ (a, none)
      → g.addr_from_str a ≡ some bytes
      → g.is_link_local bytes ≡ false
      → to_u16 (atoi port) ≡ 0
      → let (parsed, remote') = parse_endpoint g w remote addr port in
        (parsed ≡ false) × (remote'.port ≡ 0) × (remote'.addr ≡ bytes)
  unfolding parse_endpoint
  bad_port addr port a bytes w remote s f l z = rw s (bad_address a port bytes _ f l z)

  -- A fault: while a proxy is set, a `proxy set` with an address that parses and a port that is 0
  -- modulo 2^16 returns 1, but has already written the address and port 0 over the proxy, which
  -- stays in use: every later request goes to port 0 of the refused address.
  pub proxy_set_bad_port :
      (addr port a other_addr other_port : Text) (bytes : List ℕ) (c : Cli W)
      → c.proxied ≡ true
      → g.split_iface addr ≡ (a, none)
      → g.addr_from_str a ≡ some bytes
      → g.is_link_local bytes ≡ false
      → to_u16 (atoi port) ≡ 0
      → let (code, c') = cli_cmd g (set_argv addr port) c in
        (code ≡ 1)
        × (target g other_addr other_port c' ≡ some c'.proxy_remote)
        × (c'.proxy_remote.port ≡ 0)
        × (c'.proxy_remote.addr ≡ bytes)
  proxy_set_bad_port addr port a other_addr other_port bytes c h s f l z =
      let (refused, zero_port, address) =
        bad_port addr port a bytes c.world c.proxy_remote s f l z in
      rw (cli_cmd-set addr port c, refused, h) (refl, refl, zero_port, address)
