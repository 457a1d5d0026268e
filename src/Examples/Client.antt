-- ===== src/Examples/Client.antt =====
-- The CoAP client and its server side.
use data_stream_pilot.Shared.{
  ℕ, ◌+◌, ◌%◌, ◌^◌, ◌≡◌, ◌==◌, refl, true, List, [], ◌∷◌, arith, some, if◌then◌else◌, leb, length,
}
use data_stream_pilot.Shared.Int.{to_u16}
use data_stream_pilot.Shared.Text.{Text, codes, c_string, str_eq}
use data_stream_pilot.Shared.Decimal.{
  atoi, strtoul, signed_value, skip_space, digits_value, unsigned_decimal, digits_before,
}
use data_stream_pilot.Gcoap.{Endpoint, memo_resp}
use data_stream_pilot.Cli.{
  Cli, initial, to_size, zero_endpoint, parse_endpoint, parse_iface, parse_address, parse_port,
  send, send_to,
}
use data_stream_pilot.Cli.Endpoints.{target}
use data_stream_pilot.Cli.Command.{
  find_code, retain_path, parse_options, has_arity, notify, cli_cmd, method_cmd, request,
  begin_request, finish_request, complete, send_and_notify, proxy_cmd,
}
use data_stream_pilot.Cli.Command.Effects.{IsValid}
use data_stream_pilot.Cli.Command.Post.{post_argv, post_packet, post_lem}
use data_stream_pilot.Cli.Command.Proxy.{set_argv, proxy_set_bad_port}
use data_stream_pilot.Cli.Response.{resp_handler, next_block, request_next}
use data_stream_pilot.Cli.Server.{stats_method, stats_handler}
use data_stream_pilot.Cli.Events.{Event, command, answered, stats, step, run, run-initial-IsValid}
use data_stream_pilot.Examples.Net.{Packet, no_packet, net, started, server_text, server_addr}

abbrev port_text : Text
port_text = codes "5683"

abbrev remote : Endpoint
remote = record { family = 10; netif = 6; addr = server_addr; port = 5683 }

abbrev script : List (Event Packet)
script =
    command (post_argv server_text port_text (codes "/temp") (codes "21"))
    ∷ answered memo_resp 0
        (record no_packet {
          block = some (record { offset = 0; blknum = 0; szx = 2; more = true });
        })
        remote
    ∷ stats (record no_packet { code = 3; body = codes "70000" })
    ∷ []

run-script-count : (run net script started).req_count ≡ 4464
unfolding run step stats_handler stats_method resp_handler next_block request_next c_string strtoul
    cli_cmd method_cmd find_code parse_options has_arity request begin_request finish_request
    complete send_and_notify notify send send_to retain_path proxy_cmd parse_endpoint parse_iface
    parse_address parse_port str_eq atoi signed_value skip_space digits_value
run-script-count = refl

run-initial-IsValid_example : IsValid (run net script (initial []))
run-initial-IsValid_example = run-initial-IsValid net script []

post_lem_example :
    let (len, pdu) = post_packet net (codes "/temp") started.world in
    let begun = record started {
      last_req_path = retain_path (codes "/temp") (length (codes "/temp"));
      world = (net.req_init net.uninitialised 2 (some (codes "/temp")) started.world).1;
    } in
    let (n, sent) =
      send net
        (net.write_payload (codes "21") pdu)
        ((to_size len + length (codes "21")) % 2 ^ 32)
        server_text
        port_text
        begun in
    cli_cmd net (post_argv server_text port_text (codes "/temp") (codes "21")) started ≡ (
      if leb (length (codes "21")) (net.payload_len pdu)
      then (0, if n == 0 then sent else notify net sent)
      else (1, begun))
post_lem_example =
    post_lem net server_text port_text (codes "/temp") (codes "21") started (ground arith)
      (ground arith) refl

server_parsed : (parse_endpoint net [] zero_endpoint server_text port_text).0 ≡ true
unfolding parse_endpoint parse_iface parse_address parse_port str_eq atoi signed_value skip_space
    digits_value
server_parsed = refl

server_known : net.addr_from_str server_text ≡ some server_addr
unfolding str_eq
server_known = refl

abbrev proxied : Cli (List ℕ)
proxied = record started { proxied = true; proxy_remote = remote }

port_zero : to_u16 (atoi (codes "0")) ≡ 0
unfolding atoi signed_value skip_space digits_value
port_zero = refl

proxy_set_bad_port_example :
    let (code, c') = cli_cmd net (set_argv server_text (codes "0")) proxied in
    (code ≡ 1)
    × (target net (codes "x") (codes "1") c' ≡ some c'.proxy_remote)
    × (c'.proxy_remote.port ≡ 0)
    × (c'.proxy_remote.addr ≡ server_addr)
proxy_set_bad_port_example =
    proxy_set_bad_port net server_text (codes "0") server_text (codes "x") (codes "1") server_addr
      proxied refl refl server_known refl port_zero

-- 64 times the letter a

abbrev put_packet : Packet
put_packet = record no_packet { code = 3; body = codes "70000" }

abbrev get_packet : Packet
get_packet = record no_packet { code = 1 }

written : net.payload put_packet ≡ unsigned_decimal 70_000
unfolding unsigned_decimal digits_before
written = refl
