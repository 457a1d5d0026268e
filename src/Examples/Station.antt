-- ===== src/Examples/Station.antt =====
-- The test program, and the server side of the second client.
use data_stream_pilot.Shared.{none, ℕ, ◌+◌, ◌%◌, ◌^◌, ◌≡◌, refl, List, [], ◌∷◌, true, some}
use data_stream_pilot.Shared.Text.{Text, codes, str_eq}
use data_stream_pilot.Gcoap.{Block, finish_none, memo_resp}
use data_stream_pilot.Cli.{initial, to_size, zero_endpoint}
use data_stream_pilot.Cli.Command.Effects.{IsValid}
use data_stream_pilot.Cli.Response.Blocks.{next_packet}
use data_stream_pilot.Cli.Server
use data_stream_pilot.Client
use data_stream_pilot.Client.{core, board, temp}
use data_stream_pilot.Listener.{stats}
use data_stream_pilot.Listener.Events.{
  Event, command, asked, posted, requested, notified, run, host_run-IsValid,
}
use data_stream_pilot.Client.Steps.{Request, called, advance, get_request, shell_request}
use data_stream_pilot.Station.{
  in_core, Station, request_at, get_resource_path_len, go, shell_begins, send_coap_get_request,
  resp_handler, get_resource_path, lock, Reach, here, next,
}
use data_stream_pilot.Station.Invariant.{IsSafe, Reach-IsSafe}
use data_stream_pilot.Station.Late.{late_block}
use data_stream_pilot.Examples.Net.{
  Packet, no_packet, net, started, server, working, server_text, server_addr,
}

abbrev locked : Station Packet (List ℕ)
locked = record {
  cli = initial [];
  pc = in_core;
  held = true;
  slept = 0;
  phase = called;
  asked = none;
}

abbrev core_request : Request
core_request = get_request server (get_resource_path core) (get_resource_path_len core)

-- the thread's request has its packet
abbrev begun : Station Packet (List ℕ)
begun = record locked {
  phase = (advance server core_request called locked.cli).0;
  cli = (advance server core_request called locked.cli).1;
}

abbrev time_request : Request
time_request = shell_request 1 (codes "fe80::1") (codes "/time")

-- then the shell begins one
abbrev both : Station Packet (List ℕ)
both = record begun { asked = some (time_request, called) }

both-Reach : Reach server [] both
unfolding request_at advance str_eq
both-Reach =
    next (next (next here (lock refl refl)) (go core_request refl))
      (shell_begins time_request refl refl refl)

Reach-IsSafe_example : IsSafe both
Reach-IsSafe_example = Reach-IsSafe server [] both-Reach

abbrev first_block : Block
first_block = record { offset = 0; blknum = 0; szx = 2; more = true }

abbrev blocked : Packet
blocked = record no_packet { kind = 2; block = some first_block }

server_parsed : net.addr_from_str server_text ≡ some server_addr
unfolding str_eq
server_parsed = refl

late_block_example :
    let c' = send_coap_get_request server board (send_coap_get_request server core started) in
    let path = get_resource_path board in
    let w = (net.req_init blocked net.method_get (some path) c'.world).1 in
    let (len, next_pdu) =
      net.finish finish_none
        (next_packet net path blocked first_block ((0 + 1) % 2 ^ 32) c'.world) in
    resp_handler server memo_resp 0 blocked zero_endpoint c'
    ≡ record c' { world = (net.req_send next_pdu (to_size len) zero_endpoint 0 w).1 }
late_block_example =
    late_block server core board 0 blocked first_block zero_endpoint started server_addr refl
      server_parsed refl refl

abbrev events : List (Event Packet)
events =
    command (codes "coap" ∷ codes "get" ∷ codes "server" ∷ codes "/temp" ∷ [])
    ∷ posted (codes "21") temp
    ∷ requested stats (record no_packet { code = 3; body = codes "7" })
    ∷ asked board
    ∷ notified
    ∷ []

host_run-IsValid_example : IsValid (run working events (initial []))
host_run-IsValid_example = host_run-IsValid working events []

abbrev put_packet : Packet
put_packet = record no_packet { code = 3; body = codes "65535" }

abbrev get_packet : Packet
get_packet = record no_packet { code = 1 }

abbrev two_posts : List Text
two_posts = codes "21" ∷ codes "22" ∷ []
