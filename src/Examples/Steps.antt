-- ===== src/Examples/Steps.antt =====
-- Requests that other steps come in between.
use data_stream_pilot.Shared.{
  ℕ, ◌+◌, ◌%◌, ◌^◌, ◌≡◌, refl, inl, List, [], ◌∷◌, ◌++◌, some, arith, true, replicate,
}
use data_stream_pilot.Shared.Int.{ℤ, pos}
use data_stream_pilot.Shared.Text.{Text, codes, c_string, str_eq}
use data_stream_pilot.Gcoap.{Block, finish_none, memo_resp}
use data_stream_pilot.Cli.{Cli, zero_endpoint, to_size}
use data_stream_pilot.Cli.Command.Effects.{initial-IsValid}
use data_stream_pilot.Cli.Response.Blocks.{next_packet}
use data_stream_pilot.Client.{temp, board, get_resource_path, get_resource_path_len}
use data_stream_pilot.Client.Steps.{called, built, cleared, sent, advance, shell_request}
use data_stream_pilot.Client.Steps.Thread
use data_stream_pilot.Client.Steps.Thread.{Event, tick, answered}
use data_stream_pilot.Client.Steps.Retained.{Keeps}
use data_stream_pilot.Client.Steps.Schedule.{any_schedule-Keeps}
use data_stream_pilot.Client.Steps.Between.{
  continued, ticked, received, first_block_mid_request, late_block_mid_request,
}
use data_stream_pilot.Delta
use data_stream_pilot.Delta.{run, encode}
use data_stream_pilot.Station
use data_stream_pilot.Station.{send_coap_get_request, resp_handler}
use data_stream_pilot.Station.Race.{get_all, lost_updates, mixed_path}
use data_stream_pilot.Examples.Net.{
  Packet, no_packet, net, server, started, server_addr, working, working-IsOpen,
}

-- a response between any two steps of a thread
abbrev plain : Event Packet
plain = answered memo_resp 0 no_packet zero_endpoint

abbrev steps : List (Event Packet)
steps = tick ∷ plain ∷ tick ∷ tick ∷ plain ∷ tick ∷ tick ∷ plain ∷ tick ∷ tick ∷ tick ∷ tick ∷ []

started-Keeps : Keeps temp started
unfolding c_string
started-Keeps = (refl, inl refl, initial-IsValid [])

abbrev first_block : Block
first_block = record { offset = 0; blknum = 0; szx = 2; more = true }

abbrev third_block : Block
third_block = record { offset = 128; blknum = 2; szx = 2; more = true }

abbrev blocked : Block → Packet
blocked b = record no_packet { kind = 2; block = some b }

any_schedule-Keeps_example :
    Keeps temp
      (Thread.run server
        (get_resource_path temp)
        (get_resource_path_len temp)
        (tick ∷ tick ∷ answered memo_resp 0 (blocked third_block) zero_endpoint ∷ steps)
        (record { todo = codes "21" ∷ []; phase = called; cli = started })).cli
any_schedule-Keeps_example =
    any_schedule-Keeps server temp (codes "21" ∷ [])
      (tick ∷ tick ∷ answered memo_resp 0 (blocked third_block) zero_endpoint ∷ steps) started
      started-Keeps

abbrev asked : Cli (List ℕ)
asked = record started { last_req_path = codes "/temp" ++ replicate 59 0 }

abbrev mid : Thread.Thread Packet (List ℕ)
mid = record { todo = codes "21" ∷ []; phase = built no_packet; cli = asked }

first_block_mid_request_example :
    let pdu = blocked first_block in
    (received server temp 0 pdu zero_endpoint mid
      ≡ continued server temp (get_resource_path temp) 0 pdu zero_endpoint first_block mid)
    × (received server temp 0 pdu zero_endpoint (ticked server temp mid) ≡ ticked server temp mid)
    × (received server temp 0 pdu zero_endpoint (ticked server temp (ticked server temp mid))
        ≡ continued server temp
            (get_resource_path temp)
            0
            pdu
            zero_endpoint
            first_block
            (ticked server temp (ticked server temp mid)))
unfolding c_string get_resource_path
first_block_mid_request_example =
    first_block_mid_request server temp (codes "21") [] no_packet asked 0 (blocked first_block)
      zero_endpoint first_block refl refl refl refl refl

late_block_mid_request_example :
    received server temp 0 (blocked third_block) zero_endpoint (ticked server temp mid)
    ≡ continued server temp [] 0
        (blocked third_block)
        zero_endpoint
        third_block
        (ticked server temp mid)
late_block_mid_request_example =
    late_block_mid_request server temp (codes "21") [] no_packet asked 0 (blocked third_block)
      zero_endpoint third_block refl refl refl (omega arith)

lost_updates_example :
    let q = shell_request 1 (codes "fe80::1") (codes "/time") in
    let (phase, read) = advance working q (sent 16) started in
    let others = get_all working (board ∷ temp ∷ []) read in
    (others.req_count % 2 ^ 16 ≡ (started.req_count + 2) % 2 ^ 16)
    × ((advance working q phase others).1.req_count ≡ (started.req_count + 1) % 2 ^ 16)
lost_updates_example =
    lost_updates working working-IsOpen (codes "fe80::1") (codes "/time") 16 (board ∷ temp ∷ [])
      started (omega arith)

mixed_path_example :
    let q = shell_request 1 (codes "fe80::1") (codes "/time") in
    let others = send_coap_get_request server board started in
    let c' = (advance server q (cleared no_packet) others).1 in
    let mixed = codes "/time/board" in
    let w = (net.req_init (blocked first_block) 1 (some mixed) c'.world).1 in
    let (len, next) =
      net.finish finish_none (next_packet net mixed (blocked first_block) first_block 1 c'.world) in
    (c_string c'.last_req_path ≡ mixed)
    × (resp_handler server memo_resp 0 (blocked first_block) zero_endpoint c'
        ≡ record c' { world = (net.req_send next (to_size len) zero_endpoint 0 w).1 })
unfolding Station.get_resource_path
mixed_path_example =
    mixed_path server (codes "fe80::1") (codes "/time") board no_packet started server_addr 0
      (blocked first_block) zero_endpoint first_block (omega arith) (λ e. cc) (omega arith)
      (unfold str_eq in refl) refl refl refl

-- three readings, and nine steps for each
abbrev readings : List ℤ
readings = pos 2_000 ∷ pos 2_100 ∷ pos 1_990 ∷ []
