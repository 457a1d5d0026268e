-- ===== src/Lib.antt =====
-- DataStreamPilot reads temperatures on small RIOT nodes, cleans and averages them, and sends
-- them by CoAP or MQTT. This library models the C code of its nodes.
--
-- Parts, and the files that model them:
-- * src/compute_engine/main.c, the sensor node. Site: LocationMapping, getBinaryValue and
--   locationMap. Parity: calculate_odd_parity. Window: calculate_stddev, remove_outliers and
--   calculate_average over the window of 65 readings. Noise: generate_normal_random, add_noise
--   and the sleep between rounds. Payload: the JSON text. Driver: write_register_value,
--   bootDealay and temp_sensor_reset. Engine: the loop of main, which joins these and calls
--   gcoap_cli_cmd. Its state is a record of main's variables, the sensor, the random numbers and
--   the client. Engine.Delivery: its requests over a network that works. Engine.Threads: the loop
--   with the responses that the CoAP thread handles between its rounds, as a list of events.
--   Engine.Posting and Engine.Posted: what an observer of the network sees of it;
--   Engine.Constant: the same for a constant temperature; Payload.Receive and Engine.Received: a
--   receiver of the texts, which is a specification and no code of the repository.
-- * src/compute_engine/gcoap_cli.c, the CoAP client. Cli: the static variables as a record,
--   _parse_endpoint and _send. Cli.Command: gcoap_cli_cmd, cut at its labels and branches.
--   Cli.Response: _resp_handler; Cli.Response.Transfer: its answers to a server that serves one
--   block after the other; Cli.Response.Own: clients that ask for one path only, as those of the
--   two nodes do. Cli.Server: _encode_link, _stats_handler and _riot_board_handler. Cli.Events:
--   any sequence of calls of these.
-- * "src/compute_engine copy"/main.c, the second node. Delta: the encoding of readings as
--   differences from a base; Delta.Buffers: what it writes with sprintf and strcat, with the
--   sizes of the buffers; Delta.Receive: a receiver of the payloads, which is a specification and
--   no code of the repository. Mqtt: cmd_sub_1, cmd_unsub and on_pub; Mqtt.Table: the table of
--   subscriptions as sixteen slots; Mqtt.Connect: the connection to the broker. Node: main from
--   power-on, which joins these and calls gcoap_post; Node.Threads: its loop with publications
--   and responses between the rounds; Node.Blocks: what its requests leave for a block that comes
--   late; Node.Receiving: what an observer of the network sees of it, and what the receiver
--   reads; Node.Interleaved: the same of its payloads where responses come in between the steps
--   of the requests.
-- * "src/compute_engine copy"/client.c. Client: the table of resources, send_coap_get_request and
--   gcoap_post, over the static variables of Cli. Client.Command: its own gcoap_cli_cmd and
--   _resp_handler, with the parts of Cli.Command that are the same. Client.Requests: what a GET
--   and a POST change, for any table of resources. Client.Steps: the same requests cut into the
--   steps that read or write a static variable or the network, and a thread that makes one POST
--   after the other, with the responses that the CoAP thread handles between any two steps.
-- * "src/compute_engine copy"/server.c. Listener: the table of resources, the handlers,
--   notify_observers and server_init. Listener.Events: any sequence of calls into the client and
--   this server. Listener.Counting: the count that /cli/stats reports.
-- * src/network/gcoap_test, main.c and client.c. Station: the thread, the shell's command and the
--   responses, as a step relation on one state, the static variables of the client, the place of
--   the thread and the mutex. Its requests take the steps of Client.Steps. Station.Race: a
--   request of the shell with requests of the thread, which has the higher priority, in between;
--   Station.Late: a response that comes after the next request.
-- * src/denoiser/main.c. Denoiser: filter_outliers.
-- Shared holds the library's names, lists, integers, C strings and decimal numbers; Loops the
-- counted loops; Examples the tests and the theorems at concrete inputs.
--
-- RIOT's CoAP library, interfaces and addresses (Gcoap), its I2C bus and sensor driver
-- (Driver.Lps), its MQTT client (Mqtt.Emcute), the command cmd_con, which no file defines, and
-- the C library's rand (Noise.Rand) are parameters. Gcoap.Recording and
-- Cli.Response.Transfer.Asking name what an observer is taken to see: the body, or the number of
-- the block, of each request that is sent. Floating-point arithmetic is a parameter too: Float is
-- a record of its operations, and Float.IsIeee names the laws that some theorems assume, such as
-- that sums of integers up to 2^53 are exact as doubles.
--
-- Conventions: numbers are natural numbers, a width is written out as a remainder; int16_t is ℤ
-- with wrap_i16. A C string is the list of its bytes without the NUL, a buffer the list of all
-- its bytes. A read of a list out of bounds gives a default and a write changes nothing, except
-- in Mqtt.write_at, where memory is one list and a write may run past its row. Counted loops are
-- structural. The loop of bootDealay has the fuel 5, the bound of its counter. The connection to
-- the broker has a fuel of its attempts, k + 1 where the broker refuses k of them. A block-wise
-- transfer has a fuel of at least its number of blocks. The other endless loops of the mains run
-- for a given number of rounds, over a given list of readings, or over a given list of events. A
-- request has eight steps, and the thread a ninth to the next one.
--
-- Not modelled: console output; an interleaving inside a round of the sensor node or a request of
-- gcoap_cli.c, inside a request through a proxy, or of two accesses within one step of
-- Client.Steps, such as the test for a proxy and the sending; a cut in place of an address that
-- names an interface, by ipv6_addr_split_iface: each parse reads the whole text;
-- src/network/gcoap, which is RIOT's example; the other copies of server.c; the shells of
-- src/network/gnrc_networking and gnrc_border_router; the Python service under src/server; the
-- Matlab models and the scripts.
pub mod Shared
pub mod Site
pub mod Parity
pub mod Loops
pub mod Float
pub mod Window
pub mod Driver
pub mod Gcoap
pub mod Cli
pub mod Payload
pub mod Node
pub mod Noise
pub mod Engine
pub mod Delta
pub mod Mqtt
pub mod Denoiser
pub mod Client
pub mod Listener
pub mod Station
pub mod Examples
