-- ===== src/Examples/Observed.antt =====
-- The sensor node with the responses to its requests, as an observer of a small network sees it.
use data_stream_pilot.Shared.{
  ℕ, ◌+◌, ◌-◌, ◌%◌, ◌≡◌, ◌≢◌, refl, inr, true, List, [], ◌∷◌, arith, none, some,
}
use data_stream_pilot.Shared.Int.{ℤ, pos, IsI16, to_u16, of_u16}
use data_stream_pilot.Shared.Text.{Text, codes, str_eq, c_string}
use data_stream_pilot.Shared.Decimal.{atoi, signed_value, skip_space, digits_value}
use data_stream_pilot.Window.Steady.{steady, All-steady}
use data_stream_pilot.Noise.{Rand}
use data_stream_pilot.Driver.{Lps}
use data_stream_pilot.Gcoap.{Block, memo_resp}
use data_stream_pilot.Cli.{
  initial, zero_endpoint, parse_endpoint, parse_iface, parse_address, parse_port,
}
use data_stream_pilot.Cli.Command.{retain_path}
use data_stream_pilot.Cli.Command.Paths.{retain_path-IsRetained}
use data_stream_pilot.Cli.Response.{resp_handler, next_block}
use data_stream_pilot.Cli.Response.Own.{continued}
use data_stream_pilot.Engine.{Config, Engine, start}
use data_stream_pilot.Engine.Delivery.{IsDelivering}
use data_stream_pilot.Engine.Threads.{
  Event, next_round, answered, step, run, IsSafe, any_order_IsSafe, late_block_continues,
}
use data_stream_pilot.Payload.Receive.{receive, receive_lem}
use data_stream_pilot.Payload.{json_text}
use data_stream_pilot.Parity.{calculate_odd_parity}
use data_stream_pilot.Parity.Detect.{toggle}
use data_stream_pilot.Examples.Ints.{ints}
use data_stream_pilot.Examples.Net.{Packet, no_packet, lps, board, counting, server_text}
use data_stream_pilot.Examples.Air.{Air, radio}

abbrev config : Config
config = record { site_name = 4; sensor_id = codes "s1"; server_ip = server_text }

delivers : IsDelivering radio config.server_ip 127
unfolding parse_endpoint parse_iface parse_address parse_port str_eq atoi signed_value skip_space
    digits_value
delivers = record {
  named = λ e. cc;
  parsed = λ w. refl;
  taken = λ pdu len remote w. ground arith;
  roomy = λ w. omega arith;
}

named : config.server_ip ≢ codes "-c"
named = delivers.named

lps-words : (v : ℕ) → IsI16 (lps.read_temp v).1
lps-words v = omega arith

abbrev silence : Air
silence = record { refusals = 0; seen = [] }

abbrev late : Block
late = record { offset = 192; blknum = 3; szx = 2; more = true }

-- two rounds, a late response with a block, a round
abbrev mixed : List (Event Packet)
mixed =
    next_round
    ∷ next_round
    ∷ answered memo_resp 0 (record no_packet { block = some late }) zero_endpoint
    ∷ next_round
    ∷ []

abbrev plain : List (Event Packet)
plain = next_round ∷ answered memo_resp 0 no_packet zero_endpoint ∷ next_round ∷ next_round ∷ []

any_order_IsSafe_example :
    (e : Engine ℕ ℕ Air ℤ) × (start ints counting lps radio config board 7 silence ≡ some e)
    × IsSafe ints counting lps radio config (run ints counting lps radio config mixed e)
any_order_IsSafe_example =
    any_order_IsSafe ints counting lps radio config named mixed board 7 silence lps-words

receive_lem_example :
    let text = json_text 4 (codes "s1") in
    let parity = calculate_odd_parity (pos 2_150) in
    (receive (text (pos 2_150) parity) ≡ some (4, codes "s1", pos 2_150))
    × (receive (text (of_u16 (toggle 3 (to_u16 (pos 2_150)))) parity) ≡ none)
    × (receive (text (pos 2_150) (1 - parity)) ≡ none)
receive_lem_example =
    receive_lem 4 (codes "s1") (pos 2_150) 3 (omega arith) (ground arith) (omega arith)
      (omega arith)

-- a sensor at 21.50 °C, and a generator of small numbers
abbrev still : Lps ℕ
still = record lps { read_temp = λ v. (pos 0, pos 2_150, v) }

abbrev small : Rand ℕ
small = record { rand = λ n. (n % 49, n + 1); rand_max = 32_767 }

-- the loop after some requests
abbrev asked : Engine ℕ ℕ Air ℤ
asked = record {
  board = board;
  random = 7;
  cli = record (initial silence) { last_req_path = retain_path (codes "/temp") 5; req_count = 9 };
  temp_list = steady 65 2_000;
  current_index = 0;
  avg_temp = pos 0;
  stddev = pos 0;
}

asked-path : c_string asked.cli.last_req_path ≡ codes "/temp"
unfolding retain_path c_string
asked-path = refl

asked-IsSafe : IsSafe ints counting lps radio config asked
asked-IsSafe = record {
  ready = record {
    full = refl;
    words = All-steady 65 2_000 (omega arith);
    inside = omega arith;
    client = record { retained = retain_path-IsRetained _ _; counted = omega arith };
  };
  own = record { direct = refl; path = inr asked-path };
}

-- a response without a block comes first
abbrev before : List (Event Packet)
before = answered memo_resp 0 no_packet zero_endpoint ∷ []

before-retains : c_string (run ints counting lps radio config before asked).cli.last_req_path ≢ []
unfolding run step resp_handler next_block retain_path c_string
before-retains e = cc e

late_block_continues_example :
    let pdu = record no_packet { block = some late } in
    let cli = (run ints counting lps radio config before asked).cli in
    resp_handler radio memo_resp 0 pdu zero_endpoint cli
    ≡ continued radio pdu late zero_endpoint 0 cli
late_block_continues_example =
    late_block_continues ints counting lps radio config named before asked 0
      (record no_packet { block = some late }) late zero_endpoint asked-IsSafe before-retains refl
      refl
