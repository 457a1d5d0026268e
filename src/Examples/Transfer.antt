-- ===== src/Examples/Transfer.antt =====
-- A block-wise transfer over a small network.
use data_stream_pilot.Shared.{ℕ, ◌+◌, ◌*◌, ◌^◌, List, [], ◌∷◌, ◌++◌, Option, none, some, ltb}
use data_stream_pilot.Shared.Text.{codes}
use data_stream_pilot.Gcoap.{Gcoap, Block}
use data_stream_pilot.Cli.{Cli, initial}
use data_stream_pilot.Cli.Command.{retain_path}
use data_stream_pilot.Examples.Net.{Packet, no_packet, net}

block_number : Option Block → ℕ
block_number none = 0
block_number (some block) = block.blknum

-- the state of the network is the list of the blocks that were asked for
abbrev blocks_net : Gcoap Packet (List ℕ)
blocks_net = record net {
  req_send = λ p len remote context w. (len, w ++ (block_number p.block ∷ []));
}

-- a representation of five blocks
abbrev served : ℕ → Packet
served i = record no_packet {
  block = some (record { offset = i * 2 ^ 6; blknum = i; szx = 2; more = ltb (i + 1) 5 });
}

abbrev client : Cli (List ℕ)
client = record (initial []) { last_req_path = retain_path (codes "/big") 4 }
