-- ===== src/Examples/Node.antt =====
-- The two nodes from power-on, and the second one's table of subscriptions and connection.
use mathlib.Core.Option
use data_stream_pilot.Shared.{
  ℕ, ◌+◌, ◌*◌, ◌%◌, ◌≤◌, ◌<◌, ◌≡◌, refl, List, [], ◌∷◌, arith, some, All,
}
use data_stream_pilot.Shared.Int.{ℤ, pos}
use data_stream_pilot.Shared.Text.{Text, codes}
use data_stream_pilot.Noise.{Rand}
use data_stream_pilot.Mqtt.{Emcute}
use data_stream_pilot.Mqtt.Connect.{Link, Accepts, connect, connect_returns}
use data_stream_pilot.Mqtt.Table.{
  Command, sub_to, unsub_from, command_topic, IsValid, execute_all, specify_all,
}
use data_stream_pilot.Mqtt.Table.Refine.{view, IsTopic, execute_all-refines}
use data_stream_pilot.Node.{Node, Build, node_round}
use data_stream_pilot.Node.Start.{table, table-IsValid, d-IsTopic, start_lem}
use data_stream_pilot.Node.Threads.{Running, Step, Reach, here, IsSafe, running_goes_on}
use data_stream_pilot.Mqtt.Data.{publications, nothing}
use data_stream_pilot.Shared.Int.{IsI16}
use data_stream_pilot.Shared.Text.{str_eq}
use data_stream_pilot.Shared.Decimal.{atoi, signed_value, skip_space, digits_value}
use data_stream_pilot.Cli.{parse_endpoint, parse_iface, parse_address, parse_port}
use data_stream_pilot.Engine.{Config}
use data_stream_pilot.Engine.Delivery.{IsDelivering}
use data_stream_pilot.Examples.Net.{lps, Packet, working, server_text}

-- a broker that refuses until the network is empty
abbrev con : List Text → List ℕ → ℤ × List ℕ
con argv [] = (pos 0, [])
con argv (x ∷ w) = (pos 1, w)

abbrev pub cycle : Rand ℕ
cycle = record { rand = λ n. (n % 32_768, n + 1); rand_max = 32_767 }

abbrev broker : Emcute (List ℕ)
broker = record {
  ok = pos 0;
  qos_0 = 0;
  get_qos = λ s. 0;
  with_flags = λ a b. a;
  sub = λ topic flags w. (pos 0, 1, w);
  unsub = λ i w. (pos 0, w);
}

-- two refusals
abbrev busy : List ℕ
busy = 1 ∷ 1 ∷ []

busy-Accepts : Accepts cycle con server_text 2 busy
busy-Accepts = (ground arith, (ground arith, refl))

abbrev powered : Link ℕ (List ℕ)
powered = record { world = busy; random = 7; slept = 4000 }

pub cycle-positive : 0 < cycle.rand_max
cycle-positive = omega arith

pub cycle-small : (r : ℕ) → (cycle.rand r).0 ≤ cycle.rand_max
cycle-small r = omega arith

connect_returns_example :
    (l : Link ℕ (List ℕ)) × (connect cycle con server_text 3 powered ≡ some l)
    × (powered.slept + 10_000 * 2 ≤ l.slept)
    × (l.slept ≤ powered.slept + 15_000 * 2)
connect_returns_example =
    connect_returns cycle con server_text 2 powered (omega arith) cycle-small busy-Accepts

abbrev build : Build Packet ℕ (List ℕ)
build = record {
  srv = working;
  emcute = broker;
  con = con;
  rn = cycle;
  broker_ip = server_text;
  site_name = codes "saclay";
}

abbrev head : Node ℕ (List ℕ)
head = (start_lem build 2 7 busy cycle-positive cycle-small busy-Accepts).0

abbrev running : Running ℕ (List ℕ)
running = record { node = head; received = publications ((codes "12", 2) ∷ []) nothing }

running-Reach : Reach build 7 busy running
running-Reach =
    here 3 ((codes "12", 2) ∷ [])
      (start_lem build 2 7 busy cycle-positive cycle-small busy-Accepts).2

running_goes_on_example :
    IsSafe build running
    × ((t : Running ℕ (List ℕ)) × Step build running t × (node_round build head ≡ some t.node))
running_goes_on_example = running_goes_on build running-Reach

abbrev script : List Command
script = sub_to (codes "d") ∷ unsub_from (codes "x") ∷ unsub_from (codes "d") ∷ []

x-IsTopic : IsTopic (codes "x")
x-IsTopic = ((ground arith, tt), omega arith)

script-IsTopic : All (λ c. IsTopic (command_topic c)) script
script-IsTopic = (d-IsTopic, (x-IsTopic, (d-IsTopic, tt)))

execute_all-refines_example :
    IsValid (execute_all broker script (table []))
    × (view (execute_all broker script (table [])) ≡ specify_all broker script (view (table [])))
execute_all-refines_example =
    execute_all-refines broker script (table []) (table-IsValid []) script-IsTopic

abbrev config : Config
config = record { site_name = 4; sensor_id = codes "s1"; server_ip = server_text }

delivers : IsDelivering working.gcoap config.server_ip 127
unfolding parse_endpoint parse_iface parse_address parse_port str_eq atoi signed_value skip_space
    digits_value
delivers = record {
  named = λ e. cc;
  parsed = λ w. refl;
  taken = λ pdu len remote w. ground arith;
  roomy = λ w. omega arith;
}

lps-words : (v : ℕ) → IsI16 (lps.read_temp v).1
lps-words v = omega arith

abbrev pair : List Text
pair = codes "d" ∷ codes "x" ∷ []
