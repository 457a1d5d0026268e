-- ===== src/Examples/Receiving.antt =====
-- The second node's payloads, as an observer of a small network sees them.
use data_stream_pilot.Shared.{ℕ, zero, suc, refl, List, [], ◌∷◌, arith}
use data_stream_pilot.Shared.Int.{ℤ, pos}
use data_stream_pilot.Shared.Text.{Text, codes, str_eq}
use data_stream_pilot.Client.Requests.{IsOpen, IsWorking}
use data_stream_pilot.Mqtt.{Emcute}
use data_stream_pilot.Node.{Node, Build}
use data_stream_pilot.Node.Receiving.{Event, next_round, published, answered_by}
use data_stream_pilot.Cli.{zero_endpoint}
use data_stream_pilot.Gcoap.{memo_resp}
use data_stream_pilot.Examples.Net.{no_packet, Packet, server_text, server_addr}
use data_stream_pilot.Examples.Air.{Air, on_air}
use data_stream_pilot.Examples.Node.{cycle}

on_air-IsOpen : IsOpen on_air
unfolding str_eq
on_air-IsOpen = record {
  parsed = (server_addr, refl);
  named = (record { family = 10; netif = 0; addr = server_addr; port = 0 }, refl);
  taken = λ pdu len remote context w. ground arith;
}

pub on_air-IsWorking : (uri : Text) → IsWorking on_air uri 39
on_air-IsWorking uri = record {
  opened = on_air-IsOpen;
  finished = λ w. refl;
  roomy = λ w. omega arith;
}

refuse : ℕ → Air → ℤ × Air
refuse zero w = (pos 0, w)
refuse (suc k) w = (pos 1, record w { refusals = k })

abbrev con : List Text → Air → ℤ × Air
con argv w = refuse w.refusals w

abbrev broker : Emcute Air
broker = record {
  ok = pos 0;
  qos_0 = 0;
  get_qos = λ s. 0;
  with_flags = λ a b. a;
  sub = λ topic flags w. (pos 0, 1, w);
  unsub = λ i w. (pos 0, w);
}

-- two refusals
abbrev pub quiet : Air
quiet = record { refusals = 2; seen = [] }

abbrev build : Build Packet ℕ Air
build = record {
  srv = on_air;
  emcute = broker;
  con = con;
  rn = cycle;
  broker_ip = server_text;
  site_name = codes "saclay";
}

-- two rounds, a publication, a response, a round
abbrev script : List (Event Packet)
script =
    next_round
    ∷ next_round
    ∷ published (codes "17") 2
    ∷ answered_by memo_resp 0 no_packet zero_endpoint
    ∷ next_round
    ∷ []

abbrev before : List (List ℕ × ℕ)
before = (codes "12", 2) ∷ []
