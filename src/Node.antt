-- ===== src/Node.antt =====
-- The second node from power-on ("compute_engine copy"/main.c, `main`): the connection to the
-- broker, the two commands on the subscriptions, and the loop that posts a reading in each round.
-- The network is one state that the parts hand on. `Node.Threads` adds what comes in meanwhile from
-- other threads, publications and responses.
pub mod Start
pub mod Rounds
pub mod Threads
pub mod Blocks
pub mod Receiving
pub mod Interleaved
use mathlib.Core.Option
use data_stream_pilot.Shared.{ℕ, zero, suc, ◌+◌, ◌*◌, List, Option, none, some, replicate}
use data_stream_pilot.Shared.Text.{Text}
use data_stream_pilot.Shared.Int.{ℤ}
use data_stream_pilot.Noise.{Rand}
use data_stream_pilot.Site.{get_binary_value, location_map}
use data_stream_pilot.Cli.{Cli, initial}
use data_stream_pilot.Client.{Server, temp, gcoap_post}
use data_stream_pilot.Delta
use data_stream_pilot.Delta.{Encoder, fixed_temp}
use data_stream_pilot.Mqtt.{
  Subscription, Emcute, Mqtt, num_of_subs, topic_maxlen, empty_table, unsubscribe_from_topics,
  subscribe_to_topics,
}
use data_stream_pilot.Mqtt.Connect.{Link, connect}

-- the state at the head of the loop; `slept`: milliseconds since power-on
pub record Node (R W : Type 0) : Type 0 where
  pub encoder : Encoder
  pub subscriptions : List Subscription
  pub topics : List ℕ
  pub cli : Cli W
  pub random : R
  pub slept : ℕ

-- what the loop runs against: the network stack, the broker and the name of the site
pub record Build (P R W : Type 0) : Type 0 where
  pub srv : Server P W
  pub emcute : Emcute W
  pub con : List Text → W → ℤ × W
  pub rn : Rand R
  pub broker_ip : Text
  pub site_name : Text

module _ {P R W : Type 0} (b : Build P R W) where
  open b use {srv, emcute, con, rn, broker_ip, site_name}

  -- main after the connection, up to the loop
  abbrev pub connected : Link R W → Node R W
  connected l =
      let table : Mqtt W = record {
        subscriptions = empty_table;
        topics = replicate (topic_maxlen * num_of_subs) 0;
        world = l.world;
      } in
      let m = subscribe_to_topics emcute (unsubscribe_from_topics emcute table) in
      record {
        encoder = Delta.initial;
        subscriptions = m.subscriptions;
        topics = m.topics;
        cli = initial m.world;
        random = l.random;
        slept = l.slept + 4000 + 4000 + 4000;
      }

  -- main up to the loop, with at most `fuel` attempts to connect
  unfoldable pub start : ℕ → R → W → Option (Node R W)
  start fuel r w =
      Option.map connected
        (connect rn con broker_ip fuel (record { world = w; random = r; slept = 4000 }))

  abbrev pub site : ℕ
  site = get_binary_value location_map site_name

  -- the end of a round, after the reading is encoded
  unfoldable pub finish_round : Option Text → Node R W → Node R W
  finish_round none n = record n { slept = n.slept + 1000 }
  finish_round (some payload) n = record n {
    cli = (gcoap_post srv payload temp n.cli).1;
    slept = n.slept + 2000;
  }

  -- one round; `none`: main returns
  unfoldable pub node_round : Node R W → Option (Node R W)
  unfolding finish_round
  node_round n = elim (Delta.round site n.encoder fixed_temp) [
    | none ↦ none
    | some (encoder, payload) ↦ some (finish_round payload (record n { encoder = encoder }))
  ]

  unfoldable pub node_rounds : ℕ → Node R W → Option (Node R W)
  unfolding node_round
  node_rounds zero n = some n
  node_rounds (suc k) n = Option.bind (node_round n) (λ n'. node_rounds k n')
