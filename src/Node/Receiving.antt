-- ===== src/Node/Receiving.antt =====
-- From the second node's power-on to the receiver of its payloads, with publications and responses
-- between the rounds.
use mathlib.Core.Option
use data_stream_pilot.Shared.{ℕ, suc, ◌≡◌, ◌⊎◌, List, [], ◌∷◌, some, none, false, Option}
use data_stream_pilot.Shared.Text.{Text}
use data_stream_pilot.Gcoap.Recording.{Recording}
use data_stream_pilot.Delta
use data_stream_pilot.Gcoap.{Gcoap, Endpoint, Block, MemoState}
use data_stream_pilot.Cli.{Cli}
use data_stream_pilot.Client.Command
use data_stream_pilot.Mqtt.{on_pub}
use data_stream_pilot.Node.{Node, Build, node_round}
use data_stream_pilot.Node.Threads.{Running}

-- a round of main, a publication, or a response
pub data Event (P : Type 0) : Type 0 where
  next_round : Event P
  published : List ℕ → ℕ → Event P
  answered_by : MemoState → ℕ → P → Endpoint → Event P

-- how many rounds there are
unfoldable pub rounds : {P : Type 0} → List (Event P) → ℕ
rounds [] = 0
rounds (next_round ∷ es) = suc (rounds es)
rounds (published bytes len ∷ es) = rounds es
rounds (answered_by state context pdu remote ∷ es) = rounds es

-- a response has no block, or the last one
abbrev pub IsPlain : {P W : Type 0} → Gcoap P W → Event P → Type 0
IsPlain g next_round = Unit
IsPlain g (published bytes len) = Unit
IsPlain g (answered_by state context pdu remote) =
    (g.get_block2 pdu ≡ none)
    ⊎ ((block : Block) × (g.get_block2 pdu ≡ some block) × (block.more ≡ false))

module _ {P R W : Type 0} (b : Build P R W) where
  -- `none`: main returns
  unfoldable pub step : Event P → Running R W → Option (Running R W)
  step next_round s = Option.map (λ n. record s { node = n }) (node_round b s.node)
  step (published bytes len) s = some (record s { received = on_pub bytes len s.received })
  step (answered_by state context pdu remote) s = some (record s {
    node = record s.node { cli = Command.resp_handler b.srv state context pdu remote s.node.cli };
  })

  unfoldable pub run_events : List (Event P) → Running R W → Option (Running R W)
  unfolding step
  run_events [] s = some s
  run_events (event ∷ es) s = Option.bind (step event s) (λ t. run_events es t)
