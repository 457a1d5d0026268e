-- ===== src/Node/Threads.antt =====
-- The second node's loop with what comes in from other threads: publications, and responses to its
-- requests. Here a round is one step; Client.Steps has the steps of a request.
use mathlib.Core.Option
use mathlib.Core.Option.{some-injective, none-ne-some}
use data_stream_pilot.Shared.{
  ℕ, ◌≡◌, ◌≢◌, true, refl, sym, ◌∙◌, List, [], ◌∷◌, Option, none, some, replicate,
}
use data_stream_pilot.Shared.Text.{c_string}
use data_stream_pilot.Gcoap.{Endpoint, Block, MemoState, memo_resp}
use data_stream_pilot.Cli.Command.Effects.{IsValid, initial-IsValid}
use data_stream_pilot.Client.{gcoap_post}
use data_stream_pilot.Client.Requests.{post_at-IsValid}
use data_stream_pilot.Client.Command
use data_stream_pilot.Client.Command.Effects.{resp_handler-IsValid}
use data_stream_pilot.Delta.Exact.{IsReady, initial-IsReady}
use data_stream_pilot.Mqtt.{Received, on_pub}
use data_stream_pilot.Mqtt.Connect.{Link, connect}
use data_stream_pilot.Mqtt.Data.{IsHeld, publications, publications-IsHeld, on_pub-IsHeld, nothing}
use data_stream_pilot.Mqtt.Table.{free}
use data_stream_pilot.Node.{Node, Build, start, connected, finish_round, node_round}
use data_stream_pilot.Node.Start.{answered, connected-slots}
use data_stream_pilot.Cli.Response.Own.{IsOwn, initial-IsOwn, continued}
use data_stream_pilot.Node.Blocks.{post-IsOwn, answer-IsOwn, own_block}
use data_stream_pilot.Node.Rounds.{node_slots, node_round_returns}

-- main in its loop, and the block of the last publication
pub record Running (R W : Type 0) : Type 0 where
  pub node : Node R W
  pub received : Received

module _ {P R W : Type 0} (b : Build P R W) where
  pub data Step (s : Running R W) : Running R W → Type 0 where
    round_made : {n : Node R W} → node_round b s.node ≡ some n → Step s (record s { node = n })
    published :
        (bytes : List ℕ) (len : ℕ) → Step s (record s { received = on_pub bytes len s.received })
    answer :
        (state : MemoState) (context : ℕ) (pdu : P) (remote : Endpoint)
        → Step s (record s {
          node = record s.node {
            cli = Command.resp_handler b.srv state context pdu remote s.node.cli;
          };
        })

  -- From power-on, with any fuel with which main reaches its loop, and any publications before.
  pub data Reach (r : R) (w : W) : Running R W → Type 0 where
    here :
        {n : Node R W} (fuel : ℕ) (before : List (List ℕ × ℕ))
        → start b fuel r w ≡ some n
        → Reach r w (record { node = n; received = publications before nothing })
    next : {s t : Running R W} → Reach r w s → Step s t → Reach r w t

  -- the encoder is ready, the client is valid and asks for its own path, one block is held if the pointer is set, and the
  -- first slot of the subscriptions has the topic
  pub record IsSafe (s : Running R W) : Type 0 where
    pub encoder : IsReady s.node.encoder
    pub client : IsValid s.node.cli
    pub own : IsOwn s.node.cli
    pub held : IsHeld s.received
    pub subscribed : (w : W) × (node_slots s.node ≡ (answered b w).0 ∷ replicate 15 free)

  -- what main has when it reaches its loop
  map-inv :
      (o : Option (Link R W)) (n : Node R W)
      → Option.map (connected b) o ≡ some n
      → (l : Link R W) × (connected b l ≡ n)
  map-inv none n e = absurd (none-ne-some n e)
  map-inv (some l) n e = (l, some-injective (connected b l) n e)

  nothing-IsHeld : IsHeld nothing
  unfolding IsHeld
  nothing-IsHeld = refl

  here-IsSafe :
      (n : Node R W) (fuel : ℕ) (before : List (List ℕ × ℕ)) (r : R) (w : W)
      → start b fuel r w ≡ some n
      → IsSafe (record { node = n; received = publications before nothing })
  unfolding start
  here-IsSafe n fuel before r w e =
      let (l, same) =
        map-inv
          (connect b.rn b.con b.broker_ip fuel (record { world = w; random = r; slept = 4000 })) n
          e in
      let (slots, cli) = connected-slots b l in
      rw (sym same) (record {
        encoder = initial-IsReady;
        client = rw cli (initial-IsValid (answered b l.world).1);
        own = rw cli (initial-IsOwn (answered b l.world).1);
        held = publications-IsHeld before nothing nothing-IsHeld;
        subscribed = (l.world, slots);
      })

  round_made-IsSafe :
      (s : Running R W) (n : Node R W)
      → node_round b s.node ≡ some n
      → IsSafe s
      → IsSafe (record s { node = n })
  unfolding finish_round gcoap_post
  round_made-IsSafe s n e h =
      let (encoder, payload, same, ready, _, _) = node_round_returns b s.node h.encoder in
      let made : finish_round b (some payload) (record s.node { encoder = encoder }) ≡ n =
        some-injective _ n (sym same ∙ e) in
      rw (sym made) (record {
        encoder = ready;
        client = post_at-IsValid b.srv payload _ _ s.node.cli h.client;
        own = post-IsOwn b payload s.node.cli h.own;
        held = h.held;
        subscribed = h.subscribed;
      })

  Step-IsSafe : {s t : Running R W} → Step s t → IsSafe s → IsSafe t
  Step-IsSafe {s} (round_made {n} e) h = round_made-IsSafe s n e h
  Step-IsSafe {s} (published bytes len) h = record {
    encoder = h.encoder;
    client = h.client;
    own = h.own;
    held = on_pub-IsHeld bytes len s.received h.held;
    subscribed = h.subscribed;
  }
  Step-IsSafe {s} (answer state context pdu remote) h = record {
    encoder = h.encoder;
    client = resp_handler-IsValid b.srv state context pdu remote s.node.cli h.client;
    own = answer-IsOwn b state context pdu remote s.node.cli h.own;
    held = h.held;
    subscribed = h.subscribed;
  }

  Reach-IsSafe : {r : R} {w : W} {s : Running R W} → Reach r w s → IsSafe s
  Reach-IsSafe {r} {w} (here {n} fuel before e) = here-IsSafe n fuel before r w e
  Reach-IsSafe (next reach step) = Step-IsSafe step (Reach-IsSafe reach)

  -- In every state that the loop reaches, whatever is published before and between its rounds, and
  -- whatever the network answers: the encoder is ready, the retained path is a string within its 64
  -- bytes, the count of requests is a 16-bit number, one block is held if `denoised_data` is set and
  -- none if it is NULL, the first slot of the table of subscriptions has the topic "d", no proxy is
  -- set, the retained path is empty or "/temp", and the next round does not return from main.
  pub running_goes_on :
      {r : R} {w : W} {s : Running R W}
      → Reach r w s
      → IsSafe s × ((t : Running R W) × Step s t × (node_round b s.node ≡ some t.node))
  running_goes_on {s = s} reach =
      let safe = Reach-IsSafe reach in
      let (encoder, payload, same, _, _, _) = node_round_returns b s.node safe.encoder in
      (safe, (_, round_made same, same))

  -- In every such state in which a path is retained, a response with a block that is not the last,
  -- however late, is continued with a GET of "/temp", the path of all requests of this node, for the
  -- block with the next number.
  block_continues :
      {r : R} {w : W} {s : Running R W} (context : ℕ) (pdu : P) (block : Block) (remote : Endpoint)
      → Reach r w s
      → c_string s.node.cli.last_req_path ≢ []
      → b.srv.gcoap.get_block2 pdu ≡ some block
      → block.more ≡ true
      → Command.resp_handler b.srv memo_resp context pdu remote s.node.cli
        ≡ continued b.srv.gcoap pdu block remote context s.node.cli
  block_continues {s = s} context pdu block remote reach ne g m =
      own_block b context pdu block remote s.node.cli (Reach-IsSafe reach).own ne g m
