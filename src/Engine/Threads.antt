-- ===== src/Engine/Threads.antt =====
-- The sensor node's loop with the responses to its requests, which the CoAP thread handles between
-- the rounds. A round is one step.
use data_stream_pilot.Shared.{ℕ, suc, ◌≡◌, ◌≢◌, true, List, [], ◌∷◌, some}
use data_stream_pilot.Shared.Int.{IsI16}
use data_stream_pilot.Shared.Text.{codes, c_string}
use data_stream_pilot.Float.{Float}
use data_stream_pilot.Noise.{Rand}
use data_stream_pilot.Driver.{Lps, Board}
use data_stream_pilot.Gcoap.{Gcoap, Endpoint, Block, MemoState, memo_resp}
use data_stream_pilot.Cli.{initial}
use data_stream_pilot.Cli.Response.{resp_handler}
use data_stream_pilot.Cli.Response.Blocks.{resp_handler-IsValid}
use data_stream_pilot.Cli.Response.Own.{IsOwn, initial-IsOwn, continued, next_block-own}
use data_stream_pilot.Engine.{Config, Engine, start, engine_round}
use data_stream_pilot.Engine.Own.{answered-IsOwn, engine_round-IsOwn}
use data_stream_pilot.Engine.Rounds.{IsReady, engine_round-IsReady}
use data_stream_pilot.Engine.Start.{start-IsReady}

-- a round of main, or a response
pub data Event (P : Type 0) : Type 0 where
  next_round : Event P
  answered : MemoState → ℕ → P → Endpoint → Event P

-- how many rounds there are
unfoldable pub rounds : {P : Type 0} → List (Event P) → ℕ
rounds [] = 0
rounds (next_round ∷ es) = suc (rounds es)
rounds (answered state context pdu remote ∷ es) = rounds es

module _ {V R P W F D : Type 0} (fl : Float F D) (rn : Rand R) (lps : Lps V) (g : Gcoap P W)
    (config : Config) where
  unfoldable pub step : Event P → Engine V R W F → Engine V R W F
  step next_round e = engine_round fl rn lps g config e
  step (answered state context pdu remote) e = record e {
    cli = resp_handler g state context pdu remote e.cli;
  }

  unfoldable pub run : List (Event P) → Engine V R W F → Engine V R W F
  unfolding step
  run [] e = e
  run (event ∷ es) e = run es (step event e)

  -- between two events: the loop is ready for its next round, and the client asks for its own path
  pub record IsSafe (e : Engine V R W F) : Type 0 where
    pub ready : IsReady e
    pub own : IsOwn e.cli

  module _ (named : config.server_ip ≢ codes "-c") where
    step-IsSafe : (event : Event P) (e : Engine V R W F) → IsSafe e → IsSafe (step event e)
    unfolding step
    step-IsSafe next_round e h = record {
      ready = engine_round-IsReady fl rn lps g config e h.ready;
      own = engine_round-IsOwn fl rn lps g config named e h.own;
    }
    step-IsSafe (answered state context pdu remote) e h = record {
      ready = record {
        full = h.ready.full;
        words = h.ready.words;
        inside = h.ready.inside;
        client = resp_handler-IsValid g state context pdu remote e.cli h.ready.client;
      };
      own = answered-IsOwn fl rn lps g config state context pdu remote e.cli h.own;
    }

    run-IsSafe : (es : List (Event P)) (e : Engine V R W F) → IsSafe e → IsSafe (run es e)
    unfolding run
    run-IsSafe [] e h = h
    run-IsSafe (event ∷ es) e h = run-IsSafe es (step event e) (step-IsSafe event e h)

    start-IsSafe :
        (b : Board V) (r : R) (w : W)
        → ((v : V) → IsI16 (lps.read_temp v).1)
        → (e : Engine V R W F) × (start fl rn lps g config b r w ≡ some e)
          × IsSafe e
          × (e.cli ≡ initial w)
    start-IsSafe b r w word =
        let (e, starts, ready, fresh) = start-IsReady fl rn lps g config b r w word in
        (e, starts, record { ready = ready; own = rw fresh (initial-IsOwn w) }, fresh)

    -- From power-on, where the driver stores readings of 16 bits and the address of the server is
    -- not the option "-c": main reaches its loop, and after any sequence of rounds and of responses,
    -- whatever the responses are and whatever the network does, its window has 65 readings of 16
    -- bits, the index lies in it, the retained path is a string within its 64 bytes, the count of
    -- requests is a 16-bit number, no proxy is set and the retained path is empty or "/temp".
    pub any_order_IsSafe :
        (es : List (Event P)) (b : Board V) (r : R) (w : W)
        → ((v : V) → IsI16 (lps.read_temp v).1)
        → (e : Engine V R W F) × (start fl rn lps g config b r w ≡ some e) × IsSafe (run es e)
    any_order_IsSafe es b r w word =
        let (e, starts, safe, _) = start-IsSafe b r w word in (e, starts, run-IsSafe es e safe)

    -- After any sequence of rounds and of responses from a state at the head of the loop in which
    -- the client asks for its own path: if a path is retained, a response with a block that is not
    -- the last, however late, is continued with a GET of "/temp", the path of all requests of this
    -- node, for the block with the next number.
    pub late_block_continues :
        (es : List (Event P)) (e : Engine V R W F) (context : ℕ) (pdu : P) (block : Block)
        (remote : Endpoint)
        → IsSafe e
        → c_string (run es e).cli.last_req_path ≢ []
        → g.get_block2 pdu ≡ some block
        → block.more ≡ true
        → resp_handler g memo_resp context pdu remote (run es e).cli
          ≡ continued g pdu block remote context (run es e).cli
    unfolding resp_handler
    late_block_continues es e context pdu block remote h ne found m =
        rw found
          (next_block-own g context pdu block remote (run es e).cli (run-IsSafe es e h).own ne m)
