-- ===== src/Client/Steps/Thread.antt =====
-- A thread that makes one POST of a path after the other, and the responses that the thread of the
-- CoAP library handles between any two of its steps.
use data_stream_pilot.Shared.{ℕ, suc, ◌≡◌, refl, ◌⊎◌, inl, inr, false, List, [], ◌∷◌, none, some}
use data_stream_pilot.Shared.Text.{Text}
use data_stream_pilot.Gcoap.{Gcoap, Endpoint, Block, MemoState, memo_resp, memo_resp_trunc}
use data_stream_pilot.Cli.{Cli}
use data_stream_pilot.Cli.Response.{next_block}
use data_stream_pilot.Cli.Response.Blocks.{next_block_frame}
use data_stream_pilot.Client.{Server}
use data_stream_pilot.Client.Command
use data_stream_pilot.Client.Steps.{Phase, called, returned, advance, post_request}

-- `todo`: the texts to post, the one under way in front
pub record Thread (P W : Type 0) : Type 0 where
  pub todo : List Text
  pub phase : Phase P
  pub cli : Cli W

-- a step of the thread, or a response
pub data Event (P : Type 0) : Type 0 where
  tick : Event P
  answered : MemoState → ℕ → P → Endpoint → Event P

unfoldable pub ticks : {P : Type 0} → List (Event P) → ℕ
ticks [] = 0
ticks (tick ∷ es) = suc (ticks es)
ticks (answered state context pdu remote ∷ es) = ticks es

-- a response has no block, or the last one
abbrev pub IsPlain : {P W : Type 0} → Gcoap P W → Event P → Type 0
IsPlain g tick = Unit
IsPlain g (answered state context pdu remote) =
    (g.get_block2 pdu ≡ none)
    ⊎ ((block : Block) × (g.get_block2 pdu ≡ some block) × (block.more ≡ false))

module _ {P W : Type 0} (srv : Server P W) where
  pub answered_frame :
      (state : MemoState) (context : ℕ) (pdu : P) (remote : Endpoint) (c : Cli W)
      → Command.resp_handler srv state context pdu remote c
        ≡ record c { world = (Command.resp_handler srv state context pdu remote c).world }
  unfolding Command.resp_handler
  answered_frame memo_resp context pdu remote c =
      next_block_frame srv.gcoap pdu (srv.gcoap.get_block2 pdu) remote context c
  answered_frame memo_resp_trunc context pdu remote c =
      next_block_frame srv.gcoap pdu (srv.gcoap.get_block2 pdu) remote context c
  answered_frame _ context pdu remote c = refl

  pub answered_plain :
      (state : MemoState) (context : ℕ) (pdu : P) (remote : Endpoint) (c : Cli W)
      → IsPlain srv.gcoap (answered state context pdu remote)
      → Command.resp_handler srv state context pdu remote c ≡ c
  unfolding Command.resp_handler next_block
  answered_plain memo_resp context pdu remote c (inl e) = rw e refl
  answered_plain memo_resp context pdu remote c (inr (block, e, m)) = rw (e, m) refl
  answered_plain memo_resp_trunc context pdu remote c (inl e) = rw e refl
  answered_plain memo_resp_trunc context pdu remote c (inr (block, e, m)) = rw (e, m) refl
  answered_plain _ context pdu remote c h = refl

  module _ (uri : Text) (uri_len : ℕ) where
    -- a step with the text `msg` under way
    unfoldable pub turn : Text → List Text → Phase P → Cli W → Thread P W
    turn msg rest (returned r) c = record { todo = rest; phase = called; cli = c }
    turn msg rest phase c =
        let (phase', c') = advance srv (post_request srv uri uri_len msg) phase c in
        record { todo = msg ∷ rest; phase = phase'; cli = c' }

    unfoldable pub tick_thread : List Text → Phase P → Cli W → Thread P W
    tick_thread [] phase c = record { todo = []; phase = phase; cli = c }
    tick_thread (msg ∷ rest) phase c = turn msg rest phase c

    unfoldable pub step : Event P → Thread P W → Thread P W
    unfolding tick_thread turn
    step tick t = tick_thread t.todo t.phase t.cli
    step (answered state context pdu remote) t = record t {
      cli = Command.resp_handler srv state context pdu remote t.cli;
    }

    unfoldable pub run : List (Event P) → Thread P W → Thread P W
    unfolding step
    run [] t = t
    run (event ∷ es) t = run es (step event t)
