-- ===== src/Cli/Response/Transfer.antt =====
-- A block-wise transfer: the response handler against a server that answers each request for a block.
use data_stream_pilot.Shared.{
  ℕ, zero, suc, ◌+◌, ◌*◌, ◌^◌, ◌<◌, ◌≡◌, Bool, List, [], ◌∷◌, ◌++◌, Option, length, drop,
}
use data_stream_pilot.Shared.Text.{Text}
use data_stream_pilot.Gcoap.{Gcoap, Endpoint, Block, Finish, memo_resp}
use data_stream_pilot.Cli.{Cli}
use data_stream_pilot.Cli.Response.{resp_handler}

-- A log in the state of the network stack: the number of the block that each request asks for. The
-- number has 20 bits, and is that of the last block option, which neither the end of the options nor a URI changes.
pub record Asking {P W : Type 0} (g : Gcoap P W) : Type 0 where
  pub asked : W → List ℕ
  pub number : P → ℕ
  pub controls :
      (block : Block) (pdu : P)
      → block.blknum < 2 ^ 20
      → number (g.add_block2_control block pdu) ≡ block.blknum
  pub finishes : (f : Finish) (pdu : P) → number (g.finish f pdu).1 ≡ number pdu
  pub proxies : (uri : Text) (pdu : P) → number (g.add_proxy_uri uri pdu) ≡ number pdu
  pub begins :
      (pdu : P) (method : ℕ) (path : Option Text) (w : W)
      → asked (g.req_init pdu method path w).1 ≡ asked w
  pub sends :
      (pdu : P) (len : ℕ) (remote : Endpoint) (context : ℕ) (w : W)
      → asked (g.req_send pdu len remote context w).1 ≡ asked w ++ (number pdu ∷ [])

-- `count` numbers from `lo` on
abbrev pub count_up : ℕ → ℕ → List ℕ
count_up lo zero = []
count_up lo (suc count) = lo ∷ count_up (suc lo) count

module _ {P W : Type 0} (g : Gcoap P W) (log : Asking g) where
  -- a server with `n` blocks, whose response for block `i` is `served i`
  module _ (n szx : ℕ) (served : ℕ → P) (remote : Endpoint) (context : ℕ) where
    abbrev pub served_block : ℕ → Bool → Block
    served_block i more = record { offset = i * 2 ^ (szx + 4); blknum = i; szx = szx; more = more }

    -- The server answers the block `i`, and then each block that the client asks for next, as long
    -- as there is fuel.
    unfoldable pub exchange : ℕ → ℕ → Cli W → Cli W
    exchange zero i c = c
    exchange (suc fuel) i c =
        let c' = resp_handler g memo_resp context (served i) remote c in
        elim (drop (length (log.asked c.world)) (log.asked c'.world)) [
          | [] ↦ c'
          | j ∷ js ↦ exchange fuel j c'
        ]
