-- ===== src/Node/Blocks.antt =====
-- The second node asks for one path only, so that a block that comes late is continued rightly.
use data_stream_pilot.Shared.{ℕ, ◌≡◌, ◌≢◌, ◌∙◌, inr, true, List, [], Option, none, some, ◌⊎◌}
use data_stream_pilot.Shared.Text.{Text, codes, c_string}
use data_stream_pilot.Gcoap.{Endpoint, Block, MemoState, memo_resp, memo_resp_trunc}
use data_stream_pilot.Cli.{Cli}
use data_stream_pilot.Cli.Response.Own.{IsOwn, next_block-IsOwn, continued, next_block-own}
use data_stream_pilot.Client.{temp, get_resource_path, retain_resource, gcoap_post}
use data_stream_pilot.Client.Command
use data_stream_pilot.Client.Resources.{retain_resource_lem, gcoap_post-path}
use data_stream_pilot.Node.{Build}

module _ {P R W : Type 0} (b : Build P R W) where
  path_after :
      (c : Cli W) (o : Option (List ℕ))
      → IsOwn c
      → let l : List ℕ = elim o [ none ↦ c.last_req_path | some addr ↦ retain_resource temp ] in
        (c_string l ≡ []) ⊎ (c_string l ≡ codes "/temp")
  unfolding get_resource_path
  path_after c none h = h.path
  path_after c (some addr) h = inr (retain_resource_lem temp).2

  pub post-IsOwn : (msg : Text) (c : Cli W) → IsOwn c → IsOwn (gcoap_post b.srv msg temp c).1
  post-IsOwn msg c h =
      let (direct, kept) = gcoap_post-path b.srv msg temp c in
      record {
        direct = direct ∙ h.direct;
        path = rw kept (path_after c (b.srv.gcoap.addr_from_str b.srv.server_ip) h);
      }

  pub answer-IsOwn :
      (state : MemoState) (context : ℕ) (pdu : P) (remote : Endpoint) (c : Cli W)
      → IsOwn c
      → IsOwn (Command.resp_handler b.srv state context pdu remote c)
  unfolding Command.resp_handler
  answer-IsOwn memo_resp context pdu remote c h =
      next_block-IsOwn b.srv.gcoap pdu _ remote context c h
  answer-IsOwn memo_resp_trunc context pdu remote c h =
      next_block-IsOwn b.srv.gcoap pdu _ remote context c h
  answer-IsOwn _ context pdu remote c h = h

  pub own_block :
      (context : ℕ) (pdu : P) (block : Block) (remote : Endpoint) (c : Cli W)
      → IsOwn c
      → c_string c.last_req_path ≢ []
      → b.srv.gcoap.get_block2 pdu ≡ some block
      → block.more ≡ true
      → Command.resp_handler b.srv memo_resp context pdu remote c
        ≡ continued b.srv.gcoap pdu block remote context c
  unfolding Command.resp_handler
  own_block context pdu block remote c h ne e m =
      rw e (next_block-own b.srv.gcoap context pdu block remote c h ne m)
