-- ===== src/Cli/Response.antt =====
-- The response handler of the CoAP client (`_resp_handler` of compute_engine/gcoap_cli.c). What is
-- only printed is left out.
pub mod Blocks
pub mod Own
pub mod Transfer
use data_stream_pilot.Shared.{
  ℕ, suc, ◌+◌, ◌%◌, ◌^◌, Bool, true, false, ◌&&◌, Option, none, some, ◌==◌, if◌then◌else◌, length,
}
use data_stream_pilot.Shared.Text.{Text, c_string}
use data_stream_pilot.Gcoap.{Gcoap, Endpoint, Block, finish_none, MemoState, memo_timeout, memo_err}
use data_stream_pilot.Cli.{Cli, to_size}

module _ {P W : Type 0} (g : Gcoap P W) where
  open g use {
    type_con, type_ack, method_get, req_init, set_type, get_type, add_proxy_uri, add_block2_control,
    get_block2, finish, req_send,
  }

  -- the request for the block after `block`, to the endpoint that answered
  unfoldable pub request_next : P → Block → Endpoint → ℕ → Cli W → Cli W
  request_next pdu0 block remote context c =
      let path = c_string c.last_req_path in
      let (pdu1, w) = req_init pdu0 method_get (if c.proxied then none else some path) c.world in
      let pdu2 = if get_type pdu0 == type_ack then set_type type_con pdu1 else pdu1 in
      let pdu3 = add_block2_control (record block { blknum = (block.blknum + 1) % 2 ^ 32 }) pdu2 in
      let pdu4 = if c.proxied then add_proxy_uri path pdu3 else pdu3 in
      let (len, pdu) = finish finish_none pdu4 in
      record c { world = (req_send pdu (to_size len) remote context w).1 }

  -- the end of the handler, `if (coap_get_block2(pdu, &block))`
  unfoldable pub next_block : P → Option Block → Endpoint → ℕ → Cli W → Cli W
  unfolding c_string
  next_block pdu none remote context c = c
  next_block pdu (some block) remote context c =
      if block.more
      then (if block.blknum == 0 && length (c_string c.last_req_path) == 0
          then c
          else request_next pdu block remote context c)
      else c

  unfoldable pub resp_handler : MemoState → ℕ → P → Endpoint → Cli W → Cli W
  unfolding next_block
  resp_handler memo_timeout context pdu remote c = c
  resp_handler memo_err context pdu remote c = c
  resp_handler state context pdu remote c = next_block pdu (get_block2 pdu) remote context c
