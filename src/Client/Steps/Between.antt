-- ===== src/Client/Steps/Between.antt =====
-- A block-wise response that comes in while a request clears and copies its path.
use data_stream_pilot.Shared.{ℕ, ◌+◌, ◌%◌, ◌^◌, ◌≡◌, ◌≢◌, refl, true, false, List, [], ◌∷◌, some}
use data_stream_pilot.Shared.Text.{Text, c_string}
use data_stream_pilot.Gcoap.{Endpoint, Block, memo_resp, finish_none}
use data_stream_pilot.Cli.{Cli, to_size}
use data_stream_pilot.Cli.Response.Blocks.{
  next_packet, next_block_asks, next_block_empty_path, next_block_stops,
}
use data_stream_pilot.Cli.Command.{retain_path}
use data_stream_pilot.Client.{
  Server, Resource, temp, time, core, board, hello, riot_v, sha_256, get_resource_path,
  get_resource_path_len, retain_resource,
}
use data_stream_pilot.Client.Command
use data_stream_pilot.Client.Resources.{retain_resource_lem}
use data_stream_pilot.Client.Steps.{built, advance}
use data_stream_pilot.Client.Steps.Thread.{Thread, tick, answered, turn, tick_thread, step}

module _ {P W : Type 0} (srv : Server P W) (r : Resource) where
  -- the thread after a GET of `path` for the block after `block`
  abbrev pub continued : Text → ℕ → P → Endpoint → Block → Thread P W → Thread P W
  continued path context pdu remote block t =
      let g = srv.gcoap in
      let w = t.cli.world in
      let packet = next_packet g path pdu block ((block.blknum + 1) % 2 ^ 32) w in
      let (len, next) = g.finish finish_none packet in
      let begun = (g.req_init pdu g.method_get (some path) w).1 in
      record t {
        cli = record t.cli { world = (g.req_send next (to_size len) remote context begun).1 };
      }

  -- a step of the thread, and a response
  abbrev pub ticked : Thread P W → Thread P W
  ticked t = step srv (get_resource_path r) (get_resource_path_len r) tick t

  abbrev pub received : ℕ → P → Endpoint → Thread P W → Thread P W
  received context pdu remote t =
      step srv (get_resource_path r) (get_resource_path_len r)
        (answered memo_resp context pdu remote) t

  path_ne : (r : Resource) → get_resource_path r ≢ []
  unfolding get_resource_path
  path_ne temp = λ e. cc
  path_ne time = λ e. cc
  path_ne core = λ e. cc
  path_ne board = λ e. cc
  path_ne hello = λ e. cc
  path_ne riot_v = λ e. cc
  path_ne sha_256 = λ e. cc

  received_asks :
      (context : ℕ) (pdu : P) (remote : Endpoint) (block : Block) (t : Thread P W)
      → c_string t.cli.last_req_path ≡ get_resource_path r
      → t.cli.proxied ≡ false
      → srv.gcoap.get_block2 pdu ≡ some block
      → block.more ≡ true
      → received context pdu remote t ≡ continued (get_resource_path r) context pdu remote block t
  unfolding step Command.resp_handler
  received_asks context pdu remote block t kept direct b m =
      let asks =
        next_block_asks srv.gcoap (get_resource_path r) context pdu block remote t.cli kept
          (path_ne r) direct m in
      rw (b, asks) refl

  received_stops :
      (context : ℕ) (pdu : P) (remote : Endpoint) (block : Block) (t : Thread P W)
      → c_string t.cli.last_req_path ≡ []
      → srv.gcoap.get_block2 pdu ≡ some block
      → block.blknum ≡ 0
      → received context pdu remote t ≡ t
  unfolding step Command.resp_handler
  received_stops context pdu remote block t kept b z =
      rw (b, next_block_stops srv.gcoap context pdu block remote t.cli kept z) refl

  -- A request clears the path before it copies its own. Where the path was that of the same resource
  -- before, a first block of several is followed by a GET of this path for the next block up to
  -- the memset and from the memcpy on, and is dropped between the two.
  pub first_block_mid_request :
      (msg : Text) (rest : List Text) (pdu0 : P) (c : Cli W) (context : ℕ) (pdu : P)
      (remote : Endpoint) (block : Block)
      → c_string c.last_req_path ≡ get_resource_path r
      → c.proxied ≡ false
      → srv.gcoap.get_block2 pdu ≡ some block
      → block.more ≡ true
      → block.blknum ≡ 0
      → let path = get_resource_path r in
        let t : Thread P W = record { todo = msg ∷ rest; phase = built pdu0; cli = c } in
        (received context pdu remote t ≡ continued path context pdu remote block t)
        × (received context pdu remote (ticked t) ≡ ticked t)
        × (received context pdu remote (ticked (ticked t))
            ≡ continued path context pdu remote block (ticked (ticked t)))
  unfolding c_string step tick_thread turn advance
  first_block_mid_request msg rest pdu0 c context pdu remote block kept direct b m z =
      let t : Thread P W = record { todo = msg ∷ rest; phase = built pdu0; cli = c } in
      let copied : c_string (ticked (ticked t)).cli.last_req_path ≡ get_resource_path r =
        unfold retain_resource retain_path in (retain_resource_lem r).2 in
      (
        received_asks context pdu remote block t kept direct b m,
        received_stops context pdu remote block (ticked t) refl b z,
        received_asks context pdu remote block (ticked (ticked t)) copied direct b m,
      )

  -- Between the two the guard against a missing path is on block 0 only: a later block that is not
  -- the last is followed by a GET of the empty path, which the thread did not ask for.
  pub late_block_mid_request :
      (msg : Text) (rest : List Text) (pdu0 : P) (c : Cli W) (context : ℕ) (pdu : P)
      (remote : Endpoint) (block : Block)
      → c.proxied ≡ false
      → srv.gcoap.get_block2 pdu ≡ some block
      → block.more ≡ true
      → block.blknum ≢ 0
      → let t : Thread P W = record { todo = msg ∷ rest; phase = built pdu0; cli = c } in
        received context pdu remote (ticked t) ≡ continued [] context pdu remote block (ticked t)
  unfolding c_string step tick_thread turn advance Command.resp_handler
  late_block_mid_request msg rest pdu0 c context pdu remote block direct b m late =
      let t : Thread P W = record { todo = msg ∷ rest; phase = built pdu0; cli = c } in
      rw
        (
          b,
          next_block_empty_path srv.gcoap context pdu block remote (ticked t).cli refl direct m
              late,
        )
        refl
