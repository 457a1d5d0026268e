-- ===== src/Cli/Response/Blocks.antt =====
-- Block-wise responses: when the next block is asked for, and how.
use data_stream_pilot.Shared.{
  ℕ, ◌+◌, ◌%◌, ◌^◌, ◌≤◌, ◌<◌, ◌≡◌, ◌≢◌, refl, ◌∙◌, ap, true, false, ◌&&◌, [], ◌∷◌, Option, none,
  some, ◌==◌, arith, if◌then◌else◌, ltb, Bool-cases, inl, inr, length, All,
}
use data_stream_pilot.Shared.Text.{Text, c_string}
use data_stream_pilot.Gcoap.{
  Gcoap, Endpoint, Block, finish_none, MemoState, memo_resp, memo_timeout, memo_err,
}
use data_stream_pilot.Cli.{Cli, to_size}
use data_stream_pilot.Cli.Command.{retain_path}
use data_stream_pilot.Cli.Command.Paths.{retain_path_lem}
use data_stream_pilot.Cli.Command.Effects.{IsValid}
use data_stream_pilot.Cli.Response.{request_next, next_block, resp_handler}

module _ {P W : Type 0} (g : Gcoap P W) where
  pub next_block_frame :
      (pdu : P) (o : Option Block) (remote : Endpoint) (context : ℕ) (c : Cli W)
      → next_block g pdu o remote context c
        ≡ record c { world = (next_block g pdu o remote context c).world }
  unfolding next_block request_next
  next_block_frame pdu none remote context c = refl
  next_block_frame pdu (some block) remote context c = ground arith

  -- A response, whatever it is, changes no static variable of the client.
  pub resp_handler_frame :
      (state : MemoState) (context : ℕ) (pdu : P) (remote : Endpoint) (c : Cli W)
      → resp_handler g state context pdu remote c
        ≡ record c { world = (resp_handler g state context pdu remote c).world }
  unfolding resp_handler
  resp_handler_frame memo_timeout context pdu remote c = refl
  resp_handler_frame memo_err context pdu remote c = refl
  resp_handler_frame _ context pdu remote c =
      next_block_frame pdu (g.get_block2 pdu) remote context c

  pub resp_handler-IsValid :
      (state : MemoState) (context : ℕ) (pdu : P) (remote : Endpoint) (c : Cli W)
      → IsValid c
      → IsValid (resp_handler g state context pdu remote c)
  resp_handler-IsValid state context pdu remote c v =
      rw (resp_handler_frame state context pdu remote c)
        (record { retained = v.retained; counted = v.counted })

  retained_short :
      (path : Text) (c : Cli W)
      → All (λ x. x ≢ 0) path
      → length path < 64
      → c.last_req_path ≡ retain_path path (length path)
      → c_string c.last_req_path ≡ path
  retained_short path c nz short kept =
      let e : ltb (length path) 64 ≡ true = ground arith in
      rw kept (retain_path_lem path nz ∙ ap (λ b. if b then path else []) e)

  retained_long :
      (path : Text) (c : Cli W)
      → All (λ x. x ≢ 0) path
      → 64 ≤ length path
      → c.last_req_path ≡ retain_path path (length path)
      → c_string c.last_req_path ≡ []
  retained_long path c nz long kept =
      let e : ltb (length path) 64 ≡ false = ground arith in
      rw kept (retain_path_lem path nz ∙ ap (λ b. if b then path else []) e)

  -- the request for block `number`, of the path that was asked for
  abbrev pub next_packet : Text → P → Block → ℕ → W → P
  next_packet path pdu block number w =
      let again = (g.req_init pdu g.method_get (some path) w).0 in
      g.add_block2_control (record block { blknum = number })
        (if g.get_type pdu == g.type_ack then g.set_type g.type_con again else again)

  pub blocked : (n : ℕ) (path : Text) → path ≢ [] → (n == 0 && length path == 0) ≡ false
  blocked n [] h = absurd (h refl)
  blocked n (x ∷ path) h = ground arith

  pub next_block_asks :
      (path : Text) (context : ℕ) (pdu : P) (block : Block) (remote : Endpoint) (c : Cli W)
      → c_string c.last_req_path ≡ path
      → path ≢ []
      → c.proxied ≡ false
      → block.more ≡ true
      → let w = (g.req_init pdu g.method_get (some path) c.world).1 in
        let (len, next) =
          g.finish finish_none (next_packet path pdu block ((block.blknum + 1) % 2 ^ 32) c.world) in
        next_block g pdu (some block) remote context c
        ≡ record c { world = (g.req_send next (to_size len) remote context w).1 }
  unfolding request_next next_block
  next_block_asks path context pdu block remote c kept ne p m =
      rw (m, kept, blocked block.blknum path ne, p)

  -- After an unproxied request for a path of 1 to 63 bytes, a response with a block that is not the
  -- last is followed by one GET of that path for the block with the next number, sent to where the
  -- response came from, with the type of a confirmable message if the response was an
  -- acknowledgement.
  resp_handler_asks :
      (path : Text) (context : ℕ) (pdu : P) (block : Block) (remote : Endpoint) (c : Cli W)
      → All (λ x. x ≢ 0) path
      → path ≢ []
      → length path < 64
      → c.last_req_path ≡ retain_path path (length path)
      → c.proxied ≡ false
      → g.get_block2 pdu ≡ some block
      → block.more ≡ true
      → let w = (g.req_init pdu g.method_get (some path) c.world).1 in
        let (len, next) =
          g.finish finish_none (next_packet path pdu block ((block.blknum + 1) % 2 ^ 32) c.world) in
        resp_handler g memo_resp context pdu remote c
        ≡ record c { world = (g.req_send next (to_size len) remote context w).1 }
  unfolding resp_handler
  resp_handler_asks path context pdu block remote c nz ne short kept p b m =
      rw b (
        next_block_asks path context pdu block remote c (retained_short path c nz short kept) ne p
          m)

  pub next_block_stops :
      (context : ℕ) (pdu : P) (block : Block) (remote : Endpoint) (c : Cli W)
      → c_string c.last_req_path ≡ []
      → block.blknum ≡ 0
      → next_block g pdu (some block) remote context c ≡ c
  unfolding next_block
  next_block_stops context pdu block remote c kept z = elim (Bool-cases block.more) [
    | inl m ↦ rw (m, kept, z) refl
    | inr m ↦ rw m refl
  ]

  -- After a request for a path of 64 bytes or more, a response with a first block is not followed
  -- by any request.
  resp_handler_long_path :
      (path : Text) (context : ℕ) (pdu : P) (block : Block) (remote : Endpoint) (c : Cli W)
      → All (λ x. x ≢ 0) path
      → 64 ≤ length path
      → c.last_req_path ≡ retain_path path (length path)
      → g.get_block2 pdu ≡ some block
      → block.blknum ≡ 0
      → resp_handler g memo_resp context pdu remote c ≡ c
  unfolding resp_handler
  resp_handler_long_path path context pdu block remote c nz long kept b z =
      rw b (next_block_stops context pdu block remote c (retained_long path c nz long kept) z)

  pub next_block_empty_path :
      (context : ℕ) (pdu : P) (block : Block) (remote : Endpoint) (c : Cli W)
      → c_string c.last_req_path ≡ []
      → c.proxied ≡ false
      → block.more ≡ true
      → block.blknum ≢ 0
      → let w = (g.req_init pdu g.method_get (some []) c.world).1 in
        let (len, next) =
          g.finish finish_none (next_packet [] pdu block ((block.blknum + 1) % 2 ^ 32) c.world) in
        next_block g pdu (some block) remote context c
        ≡ record c { world = (g.req_send next (to_size len) remote context w).1 }
  unfolding next_block request_next
  next_block_empty_path context pdu block remote c kept p m late =
      let later : (block.blknum == 0) ≡ false = ground arith in rw (m, kept, later, p)
