-- ===== src/Cli/Response/Own.antt =====
-- Clients that ask for the path /temp only, as those of the two nodes do: what a response changes.
use data_stream_pilot.Shared.{
  ℕ, ◌+◌, ◌%◌, ◌^◌, ◌≡◌, ◌≢◌, refl, inl, inr, false, true, [], Option, some, ◌⊎◌,
}
use data_stream_pilot.Shared.Text.{codes, c_string}
use data_stream_pilot.Gcoap.{Gcoap, Endpoint, Block, finish_none}
use data_stream_pilot.Cli.{Cli, initial, to_size}
use data_stream_pilot.Cli.Response.{next_block}
use data_stream_pilot.Cli.Response.Blocks.{next_block_frame, next_packet, next_block_asks}

-- no proxy is set, and the retained path is empty or the one of the temperature
pub record IsOwn {W : Type 0} (c : Cli W) : Type 0 where
  pub direct : c.proxied ≡ false
  pub path : (c_string c.last_req_path ≡ []) ⊎ (c_string c.last_req_path ≡ codes "/temp")

pub initial-IsOwn : {W : Type 0} (w : W) → IsOwn (initial w)
unfolding c_string
initial-IsOwn w = record { direct = refl; path = inl refl }

own_path :
    {W : Type 0} (c : Cli W)
    → IsOwn c
    → c_string c.last_req_path ≢ []
    → c_string c.last_req_path ≡ codes "/temp"
own_path c h ne = elim h.path [ inl e ↦ absurd (ne e) | inr e ↦ e ]

module _ {P W : Type 0} (g : Gcoap P W) where
  pub next_block-IsOwn :
      (pdu : P) (o : Option Block) (remote : Endpoint) (context : ℕ) (c : Cli W)
      → IsOwn c
      → IsOwn (next_block g pdu o remote context c)
  next_block-IsOwn pdu o remote context c h =
      rw (next_block_frame g pdu o remote context c) (record { direct = h.direct; path = h.path })

  -- the client after the GET of "/temp" for the block with the next number
  abbrev pub continued : P → Block → Endpoint → ℕ → Cli W → Cli W
  continued pdu block remote context c =
      let path = codes "/temp" in
      let w = (g.req_init pdu g.method_get (some path) c.world).1 in
      let (len, next) =
        g.finish finish_none (next_packet g path pdu block ((block.blknum + 1) % 2 ^ 32) c.world) in
      record c { world = (g.req_send next (to_size len) remote context w).1 }

  pub next_block-own :
      (context : ℕ) (pdu : P) (block : Block) (remote : Endpoint) (c : Cli W)
      → IsOwn c
      → c_string c.last_req_path ≢ []
      → block.more ≡ true
      → next_block g pdu (some block) remote context c ≡ continued pdu block remote context c
  next_block-own context pdu block remote c h ne m =
      next_block_asks g (codes "/temp") context pdu block remote c (own_path c h ne) (λ e. cc)
        h.direct m
