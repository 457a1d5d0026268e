-- ===== src/Station.antt =====
-- The CoAP test program, network/gcoap_test: a thread that makes requests (main.c), a shell whose
-- command makes others, and the responses, all over the static variables of client.c. client.c is
-- that of "compute_engine copy" with another address of the server and another table of paths.
pub mod Invariant
pub mod Late
pub mod Race
use data_stream_pilot.Shared.{
  ℕ, ◌+◌, ◌≡◌, Bool, true, false, List, [], ◌∷◌, Option, none, some, ◌==◌, if◌then◌else◌,
}
use data_stream_pilot.Shared.Int.{ℤ}
use data_stream_pilot.Shared.Text.{Text, codes}
use data_stream_pilot.Gcoap.{Endpoint, MemoState}
use data_stream_pilot.Cli.{Cli, initial}
use data_stream_pilot.Client.{
  Resource, temp, time, core, board, hello, riot_v, sha_256, Server, get_at, post_at,
}
use data_stream_pilot.Client.Command
use data_stream_pilot.Cli.Command.{arg, find_code, method_codes}
use data_stream_pilot.Client.Steps.{
  Request, Phase, called, returned, advance, get_request, post_request,
}

unfoldable pub get_resource_path : Resource → Text
get_resource_path temp = codes "/temperature"
get_resource_path time = codes "/time"
get_resource_path core = codes "/.well-known/core"
get_resource_path board = codes "/riot/board"
get_resource_path hello = codes "/echo/hello"
get_resource_path riot_v = codes "/riot/ver"
get_resource_path sha_256 = codes "/sha256"

unfoldable pub get_resource_path_len : Resource → ℕ
get_resource_path_len temp = 13
get_resource_path_len time = 6
get_resource_path_len core = 18
get_resource_path_len board = 12
get_resource_path_len hello = 12
get_resource_path_len riot_v = 10
get_resource_path_len sha_256 = 8

-- where the thread stands in its loop: before the lock, in each of its requests, and before the
-- unlock
pub data Pc : Type 0 where
  before_lock in_core in_board in_post before_unlock : Pc

-- `held`: the mutex `data_lock` is taken. `slept`: the milliseconds that the thread has slept.
-- `phase`: how far the thread's request is. `asked`: the request of the shell's command, and how far
-- it is.
pub record Station (P W : Type 0) : Type 0 where
  pub cli : Cli W
  pub pc : Pc
  pub held : Bool
  pub slept : ℕ
  pub phase : Phase P
  pub asked : Option (Request × Phase P)

module _ {P W : Type 0} (srv : Server P W) where
  unfoldable pub send_coap_get_request : Resource → Cli W → Cli W
  unfolding get_resource_path get_resource_path_len
  send_coap_get_request path c = get_at srv (get_resource_path path) (get_resource_path_len path) c

  unfoldable pub gcoap_post : Text → Resource → Cli W → ℤ × Cli W
  unfolding get_resource_path get_resource_path_len
  gcoap_post msg path c = post_at srv msg (get_resource_path path) (get_resource_path_len path) c

  -- the command and the response handler, whose text is that of the other client.c
  unfoldable pub cli_cmd : List Text → Cli W → ℕ × Cli W
  unfolding Command.cli_cmd
  cli_cmd argv c = Command.cli_cmd srv argv c

  unfoldable pub resp_handler : MemoState → ℕ → P → Endpoint → Cli W → Cli W
  unfolding Command.resp_handler
  resp_handler state context pdu remote c = Command.resp_handler srv state context pdu remote c

  -- the request that the thread is in
  unfoldable pub request_at : Pc → Option Request
  request_at before_lock = none
  request_at in_core = some (get_request srv (get_resource_path core) (get_resource_path_len core))
  request_at in_board =
      some (get_request srv (get_resource_path board) (get_resource_path_len board))
  request_at in_post =
      some
        (post_request srv (get_resource_path sha_256) (get_resource_path_len sha_256) (codes "asd"))
  request_at before_unlock = none

  -- the state when the thread and the shell start, after setup_coap_client
  abbrev pub start : W → Station P W
  start w = record {
    cli = initial w;
    pc = before_lock;
    held = false;
    slept = 0;
    phase = called;
    asked = none;
  }

  -- One step, at any time, of the thread in `coap_server_connect`, of the shell, which does not take
  -- the mutex, or of the network: a response. The shell begins an unproxied request with a path, or
  -- has a command that makes no request.
  pub data Step (s : Station P W) : Station P W → Type 0 where
    lock :
        s.pc ≡ before_lock
        → s.held ≡ false
        → Step s (record s { pc = in_core; held = true; phase = called })
    go :
        (q : Request)
        → request_at s.pc ≡ some q
        → Step s (record s {
          phase = (advance srv q s.phase s.cli).0;
          cli = (advance srv q s.phase s.cli).1;
        })
    core_asked :
        (r : ℤ)
        → s.pc ≡ in_core
        → s.phase ≡ returned r
        → Step s (record s { pc = in_board; phase = called; slept = s.slept + 1000 })
    board_asked :
        (r : ℤ)
        → s.pc ≡ in_board
        → s.phase ≡ returned r
        → Step s (record s { pc = in_post; phase = called; slept = s.slept + 1000 })
    digest_posted :
        (r : ℤ) → s.pc ≡ in_post → s.phase ≡ returned r → Step s (record s { pc = before_unlock })
    unlock :
        s.pc ≡ before_unlock
        → Step s (record s { pc = before_lock; held = false; slept = s.slept + 5000 })
    shell_begins :
        (q : Request)
        → q.from_shell ≡ true
        → s.cli.proxied ≡ false
        → s.asked ≡ none
        → Step s (record s { asked = some (q, called) })
    shell_goes :
        (q : Request) (phase : Phase P)
        → s.asked ≡ some (q, phase)
        → Step s (record s {
          asked = some (q, (advance srv q phase s.cli).0);
          cli = (advance srv q phase s.cli).1;
        })
    shell_ends :
        (q : Request) (r : ℤ) → s.asked ≡ some (q, returned r) → Step s (record s { asked = none })
    shell :
        (argv : List Text)
        → s.asked ≡ none
        → find_code (arg argv 1) method_codes 0 none ≡ none
        → Step s (record s { cli = (cli_cmd argv s.cli).1 })
    answer :
        (state : MemoState) (context : ℕ) (pdu : P) (remote : Endpoint)
        → Step s (record s { cli = resp_handler state context pdu remote s.cli })

  -- the states that any interleaving reaches
  pub data Reach (w : W) : Station P W → Type 0 where
    here : Reach w (start w)
    next : {s t : Station P W} → Reach w s → Step s t → Reach w t
