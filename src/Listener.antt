-- ===== src/Listener.antt =====
-- The server side of the second client ("compute_engine copy"/server.c): the table of its two
-- resources, their handlers, the notification of observers, and the registration. The handlers
-- have the text of those of compute_engine/gcoap_cli.c. gcoap picks the handler of a request by
-- the table: that search is RIOT's.
pub mod Events
pub mod Counting
use data_stream_pilot.Shared.{
  ℕ, ◌+◌, ◌%◌, ◌^◌, Bool, true, false, not, ◌&&◌, List, [], ◌∷◌, Option, none, some, if◌then◌else◌,
  length,
}
use data_stream_pilot.Shared.Int.{ℤ, pos, ltb_ℤ, eqb_ℤ}
use data_stream_pilot.Shared.Text.{Text, codes}
use data_stream_pilot.Gcoap.{Gcoap, finish_payload, obs_ok, obs_unused, obs_err}
use data_stream_pilot.Cli.{Cli, to_size}
use data_stream_pilot.Cli.Server

-- the handlers that the table names
pub data Handler : Type 0 where
  stats board : Handler

-- `coap_resource_t`: the path, the methods that it takes, and its handler
pub record Entry : Type 0 where
  pub path : Text
  pub takes_get : Bool
  pub takes_put : Bool
  pub handler : Handler

-- `_resources`
abbrev pub resources : List Entry
resources =
    record { path = codes "/cli/stats"; takes_get = true; takes_put = true; handler = stats }
    ∷ record { path = codes "/riot/board"; takes_get = true; takes_put = false; handler = board }
    ∷ []

-- the calls for the credentials of DTLS, where it is built in
pub record Dtls (W : Type 0) : Type 0 where
  pub credman_add : W → ℤ × W
  pub credman_exist : ℤ
  pub sock_add_credential : W → ℤ × W

-- `server_init`: with a credential that is refused, and not as a duplicate, no listener is
-- registered
unfoldable pub server_init : {W : Type 0} → Option (Dtls W) → (List Entry → W → W) → W → W
server_init none register w = register resources w
server_init (some d) register w =
    let (res, w1) = d.credman_add w in
    if ltb_ℤ res (pos 0) && not (eqb_ℤ res d.credman_exist)
    then w1
    else register resources (d.sock_add_credential w1).1

module _ {P W : Type 0} (g : Gcoap P W) where
  open g use {format_text, obs_init, obs_send, add_format, finish, fmt_u16_dec, write_payload}

  unfoldable pub encode_link : ℕ → ℕ → ℤ × Text
  unfolding Server.encode_link
  encode_link link_pos maxlen = Server.encode_link g link_pos maxlen

  unfoldable pub stats_handler : P → Cli W → (ℤ × P) × Cli W
  unfolding Server.stats_handler
  stats_handler pdu c = Server.stats_handler g pdu c

  unfoldable pub riot_board_handler : P → ℤ × P
  unfolding Server.riot_board_handler
  riot_board_handler pdu = Server.riot_board_handler g pdu

  -- the handler of an entry
  unfoldable pub handle : Handler → P → Cli W → (ℤ × P) × Cli W
  unfolding stats_handler riot_board_handler
  handle stats pdu c = stats_handler pdu c
  handle board pdu c = (riot_board_handler pdu, c)

  -- the notification of resource 0, /cli/stats
  unfoldable pub notify_observers : Cli W → Cli W
  notify_observers c =
      let (status, pdu0, w) = obs_init 0 c.world in
      elim status [
        | obs_ok ↦
            let (finished, pdu) = finish finish_payload (add_format format_text pdu0) in
            let text = fmt_u16_dec c.req_count in
            let len = (to_size finished + length text) % 2 ^ 32 in
            record c { world = obs_send (write_payload text pdu) len 0 w }
        | obs_unused ↦ record c { world = w }
        | obs_err ↦ record c { world = w }
      ]
