-- ===== src/Client/Steps.antt =====
-- A request of client.c, cut where another thread may come in between: gcoap_post,
-- send_coap_get_request, and the command without a proxy. A packet is on the stack of its thread, so
-- only the steps that read or write a static variable or the network stand apart.
pub mod Atomic
pub mod Thread
pub mod Progress
pub mod Sent
pub mod Logged
pub mod Retained
pub mod Schedule
pub mod Between
use data_stream_pilot.Shared.{
  ℕ, zero, suc, ◌+◌, ◌%◌, ◌^◌, Bool, true, false, not, ◌&&◌, List, [], ◌∷◌, ◌++◌, Option, none,
  some, ◌==◌, if◌then◌else◌, ltb, leb, length, take, replicate,
}
use data_stream_pilot.Shared.Int.{ℤ, pos, negsuc, ltb_ℤ}
use data_stream_pilot.Shared.Text.{Text, overwrite}
use data_stream_pilot.Gcoap.{Endpoint, finish_none, finish_payload}
use data_stream_pilot.Cli.{Cli, to_size, last_req_path_max}
use data_stream_pilot.Cli.Command.{notify}
use data_stream_pilot.Client.{Server, with_port}

-- `from_shell`: the request is one of the command, which reads no address, sets the format only with
-- data, and notifies the observers.
pub record Request : Type 0 where
  pub from_shell : Bool
  pub method : ℕ
  pub msg_type : ℕ
  pub uri : Text
  pub uri_len : ℕ
  pub payload : Option Text
  pub host : Text

-- where a request stands: called; with its packet; after the memset of the path; after the memcpy;
-- with the packet and its length finished; after gcoap_req_send, with the bytes sent; with the count
-- of requests read; with the count written; returned
pub data Phase (P : Type 0) : Type 0 where
  called : Phase P
  built cleared retained : P → Phase P
  ready : P → ℕ → Phase P
  sent counting : ℕ → Phase P
  counted : Phase P
  returned : ℤ → Phase P

-- the command `coap get`, without a proxy
abbrev pub shell_request : ℕ → Text → Text → Request
shell_request msg_type host uri = record {
  from_shell = true;
  method = 1;
  msg_type = msg_type;
  uri = uri;
  uri_len = length uri;
  payload = none;
  host = host;
}

module _ {P W : Type 0} (srv : Server P W) where
  open srv use {gcoap, server_ip, server_name, method_post, default_port, name2ep}
  open gcoap use {
    type_con, format_text, method_get, uninitialised, req_init, set_type, add_format, finish,
    payload_len, write_payload, addr_from_str, req_send,
  }

  unfoldable pub finish_packet : Request → P → Phase P
  finish_packet q pdu0 = elim q.payload [
    | none ↦
        let (len, pdu) =
          finish finish_none (if q.from_shell then pdu0 else add_format format_text pdu0) in
        ready pdu (to_size len)
    | some msg ↦
        let (len, pdu) = finish finish_payload (add_format format_text pdu0) in
        let size = (to_size len + length msg) % 2 ^ 32 in
        if leb (length msg) (payload_len pdu)
        then (if not (q.from_shell) && not (ltb_ℤ (pos 0) len)
            then returned (negsuc 0)
            else ready (write_payload msg pdu) size)
        else returned (pos 1)
  ]

  -- where a request goes to
  unfoldable pub target : Text → Cli W → Option Endpoint
  target host c =
      if c.proxied
      then some c.proxy_remote
      else elim (name2ep host) [ none ↦ none | some remote ↦ some (with_port srv remote) ]

  unfoldable pub build : Request → Cli W → Phase P × Cli W
  build q c =
      let (pdu, w) = req_init uninitialised q.method (some q.uri) c.world in
      (built (set_type q.msg_type pdu), record c { world = w })

  unfoldable pub advance : Request → Phase P → Cli W → Phase P × Cli W
  unfolding finish_packet target build
  advance q called c = elim q.from_shell [
    | true ↦ build q c
    | false ↦ elim (addr_from_str server_ip) [
      | none ↦ (returned (negsuc 0), c)
      | some addr ↦ build q c
    ]
  ]
  advance q (built pdu) c =
      (cleared pdu, record c { last_req_path = replicate last_req_path_max 0 })
  advance q (cleared pdu) c =
      let path = take q.uri_len (q.uri ++ (0 ∷ [])) in
      (
        retained pdu,
        record c {
          last_req_path =
              if ltb q.uri_len last_req_path_max
              then overwrite c.last_req_path path
              else c.last_req_path;
        },
      )
  advance q (retained pdu) c = (finish_packet q pdu, c)
  advance q (ready pdu len) c = elim (target q.host c) [
    | none ↦ (returned (pos 0), c)
    | some remote ↦
        let (bytes_sent, w) = req_send pdu len remote 0 c.world in
        (sent bytes_sent, record c { world = w })
  ]
  advance q (sent bytes_sent) c =
      (if ltb 0 bytes_sent then counting c.req_count else returned (pos 0), c)
  advance q (counting count) c = (counted, record c { req_count = (count + 1) % 2 ^ 16 })
  advance q counted c = (returned (pos 0), if q.from_shell then notify gcoap c else c)
  advance q (returned r) c = (returned r, c)

  -- a number of steps with nothing in between
  unfoldable pub advance_by : ℕ → Request → Phase P → Cli W → Phase P × Cli W
  unfolding advance
  advance_by zero q phase c = (phase, c)
  advance_by (suc n) q phase c = let (phase', c') = advance q phase c in advance_by n q phase' c'

  -- gcoap_post and send_coap_get_request of a path and of its entry in the table of lengths
  abbrev pub post_request : Text → ℕ → Text → Request
  post_request uri uri_len msg = record {
    from_shell = false;
    method = method_post;
    msg_type = type_con;
    uri = uri;
    uri_len = uri_len;
    payload = some msg;
    host = server_name;
  }

  abbrev pub get_request : Text → ℕ → Request
  get_request uri uri_len = record {
    from_shell = false;
    method = method_get;
    msg_type = type_con;
    uri = uri;
    uri_len = uri_len;
    payload = none;
    host = server_name;
  }
