-- ===== src/Client/Command.antt =====
-- The command and the response handler of "compute_engine copy"/client.c, which differ from those
-- of `Cli` in how an endpoint is named. The parts that are the same are those of `Cli.Command`.
pub mod Effects
use data_stream_pilot.Shared.{
  ℕ, ◌+◌, Bool, true, false, not, ◌&&◌, ◌||◌, List, [], ◌∷◌, ◌++◌, Option, none, some, ◌==◌,
  if◌then◌else◌, ltb, length,
}
use data_stream_pilot.Shared.Text.{Text, codes, str_eq, snprintf}
use data_stream_pilot.Shared.Decimal.{unsigned_decimal}
use data_stream_pilot.Gcoap.{Gcoap, Endpoint, MemoState, memo_resp, memo_resp_trunc}
use data_stream_pilot.Cli.{Cli, zero_endpoint}
use data_stream_pilot.Cli.Command.{
  arg, method_codes, find_code, retain_path, parse_options, path_length, path_text, finish_request,
  notify,
}
use data_stream_pilot.Cli.Response.{next_block}
use data_stream_pilot.Client.{Server, with_port, send}

-- the number of arguments that a method takes
unfoldable pub has_arity : ℕ → ℕ → ℕ → Bool
has_arity argc apos code_pos =
    (argc == apos + 1 && code_pos == 0)
    || (argc == apos + 2 && code_pos == 1)
    || ((argc == apos + 2 || argc == apos + 3) && ltb 1 code_pos)

-- `uri && ((uri_len <= 0) || (uri[0] != '/'))`
abbrev pub is_bad_uri : Option Text → Bool
is_bad_uri none = false
is_bad_uri (some []) = true
is_bad_uri (some (x ∷ rest)) = not (x == b'/')

module _ {P W : Type 0} (srv : Server P W) where
  open srv use {gcoap, name2ep, name2ep_left, addr_text}
  open gcoap use {
    af_inet6, type_con, type_non, printf_null, uninitialised, req_init, set_type, get_block2,
  }

  -- the text of the URI that a proxy is asked for
  unfoldable pub proxy_text : Endpoint → Option Text → Text
  proxy_text remote uri =
      let path : Text = elim uri [ none ↦ printf_null | some u ↦ u ] in
      if remote.family == af_inet6
      then codes "coap://["
        ++ (addr_text remote ++ (codes "]:" ++ (unsigned_decimal remote.port ++ path)))
      else codes "coap://"
        ++ (addr_text remote ++ (codes ":" ++ (unsigned_decimal remote.port ++ path)))

  -- the packet of a request to the proxy, and of one that goes to its endpoint
  unfoldable pub begin_proxied : ℕ → ℕ → Endpoint → Option Text → Cli W → Cli W × P
  begin_proxied code_pos msg_type remote uri c =
      let (text, uri_len) = snprintf 64 (proxy_text (with_port srv remote) uri) in
      let (pdu, w) = req_init uninitialised code_pos none c.world in
      (
        record c { proxy_uri = text; last_req_path = retain_path text uri_len; world = w },
        set_type msg_type pdu,
      )

  unfoldable pub begin_direct : ℕ → ℕ → Option Text → Cli W → Cli W × P
  begin_direct code_pos msg_type uri c =
      let (pdu, w) = req_init uninitialised code_pos uri c.world in
      (
        record c { last_req_path = retain_path (path_text uri) (path_length uri); world = w },
        set_type msg_type pdu,
      )

  -- what a request has before its payload, or `none` where the proxied host is not read
  unfoldable pub begin_request : ℕ → ℕ → Text → Option Text → Cli W → Option (Cli W × P)
  begin_request code_pos msg_type host uri c =
      if c.proxied
      then elim (name2ep host) [
        | none ↦ none
        | some remote ↦ some (begin_proxied code_pos msg_type remote uri c)
      ]
      else some (begin_direct code_pos msg_type uri c)

  -- _send, and the notification of the observers
  unfoldable pub send_and_notify : P → ℕ → Text → Cli W → Cli W
  send_and_notify pdu len host c0 =
      let (bytes_sent, c) = send srv pdu len host c0 in
      if bytes_sent == 0 then c else notify gcoap c

  -- the end of a request: a payload that does not fit ends the command with 1
  unfoldable pub complete : Text → Option (ℕ × P) → Cli W → ℕ × Cli W
  complete host none c = (1, c)
  complete host (some r) c = (0, send_and_notify r.1 r.0 host c)

  unfoldable pub finish : Text → Text → Option (Cli W × P) → Cli W → ℕ × Cli W
  finish host data_text none c0 = (1, c0)
  finish host data_text (some begun) c0 =
      let c = begun.0 in
      complete host (finish_request gcoap c.proxied c.proxy_uri data_text begun.1) c

  -- the branch of a request whose arguments are as they should be
  unfoldable pub request : List Text → ℕ → ℕ → ℕ → Cli W → ℕ × Cli W
  request argv code_pos msg_type apos c =
      let host = arg argv apos in
      let uri = if code_pos == 0 then none else some (arg argv (apos + 1)) in
      let data_text = if length argv == apos + 3 then arg argv (apos + 2) else [] in
      if is_bad_uri uri
      then (1, c)
      else finish host data_text (begin_request code_pos msg_type host uri c) c

  -- a method, by its position in method_codes
  unfoldable pub method_cmd : List Text → Option ℕ → Cli W → ℕ × Cli W
  method_cmd argv none c = (1, c)
  method_cmd argv (some code_pos) c =
      let (confirmable, apos) = parse_options argv code_pos in
      if has_arity (length argv) apos code_pos
      then request argv code_pos (if confirmable then type_con else type_non) apos c
      else (1, c)

  unfoldable pub set_proxy : Text → Option Endpoint → Cli W → ℕ × Cli W
  set_proxy host none c = (1, record c { proxy_remote = name2ep_left host c.proxy_remote })
  set_proxy host (some remote) c =
      (0, record c { proxy_remote = with_port srv remote; proxied = true })

  unfoldable pub proxy_cmd : List Text → Cli W → ℕ × Cli W
  unfolding set_proxy
  proxy_cmd argv c =
      if length argv == 4 && str_eq (arg argv 2) (codes "set")
      then set_proxy (arg argv 3) (name2ep (arg argv 3)) c
      else if length argv == 3 && str_eq (arg argv 2) (codes "unset")
      then (0, record c { proxy_remote = zero_endpoint; proxied = false })
      else (1, c)

  -- `gcoap_cli_cmd`
  unfoldable pub cli_cmd : List Text → Cli W → ℕ × Cli W
  cli_cmd argv c =
      if length argv == 1
      then (1, c)
      else if str_eq (arg argv 1) (codes "info")
      then (0, c)
      else if str_eq (arg argv 1) (codes "proxy")
      then proxy_cmd argv c
      else method_cmd argv (find_code (arg argv 1) method_codes 0 none) c

  -- `_resp_handler`
  unfoldable pub resp_handler : MemoState → ℕ → P → Endpoint → Cli W → Cli W
  resp_handler memo_resp context pdu remote c =
      next_block gcoap pdu (get_block2 pdu) remote context c
  resp_handler memo_resp_trunc context pdu remote c =
      next_block gcoap pdu (get_block2 pdu) remote context c
  resp_handler _ context pdu remote c = c
